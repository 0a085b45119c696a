-- ===== src/Settings/Features.antt =====
-- The parts of `Config` of pkg/beyla/config.go that decide which features run, and their predicates.
use e_bpf_lens.Prelude.{
  ℕ, String, Bool, true, false, not, ◌&&◌, ◌||◌, Option, some, if◌then◌else◌, is_empty, eqb, ltb,
}
use Prim.Native.Nat.{bit_or}
use e_bpf_lens.Int64.{ℤ, pos, negsuc}
use e_bpf_lens.Webhook.Config.{SdkInject}
use e_bpf_lens.Settings.Discovery.{
  DiscoveryConfig, SelectorApi, app_discovery_enabled, survey_enabled, normalize_discovery,
}
use e_bpf_lens.Settings.Grafana.{GrafanaOtlp, grafana_metrics_enabled}

pub record WebhookConfig : Type 0 where
  pub enable : Bool
  pub port : ℤ
  pub cert_path : String
  pub key_path : String

-- What the predicates and `Validate` read of `Config`. A section of another project stands with what
-- its method answers: `EndpointEnabled` of the metrics, of Prometheus and of the traces, `Len` of the
-- open ports, `IsSet` of the selected executables, and the comparison with a constant for the context
-- propagation and the source of the network flows. Selectors stand as texts.
pub record Config : Type 0 where
  pub features : ℕ
  pub otel_metrics : Bool
  pub otel_metrics_features : ℕ
  pub prometheus : Bool
  pub prometheus_features : ℕ
  pub traces : Bool
  pub traces_protocol : String
  pub grafana : GrafanaOtlp
  pub flows_enable : Bool
  pub flows_print : Bool
  pub flows_from_tc : Bool
  pub stats_print : Bool
  pub open_ports : ℕ
  pub auto_target_exe : Bool
  pub auto_target_language : Bool
  pub executable_name : Bool
  pub discovery : DiscoveryConfig String String
  pub propagates_all : Bool
  pub propagates_tcp : Bool
  pub batch_length : ℤ
  pub informers_sync_timeout : ℤ
  pub trace_printer : String
  pub bpf_debug : Bool
  pub protocol_debug : Bool
  pub wildcard_length : Option ℕ
  pub internal_otel : Bool
  pub internal_prometheus_port : ℤ
  pub webhook : WebhookConfig
  pub injector : SdkInject

-- What the sets of features of go.opentelemetry.io/obi answer.
pub record FeatureApi : Type 0 where
  pub any_network : ℕ → Bool
  pub stat_metrics : ℕ → Bool
  pub invalid_span_metrics : ℕ → Bool
  pub feature_network : ℕ

pub data Feature : Type 0 where
  net_o11y app_o11y stats_o11y : Feature

abbrev is_positive_int : ℤ → Bool
is_positive_int (pos n) = ltb 0 n
is_positive_int (negsuc n) = false

-- `WebhookConfig.Enabled`
unfoldable pub webhook_enabled : WebhookConfig → Bool
webhook_enabled w =
    w.enable && is_positive_int w.port && not (is_empty w.cert_path) && not (is_empty w.key_path)

-- `c.Grafana.OTLP.MetricsEnabled()`; the receiver is the address of a field.
abbrev pub grafana_metrics : Config → Bool
grafana_metrics c = grafana_metrics_enabled (some c.grafana)

module _ (api : FeatureApi) where
  prom_net_o11y_enabled : Config → Bool
  prom_net_o11y_enabled c = c.prometheus && api.any_network c.features

  otel_net_o11y_enabled : Config → Bool
  otel_net_o11y_enabled c = (c.otel_metrics || grafana_metrics c) && api.any_network c.features

  prom_stats_o11y_enabled : Config → Bool
  prom_stats_o11y_enabled c = c.prometheus && api.stat_metrics c.features

  otel_stats_o11y_enabled : Config → Bool
  otel_stats_o11y_enabled c = (c.otel_metrics || grafana_metrics c) && api.stat_metrics c.features

  unfoldable pub app_o11y_enabled : Config → Bool
  app_o11y_enabled c =
      ltb 0 c.open_ports
      || c.auto_target_exe
      || c.auto_target_language
      || c.executable_name
      || c.executable_name
      || app_discovery_enabled c.discovery
      || survey_enabled c.discovery

  -- `Config.Enabled`
  unfoldable pub feature_enabled : Config → Feature → Bool
  unfolding prom_net_o11y_enabled otel_net_o11y_enabled prom_stats_o11y_enabled
      otel_stats_o11y_enabled app_o11y_enabled
  feature_enabled c net_o11y = c.flows_enable || prom_net_o11y_enabled c || otel_net_o11y_enabled c
  feature_enabled c app_o11y = app_o11y_enabled c
  feature_enabled c stats_o11y = prom_stats_o11y_enabled c || otel_stats_o11y_enabled c

  unfoldable pub will_use_tc : Config → Bool
  unfolding feature_enabled
  will_use_tc c =
      c.propagates_all || c.propagates_tcp || feature_enabled c net_o11y && c.flows_from_tc

  -- The features that `normalizeConfig` leaves; the deprecated sections come first.
  normalized_features : Config → ℕ
  normalized_features c =
      if c.otel_metrics && not (eqb c.otel_metrics_features 0)
      then c.otel_metrics_features
      else if c.prometheus && not (eqb c.prometheus_features 0)
      then c.prometheus_features
      else c.features

  -- `normalizeConfig`, but for the normalisation of the selected attributes.
  unfoldable pub normalize_config : SelectorApi String → SelectorApi String → Config → Config
  unfolding normalized_features normalize_discovery
  normalize_config regexes globs c = record c {
    discovery = normalize_discovery regexes globs c.discovery;
    features =
        if c.flows_enable
        then bit_or (normalized_features c) api.feature_network
        else normalized_features c;
  }

-- `ExternalLogger`, but for the global logger.
unfoldable pub external_logger : Bool → Config → Config
external_logger debug_mode c =
    if debug_mode
    then record c {
      trace_printer = "text";
      bpf_debug = true;
      protocol_debug = true;
      flows_print = c.flows_enable || c.flows_print;
    }
    else c
