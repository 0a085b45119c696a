-- ===== src/Settings/Obi.antt =====
-- `overrideOBI` of pkg/beyla/config_obi.go: how the settings for Grafana Cloud enter the exporters.
pub mod Routes
use e_bpf_lens.Prelude.{
  String, Bool, true, false, not, ◌&&◌, ◌||◌, Option, none, some, List, any, Map, insert,
  if◌then◌else◌,
}
use e_bpf_lens.Settings.Grafana.{
  GrafanaOtlp, grafana_metrics_enabled, grafana_traces_enabled, override_headers,
  resolve_otlp_endpoint,
}

-- The endpoints that `src` names, and its settings for Grafana.
pub record Endpoints : Type 0 where
  pub metrics_endpoint : String
  pub metrics_common : String
  pub traces_endpoint : String
  pub traces_common : String
  pub grafana : GrafanaOtlp

-- What `OTLPEndpointProvider` answers, and `InjectHeaders`; `none` is a nil function.
pub record Otlp : Type 0 where
  pub endpoint_provider : Option (String × Bool)
  pub inject_headers : Option (Map String → Map String)

pub record ObiConfig : Type 0 where
  pub otel_metrics : Otlp
  pub traces : Otlp

module _ (base64 : String → String) where
  pub routed : Bool → String → String → GrafanaOtlp → Otlp → Otlp
  unfolding resolve_otlp_endpoint override_headers
  routed enabled specific common g dst =
      if enabled
      then record {
        endpoint_provider = some (resolve_otlp_endpoint specific common (some g));
        inject_headers = some (override_headers base64 (some g));
      }
      else dst

  -- `overrideOBI`
  pub override_obi : Endpoints → ObiConfig → ObiConfig
  unfolding routed grafana_metrics_enabled grafana_traces_enabled
  override_obi src dst = record {
    otel_metrics =
        routed (grafana_metrics_enabled (some src.grafana)) src.metrics_endpoint src.metrics_common
          src.grafana dst.otel_metrics;
    traces =
        routed (grafana_traces_enabled (some src.grafana)) src.traces_endpoint src.traces_common
          src.grafana dst.traces;
  }
