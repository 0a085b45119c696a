-- ===== src/Settings/Tests.antt =====
-- A configuration that is accepted, one with settings for Grafana Cloud, and the theorems at them.
use e_bpf_lens.Prelude.{
  String, ◌&&◌, true, false, none, some, [], ◌∷◌, ◌≡◌, refl, eqb, ◌==◌, has_prefix,
}
use e_bpf_lens.Int64.{pos}
use e_bpf_lens.Webhook.Deps.{Semver, Sign}
use e_bpf_lens.Webhook.Config.{SdkInject, validate, golang}
use e_bpf_lens.Settings.Discovery.{
  SelectorApi, is_set, exclude_services_of, survey_namespaces_regex,
}
use e_bpf_lens.Settings.Grafana.{GrafanaOtlp, grafana_metrics_enabled, grafana_traces_enabled}
use e_bpf_lens.Settings.Features.{
  Config, FeatureApi, feature_enabled, webhook_enabled, external_logger, normalize_config,
}
use e_bpf_lens.Settings.Validate.{
  Answers, validate_config, no_exporter, feature_checks, exporter_checks, injection_checks,
}
use e_bpf_lens.Settings.Validate.Usable.{IsUsable, validate_config-IsUsable}
use e_bpf_lens.Settings.Obi.{Endpoints, ObiConfig, override_obi}
use e_bpf_lens.Settings.Obi.Routes.{IsRouted, override_obi-IsRouted}

abbrev pub api : FeatureApi
api = record {
  any_network = λ f. eqb f 1;
  stat_metrics = λ f. eqb f 2;
  invalid_span_metrics = λ f. false;
  feature_network = 1;
}

abbrev pub semver : Semver
semver = record { is_valid = λ v. has_prefix v "v"; compare = λ a b. Sign.equal }

abbrev pub answers : Answers
answers = record {
  discovery_error = none;
  backend_valid = true;
  cilium_error = none;
  printer_valid = λ p. p == "text";
  printer_enabled = λ p. false;
}

abbrev cloud : GrafanaOtlp
cloud = record {
  submit = " Metrics" ∷ [];
  cloud_zone = "prod-eu";
  instance_id = "12";
  api_key = "key";
}

abbrev injector : SdkInject
injector = record {
  no_auto_restart = false;
  image_volume_path = "";
  host_path_volume_dir = "/var";
  sdk_pkg_version = "v1";
  host_mount_path = "/mnt";
  manage_sdk_versions = true;
  default_sampler = none;
  propagators = [];
  sdk_export = record { traces = none; metrics = none; logs = none };
  resources = record {
    attributes = [];
    add_k8s_uid_attributes = false;
    use_labels_for_resource_attributes = false;
  };
  enabled_sdks = golang ∷ [];
  debug = false;
}

abbrev pub config : Config
config = record {
  features = 0;
  otel_metrics = false;
  otel_metrics_features = 0;
  prometheus = false;
  prometheus_features = 0;
  traces = true;
  traces_protocol = "grpc";
  grafana = cloud;
  flows_enable = true;
  flows_print = false;
  flows_from_tc = false;
  stats_print = false;
  open_ports = 1;
  auto_target_exe = false;
  auto_target_language = false;
  executable_name = false;
  discovery = record {
    services = [];
    survey = "*shop*" ∷ [];
    exclude_services = [];
    default_exclude_services = [];
    instrument = [];
    exclude_instrument = [];
    default_exclude_instrument = [];
  };
  propagates_all = false;
  propagates_tcp = false;
  batch_length = pos 100;
  informers_sync_timeout = pos 30;
  trace_printer = "text";
  bpf_debug = false;
  protocol_debug = false;
  wildcard_length = some 1;
  internal_otel = false;
  internal_prometheus_port = pos 0;
  webhook = record { enable = true; port = pos 8443; cert_path = "/cert"; key_path = "/key" };
  injector = injector;
}

pub config_accepted : validate_config api semver answers config ≡ none
unfolding validate_config feature_checks exporter_checks injection_checks feature_enabled
    webhook_enabled grafana_metrics_enabled grafana_traces_enabled validate has_prefix
config_accepted = refl

validate_config-IsUsable_example : IsUsable api semver answers config
validate_config-IsUsable_example =
    validate_config-IsUsable api semver answers config config_accepted

-- Without any exporter the configuration is refused.
refused :
    validate_config api semver answers (record config {
      grafana = record cloud { submit = [] };
      flows_enable = false;
      traces = false;
    })
    ≡ some no_exporter
unfolding validate_config feature_checks exporter_checks injection_checks feature_enabled
    webhook_enabled grafana_metrics_enabled grafana_traces_enabled validate
refused = refl

abbrev texts : SelectorApi String
texts = record { by_path = λ p. p; by_metadata = λ key p. p; same = λ a b. is_set a && is_set b }

-- The deprecated features of the OpenTelemetry metrics take the place of the others, and a survey
-- replaces the default exclusions.
abbrev old_config : Config
old_config = record config {
  otel_metrics = true;
  otel_metrics_features = 2;
  flows_enable = false;
  discovery = record config.discovery {
    default_exclude_services = "x" ∷ [];
    default_exclude_instrument = "y" ∷ [];
  };
}

normalized :
    ((normalize_config api texts texts old_config).features ≡ 2)
    × ((normalize_config api texts texts old_config).discovery.default_exclude_services
        ≡ exclude_services_of texts survey_namespaces_regex)
unfolding normalize_config
normalized = (refl, refl)

debugged :
    ((external_logger true config).trace_printer ≡ "text")
    × ((external_logger true config).flows_print ≡ true)
unfolding external_logger
debugged = (refl, refl)

abbrev endpoints : Endpoints
endpoints = record {
  metrics_endpoint = "";
  metrics_common = "";
  traces_endpoint = "http://collector:4318";
  traces_common = "";
  grafana = cloud;
}

abbrev unset : ObiConfig
unset = record {
  otel_metrics = record { endpoint_provider = none; inject_headers = none };
  traces = record { endpoint_provider = none; inject_headers = none };
}

override_obi-IsRouted_example :
    IsRouted
      (λ t. t)
      (grafana_metrics_enabled (some cloud))
      ""
      ""
      cloud
      unset.otel_metrics
      (override_obi (λ t. t) endpoints unset).otel_metrics
    × IsRouted
        (λ t. t)
        (grafana_traces_enabled (some cloud))
        "http://collector:4318"
        ""
        cloud
        unset.traces
        (override_obi (λ t. t) endpoints unset).traces
override_obi-IsRouted_example = override_obi-IsRouted (λ t. t) endpoints unset
