-- ===== src/Settings/Validate.antt =====
-- `Config.Validate` of pkg/beyla/config.go.
pub mod Usable
use e_bpf_lens.Prelude.{
  ℕ, String, Bool, true, false, not, ◌&&◌, ◌++◌, Option, none, some, List, [], ◌∷◌, any,
  if◌then◌else◌, eqb, ltb, ◌==◌,
}
use e_bpf_lens.Int64.{ℤ, pos, negsuc}
use e_bpf_lens.Webhook.Deps.{Semver}
use e_bpf_lens.Webhook.Config.{validate, ConfigError}
use e_bpf_lens.Settings.Grafana.{grafana_traces_enabled}
use e_bpf_lens.Settings.Features.{
  Config, FeatureApi, Feature, net_o11y, app_o11y, stats_o11y, feature_enabled, will_use_tc,
  webhook_enabled, grafana_metrics,
}

-- The errors of `Validate`, in their order.
pub data SettingsError : Type 0 where
  discovery_invalid : String → SettingsError
  no_feature no_batch backend_invalid : SettingsError
  cilium_incompatible : String → SettingsError
  no_sync_timeout net_without_exporter stats_without_exporter printer_invalid no_exporter
        two_span_formats wildcard_too_long two_internal_metrics internal_without_otel
        injection_without_traces protocol_unsupported :
      SettingsError
  injector_invalid : ConfigError → SettingsError

-- What other projects answer about a configuration: `Discovery.Validate`, the validity of the
-- backend, `EnsureCiliumCompatibility`, and the methods of the trace printer.
pub record Answers : Type 0 where
  pub discovery_error : Option String
  pub backend_valid : Bool
  pub cilium_error : Option String
  pub printer_valid : String → Bool
  pub printer_enabled : String → Bool

abbrev is_zero_int : ℤ → Bool
is_zero_int (pos n) = eqb n 0
is_zero_int (negsuc n) = false

-- `if found { return e }`
abbrev pub check : Bool → SettingsError → Option SettingsError
check true e = some e
check false e = none

-- `if err := …; err != nil { return e(err) }`
abbrev pub check_error {ℓ} : {E : Type ℓ} → Option E → (E → SettingsError) → Option SettingsError
check_error none e = none
check_error (some err) e = some (e err)

-- The first of the checks that fails.
abbrev pub first_error : List (Option SettingsError) → Option SettingsError
first_error [] = none
first_error (none ∷ checks) = first_error checks
first_error (some e ∷ checks) = some e

abbrev protocols : List String
protocols = "http/json" ∷ "http/protobuf" ∷ "grpc" ∷ "" ∷ []

abbrev exceeds_one : Option ℕ → Bool
exceeds_one none = false
exceeds_one (some n) = ltb 1 n

module _ (api : FeatureApi) (semver : Semver) (answers : Answers) where
  unfoldable pub injection_checks : Config → List (Option SettingsError)
  unfolding validate
  injection_checks c =
      check (not c.traces) injection_without_traces
      ∷ check (not (any (λ p. p == c.traces_protocol) protocols)) protocol_unsupported
      ∷ check_error (validate semver c.injector) injector_invalid
      ∷ []

  unfoldable pub exporter_checks : Config → List (Option SettingsError)
  unfolding feature_enabled grafana_traces_enabled
  exporter_checks c =
      check (not (answers.printer_valid c.trace_printer)) printer_invalid
      ∷ check
          (feature_enabled api c app_o11y
            && not (answers.printer_enabled c.trace_printer)
            && not (grafana_metrics c)
            && not (grafana_traces_enabled (some c.grafana))
            && not c.otel_metrics
            && not c.traces
            && not c.prometheus
            && not (answers.printer_enabled c.trace_printer))
          no_exporter
      ∷ check
          (feature_enabled api c app_o11y
            && api.invalid_span_metrics c.features
            && (c.prometheus && c.otel_metrics))
          two_span_formats
      ∷ check (exceeds_one c.wildcard_length) wildcard_too_long
      ∷ check (c.internal_otel && not (is_zero_int c.internal_prometheus_port)) two_internal_metrics
      ∷ check (c.internal_otel && not c.otel_metrics && not (grafana_metrics c))
          internal_without_otel
      ∷ []

  unfoldable pub feature_checks : Config → List (Option SettingsError)
  unfolding feature_enabled will_use_tc webhook_enabled
  feature_checks c =
      check_error answers.discovery_error discovery_invalid
      ∷ check
          (not (feature_enabled api c net_o11y)
            && not (feature_enabled api c app_o11y)
            && not (feature_enabled api c stats_o11y)
            && not (webhook_enabled c.webhook))
          no_feature
      ∷ check (is_zero_int c.batch_length) no_batch
      ∷ check (not answers.backend_valid) backend_invalid
      ∷ check_error (if will_use_tc api c then answers.cilium_error else none) cilium_incompatible
      ∷ check (is_zero_int c.informers_sync_timeout) no_sync_timeout
      ∷ check
          (feature_enabled api c net_o11y
            && not (grafana_metrics c)
            && not c.otel_metrics
            && not c.prometheus
            && not c.flows_print)
          net_without_exporter
      ∷ check
          (feature_enabled api c stats_o11y
            && not (grafana_metrics c)
            && not c.otel_metrics
            && not c.prometheus
            && not c.stats_print)
          stats_without_exporter
      ∷ []

  -- `Config.Validate`; `none` is the nil error.
  unfoldable pub validate_config : Config → Option SettingsError
  unfolding feature_checks exporter_checks injection_checks webhook_enabled
  validate_config c = first_error (
      feature_checks c
      ++ exporter_checks c
      ++ (if webhook_enabled c.webhook then injection_checks c else []))
