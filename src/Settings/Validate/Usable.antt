-- ===== src/Settings/Validate/Usable.antt =====
-- What a configuration that `Validate` accepts can do.
use e_bpf_lens.Prelude.{
  Bool, true, false, not, ◌&&◌, ◌||◌, Option, none, some, List, [], ◌∷◌, ◌++◌, if◌then◌else◌, ◌≡◌,
  refl, arith, All,
}
use e_bpf_lens.Webhook.Deps.{Semver}
use e_bpf_lens.Webhook.Config.{ConfigError, validate}
use e_bpf_lens.Settings.Grafana.{grafana_traces_enabled}
use e_bpf_lens.Settings.Features.{
  Config, FeatureApi, net_o11y, app_o11y, stats_o11y, feature_enabled, webhook_enabled,
  grafana_metrics,
}
use e_bpf_lens.Settings.Validate.{
  SettingsError, Answers, check, check_error, first_error, feature_checks, exporter_checks,
  injection_checks, validate_config, injector_invalid,
}

first_error-All :
    (l m : List (Option SettingsError))
    → first_error (l ++ m) ≡ none
    → All (λ o. o ≡ none) l × (first_error m ≡ none)
first_error-All [] m h = (tt, h)
first_error-All (none ∷ l) m h = let (a, b) = first_error-All l m h in ((refl, a), b)
first_error-All (some e ∷ l) m h = cc

passed : (b : Bool) (e : SettingsError) → check b e ≡ none → b ≡ false
passed true e h = cc
passed false e h = refl

each_passed : (l : List (Option SettingsError)) → first_error l ≡ none → All (λ o. o ≡ none) l
each_passed [] h = tt
each_passed (none ∷ l) h = (refl, each_passed l h)
each_passed (some e ∷ l) h = cc

passed_error :
    (o : Option ConfigError) (e : ConfigError → SettingsError) → check_error o e ≡ none → o ≡ none
passed_error none e h = refl
passed_error (some err) e h = cc

some_runs :
    (a b c d : Bool) → (not a && not b && not c && not d) ≡ false → (a || b || c || d) ≡ true
some_runs a b c d h = ground arith

some_reports :
    (on a b c d : Bool)
    → (on && not a && not b && not c && not d) ≡ false
    → on ≡ true
    → (a || b || c || d) ≡ true
some_reports on a b c d h e = ground arith

one_reports : (on a b : Bool) → (on && not a && not b) ≡ false → on ≡ true → (a || b) ≡ true
one_reports on a b h e = ground arith

app_output :
    (on p g t o s m : Bool)
    → (on && not p && not g && not t && not o && not s && not m && not p) ≡ false
    → on ≡ true
    → (p || g || t || o || s || m) ≡ true
app_output on p g t o s m h e = ground arith

module _ (api : FeatureApi) (semver : Semver) (answers : Answers) where
  -- Something is to be run, and what runs has a way to report.
  pub record IsUsable (c : Config) : Type 0 where
    pub runs :
        (feature_enabled api c net_o11y
          || feature_enabled api c app_o11y
          || feature_enabled api c stats_o11y
          || webhook_enabled c.webhook)
        ≡ true
    net_reports :
        feature_enabled api c net_o11y ≡ true
        → (grafana_metrics c || c.otel_metrics || c.prometheus || c.flows_print) ≡ true
    stats_report :
        feature_enabled api c stats_o11y ≡ true
        → (grafana_metrics c || c.otel_metrics || c.prometheus || c.stats_print) ≡ true
    app_reports :
        feature_enabled api c app_o11y ≡ true
        → (answers.printer_enabled c.trace_printer
            || grafana_metrics c
            || grafana_traces_enabled (some c.grafana)
            || c.otel_metrics
            || c.traces
            || c.prometheus)
          ≡ true
    pub reports_itself : c.internal_otel ≡ true → (c.otel_metrics || grafana_metrics c) ≡ true
    pub injects :
        webhook_enabled c.webhook ≡ true → (c.traces ≡ true) × (validate semver c.injector ≡ none)

  injection_valid :
      (on : Bool) (c : Config)
      → first_error (if on then injection_checks api semver answers c else []) ≡ none
      → on ≡ true
      → (c.traces ≡ true) × (validate semver c.injector ≡ none)
  unfolding injection_checks
  injection_valid false c h e = absurd (ground (arith, e))
  injection_valid true c h e =
      let (traces, (protocol, (injector, rest))) =
        each_passed (injection_checks api semver answers c) h in
      (ground (arith, passed (not c.traces) _ traces), passed_error _ injector_invalid injector)

  -- A configuration that Validate accepts has something to run: network flows, application
  -- metrics, statistics or the webhook; each of these that runs has an exporter or a printer to
  -- report to, internal OpenTelemetry metrics included, and the webhook has traces and valid settings
  -- of the injector.
  pub validate_config-IsUsable :
      (c : Config) → validate_config api semver answers c ≡ none → IsUsable c
  unfolding validate_config feature_checks exporter_checks
  validate_config-IsUsable c h =
      let (features, h') = first_error-All (feature_checks api semver answers c) _ h in
      let (exporters, h'') = first_error-All (exporter_checks api semver answers c) _ h' in
      let (discovery, (feature, (batch, (backend, (cilium, (sync, (net, (stats, end)))))))) =
        features in
      let (printer, (exporter, (formats, (wildcard, (two, (internal, end')))))) = exporters in
      record {
        runs = some_runs _ _ _ _ (passed _ _ feature);
        net_reports = some_reports _ _ _ _ _ (passed _ _ net);
        stats_report = some_reports _ _ _ _ _ (passed _ _ stats);
        app_reports = app_output _ _ _ _ _ _ _ (passed _ _ exporter);
        reports_itself = one_reports _ _ _ (passed _ _ internal);
        injects = injection_valid _ c h'';
      }
