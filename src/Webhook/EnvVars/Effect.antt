-- ===== src/Webhook/EnvVars/Effect.antt =====
-- What the injected variables are after `addEnvVars`, whatever the container defined before.
use e_bpf_lens.Prelude.{
  String, Bool, any, insert, true, false, Option, none, some, ◌≡◌, refl, ◌∙◌, ◌==◌, if◌then◌else◌,
  is_empty, Bool-cases, inl, inr, Absent,
}
use e_bpf_lens.Webhook.Kube.{Container, ObjectMeta}
use e_bpf_lens.Webhook.Deps.{ExportApi, IsBlocking}
use e_bpf_lens.Webhook.Config.{
  Selector, SamplerConfig, traces_enabled, metrics_enabled, logs_enabled,
}
use e_bpf_lens.Webhook.Env.{literal}
use e_bpf_lens.Webhook.Env.Frame.{var, env_laws}
use e_bpf_lens.Webhook.EnvVars.{
  PodMutator, exporter, set_resource_attributes, propagators_stage, sampler_stage,
  configure_sampler, configure_exporters, configure_container_env_vars, disable_undesired_sdks,
  add_env_vars, injector_stage, ld_preload_value, config_file_value, export_modes_for,
  settings_modes, inject_env_vars,
}
use e_bpf_lens.Webhook.EnvVars.Frame.{
  var-add_headers, var-disable_undesired_sdks, var-inject_env_vars, var-later_stages, IsNone-of_any,
  attribute_names, setting_names, sdk_switch_names,
}

is_empty-exporter : (b : Bool) → is_empty (exporter b) ≡ false
unfolding exporter
is_empty-exporter true = refl
is_empty-exporter false = refl

module _ {Modes : Type 0} (can : Modes → Bool) (allow : Modes → Modes) where
  if_same : (b : Bool) (m : Modes) → can (allow m) ≡ can m → can (if b then allow m else m) ≡ can m
  if_same true m h = h
  if_same false m h = refl

  if_on :
      (b : Bool) (m : Modes)
      → can m ≡ false
      → (can m ≡ false → can (allow m) ≡ true)
      → can (if b then allow m else m) ≡ b
  if_on true m off on = on off
  if_on false m off on = off

module _ {Modes : Type 0} (pm : PodMutator Modes) where
  later :
      (j : String)
      → any (λ k. k == j) attribute_names ≡ false
      → any (λ k. k == j) setting_names ≡ false
      → any (λ k. k == j) sdk_switch_names ≡ false
      → Absent j pm.export_headers
      → (meta : ObjectMeta) (c : Container) (selector : Option (Selector Modes))
      → var (add_env_vars pm meta c selector) j ≡ var (injector_stage pm c) j
  later j a b d =
      var-later_stages pm j (IsNone-of_any j attribute_names a) (IsNone-of_any j setting_names b)
        (IsNone-of_any j sdk_switch_names d)

  preloads-injector_stage :
      (c : Container)
      → (var (injector_stage pm c) "LD_PRELOAD" ≡ some (literal "LD_PRELOAD" ld_preload_value))
        × (var (injector_stage pm c) "OTEL_INJECTOR_CONFIG_FILE"
            ≡ some (literal "OTEL_INJECTOR_CONFIG_FILE" config_file_value))
  unfolding injector_stage
  preloads-injector_stage c = elim (Bool-cases pm.injector.debug) [
    | inl on ↦ (simp (on, env_laws), simp (on, env_laws))
    | inr off ↦ (simp (off, env_laws), simp (off, env_laws))
  ]

  -- After `addEnvVars` the container preloads the injector and names its configuration file, unless
  -- an export header has the name of one of these variables.
  pub preloads-add_env_vars :
      Absent "LD_PRELOAD" pm.export_headers
      → Absent "OTEL_INJECTOR_CONFIG_FILE" pm.export_headers
      → (meta : ObjectMeta) (c : Container) (selector : Option (Selector Modes))
      → (var (add_env_vars pm meta c selector) "LD_PRELOAD"
          ≡ some (literal "LD_PRELOAD" ld_preload_value))
        × (var (add_env_vars pm meta c selector) "OTEL_INJECTOR_CONFIG_FILE"
            ≡ some (literal "OTEL_INJECTOR_CONFIG_FILE" config_file_value))
  preloads-add_env_vars h h' meta c selector = (
    later "LD_PRELOAD" refl refl refl h meta c selector ∙ (preloads-injector_stage c).0,
    later "OTEL_INJECTOR_CONFIG_FILE" refl refl refl h' meta c selector
        ∙ (preloads-injector_stage c).1,
  )

  -- The sampler's two variables, when they are not empty, replace what the container defined.
  var-configure_sampler_set :
      (c : Container) (s : SamplerConfig)
      → (var (configure_sampler pm c s) "OTEL_TRACES_SAMPLER" ≡ (
          if is_empty s.name
          then var c "OTEL_TRACES_SAMPLER"
          else some (literal "OTEL_TRACES_SAMPLER" s.name)))
        × (var (configure_sampler pm c s) "OTEL_TRACES_SAMPLER_ARG" ≡ (
            if is_empty s.arg
            then var c "OTEL_TRACES_SAMPLER_ARG"
            else some (literal "OTEL_TRACES_SAMPLER_ARG" s.arg)))
  unfolding configure_sampler
  var-configure_sampler_set c s = (simp env_laws, simp env_laws)

  exporters-configure :
      (c : Container) (modes : Modes)
      → (var (configure_exporters pm c modes) "OTEL_METRICS_EXPORTER"
          ≡ some (
              literal "OTEL_METRICS_EXPORTER"
                (exporter (pm.libraries.modes.can_export_metrics modes))))
        × (var (configure_exporters pm c modes) "OTEL_TRACES_EXPORTER"
            ≡ some (
                literal "OTEL_TRACES_EXPORTER"
                  (exporter (pm.libraries.modes.can_export_traces modes))))
        × (var (configure_exporters pm c modes) "OTEL_LOGS_EXPORTER"
            ≡ some (
                literal "OTEL_LOGS_EXPORTER" (exporter (pm.libraries.modes.can_export_logs modes))))
  unfolding configure_exporters
  exporters-configure c modes = (
    simp (env_laws, is_empty-exporter),
    simp (env_laws, is_empty-exporter),
    simp (env_laws, is_empty-exporter),
  )

  -- `j` names an exporter variable, and what is written last keeps it.
  exporter_kept :
      (j : String)
      → any (λ k. k == j) sdk_switch_names ≡ false
      → ("OTEL_INJECTOR_RESOURCE_ATTRIBUTES" == j) ≡ false
      → Absent j pm.export_headers
      → (meta : ObjectMeta) (c : Container) (selector : Option (Selector Modes))
      → (d : Container) × (var (add_env_vars pm meta c selector) j
          ≡ var (configure_exporters pm d (export_modes_for pm selector)) j)
  unfolding add_env_vars configure_container_env_vars
  exporter_kept j a b h meta c selector =
      let (e, extra) = set_resource_attributes pm meta (injector_stage pm c) in
      let d = sampler_stage pm (propagators_stage pm e) selector in
      let f = configure_exporters pm d (export_modes_for pm selector) in
      let extra' = if pm.any_span_metrics then insert "span.metrics.skip" "true" extra else extra in
      let g = inject_env_vars pm extra' f in
      (
        d,
        var-add_headers pm j pm.export_headers (disable_undesired_sdks pm g) h
            ∙ var-disable_undesired_sdks pm j (IsNone-of_any j sdk_switch_names a) g
            ∙ var-inject_env_vars pm j b extra' f,
      )

  -- The modes that the settings ask for, unless the selector sets its own.
  abbrev sets_no_modes : Option (Selector Modes) → Bool
  sets_no_modes none = true
  sets_no_modes (some s) = pm.libraries.modes.is_unset s.export_modes

  settings_modes-IsBlocking :
      IsBlocking pm.libraries.modes
      → (pm.libraries.modes.can_export_metrics (settings_modes pm)
          ≡ metrics_enabled pm.injector.sdk_export)
        × (pm.libraries.modes.can_export_traces (settings_modes pm)
            ≡ traces_enabled pm.injector.sdk_export)
        × (pm.libraries.modes.can_export_logs (settings_modes pm)
            ≡ logs_enabled pm.injector.sdk_export)
  unfolding settings_modes
  settings_modes-IsBlocking laws =
      let m1 = if t then api.allow_traces new else new in
      let m2 = if m then api.allow_metrics m1 else m1 in
      (
        if_same api.can_export_metrics api.allow_logs l m2 (laws.metrics_logs m2)
            ∙ if_on api.can_export_metrics api.allow_metrics m m1
                (if_same api.can_export_metrics api.allow_traces t new (laws.metrics_traces new)
                  ∙ laws.new_metrics)
                (laws.metrics_metrics m1),
        if_same api.can_export_traces api.allow_logs l m2 (laws.traces_logs m2)
            ∙ if_same api.can_export_traces api.allow_metrics m m1 (laws.traces_metrics m1)
            ∙ if_on api.can_export_traces api.allow_traces t new laws.new_traces
                (laws.traces_traces new),
        if_on api.can_export_logs api.allow_logs l m2
            (if_same api.can_export_logs api.allow_metrics m m1 (laws.logs_metrics m1)
              ∙ if_same api.can_export_logs api.allow_traces t new (laws.logs_traces new)
              ∙ laws.new_logs)
            (laws.logs_logs m2),
      )
    where
      api : ExportApi Modes
      api = pm.libraries.modes

      new : Modes
      new = api.new_export_modes

      t : Bool
      t = traces_enabled pm.injector.sdk_export

      m : Bool
      m = metrics_enabled pm.injector.sdk_export

      l : Bool
      l = logs_enabled pm.injector.sdk_export

  export_modes_for-unset :
      (selector : Option (Selector Modes))
      → sets_no_modes selector ≡ true
      → export_modes_for pm selector ≡ settings_modes pm
  unfolding export_modes_for
  export_modes_for-unset none unset = refl
  export_modes_for-unset (some s) unset = rw unset

  -- Where the selector sets no export modes, each signal's exporter is `otlp` if the settings
  -- enable the signal, and `none` otherwise, whatever the container defined; traces and metrics are
  -- on and logs off where the settings say nothing. No export header may have the variable's name.
  pub exporters-add_env_vars :
      IsBlocking pm.libraries.modes
      → Absent "OTEL_METRICS_EXPORTER" pm.export_headers
      → Absent "OTEL_TRACES_EXPORTER" pm.export_headers
      → Absent "OTEL_LOGS_EXPORTER" pm.export_headers
      → (meta : ObjectMeta) (c : Container) (selector : Option (Selector Modes))
      → sets_no_modes selector ≡ true
      → (var (add_env_vars pm meta c selector) "OTEL_METRICS_EXPORTER"
          ≡ some
              (literal "OTEL_METRICS_EXPORTER" (exporter (metrics_enabled pm.injector.sdk_export))))
        × (var (add_env_vars pm meta c selector) "OTEL_TRACES_EXPORTER"
            ≡ some
                (literal "OTEL_TRACES_EXPORTER" (exporter (traces_enabled pm.injector.sdk_export))))
        × (var (add_env_vars pm meta c selector) "OTEL_LOGS_EXPORTER"
            ≡ some (literal "OTEL_LOGS_EXPORTER" (exporter (logs_enabled pm.injector.sdk_export))))
  exporters-add_env_vars laws h h' h'' meta c selector unset =
      let (m, t, l) = settings_modes-IsBlocking laws in
      let e = export_modes_for-unset selector unset in
      let (d, k) = exporter_kept "OTEL_METRICS_EXPORTER" refl refl h meta c selector in
      let (d', k') = exporter_kept "OTEL_TRACES_EXPORTER" refl refl h' meta c selector in
      let (d'', k'') = exporter_kept "OTEL_LOGS_EXPORTER" refl refl h'' meta c selector in
      (
        k ∙ (exporters-configure d (export_modes_for pm selector)).0 ∙ rw (e, m),
        k' ∙ (exporters-configure d' (export_modes_for pm selector)).1 ∙ rw (e, t),
        k'' ∙ (exporters-configure d'' (export_modes_for pm selector)).2 ∙ rw (e, l),
      )
