-- ===== src/Webhook/EnvVars/Frame.antt =====
-- A variable that the webhook does not know stays as the pod's author wrote it.
use e_bpf_lens.Prelude.{
  String, false, Option, List, [], ◌∷◌, ◌≡◌, refl, arith, Map, ◌∙◌, ◌==◌, All, any, Option-cases,
  Bool-cases, inl, inr, Absent,
}
use e_bpf_lens.Webhook.Kube.{Container, ObjectMeta}
use e_bpf_lens.Webhook.Config.{
  Selector, SamplerConfig, can_instrument, InstrumentableType, dotnet, java, nodejs, python,
}
use e_bpf_lens.Webhook.Env.{set_env_var}
use e_bpf_lens.Webhook.Env.Frame.{var, env_laws}
use e_bpf_lens.Webhook.EnvVars.{
  PodMutator, supported_sdk_langs, set_resource_attributes, configure_sampler,
  configure_propagators, configure_exporters, inject_env_vars, configure_container_env_vars,
  disable_sdk, disable_loop, disable_undesired_sdks, add_headers, add_env_vars, injector_stage,
  sampler_for, propagators_stage, sampler_stage,
}

-- The names that the webhook itself writes.
abbrev pub sdk_switch_names : List String
sdk_switch_names =
    "DOTNET_AUTO_INSTRUMENTATION_AGENT_PATH_PREFIX" ∷ "JVM_AUTO_INSTRUMENTATION_AGENT_PATH"
    ∷ "NODEJS_AUTO_INSTRUMENTATION_AGENT_PATH" ∷ "PYTHON_AUTO_INSTRUMENTATION_AGENT_PATH_PREFIX"
    ∷ []

abbrev pub attribute_names : List String
attribute_names =
    "OTEL_INJECTOR_K8S_CONTAINER_NAME" ∷ "OTEL_INJECTOR_K8S_NAMESPACE_NAME"
    ∷ "OTEL_INJECTOR_K8S_POD_NAME" ∷ "OTEL_RESOURCE_ATTRIBUTES_NODE_NAME"
    ∷ "OTEL_INJECTOR_K8S_POD_UID" ∷ "OTEL_INJECTOR_SERVICE_NAMESPACE" ∷ "OTEL_INJECTOR_SERVICE_NAME"
    ∷ "OTEL_INJECTOR_SERVICE_VERSION" ∷ []

abbrev pub setting_names : List String
setting_names =
    "OTEL_PROPAGATORS" ∷ "OTEL_TRACES_SAMPLER" ∷ "OTEL_TRACES_SAMPLER_ARG" ∷ "OTEL_METRICS_EXPORTER"
    ∷ "OTEL_TRACES_EXPORTER" ∷ "OTEL_LOGS_EXPORTER" ∷ "OTEL_INJECTOR_RESOURCE_ATTRIBUTES" ∷ []

abbrev pub injector_names : List String
injector_names =
    "BEYLA_INJECTOR_SDK_PKG_VERSION" ∷ "LD_PRELOAD" ∷ "OTEL_INJECTOR_CONFIG_FILE"
    ∷ "OTEL_EXPORTER_OTLP_ENDPOINT" ∷ "OTEL_EXPORTER_OTLP_PROTOCOL"
    ∷ "OTEL_SEMCONV_STABILITY_OPT_IN" ∷ "OTEL_INJECTOR_LOG_LEVEL" ∷ []

-- `j` is none of the names.
abbrev pub IsNone : String → List String → Type 0
IsNone j = All (λ k. (k == j) ≡ false)

-- The same, as a test that computes.
pub IsNone-of_any : (j : String) (ks : List String) → any (λ k. k == j) ks ≡ false → IsNone j ks
IsNone-of_any j [] h = tt
IsNone-of_any j (k ∷ ks) h = (ground arith, IsNone-of_any j ks (ground arith))

module _ {Modes : Type 0} (pm : PodMutator Modes) (j : String) where
  var-set_resource_attributes :
      IsNone j attribute_names
      → (meta : ObjectMeta) (c : Container) → var (set_resource_attributes pm meta c).0 j ≡ var c j
  unfolding set_resource_attributes
  var-set_resource_attributes (a, (b, (d, (e, (f, (g, (h, (i, _)))))))) meta c =
      elim (Bool-cases pm.injector.resources.add_k8s_uid_attributes) [
        | inl on ↦ simp (env_laws, on, a, b, d, e, f, g, h, i)
        | inr off ↦ simp (env_laws, off, a, b, d, e, g, h, i)
      ]

  var-configure_exporters :
      IsNone j setting_names
      → (c : Container) (modes : Modes) → var (configure_exporters pm c modes) j ≡ var c j
  unfolding configure_exporters
  var-configure_exporters (_, (_, (_, (a, (b, (d, _)))))) c modes = simp (env_laws, a, b, d)

  pub var-inject_env_vars :
      ("OTEL_INJECTOR_RESOURCE_ATTRIBUTES" == j) ≡ false
      → (extra : Map String) (c : Container) → var (inject_env_vars pm extra c) j ≡ var c j
  unfolding inject_env_vars
  var-inject_env_vars other [] c = refl
  var-inject_env_vars other ((k, v) ∷ extra) c = simp (env_laws, other)

  var-configure_propagators :
      IsNone j setting_names
      → (c : Container) (propagators : List String)
      → var (configure_propagators pm c propagators) j ≡ var c j
  unfolding configure_propagators
  var-configure_propagators (a, _) c propagators = simp (env_laws, a)

  var-configure_sampler :
      IsNone j setting_names
      → (c : Container) (sampler : SamplerConfig) → var (configure_sampler pm c sampler) j ≡ var c j
  unfolding configure_sampler
  var-configure_sampler (_, (a, (b, _))) c sampler = simp (env_laws, a, b)

  var-propagators_stage :
      IsNone j setting_names → (c : Container) → var (propagators_stage pm c) j ≡ var c j
  unfolding propagators_stage
  var-propagators_stage free c =
      ground (arith, var-configure_propagators free c pm.injector.propagators)

  var-sampler_stage :
      IsNone j setting_names
      → (c : Container) (selector : Option (Selector Modes))
      → var (sampler_stage pm c selector) j ≡ var c j
  unfolding sampler_stage
  var-sampler_stage free c selector = elim (Option-cases (sampler_for pm selector)) [
    | inl e ↦ rw (e, sampler_stage)
    | inr (sampler, e) ↦ rw (e, sampler_stage) (var-configure_sampler free c sampler)
  ]

  pub var-configure_container_env_vars :
      IsNone j attribute_names
      → IsNone j setting_names
      → (meta : ObjectMeta) (c : Container) (selector : Option (Selector Modes))
      → var (configure_container_env_vars pm meta c selector) j ≡ var c j
  unfolding configure_container_env_vars
  var-configure_container_env_vars attributes settings meta c selector = simp (
    var-inject_env_vars settings.1.1.1.1.1.1.0,
    var-configure_exporters settings,
    var-sampler_stage settings,
    var-propagators_stage settings,
    var-set_resource_attributes attributes,
  )

  var-disable_sdk :
      IsNone j sdk_switch_names
      → (kind : InstrumentableType) (c : Container) → var (disable_sdk pm kind c) j ≡ var c j
  unfolding disable_sdk
  var-disable_sdk (a, (b, (d, (e, _)))) dotnet c = simp (env_laws, a)
  var-disable_sdk (a, (b, (d, (e, _)))) java c = simp (env_laws, b)
  var-disable_sdk (a, (b, (d, (e, _)))) nodejs c = simp (env_laws, d)
  var-disable_sdk (a, (b, (d, (e, _)))) python c = simp (env_laws, e)
  var-disable_sdk free _ c = refl

  var-disable_loop :
      IsNone j sdk_switch_names
      → (kinds : List InstrumentableType) (c : Container)
      → var (disable_loop pm kinds c) j ≡ var c j
  unfolding disable_loop
  var-disable_loop free [] c = refl
  var-disable_loop free (kind ∷ kinds) c = elim (Bool-cases (can_instrument pm.injector kind)) [
    | inl e ↦ rw (e, disable_loop) (var-disable_loop free kinds c)
    | inr e ↦
        rw (e, disable_loop)
          (var-disable_loop free kinds (disable_sdk pm kind c) ∙ var-disable_sdk free kind c)
  ]

  pub var-disable_undesired_sdks :
      IsNone j sdk_switch_names → (c : Container) → var (disable_undesired_sdks pm c) j ≡ var c j
  unfolding disable_undesired_sdks
  var-disable_undesired_sdks free c = var-disable_loop free supported_sdk_langs c

  pub var-add_headers :
      (headers : Map String) (c : Container)
      → Absent j headers
      → var (add_headers pm headers c) j ≡ var c j
  unfolding add_headers
  var-add_headers [] c free = refl
  var-add_headers ((k, v) ∷ headers) c (other, free) =
      var-add_headers headers (set_env_var c k v) free ∙ simp (env_laws, other)

  pub var-injector_stage :
      IsNone j injector_names → (c : Container) → var (injector_stage pm c) j ≡ var c j
  unfolding injector_stage
  var-injector_stage (a, (b, (d, (e, (f, (g, (h, _))))))) c = elim (Bool-cases pm.injector.debug) [
    | inl on ↦ simp (on, env_laws, a, b, d, e, f, g, h)
    | inr off ↦ simp (off, env_laws, a, b, d, e, f, g)
  ]

  -- What follows the first writes of `addEnvVars` keeps what they wrote.
  pub var-later_stages :
      IsNone j attribute_names
      → IsNone j setting_names
      → IsNone j sdk_switch_names
      → Absent j pm.export_headers
      → (meta : ObjectMeta) (c : Container) (selector : Option (Selector Modes))
      → var (add_env_vars pm meta c selector) j ≡ var (injector_stage pm c) j
  unfolding add_env_vars
  var-later_stages attributes settings switches headers meta c selector =
      let c1 = injector_stage pm c in
      let c2 = configure_container_env_vars pm meta c1 selector in
      var-add_headers pm.export_headers (disable_undesired_sdks pm c2) headers
      ∙ var-disable_undesired_sdks switches c2
      ∙ var-configure_container_env_vars attributes settings meta c1 selector

  -- A variable whose name is none of those that the webhook writes, and no name of an export
  -- header, is after `addEnvVars` what it was before.
  pub var-add_env_vars :
      IsNone j injector_names
      → IsNone j attribute_names
      → IsNone j setting_names
      → IsNone j sdk_switch_names
      → Absent j pm.export_headers
      → (meta : ObjectMeta) (c : Container) (selector : Option (Selector Modes))
      → var (add_env_vars pm meta c selector) j ≡ var c j
  var-add_env_vars names attributes settings switches headers meta c selector =
      var-later_stages attributes settings switches headers meta c selector
      ∙ var-injector_stage names c
