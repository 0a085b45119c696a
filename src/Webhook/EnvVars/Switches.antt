-- ===== src/Webhook/EnvVars/Switches.antt =====
-- Which language SDKs the webhook turns off in a container.
use e_bpf_lens.Prelude.{
  String, Bool, false, not, ◌&&◌, Option, some, List, [], ◌∷◌, ◌≡◌, refl, ap, arith, ◌∙◌, any, ◌==◌,
  eq_iff, if◌then◌else◌, Bool-cases, inl, inr, Absent,
}
use e_bpf_lens.Webhook.Kube.{Container, ObjectMeta}
use e_bpf_lens.Webhook.Config.{
  Selector, can_instrument, InstrumentableType, dotnet, java, nodejs, python,
}
use e_bpf_lens.Webhook.Env.{literal, set_env_var_even_if_empty}
use e_bpf_lens.Webhook.Env.Frame.{var, var-set_env_var_even_if_empty}
use e_bpf_lens.Webhook.EnvVars.{
  PodMutator, supported_sdk_langs, disable_sdk, disable_loop, disable_undesired_sdks, add_env_vars,
  injector_stage, configure_container_env_vars,
}
use e_bpf_lens.Webhook.EnvVars.Frame.{
  var-add_headers, var-configure_container_env_vars, var-injector_stage, IsNone, attribute_names,
  setting_names, injector_names,
}

-- `j` is the variable that turns the SDK of the language off.
abbrev is_switch : InstrumentableType → String → Bool
is_switch dotnet j = "DOTNET_AUTO_INSTRUMENTATION_AGENT_PATH_PREFIX" == j
is_switch java j = "JVM_AUTO_INSTRUMENTATION_AGENT_PATH" == j
is_switch nodejs j = "NODEJS_AUTO_INSTRUMENTATION_AGENT_PATH" == j
is_switch python j = "PYTHON_AUTO_INSTRUMENTATION_AGENT_PATH_PREFIX" == j
is_switch _ j = false

module _ {Modes : Type 0} (pm : PodMutator Modes) (j : String) where
  -- `j` is the switch of one of the languages, and that language is not enabled.
  abbrev pub turns_off : List InstrumentableType → Bool
  turns_off = any (λ kind. not (can_instrument pm.injector kind) && is_switch kind j)

  written :
      (c : Container) (k : String)
      → var (set_env_var_even_if_empty c k "") j ≡ (if k == j then some (literal j "") else var c j)
  written c k = ground (arith, var-set_env_var_even_if_empty c k j "", eq_iff k j)

  var-disable_sdk_switch :
      (kind : InstrumentableType) (c : Container)
      → var (disable_sdk pm kind c) j ≡ (if is_switch kind j then some (literal j "") else var c j)
  unfolding disable_sdk
  var-disable_sdk_switch dotnet c = written c "DOTNET_AUTO_INSTRUMENTATION_AGENT_PATH_PREFIX"
  var-disable_sdk_switch java c = written c "JVM_AUTO_INSTRUMENTATION_AGENT_PATH"
  var-disable_sdk_switch nodejs c = written c "NODEJS_AUTO_INSTRUMENTATION_AGENT_PATH"
  var-disable_sdk_switch python c = written c "PYTHON_AUTO_INSTRUMENTATION_AGENT_PATH_PREFIX"
  var-disable_sdk_switch _ c = refl

  var-disable_loop_switch :
      (kinds : List InstrumentableType) (c : Container)
      → var (disable_loop pm kinds c) j ≡ (if turns_off kinds then some (literal j "") else var c j)
  unfolding disable_loop
  var-disable_loop_switch [] c = refl
  var-disable_loop_switch (kind ∷ kinds) c = elim (Bool-cases (can_instrument pm.injector kind)) [
    | inl e ↦ rw (e, disable_loop) (var-disable_loop_switch kinds c)
    | inr e ↦
        rw (e, disable_loop)
          (ground (
            arith,
            var-disable_loop_switch kinds (disable_sdk pm kind c),
            var-disable_sdk_switch kind c,
          ))
  ]

  -- The variable that turns off the SDK of one of the four supported languages is set to the empty
  -- text if the language is not enabled, and is left as the container defines it otherwise. This is
  -- said of every variable that is none of the webhook's other ones and no export header's.
  pub switches-add_env_vars :
      IsNone j injector_names
      → IsNone j attribute_names
      → IsNone j setting_names
      → Absent j pm.export_headers
      → (meta : ObjectMeta) (c : Container) (selector : Option (Selector Modes))
      → var (add_env_vars pm meta c selector) j
        ≡ (if turns_off supported_sdk_langs then some (literal j "") else var c j)
  unfolding add_env_vars disable_undesired_sdks
  switches-add_env_vars names attributes settings headers meta c selector =
      let c1 = injector_stage pm c in
      let c2 = configure_container_env_vars pm meta c1 selector in
      let kept : var c2 j ≡ var c j =
        var-configure_container_env_vars pm j attributes settings meta c1 selector
        ∙ var-injector_stage pm j names c in
      var-add_headers pm j pm.export_headers (disable_loop pm supported_sdk_langs c2) headers
      ∙ var-disable_loop_switch supported_sdk_langs c2
      ∙ ap (λ v. if turns_off supported_sdk_langs then some (literal j "") else v) kept
