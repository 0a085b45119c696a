-- ===== src/Webhook/EnvVars/Body.antt =====
-- `addEnvVars` writes to the environment of a container and to nothing else of it.
use e_bpf_lens.Prelude.{
  String, Option, List, [], ◌∷◌, ◌≡◌, refl, arith, ◌∙◌, Map, Bool-cases, Option-cases, List-cases,
  inl, inr,
}
use e_bpf_lens.Webhook.Kube.{Container, ObjectMeta}
use e_bpf_lens.Webhook.Config.{
  Selector, can_instrument, InstrumentableType, dotnet, java, nodejs, python,
}
use e_bpf_lens.Webhook.Env.{
  set_env_var, set_env_var_even_if_empty, set_env_var_from_field_path, find_env_var,
}
use e_bpf_lens.Webhook.EnvVars.{
  PodMutator, set_resource_attributes, configure_propagators, configure_sampler,
  configure_exporters, inject_env_vars, configure_container_env_vars, disable_sdk, disable_loop,
  disable_undesired_sdks, add_env_vars, add_headers, injector_stage, propagators_stage,
  sampler_stage, sampler_for,
}

-- The container with its environment taken away.
unfoldable pub body : Container → Container
body c = record c { env = [] }

body-set_even : (c : Container) (k v : String) → body (set_env_var_even_if_empty c k v) ≡ body c
unfolding body set_env_var_even_if_empty
body-set_even c k v = elim (Option-cases (find_env_var c k)) [
  | inl e ↦ rw (e, set_env_var_even_if_empty)
  | inr (pos, e) ↦ rw (e, set_env_var_even_if_empty)
]

body-set : (c : Container) (k v : String) → body (set_env_var c k v) ≡ body c
unfolding set_env_var
body-set c k v = ground (arith, body-set_even c k v)

body-field :
    (c : Container) (k path : String) → body (set_env_var_from_field_path c k path).0 ≡ body c
unfolding body set_env_var_from_field_path
body-field c k path = refl

ruleset body_laws = (body-set_even, body-set, body-field)

module _ {Modes : Type 0} (pm : PodMutator Modes) where
  body-attributes :
      (meta : ObjectMeta) (c : Container) → body (set_resource_attributes pm meta c).0 ≡ body c
  unfolding set_resource_attributes
  body-attributes meta c = elim (Bool-cases pm.injector.resources.add_k8s_uid_attributes) [
    | inl on ↦ simp (body_laws, on)
    | inr off ↦ simp (body_laws, off)
  ]

  body-propagators : (c : Container) → body (propagators_stage pm c) ≡ body c
  unfolding propagators_stage configure_propagators
  body-propagators c = elim (List-cases pm.injector.propagators) [
    | inl e ↦ rw (e, propagators_stage)
    | inr (p, ps, e) ↦ rw (e, propagators_stage) (simp body_laws)
  ]

  body-sampler :
      (c : Container) (selector : Option (Selector Modes))
      → body (sampler_stage pm c selector) ≡ body c
  unfolding sampler_stage configure_sampler
  body-sampler c selector = elim (Option-cases (sampler_for pm selector)) [
    | inl e ↦ rw (e, sampler_stage)
    | inr (s, e) ↦ rw (e, sampler_stage) (simp body_laws)
  ]

  body-exporters : (c : Container) (modes : Modes) → body (configure_exporters pm c modes) ≡ body c
  unfolding configure_exporters
  body-exporters c modes = simp body_laws

  body-inject : (extra : Map String) (c : Container) → body (inject_env_vars pm extra c) ≡ body c
  unfolding inject_env_vars
  body-inject [] c = refl
  body-inject ((k, v) ∷ extra) c = simp body_laws

  body-disable_sdk :
      (kind : InstrumentableType) (c : Container) → body (disable_sdk pm kind c) ≡ body c
  unfolding disable_sdk
  body-disable_sdk dotnet c = simp body_laws
  body-disable_sdk java c = simp body_laws
  body-disable_sdk nodejs c = simp body_laws
  body-disable_sdk python c = simp body_laws
  body-disable_sdk _ c = refl

  body-disable_loop :
      (kinds : List InstrumentableType) (c : Container) → body (disable_loop pm kinds c) ≡ body c
  unfolding disable_loop
  body-disable_loop [] c = refl
  body-disable_loop (kind ∷ kinds) c = elim (Bool-cases (can_instrument pm.injector kind)) [
    | inl e ↦ rw (e, disable_loop) (body-disable_loop kinds c)
    | inr e ↦
        rw (e, disable_loop)
          (body-disable_loop kinds (disable_sdk pm kind c) ∙ body-disable_sdk kind c)
  ]

  body-headers : (headers : Map String) (c : Container) → body (add_headers pm headers c) ≡ body c
  unfolding add_headers
  body-headers [] c = refl
  body-headers ((k, v) ∷ headers) c = body-headers headers (set_env_var c k v) ∙ body-set c k v

  body-injector : (c : Container) → body (injector_stage pm c) ≡ body c
  unfolding injector_stage
  body-injector c = elim (Bool-cases pm.injector.debug) [
    | inl on ↦ simp (body_laws, on)
    | inr off ↦ simp (body_laws, off)
  ]

  pub body-add_env_vars :
      (meta : ObjectMeta) (c : Container) (selector : Option (Selector Modes))
      → body (add_env_vars pm meta c selector) ≡ body c
  unfolding add_env_vars configure_container_env_vars disable_undesired_sdks
  body-add_env_vars meta c selector = simp (
    body-headers, body-disable_loop, body-inject, body-exporters, body-sampler, body-propagators,
    body-attributes, body-injector,
  )
