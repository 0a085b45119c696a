-- ===== src/Webhook/Mutator/Containers.antt =====
-- What the mutation does to each container of a pod.
use e_bpf_lens.Prelude.{
  Bool, true, false, not, Option, some, List, [], ◌∷◌, ◌≡◌, refl, sym, ap, subst, ◌∙◌, arith, find,
  keep, is_some, any, ◌⊎◌, inl, inr, Bool-cases, Absent,
}
use e_bpf_lens.Webhook.Kube.{VolumeMount, Container, ObjectMeta}
use e_bpf_lens.Webhook.Config.{Selector}
use e_bpf_lens.Webhook.Env.{literal, find_env_var}
use e_bpf_lens.Webhook.Env.Frame.{var, is_some-find_env_var}
use e_bpf_lens.Webhook.EnvVars.{PodMutator, ld_preload_value, config_file_value}
use e_bpf_lens.Webhook.EnvVars.Body.{body, body-add_env_vars}
use e_bpf_lens.Webhook.EnvVars.Effect.{preloads-add_env_vars}
use e_bpf_lens.Webhook.Mutator.{
  inject_volume_name, internal_mount_path, add_mount, instrument_container, instrument_all,
}
use e_bpf_lens.Webhook.Mutator.Mounts.{is_inject_mount, find-place_mount, keep-place_mount}

abbrev sdk_mount : VolumeMount
sdk_mount = record { name = inject_volume_name; mount_path = internal_mount_path; read_only = true }

-- The container `c'` is `c` with the SDK injected.
pub record IsInstrumented (c c' : Container) : Type 0 where
  same_name : c'.name ≡ c.name
  same_image : c'.image ≡ c.image
  preloads : var c' "LD_PRELOAD" ≡ some (literal "LD_PRELOAD" ld_preload_value)
  configured :
      var c' "OTEL_INJECTOR_CONFIG_FILE"
      ≡ some (literal "OTEL_INJECTOR_CONFIG_FILE" config_file_value)
  mounted : find is_inject_mount c'.volume_mounts ≡ some sdk_mount
  other_mounts :
      keep (λ m. not (is_inject_mount m)) c'.volume_mounts
      ≡ keep (λ m. not (is_inject_mount m)) c.volume_mounts

-- The two lists have the same length, and each pair in them is related.
abbrev pub Each : (Container → Container → Type 0) → List Container → List Container → Type 0
Each R [] [] = Unit
Each R [] (d ∷ ds) = ⊥
Each R (c ∷ cs) [] = ⊥
Each R (c ∷ cs) (d ∷ ds) = R c d × Each R cs ds

abbrev pub preloads_already : Container → Bool
preloads_already c = is_some (find_env_var c "LD_PRELOAD")

-- A container that sets LD_PRELOAD is left alone, any other is instrumented.
abbrev pub IsHandled : Container → Container → Type 0
IsHandled c d =
    (preloads_already c ≡ true) × (d ≡ c) ⊎ (preloads_already c ≡ false) × IsInstrumented c d

-- If nothing changed, every container preloaded something before.
pub Each-fixed :
    (cs : List Container) → Each IsHandled cs cs → any (λ c. not (preloads_already c)) cs ≡ false
Each-fixed [] h = refl
Each-fixed (c ∷ cs) (inl (e, _), h) = rw e (Each-fixed cs h)
Each-fixed (c ∷ cs) (inr (e, i), h) =
    absurd (ground (arith, is_some-find_env_var c "LD_PRELOAD", i.preloads))

module _ {Modes : Type 0} (pm : PodMutator Modes) (meta : ObjectMeta)
    (selector : Option (Selector Modes)) where
  instrument-IsInstrumented :
      Absent "LD_PRELOAD" pm.export_headers
      → Absent "OTEL_INJECTOR_CONFIG_FILE" pm.export_headers
      → (c : Container) → IsInstrumented c (instrument_container pm meta selector c)
  unfolding instrument_container add_mount body
  instrument-IsInstrumented h h' c =
      let e = body-add_env_vars pm meta (add_mount c) selector in
      record {
        same_name = ap (λ d. d.name) e;
        same_image = ap (λ d. d.image) e;
        preloads = (preloads-add_env_vars pm h h' meta (add_mount c) selector).0;
        configured = (preloads-add_env_vars pm h h' meta (add_mount c) selector).1;
        mounted =
            ap (λ d. find is_inject_mount d.volume_mounts) e
            ∙ find-place_mount sdk_mount c.volume_mounts refl;
        other_mounts =
            ap (λ d. keep (λ m. not (is_inject_mount m)) d.volume_mounts) e
            ∙ keep-place_mount sdk_mount c.volume_mounts refl;
      }

  pub instrument_all-Each :
      Absent "LD_PRELOAD" pm.export_headers
      → Absent "OTEL_INJECTOR_CONFIG_FILE" pm.export_headers
      → (cs : List Container) → Each IsHandled cs (instrument_all pm meta selector cs)
  unfolding instrument_all
  instrument_all-Each h h' [] = tt
  instrument_all-Each h h' (c ∷ cs) = elim (Bool-cases (preloads_already c)) [
    | inl e ↦ (inl (e, rw e), instrument_all-Each h h' cs)
    | inr e ↦ (
      inr (e, subst (IsInstrumented c) (sym (rw e)) (instrument-IsInstrumented h h' c)),
      instrument_all-Each h h' cs,
    )
  ]
