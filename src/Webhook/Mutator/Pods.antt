-- ===== src/Webhook/Mutator/Pods.antt =====
-- The mutation of a whole pod: what it does, when it reports a change, and that it is done once.
use e_bpf_lens.Prelude.{
  String, true, false, not, none, some, ◌≡◌, refl, sym, ap, subst, arith, ◌==◌, if◌then◌else◌, find,
  keep, any, lookup, lookup-insert, is_empty, ◌⊎◌, inl, inr, Bool-cases, Option-cases, Absent,
  eq_refl,
}
use e_bpf_lens.Webhook.Kube.{Pod}
use e_bpf_lens.Webhook.Config.{Selector, package_version, uses_image_volume}
use e_bpf_lens.Webhook.EnvVars.{PodMutator}
use e_bpf_lens.Webhook.Mutator.{
  instrumented_label, already_instrumented, matches_selection, mutated, mutate_pod,
  build_volume_definition, mount_volume, non_empty_at, add_label, PodSpec-discrete, differs,
}
use e_bpf_lens.Webhook.Mutator.Mounts.{is_inject_volume, find-place_volume, keep-place_volume}
use e_bpf_lens.Webhook.Mutator.Containers.{
  Each, IsHandled, preloads_already, instrument_all-Each, Each-fixed,
}

-- The definition carries the name by which the mutator finds its volume.
is_inject_volume-build :
    {Modes : Type 0} (pm : PodMutator Modes)
    → is_inject_volume (build_volume_definition pm.injector) ≡ true
unfolding build_volume_definition
is_inject_volume-build pm = elim (Bool-cases (uses_image_volume pm.injector)) [
  | inl e ↦ rw (e, build_volume_definition)
  | inr e ↦ rw (e, build_volume_definition)
]

module _ {Modes : Type 0} (pm : PodMutator Modes) where
  -- The pod `q` is `p` with the SDK injected.
  pub record IsMutated (p q : Pod) : Type 0 where
    pub containers : Each IsHandled p.spec.containers q.spec.containers
    volume : find is_inject_volume q.spec.volumes ≡ some (build_volume_definition pm.injector)
    other_volumes :
        keep (λ v. not (is_inject_volume v)) q.spec.volumes
        ≡ keep (λ v. not (is_inject_volume v)) p.spec.volumes
    pub labels :
        (k : String)
        → lookup k q.meta.labels ≡ (
            if instrumented_label == k
            then some (package_version pm.libraries.sum224 pm.injector)
            else lookup k p.meta.labels)
    pub annotations : q.meta.annotations ≡ p.meta.annotations

  mutated-IsMutated :
      Absent "LD_PRELOAD" pm.export_headers
      → Absent "OTEL_INJECTOR_CONFIG_FILE" pm.export_headers
      → (pod : Pod) (selector : Selector Modes) → IsMutated pod (mutated pm pod selector)
  unfolding mutated mount_volume add_label
  mutated-IsMutated h h' pod selector = record {
    containers = instrument_all-Each pm pod.meta (some selector) h h' pod.spec.containers;
    volume =
        find-place_volume (build_volume_definition pm.injector) pod.spec.volumes
          (is_inject_volume-build pm);
    other_volumes =
        keep-place_volume (build_volume_definition pm.injector) pod.spec.volumes
          (is_inject_volume-build pm);
    labels = λ k. lookup-insert instrumented_label k _ pod.meta.labels;
    annotations = refl;
  }

  -- A pod that carries no instrumentation and that a selector matches is mutated: its containers
  -- are handled one by one, the volume is there, its other volumes, labels and annotations stay, and
  -- the change is reported if some container did not preload anything. No export header may have
  -- the name of LD_PRELOAD or of the injector's configuration file.
  pub mutate_pod-IsMutated :
      Absent "LD_PRELOAD" pm.export_headers
      → Absent "OTEL_INJECTOR_CONFIG_FILE" pm.export_headers
      → (pod : Pod) (selector : Selector Modes) → already_instrumented pod.spec pod.meta ≡ false
      → matches_selection pm pod.meta ≡ some selector
      → IsMutated pod (mutate_pod pm pod).0
        × ((any (λ c. not (preloads_already c)) pod.spec.containers ≡ false)
            ⊎ ((mutate_pod pm pod).1 ≡ true))
  unfolding mutate_pod
  mutate_pod-IsMutated h h' pod selector fresh e =
      rw (fresh, mutate_pod)
        (rw (e, mutate_pod)
          (
            mutated-IsMutated h h' pod selector,
            reported (PodSpec-discrete pod.spec (mutated pm pod selector).spec),
          ))
    where
      same_containers :
          pod.spec ≡ (mutated pm pod selector).spec
          → any (λ c. not (preloads_already c)) pod.spec.containers ≡ false
      same_containers same = Each-fixed pod.spec.containers (
          subst (Each IsHandled pod.spec.containers) (sym (ap (λ s. s.containers) same))
            (mutated-IsMutated h h' pod selector).containers)

      reported :
          (d : Dec (pod.spec ≡ (mutated pm pod selector).spec))
          → (any (λ c. not (preloads_already c)) pod.spec.containers ≡ false) ⊎ (differs d ≡ true)
      reported (yes same) = inl (same_containers same)
      reported (no different) = inr refl

  -- Any other pod is left as it is, and no change is reported.
  pub mutate_pod_skips :
      (pod : Pod)
      → (already_instrumented pod.spec pod.meta ≡ true) ⊎ (matches_selection pm pod.meta ≡ none)
      → mutate_pod pm pod ≡ (pod, false)
  unfolding mutate_pod
  mutate_pod_skips pod h = ground arith

  mutated-already_instrumented :
      is_empty (package_version pm.libraries.sum224 pm.injector) ≡ false
      → (pod : Pod) (selector : Selector Modes)
      → already_instrumented (mutated pm pod selector).spec (mutated pm pod selector).meta ≡ true
  unfolding mutated already_instrumented non_empty_at add_label
  mutated-already_instrumented version pod selector = ground (
    arith,
    lookup-insert instrumented_label instrumented_label
        (package_version pm.libraries.sum224 pm.injector) pod.meta.labels,
    eq_refl instrumented_label,
  )

  mutate_pod-mutated :
      (pod : Pod) (selector : Selector Modes)
      → already_instrumented pod.spec pod.meta ≡ false
      → matches_selection pm pod.meta ≡ some selector
      → (mutate_pod pm pod).0 ≡ mutated pm pod selector
  unfolding mutate_pod
  mutate_pod-mutated pod selector fresh e = rw (fresh, mutate_pod) (rw (e, mutate_pod))

  -- Of the metadata, only the label of the version changes.
  pub mutate_pod-meta :
      (pod : Pod) (selector : Selector Modes)
      → already_instrumented pod.spec pod.meta ≡ false
      → matches_selection pm pod.meta ≡ some selector
      → (mutate_pod pm pod).0.meta
        ≡ add_label pod.meta instrumented_label (package_version pm.libraries.sum224 pm.injector)
  unfolding mutated
  mutate_pod-meta pod selector fresh e = ap (λ p. p.meta) (mutate_pod-mutated pod selector fresh e)

  Settles : Pod → Type 0
  Settles p = mutate_pod pm p ≡ (p, false)

  -- The webhook mutates a pod at most once: run on its own result it changes and reports nothing, as
  -- long as a package version is set.
  pub mutate_pod_once :
      is_empty (package_version pm.libraries.sum224 pm.injector) ≡ false
      → (pod : Pod) → mutate_pod pm (mutate_pod pm pod).0 ≡ ((mutate_pod pm pod).0, false)
  unfolding Settles
  mutate_pod_once version pod = elim (Bool-cases (already_instrumented pod.spec pod.meta)) [
    | inl old ↦ skipped (inl old)
    | inr fresh ↦ elim (Option-cases (matches_selection pm pod.meta)) [
      | inl e ↦ skipped (inr e)
      | inr (selector, e) ↦ subst Settles (sym (mutate_pod-mutated pod selector fresh e)) (
          mutate_pod_skips (mutated pm pod selector)
            (inl (mutated-already_instrumented version pod selector)))
    ]
  ]
    where
      skipped :
          (already_instrumented pod.spec pod.meta ≡ true) ⊎ (matches_selection pm pod.meta ≡ none)
          → Settles (mutate_pod pm pod).0
      skipped h = let e = mutate_pod_skips pod h in subst Settles (sym (ap (λ r. r.0) e)) e
