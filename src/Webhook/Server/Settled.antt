-- ===== src/Webhook/Server/Settled.antt =====
-- The mutator and the server agree: the server leaves alone what the mutator has instrumented.
use e_bpf_lens.Prelude.{
  String, true, false, some, ◌≡◌, refl, ◌∙◌, ap, lookup, insert, lookup-insert, All, is_empty,
  eq_refl,
}
use e_bpf_lens.Webhook.Kube.{Pod}
use e_bpf_lens.Webhook.Config.{Selector, package_version}
use e_bpf_lens.Webhook.Process.{ProcessInfo, process_metadata}
use e_bpf_lens.Webhook.Matcher.{match_process_info}
use e_bpf_lens.Webhook.Matcher.Labels.{HasNoLabel, match_process_info-AgreeOff}
use e_bpf_lens.Webhook.Mutator.{
  instrumented_label, already_instrumented, already_instrumented_process, matches_selection,
  mutate_pod, add_label,
}
use e_bpf_lens.Webhook.Mutator.Labels.{already_instrumented_process-label}
use e_bpf_lens.Webhook.Mutator.Pods.{mutate_pod-meta}
use e_bpf_lens.Webhook.Server.{Server, wants_restart}

-- The process as the server sees it when it runs in the pod.
pub record IsSeenIn {Modes : Type 0} (s : Server Modes) (pod : Pod) (a : ProcessInfo) : Type 0 where
  pub metadata : a.metadata ≡ (process_metadata s.mutator.libraries.owner_label pod.meta).metadata
  pub labels : a.pod_labels ≡ pod.meta.labels
  pub annotations : a.pod_annotations ≡ pod.meta.annotations

module _ {Modes : Type 0} (s : Server Modes) where
  abbrev version : String
  version = package_version s.mutator.libraries.sum224 s.mutator.injector

  -- A process of a pod that the mutator has instrumented is not restarted: neither to be
  -- instrumented again nor to have the instrumentation undone. A package version is set, and no
  -- selector asks for the label that the mutator adds.
  pub mutated_pod_settles :
      (pod : Pod) (selector : Selector Modes) (a : ProcessInfo)
      → is_empty version ≡ false
      → All (HasNoLabel instrumented_label) s.mutator.selectors
      → already_instrumented pod.spec pod.meta ≡ false
      → matches_selection s.mutator pod.meta ≡ some selector
      → IsSeenIn s (mutate_pod s.mutator pod).0 a
      → wants_restart s a ≡ false
  unfolding wants_restart matches_selection process_metadata add_label already_instrumented_process
  mutated_pod_settles pod selector a set free fresh e seen =
      rw (instrumented, wants_restart) (rw (same_match ∙ e))
    where
      meta : (mutate_pod s.mutator pod).0.meta ≡ add_label pod.meta instrumented_label version
      meta = mutate_pod-meta s.mutator pod selector fresh e

      labels : a.pod_labels ≡ insert instrumented_label version pod.meta.labels
      labels = seen.labels ∙ ap (λ m. m.labels) meta

      same_match :
          match_process_info (some a) s.mutator.selectors
          ≡ match_process_info
              (some (process_metadata s.mutator.libraries.owner_label pod.meta))
              s.mutator.selectors
      same_match =
          match_process_info-AgreeOff instrumented_label a
            (process_metadata s.mutator.libraries.owner_label pod.meta)
            (seen.metadata
              ∙ ap (λ m. (process_metadata s.mutator.libraries.owner_label m).metadata) meta)
            (seen.annotations ∙ ap (λ m. m.annotations) meta)
            (λ k h.
              ap (lookup k) labels
              ∙ lookup-insert instrumented_label k version pod.meta.labels
              ∙ rw h)
            s.mutator.selectors free

      labelled : lookup instrumented_label a.pod_labels ≡ some version
      labelled =
          ap (lookup instrumented_label) labels
          ∙ lookup-insert instrumented_label instrumented_label version pod.meta.labels
          ∙ refl

      instrumented : already_instrumented_process version a ≡ true
      instrumented =
          already_instrumented_process-label version version a labelled set ∙ eq_refl version
