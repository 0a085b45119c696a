-- ===== src/Webhook/Mutator/Labels.antt =====
-- How a running process is recognised by the label of its pod.
use e_bpf_lens.Prelude.{String, false, some, ◌≡◌, lookup, is_empty, ◌==◌}
use e_bpf_lens.Webhook.Process.{ProcessInfo}
use e_bpf_lens.Webhook.Mutator.{instrumented_label, already_instrumented_process, non_empty_at}

-- Where the label is set, it decides.
pub already_instrumented_process-label :
    (version label : String) (a : ProcessInfo)
    → lookup instrumented_label a.pod_labels ≡ some label
    → is_empty label ≡ false
    → already_instrumented_process version a ≡ (label == version)
unfolding already_instrumented_process non_empty_at
already_instrumented_process-label version label a e set =
    rw (e, already_instrumented_process) (rw set)
