-- ===== src/Webhook/Tests/Pods.antt =====
-- Runs of the matcher, of the mutation and of the HTTP handler on concrete pods.
use e_bpf_lens.Prelude.{
  ◌⊎◌, String, true, false, none, some, [], ◌∷◌, ◌≡◌, ◌↔◌, refl, any, not, inr, is_empty, lookup,
  insert, before_last, ◌==◌, if◌then◌else◌,
}
use e_bpf_lens.Webhook.Kube.{Pod}
use e_bpf_lens.Webhook.Config.{package_version}
use e_bpf_lens.Webhook.Process.{ProcessInfo, new_process_info, process_metadata, pod_metadata}
use e_bpf_lens.Webhook.Owners.{owners_from, top_owner}
use e_bpf_lens.Webhook.Matcher.{match_process, match_process_info}
use e_bpf_lens.Webhook.Matcher.Criteria.{IsMatch, match_process_iff}
use e_bpf_lens.Webhook.Mutator.{already_instrumented, matches_selection, mutate_pod}
use e_bpf_lens.Webhook.Mutator.Containers.{preloads_already}
use e_bpf_lens.Webhook.Mutator.Pods.{
  IsMutated, mutate_pod-IsMutated, mutate_pod_once, mutate_pod_skips,
}
use e_bpf_lens.Webhook.Handler.{AdmissionRequest, Codec, respond}
use e_bpf_lens.Webhook.Handler.Replies.{IsAnswer, respond-IsAnswer}
use e_bpf_lens.Webhook.Server.{wants_restart}
use e_bpf_lens.Webhook.Server.Settled.{mutated_pod_settles}
use e_bpf_lens.Webhook.Tests.{new_server, test_libraries, shop, shop_mutator, cart_meta, cart_pod}

abbrev shop_process : ProcessInfo
shop_process = record (new_process_info 7) { metadata = ("k8s_namespace", "shop") ∷ [] }

match_process_iff_example :
    (match_process (some shop_process) (some shop) ≡ true) ↔ IsMatch shop_process shop
match_process_iff_example = match_process_iff shop_process shop

shop_process_matches : match_process (some shop_process) (some shop) ≡ true
unfolding match_process lookup
shop_process_matches = refl

cart_pod_fresh : already_instrumented cart_pod.spec cart_pod.meta ≡ false
unfolding already_instrumented lookup
cart_pod_fresh = refl

cart_pod_selected : matches_selection shop_mutator cart_pod.meta ≡ some shop
unfolding matches_selection match_process_info match_process process_metadata pod_metadata
    owners_from top_owner lookup insert before_last
cart_pod_selected = refl

mutate_pod-IsMutated_example :
    IsMutated shop_mutator cart_pod (mutate_pod shop_mutator cart_pod).0
    × ((any (λ c. not (preloads_already c)) cart_pod.spec.containers ≡ false)
        ⊎ ((mutate_pod shop_mutator cart_pod).1 ≡ true))
mutate_pod-IsMutated_example =
    mutate_pod-IsMutated shop_mutator (refl, tt) (refl, tt) cart_pod shop cart_pod_fresh
      cart_pod_selected

shop_version :
    is_empty (package_version shop_mutator.libraries.sum224 shop_mutator.injector) ≡ false
unfolding package_version
shop_version = refl

mutate_pod_once_example :
    mutate_pod shop_mutator (mutate_pod shop_mutator cart_pod).0
    ≡ ((mutate_pod shop_mutator cart_pod).0, false)
mutate_pod_once_example = mutate_pod_once shop_mutator shop_version cart_pod

-- A pod of another namespace.
abbrev elsewhere : Pod
elsewhere = record cart_pod { meta = record cart_meta { namespace = "bank" } }

elsewhere_unselected : matches_selection shop_mutator elsewhere.meta ≡ none
unfolding matches_selection match_process_info match_process process_metadata pod_metadata
    owners_from top_owner lookup insert before_last
elsewhere_unselected = refl

-- A codec that knows the two pods by name, and fails where an admission request names another.
abbrev two_pods : Codec
two_pods = record {
  decode_review = λ body. some (some (record { uid = body; kind = "Pod"; raw = body }));
  unmarshal_pod = λ raw.
      if raw == "cart" then some cart_pod else if raw == "elsewhere" then some elsewhere else none;
  marshal_pod = λ pod. some "new";
  patches = λ a b. b ∷ [];
  marshal_patches = λ ps. some "[]";
  marshal_response = λ r. some "ok";
}

abbrev request_for : String → AdmissionRequest
request_for raw = record { uid = "u"; kind = "Pod"; raw = raw }

respond-IsAnswer_example :
    IsAnswer shop_mutator two_pods
      (request_for "cart")
      (respond shop_mutator two_pods (request_for "cart"))
respond-IsAnswer_example = respond-IsAnswer shop_mutator two_pods (request_for "cart")

elsewhere_same : (mutate_pod shop_mutator elsewhere).1 ≡ false
elsewhere_same = rw (mutate_pod_skips shop_mutator elsewhere (inr elsewhere_unselected))

-- A process of the pod after its mutation.
abbrev seen_process : ProcessInfo
seen_process = record (new_process_info 7) {
  metadata =
      (process_metadata test_libraries.owner_label
        (mutate_pod shop_mutator cart_pod).0.meta).metadata;
  pod_labels = (mutate_pod shop_mutator cart_pod).0.meta.labels;
  pod_annotations = (mutate_pod shop_mutator cart_pod).0.meta.annotations;
}

mutated_pod_settles_example : wants_restart new_server seen_process ≡ false
mutated_pod_settles_example =
    mutated_pod_settles new_server cart_pod shop seen_process shop_version (tt, (tt, tt))
      cart_pod_fresh cart_pod_selected
      (record { metadata = refl; labels = refl; annotations = refl })
