-- ===== src/Webhook/Handler/Replies.antt =====
-- What the webhook answers to an admission request.
use e_bpf_lens.Prelude.{
  String, Bool, true, false, not, none, some, ◌∷◌, ◌≡◌, refl, arith, is_some, is_empty, Bool-cases,
  Option-cases, List-cases, ◌⊎◌, inl, inr, ◌==◌,
}
use e_bpf_lens.Webhook.Kube.{Pod}
use e_bpf_lens.Webhook.Config.{package_version}
use e_bpf_lens.Webhook.EnvVars.{PodMutator}
use e_bpf_lens.Webhook.Mutator.{mutate_pod}
use e_bpf_lens.Webhook.Handler.{
  AdmissionRequest, AdmissionResponse, Message, no_version, unmarshal_failed, marshal_failed,
  patches_failed, no_changes, Codec, error_response, patch_response, respond_to_mutation,
  respond_to_pod, respond,
}

module _ {Modes : Type 0} (pm : PodMutator Modes) (codec : Codec) where
  -- What an answer to the request says: it is for the request; it denies exactly with a message; a
  -- patch is there only if the pod was changed, and then the pod is allowed.
  pub record IsAnswer (request : AdmissionRequest) (r : AdmissionResponse) : Type 0 where
    pub same_uid : r.uid ≡ request.uid
    denial : r.allowed ≡ not (is_some r.result)
    patched :
        (r.patch ≡ none)
        ⊎ ((pod : Pod) × (codec.unmarshal_pod request.raw ≡ some pod)
            × ((mutate_pod pm pod).1 ≡ true)
            × (r.allowed ≡ true))

  -- A response that the handler has not completed yet.
  abbrev started : AdmissionRequest → AdmissionResponse
  started request = record { uid = request.uid; allowed = true; result = none; patch = none }

  IsAnswer-started : (request : AdmissionRequest) → IsAnswer request (started request)
  IsAnswer-started request = record { same_uid = refl; denial = refl; patched = inl refl }

  IsAnswer-error :
      (request : AdmissionRequest) (m : Message)
      → IsAnswer request (error_response (started request) m)
  unfolding error_response
  IsAnswer-error request m = record { same_uid = refl; denial = refl; patched = inl refl }

  IsAnswer-patch :
      (request : AdmissionRequest) (pod : Pod) (marshalled : String)
      → codec.unmarshal_pod request.raw ≡ some pod
      → (mutate_pod pm pod).1 ≡ true
      → IsAnswer request (patch_response codec request.raw marshalled (started request))
  unfolding patch_response
  IsAnswer-patch request pod marshalled e modified =
      elim (List-cases (codec.patches request.raw marshalled)) [
        | inl n ↦ rw (n, patch_response) (IsAnswer-error request no_changes)
        | inr (p, ps, n) ↦ elim (Option-cases (codec.marshal_patches (p ∷ ps))) [
          | inl f ↦ rw (n, patch_response) (rw f (IsAnswer-error request patches_failed))
          | inr (bytes, f) ↦
              rw (n, patch_response)
                (rw f (record {
                  same_uid = refl;
                  denial = refl;
                  patched = inr (pod, e, modified, refl);
                }))
        ]
      ]

  IsAnswer-mutation :
      (request : AdmissionRequest) (pod : Pod)
      → codec.unmarshal_pod request.raw ≡ some pod
      → (mutated : Pod) (modified : Bool) → (mutate_pod pm pod).1 ≡ modified
      → IsAnswer request
          (respond_to_mutation pm codec request.raw (mutated, modified) (started request))
  unfolding respond_to_mutation
  IsAnswer-mutation request pod e mutated false h = IsAnswer-started request
  IsAnswer-mutation request pod e mutated true h = elim (Option-cases (codec.marshal_pod mutated)) [
    | inl n ↦ rw (n, respond_to_mutation) (IsAnswer-error request marshal_failed)
    | inr (bytes, n) ↦ rw (n, respond_to_mutation) (IsAnswer-patch request pod bytes e h)
  ]

  IsAnswer-pod :
      (request : AdmissionRequest)
      → IsAnswer request (respond_to_pod pm codec request.raw (started request))
  unfolding respond_to_pod
  IsAnswer-pod request = elim (Option-cases (codec.unmarshal_pod request.raw)) [
    | inl n ↦ rw (n, respond_to_pod) (IsAnswer-error request unmarshal_failed)
    | inr (pod, n) ↦
        rw (n, respond_to_pod)
          (IsAnswer-mutation request pod n (mutate_pod pm pod).0 (mutate_pod pm pod).1 refl)
  ]

  -- Every response carries the identifier of its request, denies the pod exactly if it holds a
  -- message, and holds a patch only if the pod could be read and was changed; the pod is then
  -- allowed.
  pub respond-IsAnswer : (request : AdmissionRequest) → IsAnswer request (respond pm codec request)
  unfolding respond
  respond-IsAnswer request =
      elim (Bool-cases (is_empty (package_version pm.libraries.sum224 pm.injector))) [
        | inl e ↦ rw (e, respond) (IsAnswer-error request no_version)
        | inr e ↦ elim (Bool-cases (request.kind == "Pod")) [
          | inl k ↦ rw (e, respond) (rw k (IsAnswer-pod request))
          | inr k ↦ rw (e, respond) (rw k (IsAnswer-started request))
        ]
      ]

  -- A pod that the mutator leaves as it is is admitted, without a patch and without a message, once
  -- a package version is set; so is any object that is no pod.
  respond_unchanged :
      (request : AdmissionRequest)
      → is_empty (package_version pm.libraries.sum224 pm.injector) ≡ false
      → ((request.kind == "Pod") ≡ true
          → (pod : Pod) × (codec.unmarshal_pod request.raw ≡ some pod)
            × ((mutate_pod pm pod).1 ≡ false))
      → respond pm codec request
        ≡ record { uid = request.uid; allowed = true; result = none; patch = none }
  unfolding respond respond_to_pod respond_to_mutation
  respond_unchanged request version h = elim (Bool-cases (request.kind == "Pod")) [
    | inl k ↦ let (pod, e, unchanged) = h k in ground arith
    | inr k ↦ ground arith
  ]
