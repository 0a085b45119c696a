-- ===== src/Webhook/Matcher/Labels.antt =====
-- A label that no selector asks for does not change which selector a process matches.
use e_bpf_lens.Prelude.{
  String, Bool, true, false, Option, none, some, List, [], ◌∷◌, ◌≡◌, refl, arith, ◌∙◌, ap, Map,
  lookup, Option-cases, inl, inr, All, Absent, or_else, ◌==◌, eq_iff,
}
use e_bpf_lens.Webhook.Config.{Selector}
use e_bpf_lens.Webhook.Process.{ProcessInfo}
use e_bpf_lens.Webhook.Matcher.{check, check_all, match_process, match_process_info}

-- The two maps agree on every other key.
abbrev AgreeOff : String → Map String → Map String → Type 0
AgreeOff key m n = (k : String) → (key == k) ≡ false → lookup k m ≡ lookup k n

other : (key k : String) → (k == key) ≡ false → (key == k) ≡ false
other key k h = ground (arith, eq_iff key k, eq_iff k key)

check-AgreeOff :
    (key : String) (m n : Map String)
    → AgreeOff key m n
    → (criteria : Map (String → Bool)) → Absent key criteria
    → (b : Bool) → check criteria m b ≡ check criteria n b
unfolding check
check-AgreeOff key m n agree [] h b = refl
check-AgreeOff key m n agree ((k, matches) ∷ criteria) (hk, h) b =
    ground (arith, agree k (other key k hk), check-AgreeOff key m n agree criteria h true)

module _ {Modes : Type 0} where
  -- The selector has no criterion on the label.
  abbrev pub HasNoLabel : String → Option (Selector Modes) → Type 0
  HasNoLabel key none = Unit
  HasNoLabel key (some s) = Absent key s.pod_labels

  module _ (key : String) (a b : ProcessInfo) (metadata : a.metadata ≡ b.metadata)
      (annotations : a.pod_annotations ≡ b.pod_annotations)
      (labels : AgreeOff key a.pod_labels b.pod_labels) where
    check_all-AgreeOff :
        (s : Selector Modes) → HasNoLabel key (some s) → check_all a s ≡ check_all b s
    unfolding check_all
    check_all-AgreeOff s h = elim (Option-cases (check s.metadata b.metadata false)) [
      | inl e ↦ rw (first ∙ e, e)
      | inr (x, e) ↦ elim (Option-cases (check s.pod_labels b.pod_labels x)) [
        | inl k ↦ rw (first ∙ e, e, second x ∙ k, k)
        | inr (y, k) ↦ rw (first ∙ e, e, second x ∙ k, k, third y)
      ]
    ]
      where
        first : check s.metadata a.metadata false ≡ check s.metadata b.metadata false
        first = ap (λ m. check s.metadata m false) metadata

        second : (x : Bool) → check s.pod_labels a.pod_labels x ≡ check s.pod_labels b.pod_labels x
        second x = check-AgreeOff key a.pod_labels b.pod_labels labels s.pod_labels h x

        third :
            (y : Bool)
            → check s.pod_annotations a.pod_annotations y
              ≡ check s.pod_annotations b.pod_annotations y
        third y = ap (λ m. check s.pod_annotations m y) annotations

    match_process-AgreeOff :
        (s : Option (Selector Modes))
        → HasNoLabel key s
        → match_process (some a) s ≡ match_process (some b) s
    unfolding match_process
    match_process-AgreeOff none h = refl
    match_process-AgreeOff (some s) h = ap (λ r. or_else r false) (check_all-AgreeOff s h)

    pub match_process_info-AgreeOff :
        (ss : List (Option (Selector Modes)))
        → All (HasNoLabel key) ss
        → match_process_info (some a) ss ≡ match_process_info (some b) ss
    unfolding match_process_info
    match_process_info-AgreeOff [] h = refl
    match_process_info-AgreeOff (s ∷ ss) (hs, h) =
        rw (match_process-AgreeOff s hs, match_process_info) (rw (match_process_info-AgreeOff ss h))
