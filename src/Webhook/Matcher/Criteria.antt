-- ===== src/Webhook/Matcher/Criteria.antt =====
-- What it means that a process matches a selector, independently of the loops of `matchProcess`, and
-- which selector `MatchProcessInfo` picks.
use e_bpf_lens.Prelude.{
  String, Bool, true, false, ◌||◌, Option, none, some, List, [], ◌∷◌, ◌++◌, ◌≡◌, refl, ◌↔◌, inl,
  inr, arith, Map, lookup, All, if◌then◌else◌, Option-cases, Bool-cases, ap, subst, ◌∙◌,
}
use e_bpf_lens.Webhook.Config.{Selector}
use e_bpf_lens.Webhook.Process.{ProcessInfo}
use e_bpf_lens.Webhook.Matcher.{check, check_all, match_process, match_process_info}

-- Each criterion has a value, and its matcher accepts the value.
abbrev Satisfies : Map (String → Bool) → Map String → Type 0
Satisfies [] values = Unit
Satisfies ((name, matches) ∷ criteria) values =
    ((v : String) × (lookup name values ≡ some v) × (matches v ≡ true)) × Satisfies criteria values

abbrev is_cons {ℓ} : {A : Type ℓ} → List A → Bool
is_cons [] = false
is_cons (x ∷ xs) = true

module _ (name : String) (matches : String → Bool) (criteria : Map (String → Bool))
    (values : Map String) where
  check-cons :
      (b : Bool) (v : String)
      → lookup name values ≡ some v
      → matches v ≡ true
      → check ((name, matches) ∷ criteria) values b ≡ check criteria values true
  unfolding check
  check-cons b v e m = ground arith

  check_inv :
      (b c : Bool)
      → check ((name, matches) ∷ criteria) values b ≡ some c
      → ((v : String) × (lookup name values ≡ some v) × (matches v ≡ true))
        × (check criteria values true ≡ some c)
  unfolding check
  check_inv b c h = elim (Option-cases (lookup name values)) [
    | inl e ↦ ground arith
    | inr (v, e) ↦ ((v, e, ground arith), ground arith)
  ]

check-some :
    (criteria : Map (String → Bool)) (values : Map String) (b : Bool)
    → Satisfies criteria values
    → check criteria values b ≡ some (b || is_cons criteria)
check-some [] values true h = unfold check in refl
check-some [] values false h = unfold check in refl
check-some ((name, matches) ∷ criteria) values b ((v, e, m), h) =
    check-cons name matches criteria values b v e m
    ∙ check-some criteria values true h
    ∙ ground arith

check-Satisfies :
    (criteria : Map (String → Bool)) (values : Map String) (b c : Bool)
    → check criteria values b ≡ some c
    → Satisfies criteria values
check-Satisfies [] values b c h = tt
check-Satisfies ((name, matches) ∷ criteria) values b c h =
    let (found, rest) = check_inv name matches criteria values b c h in
    (found, check-Satisfies criteria values true c rest)

module _ {Modes : Type 0} (a : ProcessInfo) (s : Selector Modes) where
  -- The selector has a criterion, and the process satisfies all that it has.
  pub record IsMatch : Type 0 where
    pub metadata : Satisfies s.metadata a.metadata
    pub labels : Satisfies s.pod_labels a.pod_labels
    pub annotations : Satisfies s.pod_annotations a.pod_annotations
    has_criterion : (is_cons s.metadata || is_cons s.pod_labels || is_cons s.pod_annotations) ≡ true

  -- A process matches a selector exactly when the selector has at least one criterion on metadata,
  -- pod labels or pod annotations, and each of them is about a value that the process has and that
  -- its matcher accepts.
  pub match_process_iff : (match_process (some a) (some s) ≡ true) ↔ IsMatch
  unfolding match_process check_all
  match_process_iff = (sound, complete)
    where
      accepted :
          (x y : Bool)
          → check s.metadata a.metadata false ≡ some x
          → check s.pod_labels a.pod_labels x ≡ some y
          → check s.pod_annotations a.pod_annotations y ≡ some true
          → IsMatch
      accepted x y ex ey ez =
          let md = check-Satisfies s.metadata a.metadata false x ex in
          let lb = check-Satisfies s.pod_labels a.pod_labels x y ey in
          let an = check-Satisfies s.pod_annotations a.pod_annotations y true ez in
          record {
            metadata = md;
            labels = lb;
            annotations = an;
            has_criterion = ground (
              arith,
              check-some s.metadata a.metadata false md,
              check-some s.pod_labels a.pod_labels x lb,
              check-some s.pod_annotations a.pod_annotations y an,
            );
          }

      complete : IsMatch → match_process (some a) (some s) ≡ true
      complete h = ground (
        arith,
        check-some s.metadata a.metadata false h.metadata,
        check-some s.pod_labels a.pod_labels (is_cons s.metadata) h.labels,
        check-some s.pod_annotations a.pod_annotations (is_cons s.metadata || is_cons s.pod_labels)
            h.annotations,
      )

      sound : match_process (some a) (some s) ≡ true → IsMatch
      sound h = elim (Option-cases (check s.metadata a.metadata false)) [
        | inl e ↦ absurd (ground arith)
        | inr (x, ex) ↦ elim (Option-cases (check s.pod_labels a.pod_labels x)) [
          | inl e ↦ absurd (ground arith)
          | inr (y, ey) ↦ accepted x y ex ey (ground arith)
        ]
      ]

module _ {Modes : Type 0} (info : Option ProcessInfo) where
  -- The first selector that matches, if one does.
  abbrev IsFirst : List (Option (Selector Modes)) → Option (Selector Modes) → Type 0
  IsFirst selectors none = All (λ s. match_process info s ≡ false) selectors
  IsFirst selectors (some s) =
      (before : List (Option (Selector Modes))) × (after : List (Option (Selector Modes)))
      × (selectors ≡ before ++ some s ∷ after)
      × All (λ r. match_process info r ≡ false) before
      × (match_process info (some s) ≡ true)

  IsFirst-cons :
      (r : Option (Selector Modes)) (rs : List (Option (Selector Modes)))
      → match_process info r ≡ false
      → (found : Option (Selector Modes)) → IsFirst rs found
      → IsFirst (r ∷ rs) found
  IsFirst-cons r rs no_match none h = (no_match, h)
  IsFirst-cons r rs no_match (some s) (before, after, e, h, m) =
      (r ∷ before, after, ap (λ l. r ∷ l) e, (no_match, h), m)

  IsFirst-head :
      (r : Option (Selector Modes)) (rs : List (Option (Selector Modes)))
      → match_process info r ≡ true
      → IsFirst (r ∷ rs) r
  unfolding match_process
  IsFirst-head none rs h = absurd (ground arith)
  IsFirst-head (some s) rs h = ([], rs, refl, tt, h)

  pick-cons :
      (r : Option (Selector Modes)) (rs : List (Option (Selector Modes)))
      → match_process_info info (r ∷ rs)
        ≡ (if match_process info r then r else match_process_info info rs)
  unfolding match_process_info
  pick-cons r rs = refl

  -- `MatchProcessInfo` picks the first selector of the list that the process matches, and none
  -- exactly if the process matches none.
  match_process_info-IsFirst :
      (selectors : List (Option (Selector Modes)))
      → IsFirst selectors (match_process_info info selectors)
  match_process_info-IsFirst [] = unfold match_process_info in tt
  match_process_info-IsFirst (r ∷ rs) = elim (Bool-cases (match_process info r)) [
    | inl e ↦
        subst (IsFirst (r ∷ rs)) {x = r} {y = match_process_info info (r ∷ rs)}
          (rw (pick-cons r rs, e)) (IsFirst-head r rs e)
    | inr e ↦
        subst (IsFirst (r ∷ rs)) {x = match_process_info info rs}
          {y = match_process_info info (r ∷ rs)} (rw (pick-cons r rs, e))
          (IsFirst-cons r rs e (match_process_info info rs) (match_process_info-IsFirst rs))
  ]
