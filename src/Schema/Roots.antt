-- ===== src/Schema/Roots.antt =====
-- `findModuleRoot` and `findOBIModuleRoot` of cmd/beyla-schema/main.go.
use e_bpf_lens.Prelude.{
  ◌+◌, ◌≤◌, sym, subst, eqb, Option-cases, Bool-cases, inl, inr, refl, false, true, ℕ, zero, suc,
  String, Bool, code, Option, none, some, List, [], ◌∷◌, ◌==◌, ◌≡◌, arith, if◌then◌else◌, is_empty,
  is_space, before_last, has_prefix, trim_space,
}
use e_bpf_lens.Schema.Passes.{lines_of}

-- `filepath.Dir`, of a path that `filepath.Clean` leaves as it is.
dir : String → String
unfolding before_last
dir path = elim (before_last b'/' path) [
  | none ↦ "."
  | some parent ↦ if is_empty parent then "/" else parent
]

-- `findModuleRoot`, on fuel, with whether a directory holds go.mod.
unfoldable pub find_module_root : ℕ → (String → Bool) → String → Option String
unfolding dir
find_module_root zero has_go_mod path = none
find_module_root (suc n) has_go_mod path =
    let further = find_module_root n has_go_mod (dir path) in
    if has_go_mod path then some path else if dir path == path then some "" else further

-- `strings.Fields`
fields_onto : String → List String
fields_onto String.[] = "" ∷ []
fields_onto (String.◌∷◌ c s) = elim (fields_onto s) [
  | [] ↦ []
  | word ∷ words ↦ if is_space (code c) then "" ∷ word ∷ words else String.◌∷◌ c word ∷ words
]

non_empty_words : List String → List String
non_empty_words [] = []
non_empty_words (word ∷ words) =
    let rest = non_empty_words words in if is_empty word then rest else word ∷ rest

-- `parts[3]`, if there are as many.
fourth : List String → Option String
fourth (_ ∷ _ ∷ _ ∷ path ∷ _) = some path
fourth _ = none

-- The path in the replace directive of go.mod's lines: `findOBIModuleRoot`, before it is joined to the
-- root. An empty outcome of the code is `none`.
replaced_path : List String → Option String
unfolding trim_space has_prefix fields_onto non_empty_words fourth
replaced_path [] = none
replaced_path (line ∷ lines) =
    let further = replaced_path lines in
    if has_prefix (trim_space line) "replace go.opentelemetry.io/obi =>"
    then elim (fourth (non_empty_words (fields_onto (trim_space line)))) [
      | none ↦ further
      | some path ↦ some path
    ]
    else further

unfoldable pub find_obi_module_root : Option String → Option String
unfolding replaced_path lines_of
find_obi_module_root none = none
find_obi_module_root (some go_mod) = replaced_path (lines_of go_mod)

-- The program starts at ".", whose directory is itself: it looks no further up.
find_module_root-dot :
    (n : ℕ) (has_go_mod : String → Bool)
    → find_module_root (suc n) has_go_mod "." ≡ some (if has_go_mod "." then "." else "")
unfolding find_module_root dir before_last
find_module_root-dot n has_go_mod = ground arith

-- How many characters have the code.
abbrev count : ℕ → String → ℕ
count n String.[] = 0
count n (String.◌∷◌ c s) = (if eqb (code c) n then 1 else 0) + count n s

count-before_last : (n : ℕ) (s p : String) → before_last n s ≡ some p → suc (count n p) ≤ count n s
unfolding before_last
count-before_last n String.[] p h = cc
count-before_last n (String.◌∷◌ c s) p h = elim (Option-cases (before_last n s)) [
  | inl absent ↦ at_end (eqb (code c) n) (subst (λ o. step o ≡ some p) absent h)
  | inr (q, found) ↦
      let same : String.◌∷◌ c q ≡ p = some_inj (subst (λ o. step o ≡ some p) found h) in
      subst (λ x. suc (count n x) ≤ count n (String.◌∷◌ c s)) same
        (omega (arith, count-before_last n s q found))
]
  where
    step : Option String → Option String
    step o = elim o [
      | some q ↦ some (String.◌∷◌ c q)
      | none ↦ if eqb (code c) n then some "" else none
    ]

    some_inj : {a b : String} → some a ≡ some b → a ≡ b
    some_inj e = cc

    at_end :
        (b : Bool)
        → (if b then some "" else none) ≡ some p
        → suc (count n p) ≤ (if b then 1 else 0) + count n s
    at_end true e =
        let same : "" ≡ p = some_inj e in
        subst (λ x. suc (count n x) ≤ 1 + count n s) same (omega arith)
    at_end false e = cc

module _ (has_go_mod : String → Bool) where
  abbrev Ends : ℕ → String → Type 0
  Ends n path = (root : String) × (find_module_root n has_go_mod path ≡ some root)

  dir-Ends : (n : ℕ) (path : String) → Ends n (dir path) → Ends (suc n) path
  unfolding find_module_root
  dir-Ends n path (root, ended) = elim (Bool-cases (has_go_mod path)) [
    | inl here ↦ (path, rw here refl)
    | inr other ↦ rw other (elim (Bool-cases (dir path == path)) [
      | inl top ↦ ("", rw top refl)
      | inr below ↦ (root, rw below ended)
    ])
  ]

  dir_is : (path p : String) → dir path ≡ p → (n : ℕ) → Ends n p → Ends (suc n) path
  dir_is path p e n ends = dir-Ends n path (subst (Ends n) (sym e) ends)

  slash-Ends : (n : ℕ) → Ends (suc n) "/"
  unfolding find_module_root dir before_last
  slash-Ends n = elim (Bool-cases (has_go_mod "/")) [
    | inl here ↦ ("/", rw here refl)
    | inr other ↦ ("", rw other refl)
  ]

  -- As many rounds are enough as the path has separators, and two: then findModuleRoot returns.
  find_module_root-Ends : (n : ℕ) (path : String) → count b'/' path + 2 ≤ n → Ends n path
  unfolding dir
  find_module_root-Ends zero path h = absurd (omega arith)
  find_module_root-Ends (suc zero) path h = absurd (omega arith)
  find_module_root-Ends (suc (suc n)) path h = elim (Option-cases (before_last b'/' path)) [
    | inl absent ↦
        dir_is path "." (rw (absent, dir) refl) (suc n) (_, find_module_root-dot n has_go_mod)
    | inr (String.[], found) ↦ dir_is path "/" (rw (found, dir) refl) (suc n) (slash-Ends n)
    | inr (String.◌∷◌ c p, found) ↦ dir_is path (String.◌∷◌ c p) (rw (found, dir) refl) (suc n) (
        find_module_root-Ends (suc n) (String.◌∷◌ c p)
          (omega (arith, count-before_last b'/' path (String.◌∷◌ c p) found)))
  ]
