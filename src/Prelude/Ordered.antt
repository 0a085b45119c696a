-- ===== src/Prelude/Ordered.antt =====
-- Go's order of strings, and what `sort.Strings` makes of a list.
use Prim.Native.String.{String}
use mathlib.Core.Bool.{Bool, true, false, ◌||◌}
use mathlib.Core.List.{List, [], ◌∷◌}
use mathlib.Core.Logic.{inl, inr}
use mathlib.Core.Path.{◌≡◌, refl}
use native.Mathlib.Omega.{arith}
use e_bpf_lens.Prelude.Lists.{All, All-weaken, any}
use e_bpf_lens.Prelude.Tests.{Bool-cases}
use e_bpf_lens.Prelude.Text.{text_leb, insert_sorted, sorted}

-- Each text is at most as great as all behind it.
abbrev pub IsSorted : List String → Type 0
IsSorted [] = Unit
IsSorted (s ∷ ss) = All (λ t. text_leb s t ≡ true) ss × IsSorted ss

text_leb_total : (s t : String) → text_leb s t ≡ false → text_leb t s ≡ true
unfolding text_leb
text_leb_total String.[] t h = cc
text_leb_total (String.◌∷◌ c s) String.[] h = refl
text_leb_total (String.◌∷◌ c s) (String.◌∷◌ d t) h = ground (arith, text_leb_total s t)

text_leb_trans : (s t u : String) → text_leb s t ≡ true → text_leb t u ≡ true → text_leb s u ≡ true
unfolding text_leb
text_leb_trans String.[] t u h k = refl
text_leb_trans (String.◌∷◌ c s) String.[] u h k = cc
text_leb_trans (String.◌∷◌ c s) (String.◌∷◌ d t) String.[] h k = cc
text_leb_trans (String.◌∷◌ c s) (String.◌∷◌ d t) (String.◌∷◌ e u) h k =
    ground (arith, text_leb_trans s t u)

module _ {κ} (P : String → Type κ) where
  insert_sorted-All : (s : String) (ss : List String) → P s → All P ss → All P (insert_sorted s ss)
  unfolding insert_sorted
  insert_sorted-All s [] h hs = (h, tt)
  insert_sorted-All s (t ∷ ts) h (ht, hs) = elim (Bool-cases (text_leb s t)) [
    | inl below ↦ rw below (h, (ht, hs))
    | inr above ↦ rw above (ht, insert_sorted-All s ts h hs)
  ]

insert_sorted-IsSorted :
    (s : String) (ss : List String) → IsSorted ss → IsSorted (insert_sorted s ss)
unfolding insert_sorted
insert_sorted-IsSorted s [] h = (tt, tt)
insert_sorted-IsSorted s (t ∷ ts) (ht, hs) = elim (Bool-cases (text_leb s t)) [
  | inl below ↦ rw below (
    (
      below,
      All-weaken (λ u. text_leb t u ≡ true) (λ u. text_leb s u ≡ true)
          (λ u. text_leb_trans s t u below) ts ht,
    ),
    (ht, hs),
  )
  | inr above ↦ rw above (
    insert_sorted-All (λ u. text_leb t u ≡ true) s ts (text_leb_total s t above) ht,
    insert_sorted-IsSorted s ts hs,
  )
]

pub sorted-IsSorted : (ss : List String) → IsSorted (sorted ss)
unfolding sorted
sorted-IsSorted [] = tt
sorted-IsSorted (s ∷ ss) = insert_sorted-IsSorted s (sorted ss) (sorted-IsSorted ss)

any-insert_sorted :
    (p : String → Bool) (s : String) (ss : List String)
    → any p (insert_sorted s ss) ≡ (p s || any p ss)
unfolding insert_sorted
any-insert_sorted p s [] = refl
any-insert_sorted p s (t ∷ ts) = ground (arith, any-insert_sorted p s ts)

-- The sorted list has the same elements.
pub any-sorted : (p : String → Bool) (ss : List String) → any p (sorted ss) ≡ any p ss
unfolding sorted
any-sorted p [] = refl
any-sorted p (s ∷ ss) = rw (any-insert_sorted p s (sorted ss)) (rw (any-sorted p ss) refl)
