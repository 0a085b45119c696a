-- ===== src/Prelude/Text.antt =====
-- What the program uses of Go's `strings`, over the native texts, character by character.
-- A Go string is a sequence of bytes; the texts here are the valid UTF-8 ones.
use Prim.Native.Nat.{ℕ, ◌+◌}
use Prim.Native.Char.{code}
use Prim.Native.String.{String}
use mathlib.Core.Bool.{Bool, true, false, ◌&&◌, ◌||◌}
use mathlib.Core.List.{List, [], ◌∷◌}
use mathlib.Core.Option.{Option, none, some}
use mathlib.Core.Path.{◌≡◌, refl, ap}
use mathlib.Core.Logic.{inl, inr}
use native.Mathlib.Omega.{arith}
use text.Mathlib.Text.{◌==◌}
use text.Mathlib.TextEquality.{eq_iff}
use e_bpf_lens.Prelude.Tests.{ltb, leb, eqb, if◌then◌else◌, is_some, or_else, Bool-cases}

-- `s == ""`
abbrev pub is_empty : String → Bool
is_empty String.[] = true
is_empty (String.◌∷◌ c s) = false

-- No character of the text has the code.
abbrev pub LacksCode : ℕ → String → Type 0
LacksCode n String.[] = Unit
LacksCode n (String.◌∷◌ c s) = (eqb (code c) n ≡ false) × LacksCode n s

infixr 65 ◌⧺◌
abbrev pub ◌⧺◌ : String → String → String
String.[] ⧺ t = t
(String.◌∷◌ c s) ⧺ t = String.◌∷◌ c (s ⧺ t)

-- `unicode.IsSpace`: the Latin-1 spaces, and the rest of the property White_Space.
abbrev pub is_space : ℕ → Bool
is_space c =
    (leb 9 c && leb c 13)
    || eqb c 32
    || eqb c 0x85
    || eqb c 0xa0
    || eqb c 0x1680
    || (leb 0x2000 c && leb c 0x200a)
    || eqb c 0x2028
    || eqb c 0x2029
    || eqb c 0x202f
    || eqb c 0x205f
    || eqb c 0x3000

pub trim_left : String → String
trim_left String.[] = ""
trim_left (String.◌∷◌ c s) =
    let rest = trim_left s in if is_space (code c) then rest else String.◌∷◌ c s

pub trim_right : String → String
trim_right String.[] = ""
trim_right (String.◌∷◌ c s) =
    let rest = trim_right s in if is_space (code c) && is_empty rest then "" else String.◌∷◌ c rest

-- `strings.TrimSpace`
unfoldable pub trim_space : String → String
unfolding trim_left trim_right
trim_space s = trim_right (trim_left s)

-- What stands behind the prefix `p` of `s`.
unfoldable pub drop_prefix : String → String → Option String
drop_prefix String.[] s = some s
drop_prefix (String.◌∷◌ c p) String.[] = none
drop_prefix (String.◌∷◌ c p) (String.◌∷◌ d s) =
    let rest = drop_prefix p s in if eqb (code c) (code d) then rest else none

-- `strings.HasPrefix(s, p)` and `strings.TrimPrefix(s, p)`
unfoldable pub has_prefix : String → String → Bool
unfolding drop_prefix
has_prefix s p = is_some (drop_prefix p s)

unfoldable pub trim_prefix : String → String → String
unfolding drop_prefix
trim_prefix s p = or_else (drop_prefix p s) s

-- `strings.Contains(s, t)`
unfoldable pub contains : String → String → Bool
unfolding has_prefix
contains String.[] t = has_prefix "" t
contains (String.◌∷◌ c s) t = has_prefix (String.◌∷◌ c s) t || contains s t

-- `strings.HasSuffix(s, t)`
unfoldable pub has_suffix : String → String → Bool
has_suffix String.[] t = is_empty t
has_suffix (String.◌∷◌ c s) t = (String.◌∷◌ c s) == t || has_suffix s t

-- The text before the last character with code `c`: `s[:strings.LastIndexByte(s, c)]`, or `none`
-- where that index is -1.
unfoldable pub before_last : ℕ → String → Option String
before_last c String.[] = none
before_last c (String.◌∷◌ d s) = elim (before_last c s) [
  | some p ↦ some (String.◌∷◌ d p)
  | none ↦ if eqb (code d) c then some "" else none
]

-- The texts on the two sides of the first character with code `c`: `strings.SplitN(s, sep, 2)`.
unfoldable pub split_once : ℕ → String → Option (String × String)
split_once c String.[] = none
split_once c (String.◌∷◌ d s) =
    let rest : Option (String × String) = elim (split_once c s) [
      | none ↦ none
      | some (k, v) ↦ some (String.◌∷◌ d k, v)
    ] in
    if eqb (code d) c then some ("", s) else rest

-- `strings.Join(parts, sep)`
unfoldable pub join : List String → String → String
join [] sep = ""
join (p ∷ []) sep = p
join (p ∷ q ∷ ps) sep = p ⧺ sep ⧺ join (q ∷ ps) sep

-- Go's `<=` on strings: the order of the bytes of UTF-8, which is that of the code points.
unfoldable pub text_leb : String → String → Bool
text_leb String.[] t = true
text_leb (String.◌∷◌ c s) String.[] = false
text_leb (String.◌∷◌ c s) (String.◌∷◌ d t) =
    let rest = text_leb s t in
    if ltb (code c) (code d) then true else if eqb (code c) (code d) then rest else false

-- `slices.Sorted`
unfoldable pub insert_sorted : String → List String → List String
unfolding text_leb
insert_sorted s [] = s ∷ []
insert_sorted s (t ∷ ts) =
    let rest = insert_sorted s ts in if text_leb s t then s ∷ t ∷ ts else t ∷ rest

unfoldable pub sorted : List String → List String
unfolding insert_sorted
sorted [] = []
sorted (s ∷ ss) = insert_sorted s (sorted ss)

pub ne_of_false : (s t : String) → (s == t) ≡ false → s ≡ t → ⊥
ne_of_false s t differ same = ground (arith, eq_iff s t)

unfoldable pub text_discrete : Discrete String
text_discrete s t = elim (Bool-cases (s == t)) [
  | inl same ↦ yes ((eq_iff s t).0 same)
  | inr differ ↦ no (λ same. ne_of_false s t differ same)
]

-- `unicode.ToLower`, exact wherever the result is ASCII: two letters outside ASCII have such a
-- result, the dotted capital I and the Kelvin sign.
unfoldable pub lower : ℕ → ℕ
lower c =
    if leb b'A' c && leb c b'Z'
    then c + 32
    else if eqb c 0x130
    then b'i'
    else if eqb c 0x212a
    then b'k'
    else c

-- `strings.ToLower(s) == t`, for a text `t` in ASCII.
unfoldable pub lower_eq : String → String → Bool
unfolding lower
lower_eq String.[] String.[] = true
lower_eq String.[] (String.◌∷◌ d t) = false
lower_eq (String.◌∷◌ c s) String.[] = false
lower_eq (String.◌∷◌ c s) (String.◌∷◌ d t) = eqb (lower (code c)) (code d) && lower_eq s t

pub append_assoc : (s t u : String) → (s ⧺ t) ⧺ u ≡ s ⧺ t ⧺ u
append_assoc String.[] t u = refl
append_assoc (String.◌∷◌ c s) t u = ap (String.◌∷◌ c) (append_assoc s t u)
