-- ===== src/Prelude/GoMap.antt =====
-- Go's `map[string]V` as the list of its entries, with distinct keys, in the order of one iteration.
-- Go chooses that order anew for each `range`: a theorem over such lists speaks of every order.
use Prim.Native.String.{String}
use mathlib.Core.Path.{◌≡◌, refl}
use mathlib.Core.Bool.{false}
use mathlib.Core.List.{List, [], ◌∷◌}
use mathlib.Core.Option.{Option, none, some}
use native.Mathlib.Omega.{arith}
use text.Mathlib.Text.{◌==◌}
use text.Mathlib.TextEquality.{eq_iff}
use e_bpf_lens.Prelude.Tests.{if◌then◌else◌, or_else}

abbrev pub Map {ℓ} : Type ℓ → Type ℓ
Map V = List (String × V)

module _ {ℓ} {V : Type ℓ} where
  -- `v, ok := m[key]`
  unfoldable pub lookup : String → Map V → Option V
  lookup key [] = none
  lookup key ((name, value) ∷ entries) =
      let further = lookup key entries in if name == key then some value else further

  -- `m[key] = new`, in place where the key has an entry.
  unfoldable pub insert : String → V → Map V → Map V
  insert key new [] = (key, new) ∷ []
  insert key new ((name, value) ∷ entries) =
      let further = insert key new entries in
      if name == key then (name, new) ∷ entries else (name, value) ∷ further

  pub lookup-insert :
      (key asked : String) (new : V) (m : Map V)
      → lookup asked (insert key new m) ≡ (if key == asked then some new else lookup asked m)
  unfolding lookup insert
  lookup-insert key asked new [] = refl
  lookup-insert key asked new ((name, value) ∷ entries) =
      let further = lookup-insert key asked new entries in
      ground (arith, further, eq_iff name key, eq_iff key asked, eq_iff name asked)

  -- The key has no entry.
  abbrev pub Absent : String → Map V → Type 0
  Absent k [] = Unit
  Absent k ((j, v) ∷ m) = ((j == k) ≡ false) × Absent k m

-- `m[k]` where a missing key reads as the empty text.
unfoldable pub value_at : Map String → String → String
unfolding lookup
value_at m k = or_else (lookup k m) ""

module _ {ℓ} {V : Type ℓ} where
  -- `for k, v := range entries { m[k] = v }`
  unfoldable pub insert_all : Map V → Map V → Map V
  unfolding insert
  insert_all [] m = m
  insert_all ((k, v) ∷ entries) m = insert_all entries (insert k v m)

  -- `maps.Keys`
  abbrev pub keys : Map V → List String
  keys [] = []
  keys ((k, v) ∷ m) = k ∷ keys m
