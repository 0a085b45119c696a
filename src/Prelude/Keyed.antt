-- ===== src/Prelude/Keyed.antt =====
-- Go's `map[K]V` for keys that are structs: the list of its entries, the first of a key counting.
use mathlib.Core.Bool.{Bool, true}
use mathlib.Core.List.{List, [], ◌∷◌}
use mathlib.Core.Logic.{◌↔◌}
use mathlib.Core.Option.{Option, none, some}
use mathlib.Core.Path.{◌≡◌, refl}
use native.Mathlib.Omega.{arith}
use e_bpf_lens.Prelude.Tests.{if◌then◌else◌}

-- `==` of a type of keys.
pub record Eq {ℓ} (K : Type ℓ) : Type ℓ where
  pub same : K → K → Bool
  pub same_iff : (a b : K) → (same a b ≡ true) ↔ (a ≡ b)

abbrev pub Dict {ℓ} : Type ℓ → Type ℓ → Type ℓ
Dict K V = List (K × V)

module _ {ℓ} {K V : Type ℓ} ⦃e : Eq K⦄ where
  -- `v, ok := m[k]`
  unfoldable pub get : K → Dict K V → Option V
  get k [] = none
  get k ((j, v) ∷ m) = let further = get k m in if e.same j k then some v else further

  -- `delete(m, k)`
  unfoldable pub delete : K → Dict K V → Dict K V
  delete k [] = []
  delete k ((j, v) ∷ m) = let rest = delete k m in if e.same j k then rest else (j, v) ∷ rest

  -- `m[k] = v`
  unfoldable pub put : K → V → Dict K V → Dict K V
  unfolding delete
  put k v m = (k, v) ∷ delete k m

  pub get-delete :
      (k q : K) (m : Dict K V) → get q (delete k m) ≡ (if e.same k q then none else get q m)
  unfolding get delete
  get-delete k q [] = ground arith
  get-delete k q ((j, v) ∷ m) =
      let further = get-delete k q m in
      ground (arith, further, e.same_iff j k, e.same_iff j q, e.same_iff k q)

  pub get-put :
      (k q : K) (v : V) (m : Dict K V)
      → get q (put k v m) ≡ (if e.same k q then some v else get q m)
  unfolding put get
  get-put k q v m = ground (arith, get-delete k q m)

  delete-delete : (k : K) (m : Dict K V) → delete k (delete k m) ≡ delete k m
  unfolding delete
  delete-delete k [] = refl
  delete-delete k ((j, v) ∷ m) = let further = delete-delete k m in ground arith

  pub put-delete : (k : K) (v : V) (m : Dict K V) → put k v (delete k m) ≡ put k v m
  unfolding put
  put-delete k v m = rw delete-delete
