-- ===== src/Export/Features.antt =====
-- The features of pkg/export/otel/bexport/features.go, as bits of a uint64.
use e_bpf_lens.Prelude.{ℕ, Bool, not, eqb}
use Prim.Native.Nat.{◌^◌, bit_and}

-- `FeatureProcess`, the most significant bit of an `export.Features`.
abbrev pub feature_process : ℕ
feature_process = 2 ^ 63

-- `bexport.Has` and `bexport.Any`
unfoldable pub has_features : ℕ → ℕ → Bool
has_features src checking_flags = eqb (bit_and src checking_flags) checking_flags

unfoldable pub any_feature : ℕ → ℕ → Bool
any_feature src checking_flags = not (eqb (bit_and src checking_flags) 0)
