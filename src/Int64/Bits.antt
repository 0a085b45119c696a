-- ===== src/Int64/Bits.antt =====
-- The wrap-around of the signed numbers.
use e_bpf_lens.Prelude.{ℕ, ◌+◌, ◌≡◌, ◌<◌, ap, ◌∙◌, arith}
use Prim.Native.Nat.{◌%◌, ◌^◌}
use e_bpf_lens.Int64.{ℤ, pos, negsuc, bits, signed, sub64, sub_u64, add64}

pub bits-lt : (a : ℤ) → bits a < 2 ^ 64
unfolding bits
bits-lt (pos n) = omega arith
bits-lt (negsuc n) = omega arith

pub bits-signed : (u : ℕ) → u < 2 ^ 64 → bits (signed u) ≡ u
unfolding bits signed
bits-signed u h = ground arith

sub_u64-undo : (m n : ℕ) → m < 2 ^ 64 → n < 2 ^ 64 → (sub_u64 m n + n) % 2 ^ 64 ≡ m
unfolding sub_u64
sub_u64-undo m n h k = omega arith

sub_u64-lt : (m n : ℕ) → sub_u64 m n < 2 ^ 64
unfolding sub_u64
sub_u64-lt m n = omega arith

-- A difference of two numbers, added to the second, is the first, in 64 bits.
pub bits-sub64 : (a b : ℤ) → (bits (sub64 a b) + bits b) % 2 ^ 64 ≡ bits a
unfolding sub64 sub_u64
bits-sub64 a b =
    ap (λ u. (u + bits b) % 2 ^ 64)
      (bits-signed (sub_u64 (bits a) (bits b)) (sub_u64-lt (bits a) (bits b)))
    ∙ sub_u64-undo (bits a) (bits b) (bits-lt a) (bits-lt b)

pub bits-add64 : (a b : ℤ) → bits (add64 a b) ≡ (bits a + bits b) % 2 ^ 64
unfolding add64
bits-add64 a b = bits-signed ((bits a + bits b) % 2 ^ 64) (omega arith)
