-- ===== src/Int64.antt =====
-- Go's signed numbers: their value, the wrap-around of 64 bits, and `strconv.ParseInt` in base 10.
pub mod Bits
use e_bpf_lens.Prelude.{
  ℕ, zero, suc, ◌+◌, ◌-◌, String, code, Bool, ◌&&◌, Option, none, some, ◌∷◌, if◌then◌else◌,
  is_empty, ltb, leb, eqb,
}
use Prim.Native.Nat.{◌*◌, ◌%◌, ◌^◌}

pub data ℤ : Type 0 where
  pos negsuc : ℕ → ℤ

-- The bits of an int64, read as a uint64.
unfoldable pub bits : ℤ → ℕ
bits (pos n) = n % 2 ^ 64
bits (negsuc n) = 2 ^ 64 - 1 - n % 2 ^ 64

-- The int64 with these bits.
unfoldable pub signed : ℕ → ℤ
signed u = if ltb u (2 ^ 63) then pos u else negsuc (2 ^ 64 - 1 - u)

-- `a + b`, `a - b` and `a * b` of two int64.
unfoldable pub add64 : ℤ → ℤ → ℤ
unfolding bits signed
add64 a b = signed ((bits a + bits b) % 2 ^ 64)

unfoldable pub sub64 : ℤ → ℤ → ℤ
unfolding bits signed
sub64 a b = signed ((bits a + (2 ^ 64 - bits b)) % 2 ^ 64)

unfoldable pub mul64 : ℤ → ℤ → ℤ
unfolding bits signed
mul64 a b = signed (bits a * bits b % 2 ^ 64)

-- `a - b` of two uint64.
pub sub_u64 : ℕ → ℕ → ℕ
sub_u64 a b = (a + (2 ^ 64 - b)) % 2 ^ 64

-- The conversion of an `int`, not negative, to an int32.
unfoldable pub int32 : ℕ → ℤ
int32 n = let m = n % 2 ^ 32 in if ltb m (2 ^ 31) then pos m else negsuc (2 ^ 32 - 1 - m)

-- `a <= b`
unfoldable pub leb_int : ℤ → ℤ → Bool
leb_int (pos a) (pos b) = leb a b
leb_int (pos a) (negsuc b) = Bool.false
leb_int (negsuc a) (pos b) = Bool.true
leb_int (negsuc a) (negsuc b) = leb b a

-- `a == b`
abbrev pub same_int : ℤ → ℤ → Bool
same_int (pos a) (pos b) = eqb a b
same_int (negsuc a) (negsuc b) = eqb a b
same_int _ _ = Bool.false

-- `a - b` without bound.
abbrev difference : ℕ → ℕ → ℤ
difference a b = if leb b a then pos (a - b) else negsuc (b - a - 1)

unfoldable pub minus : ℤ → ℤ → ℤ
minus (pos a) (pos b) = difference a b
minus (pos a) (negsuc b) = pos (a + suc b)
minus (negsuc a) (pos b) = negsuc (a + b)
minus (negsuc a) (negsuc b) = difference b a

negative : ℕ → ℤ
negative zero = pos 0
negative (suc n) = negsuc n

-- The value of the digits behind `n`, or `none` where a character is no digit.
digits : String → ℕ → Option ℕ
digits String.[] n = some n
digits (String.◌∷◌ c s) n =
    let rest = digits s (n * 10 + (code c - b'0')) in
    if leb b'0' (code c) && leb (code c) b'9' then rest else none

abbrev magnitude : String → Option ℕ
magnitude s = if is_empty s then none else digits s 0

abbrev below : ℕ → Option ℕ → Option ℤ
below limit none = none
below limit (some n) = if ltb n limit then some (pos n) else none

abbrev from_minus : ℕ → Option ℕ → Option ℤ
from_minus limit none = none
from_minus limit (some n) = if leb n limit then some (negative n) else none

-- `strconv.ParseInt(s, 10, w)`; `none` is an error, of syntax or of range.
unfoldable pub parse_int : ℕ → String → Option ℤ
unfolding digits negative
parse_int w String.[] = none
parse_int w (String.◌∷◌ c s) =
    if eqb (code c) b'-'
    then from_minus (2 ^ (w - 1)) (magnitude s)
    else if eqb (code c) b'+'
    then below (2 ^ (w - 1)) (magnitude s)
    else below (2 ^ (w - 1)) (magnitude (String.◌∷◌ c s))

abbrev below_nat : ℕ → Option ℕ → Option ℕ
below_nat limit none = none
below_nat limit (some n) = if ltb n limit then some n else none

-- `strconv.ParseUint(s, 10, w)`; `none` is an error, of syntax or of range.
unfoldable pub parse_uint : ℕ → String → Option ℕ
unfolding digits
parse_uint w s = below_nat (2 ^ w) (magnitude s)
