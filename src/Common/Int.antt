-- ===== src/Common/Int.antt =====
-- Signed integers over the native numbers: Go's int and time.Duration, which are 64-bit.
use Prim.Native.Nat.{ℕ, suc, ◌+◌, ◌-◌, ◌*◌, ◌/◌, ◌%◌, ◌≤◌, ◌<◌}
use mathlib.Core.Path.{◌≡◌, refl}
use mathlib.Core.Bool.{Bool}
use native.Mathlib.Omega.{arith}
use app_catalogo.Common.Tests.{ltb, leb, if◌then◌else◌}

-- `negsuc n` is -(n + 1).
pub data ℤ : Type 0 where
  pos : ℕ → ℤ
  negsuc : ℕ → ℤ

abbrev pub pos_part : ℤ → ℕ
pos_part (pos n) = n
pos_part (negsuc n) = 0

abbrev pub neg_part : ℤ → ℕ
neg_part (pos n) = 0
neg_part (negsuc n) = suc n

-- a - b, as an integer.
abbrev pub sub_ℕ : ℕ → ℕ → ℤ
sub_ℕ a b = if leb b a then pos (a - b) else negsuc (b - a - 1)

infixl 65 ◌+ℤ◌ ◌-ℤ◌
infix 50 ◌≤ℤ◌ ◌<ℤ◌
abbrev pub ◌+ℤ◌ : ℤ → ℤ → ℤ
a +ℤ b = sub_ℕ (pos_part a + pos_part b) (neg_part a + neg_part b)

abbrev pub ◌-ℤ◌ : ℤ → ℤ → ℤ
a -ℤ b = sub_ℕ (pos_part a + neg_part b) (neg_part a + pos_part b)

abbrev pub ◌≤ℤ◌ : ℤ → ℤ → Type 0
a ≤ℤ b = pos_part a + neg_part b ≤ pos_part b + neg_part a

abbrev pub ◌<ℤ◌ : ℤ → ℤ → Type 0
a <ℤ b = pos_part a + neg_part b < pos_part b + neg_part a

abbrev pub ltb_ℤ : ℤ → ℤ → Bool
ltb_ℤ a b = ltb (pos_part a + neg_part b) (pos_part b + neg_part a)

abbrev pub leb_ℤ : ℤ → ℤ → Bool
leb_ℤ a b = leb (pos_part a + neg_part b) (pos_part b + neg_part a)

-- Go's division by two, which rounds towards zero.
abbrev pub half_ℤ : ℤ → ℤ
half_ℤ (pos n) = pos (n / 2)
half_ℤ (negsuc n) = sub_ℕ 0 ((n + 1) / 2)

-- The two's complement reading of a 64-bit pattern.
abbrev pub signed64 : ℕ → ℤ
signed64 m = if ltb m 9223372036854775808 then pos m else negsuc (18446744073709551615 - m)

-- `x *= 2` on int64, with its wrap-around.
unfoldable pub double64 : ℤ → ℤ
double64 (pos n) = signed64 ((2 * n) % 18446744073709551616)
double64 (negsuc n) =
    signed64 ((18446744073709551616 - (2 * n + 2) % 18446744073709551616) % 18446744073709551616)

-- 2 ^ 62, the largest duration whose double may leave the int64 range.
abbrev pub half_range : ℕ
half_range = 4611686018427387904

pub double64_small : (n : ℕ) → n < half_range → double64 (pos n) ≡ pos (2 * n)
unfolding double64
double64_small n h = ground arith

double64_wraps : double64 (pos half_range) ≡ negsuc 9223372036854775807
unfolding double64
double64_wraps = refl

-- `3 * x` on int64, for x ≥ 0, with its wrap-around.
unfoldable pub triple64 : ℕ → ℤ
triple64 n = signed64 ((3 * n) % 18446744073709551616)

-- Go's division by four, which rounds towards zero.
abbrev pub quarter_ℤ : ℤ → ℤ
quarter_ℤ (pos n) = pos (n / 4)
quarter_ℤ (negsuc n) = sub_ℕ 0 ((n + 1) / 4)
