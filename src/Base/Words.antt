-- ===== src/Base/Words.antt =====
-- Go's uint64 and int64: sums and products wrap.
use Prim.Native.Nat.{ℕ, suc, ◌+◌, ◌-◌, ◌*◌, ◌%◌, ◌≤◌, ◌<◌}
use mathlib.Core.Path.{◌≡◌}
use mathlib.Core.Logic.{◌↔◌}
use mathlib.Core.Bool.{Bool, true, false}
use native.Mathlib.Omega.{arith}
use my_etcd.Base.Tests.{Eq, ltb, leb, nat_beq, if◌then◌else◌}

abbrev pub u64_mod : ℕ
u64_mod = 18446744073709551616

abbrev pub i64_lim : ℕ
i64_lim = 9223372036854775808

abbrev pub u64 : ℕ → ℕ
u64 n = n % 18446744073709551616

-- x - 1 in uint64.
abbrev pub u64_pred : ℕ → ℕ
u64_pred n = (n + 18446744073709551615) % 18446744073709551616

-- `negsuc n` is -(n + 1).
pub data ℤ : Type 0 where
  pos : ℕ → ℤ
  negsuc : ℕ → ℤ

abbrev pub pos_part : ℤ → ℕ
pos_part (pos n) = n
pos_part (negsuc n) = 0

abbrev pub neg_part : ℤ → ℕ
neg_part (pos n) = 0
neg_part (negsuc n) = suc n

abbrev pub sub_ℕ : ℕ → ℕ → ℤ
sub_ℕ a b = if leb b a then pos (a - b) else negsuc (b - a - 1)

infixl 65 ◌+ℤ◌ ◌-ℤ◌
abbrev pub ◌+ℤ◌ : ℤ → ℤ → ℤ
a +ℤ b = sub_ℕ (pos_part a + pos_part b) (neg_part a + neg_part b)

abbrev pub ◌-ℤ◌ : ℤ → ℤ → ℤ
a -ℤ b = sub_ℕ (pos_part a + neg_part b) (neg_part a + pos_part b)

abbrev pub scale : ℕ → ℤ → ℤ
scale k (pos n) = pos (n * k)
scale k (negsuc n) = sub_ℕ 0 (suc n * k)

abbrev pub ltb_ℤ : ℤ → ℤ → Bool
ltb_ℤ a b = ltb (pos_part a + neg_part b) (pos_part b + neg_part a)

infix 50 ◌<ℤ◌
abbrev pub ◌<ℤ◌ : ℤ → ℤ → Type 0
a <ℤ b = pos_part a + neg_part b < pos_part b + neg_part a

-- The two's complement pattern of an integer and back: what an int64 operation keeps.
to_u64 : ℤ → ℕ
to_u64 (pos n) = n % 18446744073709551616
to_u64 (negsuc n) = 18446744073709551615 - n % 18446744073709551616

of_u64 : ℕ → ℤ
of_u64 u = if ltb u 9223372036854775808 then pos u else negsuc (18446744073709551615 - u)

unfoldable pub i64 : ℤ → ℤ
unfolding to_u64 of_u64
i64 a = of_u64 (to_u64 a)

-- A value in the range of int64 is kept.
pub i64_pos : (n : ℕ) → n < 9223372036854775808 → i64 (pos n) ≡ pos n
unfolding i64
i64_pos n h = ground arith

-- A value in the upper half of the range wraps to a negative one.
pub i64_wrap :
    (n : ℕ)
    → 9223372036854775808 ≤ n
    → n < 18446744073709551616
    → i64 (pos n) ≡ negsuc (18446744073709551615 - n)
unfolding i64
i64_wrap n lo hi = ground arith

abbrev pub int_beq : ℤ → ℤ → Bool
int_beq (pos a) (pos b) = nat_beq a b
int_beq (negsuc a) (negsuc b) = nat_beq a b
int_beq (pos a) (negsuc b) = false
int_beq (negsuc a) (pos b) = false

pub int_beq_iff : (a b : ℤ) → (int_beq a b ≡ true) ↔ (a ≡ b)
int_beq_iff a b = ground arith

instance abbrev pub int_eq : Eq ℤ
int_eq = record { beq = int_beq; beq_iff = int_beq_iff }
