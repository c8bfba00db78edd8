-- ===== src/Base/Int.antt =====
-- C's `int`: an integer, with the tests that the server makes.
use Prim.Native.Nat.{ℕ, suc, ◌+◌, ◌-◌, ◌*◌, ◌^◌}
use mathlib.Core.Path.{◌≡◌, ap}
use mathlib.Core.Bool.{Bool, true, ◌||◌}
use native.Mathlib.Omega.{arith}
use open_dax.Base.Tests.{ltb, leb, ◌==◌, if◌then◌else◌}

-- `negsuc n` is -(n + 1).
pub data ℤ : Type 0 where
  pos : ℕ → ℤ
  negsuc : ℕ → ℤ

abbrev pub pos_part : ℤ → ℕ
pos_part (pos n) = n
pos_part (negsuc n) = 0

abbrev pub neg_part : ℤ → ℕ
neg_part (pos n) = 0
neg_part (negsuc n) = suc n

infixl 65 ◌+ℤ◌
abbrev pub sub_ℕ : ℕ → ℕ → ℤ
sub_ℕ a b = if leb b a then pos (a - b) else negsuc (b - a - 1)

abbrev pub ◌+ℤ◌ : ℤ → ℤ → ℤ
a +ℤ b = sub_ℕ (pos_part a + pos_part b) (neg_part a + neg_part b)

abbrev pub ltb_ℤ : ℤ → ℤ → Bool
ltb_ℤ a b = ltb (pos_part a + neg_part b) (pos_part b + neg_part a)

-- Whether the `int` sum of two `int`s is outside of its 32 bits.
abbrev pub add_overflows : ℤ → ℤ → Bool
add_overflows a b = ltb_ℤ (pos (2 ^ 31 - 1)) (a +ℤ b) || ltb_ℤ (a +ℤ b) (negsuc (2 ^ 31 - 1))

abbrev pub mul_ℤ : ℤ → ℤ → ℤ
mul_ℤ a b =
    sub_ℕ (pos_part a * pos_part b + neg_part a * neg_part b)
      (pos_part a * neg_part b + neg_part a * pos_part b)

-- Whether the integer is outside of the 32 bits of an `int`.
abbrev pub is_no_int : ℤ → Bool
is_no_int a = ltb_ℤ (pos (2 ^ 31 - 1)) a || ltb_ℤ a (negsuc (2 ^ 31 - 1))

-- The integer that a word of `w` bits stands for, `w` positive.
abbrev pub signed : ℕ → ℕ → ℤ
signed w n = if ltb n (2 ^ (w - 1)) then pos n else negsuc (2 ^ w - n - 1)

abbrev pub neg_ℤ : ℤ → ℤ
neg_ℤ a = sub_ℕ (neg_part a) (pos_part a)

abbrev pub equal_ℤ : ℤ → ℤ → Bool
equal_ℤ a b = (pos_part a + neg_part b) == (pos_part b + neg_part a)

pub equal_ℤ-self : (a : ℤ) → equal_ℤ a a ≡ true
equal_ℤ-self (pos n) = ground arith
equal_ℤ-self (negsuc n) = ground arith

pub equal_ℤ→eq : (a b : ℤ) → equal_ℤ a b ≡ true → a ≡ b
equal_ℤ→eq (pos m) (pos n) h = ap pos (ground arith)
equal_ℤ→eq (pos m) (negsuc n) h = ground arith
equal_ℤ→eq (negsuc m) (pos n) h = ground arith
equal_ℤ→eq (negsuc m) (negsuc n) h = ap negsuc (ground arith)
