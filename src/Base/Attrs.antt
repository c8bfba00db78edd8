-- ===== src/Base/Attrs.antt =====
-- C's `&= ~` on bytes and on words of 32 bits.
use Prim.Native.Nat.{ℕ, ◌-◌, ◌^◌, ◌<◌, bit_and}
use mathlib.Core.Path.{◌≡◌}
use mathlib.Core.Logic.{◌≢◌}
use native.Mathlib.Omega.{arith}
use native.Mathlib.Nat.{pow-le-pow_right}
use open_dax.Base.Bits.{
  bit, not_byte, bit-and, bit-complement, bit-pow_self, bit-pow_ne, bit-le-one,
}

-- `a & ~b` on bytes.
unfoldable pub and_not : ℕ → ℕ → ℕ
and_not a b = bit_and a (not_byte b)

-- `a &= ~(1 << k)` on a word of 32 bits.
unfoldable pub clear_attr : ℕ → ℕ → ℕ
clear_attr a k = bit_and a (2 ^ 32 - 1 - 2 ^ k)

pow-lt_word : (k : ℕ) → k < 32 → 2 ^ k < 2 ^ 32
pow-lt_word k h =
    omega (arith, pow-le-pow_right {n = 2} (omega arith) {i = k} {j = 31} (omega arith))

pub bit-clear_attr_self : (k a : ℕ) → k < 32 → bit k (clear_attr a k) ≡ 0
unfolding clear_attr
bit-clear_attr_self k a h = omega (
  arith,
  bit-and k a (2 ^ 32 - 1 - 2 ^ k),
  bit-complement 32 k (2 ^ k) h (pow-lt_word k h),
  bit-pow_self k,
)

pub bit-clear_attr_ne : (j k a : ℕ) → j < 32 → k < 32 → j ≢ k → bit j (clear_attr a k) ≡ bit j a
unfolding clear_attr
bit-clear_attr_ne j k a hj hk h = omega (
  arith,
  bit-and j a (2 ^ 32 - 1 - 2 ^ k),
  bit-complement 32 j (2 ^ k) hj (pow-lt_word k hk),
  bit-pow_ne j k h,
  bit-le-one j a,
)
