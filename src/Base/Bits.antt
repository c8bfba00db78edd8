-- ===== src/Base/Bits.antt =====
-- Bytes and their bits: C's `&`, `|`, `^` and `~` on unsigned values, read bit by bit.
use Prim.Native.Nat.{
  ℕ, zero, suc, ◌+◌, ◌-◌, ◌*◌, ◌/◌, ◌%◌, ◌^◌, ◌≤◌, ◌<◌, min, max, digits, bit_and, bit_or,
  bit_and-bitwise, bit_or-bitwise,
}
use mathlib.Core.Path.{◌≡◌, refl, ap, ◌∙◌}
use mathlib.Core.Logic.{◌≢◌}
use mathlib.Core.Bool.{Bool}
use native.Mathlib.Omega.{arith}
use native.Mathlib.Nat.{pow-suc, one-le-pow, pow-le-pow_right}
use open_dax.Base.Tests.{◌==◌, if◌then◌else◌}

-- Bit `k` of a number: 0 or 1.
abbrev pub bit : ℕ → ℕ → ℕ
bit zero a = a % 2
bit (suc k) a = bit k (a / 2)

-- `a & (0x01 << k)`, as a test.
abbrev pub test_bit : ℕ → ℕ → Bool
test_bit a k = bit k a == 1

-- `a |= 0x01 << k`
unfoldable pub set_bit : ℕ → ℕ → ℕ
set_bit a k = bit_or a (2 ^ k)

-- `~a` on a byte.
abbrev pub not_byte : ℕ → ℕ
not_byte a = 255 - a

-- `a &= ~(0x01 << k)` on a byte.
unfoldable pub clear_bit : ℕ → ℕ → ℕ
clear_bit a k = bit_and a (not_byte (2 ^ k))

-- `(newdata & newmask) | (db & ~newmask)`
unfoldable pub mask_byte : ℕ → ℕ → ℕ → ℕ
mask_byte old new mask = bit_or (bit_and new mask) (bit_and old (not_byte mask))

-- Fuel beyond the first operand changes nothing.
module _ (z : ℕ → ℕ) (f : ℕ → ℕ → ℕ) where
  surplus : (a n m b : ℕ) → a ≤ n → a ≤ m → digits z f n a b ≡ digits z f m a b
  surplus a zero zero b p q = refl
  surplus zero zero (suc m) b p q = refl
  surplus (suc a) zero (suc m) b p q = elim p [ ]
  surplus zero (suc n) zero b p q = refl
  surplus (suc a) (suc n) zero b p q = elim q [ ]
  surplus zero (suc n) (suc m) b p q = refl
  surplus (suc a) (suc n) (suc m) b p q =
      ap (λ d. d * 2 + f (suc a % 2) (b % 2))
        (surplus (suc a / 2) n m (b / 2) (omega arith) (omega arith))

pub bit_and_lowest : (a b : ℕ) → bit_and a b ≡ bit_and (a / 2) (b / 2) * 2 + min (a % 2) (b % 2)
bit_and_lowest zero b = simp bit_and-bitwise (omega arith)
bit_and_lowest (suc a) b = simp bit_and-bitwise (
    omega
      (arith, surplus (λ y. 0) min (suc a / 2) a (suc a / 2) (b / 2) (omega arith) (omega arith)))

pub bit_or_lowest : (a b : ℕ) → bit_or a b ≡ bit_or (a / 2) (b / 2) * 2 + max (a % 2) (b % 2)
bit_or_lowest zero b = simp bit_or-bitwise (omega arith)
bit_or_lowest (suc a) b = simp bit_or-bitwise (
    omega
      (arith, surplus (λ y. y) max (suc a / 2) a (suc a / 2) (b / 2) (omega arith) (omega arith)))

pub bit-and : (k a b : ℕ) → bit k (bit_and a b) ≡ min (bit k a) (bit k b)
bit-and zero a b = omega (arith, bit_and_lowest a b)
bit-and (suc k) a b =
    ap (bit k) {x = bit_and a b / 2} {y = bit_and (a / 2) (b / 2)}
      (omega (arith, bit_and_lowest a b))
    ∙ bit-and k (a / 2) (b / 2)

pub bit-or : (k a b : ℕ) → bit k (bit_or a b) ≡ max (bit k a) (bit k b)
bit-or zero a b = omega (arith, bit_or_lowest a b)
bit-or (suc k) a b =
    ap (bit k) {x = bit_or a b / 2} {y = bit_or (a / 2) (b / 2)} (omega (arith, bit_or_lowest a b))
    ∙ bit-or k (a / 2) (b / 2)

pub bit-le-one : (k a : ℕ) → bit k a ≤ 1
bit-le-one zero a = omega arith
bit-le-one (suc k) a = bit-le-one k (a / 2)

-- The complement within `n` bits flips those bits.
pub bit-complement : (n k a : ℕ) → k < n → a < 2 ^ n → bit k (2 ^ n - 1 - a) ≡ 1 - bit k a
bit-complement zero k a h lt = elim h [ ]
bit-complement (suc n) zero a h lt = omega (arith, pow-suc 2 n, one-le-pow n 2)
bit-complement (suc n) (suc k) a h lt =
    ap (bit k) {x = (2 ^ suc n - 1 - a) / 2} {y = 2 ^ n - 1 - a / 2}
      (omega (arith, pow-suc 2 n, one-le-pow n 2))
    ∙ bit-complement n k (a / 2) (omega arith) (omega (arith, pow-suc 2 n))

pub bit-not_byte : (k a : ℕ) → k < 8 → a < 256 → bit k (not_byte a) ≡ 1 - bit k a
bit-not_byte k a hk ha = bit-complement 8 k a hk ha

-- A masked write takes the bits under the mask from the new byte, and the others from the old one.
pub bit-mask_byte :
    (k old new mask : ℕ)
    → k < 8
    → mask < 256
    → bit k (mask_byte old new mask) ≡ (if test_bit mask k then bit k new else bit k old)
unfolding mask_byte
bit-mask_byte k old new mask hk hm = ground (
  arith,
  bit-or k (bit_and new mask) (bit_and old (not_byte mask)),
  bit-and k new mask,
  bit-and k old (not_byte mask),
  bit-not_byte k mask,
  bit-le-one k new,
  bit-le-one k old,
  bit-le-one k mask,
)

pub bit-pow_self : (k : ℕ) → bit k (2 ^ k) ≡ 1
bit-pow_self zero = refl
bit-pow_self (suc k) =
    ap (bit k) {x = 2 ^ suc k / 2} {y = 2 ^ k} (omega (arith, pow-suc 2 k)) ∙ bit-pow_self k

bit-zero : (k : ℕ) → bit k 0 ≡ 0
bit-zero zero = refl
bit-zero (suc k) = bit-zero k

pub bit-pow_ne : (j k : ℕ) → j ≢ k → bit j (2 ^ k) ≡ 0
bit-pow_ne zero zero h = absurd (h refl)
bit-pow_ne zero (suc k) h = omega (arith, pow-suc 2 k)
bit-pow_ne (suc j) zero h = bit-zero j
bit-pow_ne (suc j) (suc k) h =
    ap (bit j) {x = 2 ^ suc k / 2} {y = 2 ^ k} (omega (arith, pow-suc 2 k))
    ∙ bit-pow_ne j k (λ e. h (ap suc e))

pub bit-set_bit_self : (k a : ℕ) → bit k (set_bit a k) ≡ 1
unfolding set_bit
bit-set_bit_self k a = omega (arith, bit-or k a (2 ^ k), bit-pow_self k, bit-le-one k a)

pub bit-set_bit_ne : (j k a : ℕ) → j ≢ k → bit j (set_bit a k) ≡ bit j a
unfolding set_bit
bit-set_bit_ne j k a h = omega (arith, bit-or j a (2 ^ k), bit-pow_ne j k h, bit-le-one j a)

pub pow-lt_byte : (k : ℕ) → k < 8 → 2 ^ k < 256
pow-lt_byte zero h = omega arith
pow-lt_byte (suc k) h =
    omega (arith, pow-le-pow_right {n = 2} (omega arith) {i = suc k} {j = 7} (omega arith))

pub bit-clear_bit_self : (k a : ℕ) → k < 8 → bit k (clear_bit a k) ≡ 0
unfolding clear_bit
bit-clear_bit_self k a h = omega (
  arith,
  bit-and k a (not_byte (2 ^ k)),
  bit-not_byte k (2 ^ k) h (pow-lt_byte k h),
  bit-pow_self k,
)

pub bit-clear_bit_ne : (j k a : ℕ) → j < 8 → k < 8 → j ≢ k → bit j (clear_bit a k) ≡ bit j a
unfolding clear_bit
bit-clear_bit_ne j k a hj hk h = omega (
  arith,
  bit-and j a (not_byte (2 ^ k)),
  bit-not_byte j (2 ^ k) hj (pow-lt_byte k hk),
  bit-pow_ne j k h,
  bit-le-one j a,
)

pub bit_or-bound : (n a b : ℕ) → a < 2 ^ n → b < 2 ^ n → bit_or a b < 2 ^ n
bit_or-bound zero a b ha hb =
    let e : a ≡ 0 = omega arith in let e' : b ≡ 0 = omega arith in rw (e, e') (omega arith)
bit_or-bound (suc n) a b ha hb = omega (
  arith,
  bit_or_lowest a b,
  pow-suc 2 n,
  bit_or-bound n (a / 2) (b / 2) (omega (arith, pow-suc 2 n)) (omega (arith, pow-suc 2 n)),
)

bit_and-bound : (n a b : ℕ) → a < 2 ^ n → b < 2 ^ n → bit_and a b < 2 ^ n
bit_and-bound zero a b ha hb =
    let e : a ≡ 0 = omega arith in let e' : b ≡ 0 = omega arith in rw (e, e') (omega arith)
bit_and-bound (suc n) a b ha hb = omega (
  arith,
  bit_and_lowest a b,
  pow-suc 2 n,
  bit_and-bound n (a / 2) (b / 2) (omega (arith, pow-suc 2 n)) (omega (arith, pow-suc 2 n)),
)

pub mask_byte-lt :
    (old new mask : ℕ) → old < 256 → new < 256 → mask < 256 → mask_byte old new mask < 256
unfolding mask_byte
mask_byte-lt old new mask ho hn hm =
    bit_or-bound 8 _ _ (bit_and-bound 8 new mask hn hm)
      (bit_and-bound 8 old (not_byte mask) ho (omega arith))
