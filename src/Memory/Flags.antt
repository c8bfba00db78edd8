-- ===== src/Memory/Flags.antt =====
-- A block as a row of bits, the lowest of each byte first.
use open_dax.Base.{
  ℕ, zero, suc, ◌+◌, ◌*◌, ◌/◌, ◌%◌, ◌<◌, ◌≡◌, ◌≢◌, refl, ap, sym, ◌∙◌, Bool, true, false, ◌==◌,
  none, some, get_elem?, set, length, replicate, arith, get_elem?-set_self, get_elem?-set_ne,
}
use native.Mathlib.Decide.{ℕ_discrete}
use open_dax.Base.Bits.{test_bit, set_bit, bit-set_bit_self, bit-set_bit_ne}
use open_dax.Memory.{Block}

-- A condition on the bit at place `q` of a block; it fails outside of the block.
abbrev pub at_bit : (ℕ → ℕ → Bool) → Block → ℕ → Bool
at_bit holds b q = elim (get_elem? b (q / 8)) [ none ↦ false | some y ↦ holds y (q % 8) ]

-- The bit at place `q` of a block.
abbrev pub flag : Block → ℕ → Bool
flag b q = at_bit test_bit b q

pub flag-at :
    (t : Block) (q j k z : ℕ)
    → q / 8 ≡ j
    → q % 8 ≡ k
    → get_elem? t j ≡ some z
    → flag t q ≡ test_bit z k
flag-at t q j k z e f at =
    (λ l. elim (get_elem? t (e l)) [ none ↦ false | some y ↦ test_bit y (f l) ])
    ∙ (λ l. elim (at l) [ none ↦ false | some y ↦ test_bit y k ])

-- A bit of a byte that goes up is up in the block, and the other bits stay.
module _ (p i b x : ℕ) (t : Block) (place : p ≡ 8 * i + b) (small : b < 8)
    (at : get_elem? t i ≡ some x) (inside : i < length t) where
  pub flag-set_self : flag (set t i (set_bit x b)) p ≡ true
  flag-set_self =
      flag-at (set t i (set_bit x b)) p i b (set_bit x b) (omega arith) (omega arith)
        (get_elem?-set_self t i _ inside)
      ∙ ap (λ (v : ℕ). v == 1) (bit-set_bit_self b x)

  pub flag-set_ne : (q : ℕ) → q ≢ p → flag (set t i (set_bit x b)) q ≡ flag t q
  flag-set_ne q ne = elim (ℕ_discrete i (q / 8)) [
    | yes e ↦
        flag-at (set t i (set_bit x b)) q i (q % 8) (set_bit x b) (sym e) refl
          (get_elem?-set_self t i _ inside)
        ∙ ap (λ (v : ℕ). v == 1) (bit-set_bit_ne (q % 8) b x (λ f. ne (omega arith)))
        ∙ sym (flag-at t q i (q % 8) x (sym e) refl at)
    | no far ↦
        ap (λ o. elim o [ none ↦ false | some y ↦ test_bit y (q % 8) ])
          (get_elem?-set_ne t i (q / 8) _ far)
  ]

-- No bit is up in a block of zeros.
bit-of_zero : (k : ℕ) → test_bit 0 k ≡ false
bit-of_zero zero = refl
bit-of_zero (suc k) = bit-of_zero k

pub flag-replicate : (n q : ℕ) → flag (replicate n 0) q ≡ false
flag-replicate n q = go n (q / 8)
  where
    go :
        (n j : ℕ)
        → elim (get_elem? {A = ℕ} (replicate n 0) j) [ none ↦ false | some y ↦ test_bit y (q % 8) ]
          ≡ false
    go zero j = refl
    go (suc n) zero = bit-of_zero (q % 8)
    go (suc n) (suc j) = go n j
