-- ===== src/Mapping/Bits.antt =====
-- The loop over bits of `map_add`: which bits are up in the mask that it makes.
use open_dax.Base.{
  ℕ, zero, suc, ◌+◌, ◌*◌, ◌<◌, ◌≤◌, ◌≡◌, ◌≢◌, ◌⊎◌, inl, inr, refl, ap, ◌∙◌, subst, true, false,
  Bool-cases, ◌==◌, leb, ltb, if◌then◌else◌, [], ◌∷◌, some, get_elem?, get_elem?-of_lt, set, length,
  length-set, ret, crash, and_then, or_crash, arith,
}
use open_dax.Base.Bits.{set_bit, bit_or-bound, pow-lt_byte}
use open_dax.Memory.{Block}
use open_dax.Memory.Flags.{flag, flag-set_self, flag-set_ne}
use open_dax.Mapping.{raise, next_byte, next_bit, mask_bits}

pub raise-small : (x b : ℕ) → b < 8 → raise x b ≡ set_bit x b
raise-small x b h = let e : ltb b 8 ≡ true = ground arith in rw e refl

pub not_wide : (b : ℕ) → b < 8 → leb 31 b ≡ false
not_wide b h = ground arith

-- The bytes of a block are bytes.
abbrev pub Bytes : Block → Type 0
Bytes [] = Unit {0}
Bytes (x ∷ xs) = (x < 256) × Bytes xs

pub Bytes-set : (t : Block) (i v : ℕ) → v < 256 → Bytes t → Bytes (set t i v)
Bytes-set [] i v h k = tt
Bytes-set (x ∷ xs) zero v h k = (h, k.1)
Bytes-set (x ∷ xs) (suc i) v h k = (k.0, Bytes-set xs i v h k.1)

pub Bytes-at : (t : Block) (i x : ℕ) → get_elem? t i ≡ some x → Bytes t → x < 256
Bytes-at [] i x e k = cc
Bytes-at (y ∷ ys) zero x e k = let same : y ≡ x = cc in subst (λ v. v < 256) same k.0
Bytes-at (y ∷ ys) (suc i) x e k = Bytes-at ys i x e k.1

set_bit-lt : (x b : ℕ) → b < 8 → x < 256 → set_bit x b < 256
unfolding set_bit
set_bit-lt x b hb hx = bit_or-bound 8 x _ hx (pow-lt_byte b hb)

-- A step to the next bit keeps the place in order.
pub step_place : (p i b : ℕ) → p ≡ 8 * i + b → b < 8 → p + 1 ≡ 8 * next_byte i b + next_bit b
step_place p i b e h = elim (Bool-cases (b + 1 == 8)) [
  | inl w ↦ rw w (ground (arith, w))
  | inr w ↦ rw w (omega arith)
]

pub step_small : (b : ℕ) → b < 8 → next_bit b < 8
step_small b h = elim (Bool-cases (b + 1 == 8)) [
  | inl w ↦ rw w (omega arith)
  | inr w ↦ rw w (ground (arith, w))
]

-- The `n` bits of `made` from `p` on are up, the others are those of `mask`.
pub record Raised (n p : ℕ) (mask made : Block) : Type 0 where
  pub inside : (k : ℕ) → k < n → flag made (p + k) ≡ true
  pub outside : (q : ℕ) → (q < p) ⊎ (p + n ≤ q) → flag made q ≡ flag mask q
  pub size : length made ≡ length mask
  pub bytes : Bytes mask → Bytes made

module _ (n p i b x : ℕ) (mask made : Block) (place : p ≡ 8 * i + b) (small : b < 8)
    (at : get_elem? mask i ≡ some x) (room : i < length mask)
    (v : Raised n (p + 1) (set mask i (set_bit x b)) made) where
  round-Raised : Raised (suc n) p mask made
  round-Raised = record {
    inside = inside;
    outside = outside;
    size = v.size ∙ length-set mask i _;
    bytes = λ k.
        v.bytes (Bytes-set mask i (set_bit x b) (set_bit-lt x b small (Bytes-at mask i x at k)) k);
  }
    where
      self : flag (set mask i (set_bit x b)) p ≡ true
      self = flag-set_self p i b x mask place small at room

      ne : (q : ℕ) → q ≢ p → flag (set mask i (set_bit x b)) q ≡ flag mask q
      ne q d = flag-set_ne p i b x mask place small at room q d

      inside : (k : ℕ) → k < suc n → flag made (p + k) ≡ true
      inside zero h = ap (flag made) (omega arith) ∙ v.outside p (inl (omega arith)) ∙ self
      inside (suc k) h = ap (flag made) {y = p + 1 + k} (omega arith) ∙ v.inside k (omega arith)

      outside : (q : ℕ) → (q < p) ⊎ (p + suc n ≤ q) → flag made q ≡ flag mask q
      outside q (inl h) = v.outside q (inl (omega arith)) ∙ ne q (λ e. absurd (omega arith))
      outside q (inr h) = v.outside q (inr (omega arith)) ∙ ne q (λ e. absurd (omega arith))

-- With room for its bits the loop for the mask returns.
pub mask_bits-Raised :
    (n p i b : ℕ) (mask : Block)
    → p ≡ 8 * i + b
    → b < 8
    → p + n ≤ 8 * length mask
    → (made : Block) × (mask_bits n i b mask ≡ ret made) × Raised n p mask made
unfolding mask_bits
mask_bits-Raised zero p i b mask place small room = (
  mask,
  refl,
  record { inside = λ k h. elim h [ ]; outside = λ q h. refl; size = refl; bytes = λ k. k },
)
mask_bits-Raised (suc n) p i b mask place small room =
    let (x, at) = get_elem?-of_lt mask i (omega arith) in
    let mask' = set mask i (set_bit x b) in
    let (made, h, v) =
      mask_bits-Raised n (p + 1) (next_byte i b) (next_bit b) mask' (step_place p i b place small)
        (step_small b small) (omega (arith, length-set mask i (set_bit x b))) in
    (
      made,
      (λ j.
            and_then (if not_wide b small j then crash else or_crash (at j))
              (λ x. mask_bits n (next_byte i b) (next_bit b) (set mask i (raise x b))))
          ∙ (λ j. mask_bits n (next_byte i b) (next_bit b) (set mask i (raise-small x b small j)))
          ∙ h,
      round-Raised n p i b x mask made place small at (omega arith) v,
    )
