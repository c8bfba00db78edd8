-- ===== src/Mapping/Copied.antt =====
-- What a masked write of moved bits leaves, bit by bit.
use open_dax.Base.{
  ℕ, zero, suc, ◌+◌, ◌*◌, ◌/◌, ◌%◌, ◌<◌, ◌≤◌, ◌≡◌, ◌⊎◌, refl, ap, ◌∙◌, Bool, true, false, ◌||◌,
  ◌==◌, if◌then◌else◌, [], ◌∷◌, none, some, get_elem?, get_elem?-drop, drop, length, replicate,
  arith,
}
use open_dax.Base.Bits.{bit, test_bit}
use open_dax.Memory.{Block}
use open_dax.Memory.Flags.{flag, flag-replicate}
use open_dax.Store.Masking.{Masked}
use open_dax.Mapping.Bits.{Bytes, Raised}
use open_dax.Mapping.Moved.{Moved}

-- The bits of a masked write, at byte `j` and bit `k`.
Masked-bit :
    (os ns ms rs : Block) (j k : ℕ)
    → Masked os ns ms rs
    → Bytes ms
    → k < 8
    → j < length os
    → elim (get_elem? rs j) [ none ↦ false | some y ↦ test_bit y k ] ≡ (
        if elim (get_elem? ms j) [ none ↦ false | some y ↦ test_bit y k ]
        then elim (get_elem? ns j) [ none ↦ false | some y ↦ test_bit y k ]
        else elim (get_elem? os j) [ none ↦ false | some y ↦ test_bit y k ])
Masked-bit [] ns ms [] j k m y h lt = elim lt [ ]
Masked-bit [] ns ms (r ∷ rs) j k m y h lt = elim m [ ]
Masked-bit (o ∷ os) [] ms rs j k m y h lt = elim m [ ]
Masked-bit (o ∷ os) (n ∷ ns) [] rs j k m y h lt = elim m [ ]
Masked-bit (o ∷ os) (n ∷ ns) (x ∷ ms) [] j k m y h lt = elim m [ ]
Masked-bit (o ∷ os) (n ∷ ns) (x ∷ ms) (r ∷ rs) zero k m y h lt =
    ap (λ (v : ℕ). v == 1) (m.0 k h y.0) ∙ chosen (test_bit x k)
  where
    chosen :
        (b : Bool)
        → ((if b then bit k n else bit k o) == 1) ≡ (if b then test_bit n k else test_bit o k)
    chosen true = refl
    chosen false = refl
Masked-bit (o ∷ os) (n ∷ ns) (x ∷ ms) (r ∷ rs) (suc j) k m y h lt =
    Masked-bit os ns ms rs j k m.1 y.1 h (omega arith)

pub flag-drop : (b : Block) (n q : ℕ) → flag (drop n b) q ≡ flag b (8 * n + q)
flag-drop b n q =
    (λ l. elim (get_elem?-drop n (q / 8) b l) [ none ↦ false | some y ↦ test_bit y (q % 8) ])
    ∙ (λ l. elim (get_elem? b (place l)) [ none ↦ false | some y ↦ test_bit y (spot l) ])
  where
    place : n + q / 8 ≡ (8 * n + q) / 8
    place = omega arith

    spot : q % 8 ≡ (8 * n + q) % 8
    spot = omega arith

-- What a copy of bits leaves: the `n` bits of the destination from `q` on are those of the source from
-- `p` on, and the others up to `size` bytes are those before.
pub record BitsCopied (n p q size : ℕ) (src before after : Block) : Type 0 where
  pub copied : (k : ℕ) → k < n → flag after (q + k) ≡ flag src (p + k)
  pub others : (r : ℕ) → r < 8 * size → (r < q) ⊎ (q + n ≤ r) → flag after r ≡ flag before r

pub Masked-BitsCopied :
    (n p q size : ℕ) (src before new mask after : Block)
    → q + n ≤ 8 * size
    → size ≡ length before
    → Raised n q (replicate size 0) mask
    → Moved n p q src (replicate size 0) new
    → Bytes mask
    → Masked before new mask after
    → BitsCopied n p q size src before after
Masked-BitsCopied n p q size src before new mask after room len r v y m = record {
  copied = λ k h.
      chosen (q + k) (omega (arith, len))
      ∙ (λ l. if r.inside k h l then flag new (q + k) else flag before (q + k))
      ∙ v.inside k h
      ∙ (λ l. flag src (p + k) || flag-replicate size (q + k) l)
      ∙ or_false (flag src (p + k));
  others = λ x lt out.
      chosen x (omega (arith, len))
      ∙ (λ l. if (r.outside x out ∙ flag-replicate size x) l then flag new x else flag before x);
}
  where
    or_false : (b : Bool) → (b || false) ≡ b
    or_false true = refl
    or_false false = refl

    chosen :
        (x : ℕ)
        → x / 8 < length before
        → flag after x ≡ (if flag mask x then flag new x else flag before x)
    chosen x lt = Masked-bit before new mask after (x / 8) (x % 8) m y (omega arith) lt

pub Bytes-replicate : (n : ℕ) → Bytes (replicate n 0)
Bytes-replicate zero = tt
Bytes-replicate (suc n) = (omega arith, Bytes-replicate n)
