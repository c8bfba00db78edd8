-- ===== src/Memory/Prefix.antt =====
-- Copies that stay within the first bytes of a block.
use open_dax.Base.{
  ℕ, zero, suc, ◌+◌, ◌≤◌, ◌≡◌, refl, ap, sym, ◌∙◌, [], ◌∷◌, ◌++◌, some, length, take, drop, arith,
  length-take, length-append,
}
use open_dax.Memory.{Block, slice, splice}
use open_dax.Memory.Copies.{take_append, slice-inside, splice-parts}
use mathlib.Core.List.{append_assoc}

take-take : (s n : ℕ) (xs : Block) → s ≤ n → take s (take n xs) ≡ take s xs
take-take zero n xs h = refl
take-take (suc s) zero xs h = elim h [ ]
take-take (suc s) (suc n) [] h = refl
take-take (suc s) (suc n) (x ∷ xs) h = ap (◌∷◌ x) (take-take s n xs (omega arith))

take-drop-take :
    (o s n : ℕ) (xs : Block) → o + s ≤ n → take s (drop o (take n xs)) ≡ take s (drop o xs)
take-drop-take zero s n xs h = take-take s n xs (omega arith)
take-drop-take (suc o) s zero xs h = absurd (omega arith)
take-drop-take (suc o) s (suc n) [] h = refl
take-drop-take (suc o) s (suc n) (x ∷ xs) h = take-drop-take o s n xs (omega arith)

pub slice-take :
    (offset size n : ℕ) (block : Block)
    → offset + size ≤ n
    → n ≤ length block
    → slice offset size block ≡ slice offset size (take n block)
slice-take offset size n block h k =
    slice-inside offset size block (omega arith)
    ∙ (ap some (sym (take-drop-take offset size n block h))
        ∙ sym (slice-inside offset size (take n block) (omega (arith, length-take n block))))

-- The first bytes of a block after a copy that ends there.
pub take-splice :
    (offset : ℕ) (bytes block block' : Block)
    → splice offset bytes block ≡ some block'
    → take (offset + length bytes) block' ≡ take offset block ++ bytes
take-splice offset bytes block block' e =
    let (fits, is) = splice-parts offset bytes block block' e in
    let rest = drop (offset + length bytes) block in
    let front = take offset block ++ bytes in
    ap (take (offset + length bytes)) (is ∙ sym (append_assoc (take offset block) bytes rest))
    ∙ (ap (λ n. take n (front ++ rest)) {x = offset + length bytes} {y = length front}
          (omega (arith, length-append (take offset block) bytes, length-take offset block))
        ∙ take_append front rest)

-- A copy from the front of two blocks.
pub slice-append :
    (offset size : ℕ) (xs ys : Block)
    → offset + size ≤ length xs
    → slice offset size (xs ++ ys) ≡ slice offset size xs
slice-append offset size xs ys h =
    slice-take offset size (length xs) (xs ++ ys) h (omega (arith, length-append xs ys))
    ∙ ap (slice offset size) (take_append xs ys)
