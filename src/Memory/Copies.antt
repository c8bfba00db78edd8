-- ===== src/Memory/Copies.antt =====
-- What copies read and write.
use open_dax.Base.{
  ℕ, zero, suc, ◌+◌, ◌-◌, ◌≤◌, ◌<◌, ◌≡◌, refl, ap, ◌∙◌, [], ◌∷◌, ◌++◌, none, some, arith, leb,
  length, take, drop, get_elem?, length-append, length-take, length-drop, get_elem?-append_left,
  get_elem?-append_right, get_elem?-take, get_elem?-drop, ◌⊎◌, inl, inr, Bool-cases,
}
use open_dax.Base.Int.{pos}
use open_dax.Memory.{Block, slice, splice, slice_int}

-- A copy from a block is defined within it.
pub slice-inside :
    (offset size : ℕ) (block : Block)
    → offset + size ≤ length block
    → slice offset size block ≡ some (take size (drop offset block))
unfolding slice
slice-inside offset size block h = ground arith

pub slice_int-inside :
    (offset size : ℕ) (block : Block)
    → offset + size ≤ length block
    → slice_int (pos offset) (pos size) block ≡ some (take size (drop offset block))
unfolding slice_int
slice_int-inside offset size block h = slice-inside offset size block h

pub slice-outside :
    (offset size : ℕ) (block : Block)
    → length block < offset + size
    → slice offset size block ≡ none
unfolding slice
slice-outside offset size block h = ground arith

pub slice-parts :
    (offset size : ℕ) (block bytes : Block)
    → slice offset size block ≡ some bytes
    → (offset + size ≤ length block) × (bytes ≡ take size (drop offset block))
unfolding slice
slice-parts offset size block bytes e = elim (Bool-cases (leb (offset + size) (length block))) [
  | inl t ↦
      let e' : some (take size (drop offset block)) ≡ some bytes = rw t at e in (ground arith, cc)
  | inr f ↦ let e' : none ≡ some bytes = rw f at e in cc
]

pub length-slice :
    (offset size : ℕ) (block bytes : Block)
    → slice offset size block ≡ some bytes
    → length bytes ≡ size
unfolding slice
length-slice offset size block bytes e =
    ground (arith, length-take size (drop offset block), length-drop offset block)

pub length-splice :
    (offset : ℕ) (bytes block block' : Block)
    → splice offset bytes block ≡ some block'
    → length block' ≡ length block
unfolding splice
length-splice offset bytes block block' e = ground (
  arith,
  length-append (take offset block) (bytes ++ drop (offset + length bytes) block),
  length-append bytes (drop (offset + length bytes) block),
  length-take offset block,
  length-drop (offset + length bytes) block,
)

pub take_append : (xs ys : Block) → take (length xs) (xs ++ ys) ≡ xs
take_append [] ys = refl
take_append (x ∷ xs) ys = ap (◌∷◌ x) (take_append xs ys)

pub drop_append : (xs ys : Block) (n : ℕ) → n ≡ length xs → drop n (xs ++ ys) ≡ ys
drop_append [] ys zero e = refl
drop_append [] ys (suc n) e = absurd (omega arith)
drop_append (x ∷ xs) ys zero e = absurd (omega arith)
drop_append (x ∷ xs) ys (suc n) e = drop_append xs ys n (omega arith)

pub splice-parts :
    (offset : ℕ) (bytes block block' : Block)
    → splice offset bytes block ≡ some block'
    → (offset + length bytes ≤ length block)
      × (block' ≡ take offset block ++ (bytes ++ drop (offset + length bytes) block))
unfolding splice
splice-parts offset bytes block block' e =
    elim (Bool-cases (leb (offset + length bytes) (length block))) [
      | inl t ↦
          let e' : some (take offset block ++ (bytes ++ drop (offset + length bytes) block))
              ≡ some block' =
            rw t at e in
          (ground arith, cc)
      | inr f ↦ let e' : none ≡ some block' = rw f at e in cc
    ]

-- What was copied to a block is what is then copied from there.
pub slice-splice :
    (offset : ℕ) (bytes block block' : Block)
    → splice offset bytes block ≡ some block'
    → slice offset (length bytes) block' ≡ some bytes
slice-splice offset bytes block block' e =
    let (fits, is) = splice-parts offset bytes block block' e in
    slice-inside offset (length bytes) block'
      (omega (arith, length-splice offset bytes block block' e))
    ∙ ap (λ b. some (take (length bytes) (drop offset b))) is
    ∙ ap (λ b. some (take (length bytes) b))
        (drop_append (take offset block) (bytes ++ drop (offset + length bytes) block) offset
          (omega (arith, length-take offset block)))
    ∙ ap some (take_append bytes (drop (offset + length bytes) block))

-- The other places keep their bytes.
pub get_elem?-splice_outside :
    (offset : ℕ) (bytes block block' : Block) (j : ℕ)
    → splice offset bytes block ≡ some block'
    → (j < offset) ⊎ (offset + length bytes ≤ j)
    → get_elem? block' j ≡ get_elem? block j
get_elem?-splice_outside offset bytes block block' j e (inl below) =
    let (fits, is) = splice-parts offset bytes block block' e in
    ap (λ b. get_elem? b j) is
    ∙ get_elem?-append_left (take offset block) _ j (omega (arith, length-take offset block))
    ∙ get_elem?-take offset j block below
get_elem?-splice_outside offset bytes block block' j e (inr above) =
    let (fits, is) = splice-parts offset bytes block block' e in
    ap (λ b. get_elem? b j) is
    ∙ ap (get_elem? (take offset block ++ (bytes ++ drop (offset + length bytes) block)))
        (omega (arith, length-take offset block))
    ∙ get_elem?-append_right (take offset block) (bytes ++ drop (offset + length bytes) block)
        (j - offset)
    ∙ ap (get_elem? (bytes ++ drop (offset + length bytes) block))
        {y = length bytes + (j - offset - length bytes)} (omega arith)
    ∙ get_elem?-append_right bytes (drop (offset + length bytes) block) (j - offset - length bytes)
    ∙ get_elem?-drop (offset + length bytes) (j - offset - length bytes) block
    ∙ ap (get_elem? block) (omega arith)

-- The places that were copied to have the new bytes.
pub get_elem?-splice_inside :
    (offset : ℕ) (bytes block block' : Block) (k : ℕ)
    → splice offset bytes block ≡ some block'
    → k < length bytes
    → get_elem? block' (offset + k) ≡ get_elem? bytes k
get_elem?-splice_inside offset bytes block block' k e h =
    let (fits, is) = splice-parts offset bytes block block' e in
    ap (λ b. get_elem? b (offset + k)) is
    ∙ ap (get_elem? (take offset block ++ (bytes ++ drop (offset + length bytes) block)))
        (omega (arith, length-take offset block))
    ∙ get_elem?-append_right (take offset block) (bytes ++ drop (offset + length bytes) block) k
    ∙ get_elem?-append_left bytes (drop (offset + length bytes) block) k h
