-- ===== src/Memory/Pieces.antt =====
-- Bytes that come in pieces.
use open_dax.Base.{◌<◌, ◌≡◌, refl, ap, sym, ◌∙◌, List, [], ◌∷◌, ◌++◌, length, take, drop}
use open_dax.Memory.{Block}
use open_dax.Memory.Copies.{take_append, drop_append}

-- The pieces in one.
unfoldable pub joined : List Block → Block
joined [] = []
joined (piece ∷ pieces) = piece ++ joined pieces

abbrev pub NotEmpty : List Block → Type 0
NotEmpty [] = Unit
NotEmpty (piece ∷ pieces) = (0 < length piece) × NotEmpty pieces

-- Two cuts of the same bytes at the same place.
pub append-split :
    (xs ys zs ws : Block) → length xs ≡ length ys → xs ++ zs ≡ ys ++ ws → (xs ≡ ys) × (zs ≡ ws)
append-split xs ys zs ws n e = (
  sym (take_append xs zs)
      ∙ (ap (λ i. take i (xs ++ zs)) n ∙ (ap (take (length ys)) e ∙ take_append ys ws)),
  sym (drop_append xs zs (length ys) (sym n))
      ∙ (ap (drop (length ys)) e ∙ drop_append ys ws (length ys) refl),
)
