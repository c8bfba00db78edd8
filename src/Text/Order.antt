-- ===== src/Text/Order.antt =====
-- `strcmp` is a strict total order.
use open_dax.Base.{Ordering, ◌≡◌, refl, [], ◌∷◌, arith}
use open_dax.Text.{CString, strcmp}

pub strcmp_refl : (a : CString) → strcmp a a ≡ Ordering.eq
unfolding strcmp
strcmp_refl [] = refl
strcmp_refl (x ∷ xs) = ground (arith, strcmp_refl xs)

pub eq-of_strcmp : (a b : CString) → strcmp a b ≡ Ordering.eq → a ≡ b
unfolding strcmp
eq-of_strcmp [] [] h = refl
eq-of_strcmp [] (y ∷ ys) h = cc
eq-of_strcmp (x ∷ xs) [] h = cc
eq-of_strcmp (x ∷ xs) (y ∷ ys) h = ground (arith, eq-of_strcmp xs ys)

pub strcmp_swap : (a b : CString) → strcmp a b ≡ Ordering.lt → strcmp b a ≡ Ordering.gt
unfolding strcmp
strcmp_swap [] [] h = cc
strcmp_swap [] (y ∷ ys) h = refl
strcmp_swap (x ∷ xs) [] h = cc
strcmp_swap (x ∷ xs) (y ∷ ys) h = ground (arith, strcmp_swap xs ys)

pub strcmp_swap_gt : (a b : CString) → strcmp a b ≡ Ordering.gt → strcmp b a ≡ Ordering.lt
unfolding strcmp
strcmp_swap_gt [] [] h = cc
strcmp_swap_gt [] (y ∷ ys) h = cc
strcmp_swap_gt (x ∷ xs) [] h = refl
strcmp_swap_gt (x ∷ xs) (y ∷ ys) h = ground (arith, strcmp_swap_gt xs ys)

pub strcmp_trans :
    (a b c : CString)
    → strcmp a b ≡ Ordering.lt
    → strcmp b c ≡ Ordering.lt
    → strcmp a c ≡ Ordering.lt
unfolding strcmp
strcmp_trans [] [] c p q = cc
strcmp_trans [] (y ∷ ys) [] p q = cc
strcmp_trans [] (y ∷ ys) (z ∷ zs) p q = refl
strcmp_trans (x ∷ xs) [] c p q = cc
strcmp_trans (x ∷ xs) (y ∷ ys) [] p q = cc
strcmp_trans (x ∷ xs) (y ∷ ys) (z ∷ zs) p q = ground (arith, strcmp_trans xs ys zs)
