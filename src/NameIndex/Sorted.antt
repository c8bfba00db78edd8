-- ===== src/NameIndex/Sorted.antt =====
-- The index against an association list: what a sorted list of entries holds.
use open_dax.Base.{
  ℕ, zero, suc, ◌<◌, ◌≡◌, refl, subst, List, [], ◌∷◌, Option, none, some, arith, length, get_elem?,
  Ordering, if◌then◌else◌, Bool, true, false,
}
use open_dax.Text.{CString, strcmp}
use open_dax.Text.Order.{strcmp_trans}
use open_dax.NameIndex.{Entry}

-- Every entry's name comes after `name`.
abbrev pub AllAfter : CString → List Entry → Type 0
AllAfter name [] = Unit {0}
AllAfter name (e ∷ es) = (strcmp name e.name ≡ Ordering.lt) × AllAfter name es

-- The names rise strictly.
abbrev pub IsSorted : List Entry → Type 0
IsSorted [] = Unit {0}
IsSorted (e ∷ es) = AllAfter e.name es × IsSorted es

-- `strcmp(a, b) == 0`
abbrev pub same_name : CString → CString → Bool
same_name a b = elim (strcmp a b) [ Ordering.eq ↦ true | _ ↦ false ]

-- The reference definition: the first entry with the name.
unfoldable pub assoc : CString → List Entry → Option ℕ
assoc name [] = none
assoc name (e ∷ es) = if same_name name e.name then some e.tag_idx else assoc name es

pub AllAfter-trans :
    (a b : CString) (es : List Entry) → strcmp a b ≡ Ordering.lt → AllAfter b es → AllAfter a es
AllAfter-trans a b [] h all = tt
AllAfter-trans a b (e ∷ es) h all = (strcmp_trans a b e.name h all.0, AllAfter-trans a b es h all.1)

pub AllAfter-get_elem? :
    (name : CString) (es : List Entry) (i : ℕ) (e : Entry)
    → AllAfter name es
    → get_elem? es i ≡ some e
    → strcmp name e.name ≡ Ordering.lt
AllAfter-get_elem? name [] i e all at = cc
AllAfter-get_elem? name (x ∷ es) zero e all at =
    subst (λ o. elim o [ none ↦ Unit {0} | some y ↦ strcmp name y.name ≡ Ordering.lt ]) at all.0
AllAfter-get_elem? name (x ∷ es) (suc i) e all at = AllAfter-get_elem? name es i e all.1 at

-- Of two places the later has the greater name.
pub IsSorted-get_elem? :
    (es : List Entry) (i j : ℕ) (a b : Entry)
    → IsSorted es
    → i < j
    → get_elem? es i ≡ some a
    → get_elem? es j ≡ some b
    → strcmp a.name b.name ≡ Ordering.lt
IsSorted-get_elem? [] i j a b s h p q = cc
IsSorted-get_elem? (x ∷ es) zero zero a b s h p q = elim h [ ]
IsSorted-get_elem? (x ∷ es) zero (suc j) a b s h p q =
    subst (λ o. elim o [ none ↦ Unit {0} | some y ↦ strcmp y.name b.name ≡ Ordering.lt ]) p
      (AllAfter-get_elem? x.name es j b s.0 q)
IsSorted-get_elem? (x ∷ es) (suc i) zero a b s h p q = elim h [ ]
IsSorted-get_elem? (x ∷ es) (suc i) (suc j) a b s h p q =
    IsSorted-get_elem? es i j a b s.1 (omega arith) p q

-- A place where a name belongs: the entries before it are less, those from it on are greater.
abbrev pub Belongs : CString → ℕ → List Entry → Type 0
Belongs name zero es = AllAfter name es
Belongs name (suc n) [] = ⊥
Belongs name (suc n) (e ∷ es) = (strcmp name e.name ≡ Ordering.gt) × Belongs name n es

pub Belongs-of_bounds :
    (name : CString) (n : ℕ) (es : List Entry)
    → ((i : ℕ) (e : Entry) → i < n → get_elem? es i ≡ some e → strcmp name e.name ≡ Ordering.gt)
    → ((i : ℕ) (e : Entry) → ¬ (i < n) → get_elem? es i ≡ some e → strcmp name e.name ≡ Ordering.lt)
    → ¬ (length es < n)
    → Belongs name n es
Belongs-of_bounds name zero [] lo hi fits = tt
Belongs-of_bounds name zero (e ∷ es) lo hi fits = (
  hi zero e (omega arith) refl,
  Belongs-of_bounds name zero es (λ i x h at. elim h [ ])
      (λ i x h at. hi (suc i) x (omega arith) at) (omega arith),
)
Belongs-of_bounds name (suc n) [] lo hi fits = fits (omega arith)
Belongs-of_bounds name (suc n) (e ∷ es) lo hi fits = (
  lo zero e (omega arith) refl,
  Belongs-of_bounds name n es (λ i x h at. lo (suc i) x (omega arith) at)
      (λ i x h at. hi (suc i) x (omega arith) at) (omega arith),
)
