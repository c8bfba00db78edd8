-- ===== src/NameIndex/Search.antt =====
-- The binary search of `_get_by_name`, `_add_index` and `_del_index` ends with the right place.
use native.Mathlib.Decide.{dec_lt}
use open_dax.Base.{
  ℕ, zero, suc, ◌+◌, ◌-◌, ◌/◌, ◌≤◌, ◌<◌, ◌≡◌, refl, sym, ap, ◌∙◌, subst, inl, inr, List, some,
  arith, ltb, length, get_elem?, get_elem?-of_lt, Ordering, Bool-cases, lt-of_get_elem?,
}
use open_dax.Text.{CString, strcmp}
use open_dax.Text.Order.{strcmp_trans, strcmp_swap, strcmp_swap_gt, eq-of_strcmp}
use open_dax.NameIndex.{Entry, Hit, found, missing, narrow, probe, search, locate}
use open_dax.NameIndex.Sorted.{IsSorted, IsSorted-get_elem?, Belongs, Belongs-of_bounds}

-- What the end of a search says of the entries.
abbrev pub Ends : CString → List Entry → Hit → Type 0
Ends name es (found n) = (e : Entry) × (get_elem? es n ≡ some e) × (name ≡ e.name)
Ends name es (missing n) = Belongs name n es

module _ (name : CString) (es : List Entry) where
  -- The entries before `lo` are less than the name.
  abbrev Before : ℕ → Type 0
  Before lo =
      (i : ℕ) (e : Entry) → i < lo → get_elem? es i ≡ some e → strcmp name e.name ≡ Ordering.gt

  -- The entries from `hi` on are greater than the name.
  abbrev After : ℕ → Type 0
  After hi =
      (i : ℕ) (e : Entry) → ¬ (i < hi) → get_elem? es i ≡ some e → strcmp name e.name ≡ Ordering.lt

  lower_try :
      (try : ℕ) (x : Entry)
      → IsSorted es
      → get_elem? es try ≡ some x
      → strcmp name x.name ≡ Ordering.gt
      → Before (try + 1)
  lower_try try x sorted at gt i e h here = elim (dec_lt i try) [
    | yes less ↦ strcmp_swap e.name name (
        strcmp_trans e.name x.name name (IsSorted-get_elem? es i try e x sorted less here at)
          (strcmp_swap_gt name x.name gt))
    | no not_less ↦
        let eq : i ≡ try = omega arith in
        let same : some x ≡ some e = sym at ∙ ap (get_elem? es) (sym eq) ∙ here in
        let eq' : x ≡ e = cc in subst (λ y. strcmp name y.name ≡ Ordering.gt) eq' gt
  ]

  upper_try :
      (try : ℕ) (x : Entry)
      → IsSorted es
      → get_elem? es try ≡ some x
      → strcmp name x.name ≡ Ordering.lt
      → After try
  upper_try try x sorted at lt i e h here = elim (dec_lt try i) [
    | yes more ↦
        strcmp_trans name x.name e.name lt (IsSorted-get_elem? es try i x e sorted more at here)
    | no not_more ↦
        let eq : i ≡ try = omega arith in
        let same : some x ≡ some e = sym at ∙ ap (get_elem? es) (sym eq) ∙ here in
        let eq' : x ≡ e = cc in subst (λ y. strcmp name y.name ≡ Ordering.lt) eq' lt
  ]

  narrow-Ends :
      (again : ℕ → ℕ → Hit) (lo hi try : ℕ) (x : Entry) (o : Ordering)
      → get_elem? es try ≡ some x
      → strcmp name x.name ≡ o
      → (o ≡ Ordering.gt → Ends name es (again (try + 1) hi))
      → (o ≡ Ordering.lt → Ends name es (again lo try))
      → Ends name es (narrow again lo hi try o)
  unfolding narrow
  narrow-Ends again lo hi try x Ordering.gt at e right left = right refl
  narrow-Ends again lo hi try x Ordering.lt at e right left = left refl
  narrow-Ends again lo hi try x Ordering.eq at e right left = (x, at, eq-of_strcmp name x.name e)

  -- With fuel for the width of the range, the search ends at the entry with the name, or at the
  -- place where the name belongs.
  search-Ends :
      (fuel lo hi : ℕ)
      → IsSorted es
      → lo ≤ hi
      → hi ≤ length es
      → hi ≤ lo + fuel
      → Before lo
      → After hi
      → Ends name es (search fuel name es lo hi)
  unfolding search probe
  search-Ends zero lo hi sorted ordered fits enough before after =
      Belongs-of_bounds name lo es before (λ i e h. after i e (λ less. h (omega arith)))
        (omega arith)
  search-Ends (suc fuel) lo hi sorted ordered fits enough before after =
      elim (Bool-cases (ltb lo hi)) [
        | inr done ↦ rw done (
            Belongs-of_bounds name lo es before (λ i e h. after i e (λ less. h (ground arith)))
              (omega arith))
        | inl more ↦
            let try = lo + (hi - 1 - lo) / 2 in
            let inside : try < hi = ground arith in
            let (x, at) = get_elem?-of_lt es try (omega arith) in
            rw (more, at, probe)
              (narrow-Ends (search fuel name es) lo hi try x (strcmp name x.name) at refl
                (λ gt.
                  search-Ends fuel (try + 1) hi sorted (omega arith) fits (omega arith)
                    (lower_try try x sorted at gt) after)
                (λ lt.
                  search-Ends fuel lo try sorted (omega arith) (omega arith) (omega arith) before
                    (upper_try try x sorted at lt)))
      ]

  -- In a sorted index `locate` finds the name, or the place where it belongs.
  pub locate-Ends : IsSorted es → Ends name es (locate name es)
  unfolding locate
  locate-Ends sorted =
      search-Ends (length es) 0 (length es) sorted (omega arith) (omega arith) (omega arith)
        (λ i e h at. elim h [ ]) (λ i e h at. absurd (h (lt-of_get_elem? es i e at)))
