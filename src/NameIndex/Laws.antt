-- ===== src/NameIndex/Laws.antt =====
-- What `_get_by_name`, `_add_index` and `_del_index` do to the names that the index holds.
use open_dax.Base.{
  ℕ, zero, suc, ◌≡◌, refl, sym, ap, ◌∙◌, List, [], ◌∷◌, Option, none, some, arith, if◌then◌else◌,
  get_elem?, insert_at, remove_at, Ordering, true, Result, ret, fail, crash,
}
use open_dax.Text.{CString, strcmp}
use open_dax.Text.Order.{strcmp_refl, strcmp_swap, strcmp_swap_gt, eq-of_strcmp}
use open_dax.NameIndex.{
  Entry, Hit, found, missing, locate, tag_at, get_by_name, add_at, add_index, del_at, del_index,
}
use open_dax.NameIndex.Sorted.{AllAfter, IsSorted, same_name, assoc, AllAfter-get_elem?, Belongs}
use open_dax.NameIndex.Search.{Ends, locate-Ends}

AllAfter-assoc : (name : CString) (es : List Entry) → AllAfter name es → assoc name es ≡ none
unfolding assoc
AllAfter-assoc name [] all = refl
AllAfter-assoc name (e ∷ es) all = ground (arith, AllAfter-assoc name es all.1)

Belongs-assoc :
    (name : CString) (n : ℕ) (es : List Entry) → Belongs name n es → assoc name es ≡ none
unfolding assoc
Belongs-assoc name zero es b = AllAfter-assoc name es b
Belongs-assoc name (suc n) [] b = elim b [ ]
Belongs-assoc name (suc n) (e ∷ es) b = ground (arith, Belongs-assoc name n es b.1)

assoc-at :
    (name : CString) (n : ℕ) (es : List Entry) (e : Entry)
    → IsSorted es
    → get_elem? es n ≡ some e
    → name ≡ e.name
    → assoc name es ≡ some e.tag_idx
unfolding assoc
assoc-at name n [] e sorted at same = cc
assoc-at name zero (x ∷ es) e sorted at same =
    let eq : x ≡ e = cc in ground (arith, strcmp_refl e.name, eq)
assoc-at name (suc n) (x ∷ es) e sorted at same =
    let later = AllAfter-get_elem? x.name es n e sorted.0 at in
    ground (arith, strcmp_swap x.name e.name later, assoc-at name n es e sorted.1 at same)

-- On a sorted index `_get_by_name` gives what a search from the front gives.
pub get_by_name-assoc :
    (name : CString) (es : List Entry) → IsSorted es → get_by_name name es ≡ assoc name es
unfolding get_by_name tag_at
get_by_name-assoc name es sorted = at_end (locate name es) (locate-Ends name es sorted)
  where
    at_end : (h : Hit) → Ends name es h → tag_at es h ≡ assoc name es
    at_end (found n) (e, at, same) = rw (at, tag_at) (sym (assoc-at name n es e sorted at same))
    at_end (missing n) b = sym (Belongs-assoc name n es b)

-- Inserting.

AllAfter-insert_at :
    (name : CString) (n : ℕ) (v : Entry) (es : List Entry)
    → strcmp name v.name ≡ Ordering.lt
    → AllAfter name es
    → AllAfter name (insert_at n v es)
AllAfter-insert_at name zero v es h all = (h, all)
AllAfter-insert_at name (suc n) v [] h all = (h, tt)
AllAfter-insert_at name (suc n) v (e ∷ es) h all = (all.0, AllAfter-insert_at name n v es h all.1)

insert_at-IsSorted :
    (n : ℕ) (v : Entry) (es : List Entry)
    → IsSorted es
    → Belongs v.name n es
    → IsSorted (insert_at n v es)
insert_at-IsSorted zero v es sorted b = (b, sorted)
insert_at-IsSorted (suc n) v [] sorted b = elim b [ ]
insert_at-IsSorted (suc n) v (e ∷ es) sorted b = (
  AllAfter-insert_at e.name n v es (strcmp_swap_gt v.name e.name b.0) sorted.0,
  insert_at-IsSorted n v es sorted.1 b.1,
)

same_name-eq : (a b : CString) → same_name a b ≡ true → a ≡ b
same_name-eq a b h = eq-of_strcmp a b (ground arith)

assoc-insert_at :
    (k : CString) (n : ℕ) (v : Entry) (es : List Entry)
    → Belongs v.name n es
    → assoc k (insert_at n v es) ≡ (if same_name k v.name then some v.tag_idx else assoc k es)
unfolding assoc
assoc-insert_at k zero v es b = refl
assoc-insert_at k (suc n) v [] b = elim b [ ]
assoc-insert_at k (suc n) v (e ∷ es) b =
    ground (arith, assoc-insert_at k n v es b.1, eq-of_strcmp k v.name)

-- Removing.

AllAfter-remove_at :
    (name : CString) (n : ℕ) (es : List Entry) → AllAfter name es → AllAfter name (remove_at n es)
AllAfter-remove_at name n [] all = tt
AllAfter-remove_at name zero (e ∷ es) all = all.1
AllAfter-remove_at name (suc n) (e ∷ es) all = (all.0, AllAfter-remove_at name n es all.1)

remove_at-IsSorted : (n : ℕ) (es : List Entry) → IsSorted es → IsSorted (remove_at n es)
remove_at-IsSorted n [] sorted = tt
remove_at-IsSorted zero (e ∷ es) sorted = sorted.1
remove_at-IsSorted (suc n) (e ∷ es) sorted =
    (AllAfter-remove_at e.name n es sorted.0, remove_at-IsSorted n es sorted.1)

assoc-remove_at :
    (k name : CString) (n : ℕ) (es : List Entry) (v : Entry)
    → IsSorted es
    → get_elem? es n ≡ some v
    → name ≡ v.name
    → assoc k (remove_at n es) ≡ (if same_name k name then none else assoc k es)
unfolding assoc
assoc-remove_at k name n [] v sorted at same = cc
assoc-remove_at k name zero (e ∷ es) v sorted at same =
    let eq : e ≡ v = cc in
    ground
      (arith, eq, eq-of_strcmp k name, AllAfter-assoc e.name es sorted.0, eq-of_strcmp k e.name)
assoc-remove_at k name (suc n) (e ∷ es) v sorted at same =
    let later = AllAfter-get_elem? e.name es n v sorted.0 at in
    ground (
      arith,
      assoc-remove_at k name n es v sorted.1 at same,
      eq-of_strcmp k e.name,
      strcmp_swap e.name v.name later,
    )

-- What the index holds after an operation: it stays sorted, and a name is found as `lookup` says.
abbrev pub Holds : (CString → Option ℕ) → Result (List Entry) → Type 0
Holds lookup (ret es) = IsSorted es × ((k : CString) → get_by_name k es ≡ lookup k)
Holds lookup (fail e) = ⊥
Holds lookup crash = ⊥

-- Adding a name that a sorted index lacks keeps it sorted, makes the name's place known, and changes
-- no other name's.
pub add_index-Holds :
    (name : CString) (idx : ℕ) (es : List Entry)
    → IsSorted es
    → get_by_name name es ≡ none
    → Holds (λ k. if same_name k name then some idx else get_by_name k es) (add_index name idx es)
unfolding add_index add_at
add_index-Holds name idx es sorted absent = at_end (locate name es) (locate-Ends name es sorted)
  where
    at_end :
        (h : Hit)
        → Ends name es h
        → Holds
            (λ k. if same_name k name then some idx else get_by_name k es)
            (add_at name idx es h)
    at_end (found n) (e, at, same) =
        let there = assoc-at name n es e sorted at same in
        let lost = get_by_name-assoc name es sorted in cc
    at_end (missing n) b =
        let entry : Entry = record { name = name; tag_idx = idx } in
        let sorted' = insert_at-IsSorted n entry es sorted b in
        (
          sorted',
          λ k.
              get_by_name-assoc k (insert_at n entry es) sorted'
              ∙ assoc-insert_at k n entry es b
              ∙ ap (λ o. if same_name k name then some idx else o)
                  (sym (get_by_name-assoc k es sorted)),
        )

-- Deleting a name that a sorted index holds keeps it sorted, forgets that name, and changes no
-- other name's place.
pub del_index-Holds :
    (name : CString) (idx : ℕ) (es : List Entry)
    → IsSorted es
    → get_by_name name es ≡ some idx
    → Holds (λ k. if same_name k name then none else get_by_name k es) (del_index name es)
unfolding del_index del_at
del_index-Holds name idx es sorted present = at_end (locate name es) (locate-Ends name es sorted)
  where
    at_end :
        (h : Hit)
        → Ends name es h
        → Holds (λ k. if same_name k name then none else get_by_name k es) (del_at es h)
    at_end (found n) (e, at, same) =
        let sorted' = remove_at-IsSorted n es sorted in
        (
          sorted',
          λ k.
              get_by_name-assoc k (remove_at n es) sorted'
              ∙ assoc-remove_at k name n es e sorted at same
              ∙ ap (λ o. if same_name k name then none else o)
                  (sym (get_by_name-assoc k es sorted)),
        )
    at_end (missing n) b =
        let gone = Belongs-assoc name n es b in let lost = get_by_name-assoc name es sorted in cc
