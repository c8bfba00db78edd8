-- ===== src/NameIndex.antt =====
-- The name index of src/server/tagbase.c, `_index`: the entries in use, in the order of their
-- names, with the binary search of its three functions. `max` is kept as the place after it, so
-- that `min <= max` reads `lo < hi`. Memory for the names is there.
pub mod Sorted
pub mod Search
pub mod Laws
use open_dax.Base.{
  ℕ, zero, suc, ◌+◌, ◌-◌, ◌/◌, Bool, true, false, List, [], ◌∷◌, Option, none, some, ltb,
  if◌then◌else◌, length, get_elem?, insert_at, remove_at, Ordering, Error, Result, ret, fail, crash,
}
use open_dax.Text.{CString, strcmp}

-- `_dax_tag_index`
pub record Entry : Type 0 where
  pub name : CString
  pub tag_idx : ℕ

-- How a search ends: at the entry with the name, or at the place where the name belongs.
pub data Hit : Type 0 where
  found : ℕ → Hit
  missing : ℕ → Hit

-- One round of the loop, after the comparison with the entry at `try`.
unfoldable pub narrow : (ℕ → ℕ → Hit) → ℕ → ℕ → ℕ → Ordering → Hit
narrow again lo hi try Ordering.gt = again (try + 1) hi
narrow again lo hi try Ordering.lt = again lo try
narrow again lo hi try Ordering.eq = found try

-- The comparison with the entry at `try`. A place outside of the entries is never tried
-- (`NameIndex.Search.search-Ends`).
unfoldable pub probe : (ℕ → ℕ → Hit) → CString → ℕ → ℕ → ℕ → Option Entry → Hit
unfolding narrow
probe again name lo hi try none = missing lo
probe again name lo hi try (some e) = narrow again lo hi try (strcmp name e.name)

-- The loop `while(min <= max)`, with fuel for the width of the range.
unfoldable pub search : ℕ → CString → List Entry → ℕ → ℕ → Hit
unfolding probe
search zero name entries lo hi = missing lo
search (suc fuel) name entries lo hi =
    let try = lo + (hi - 1 - lo) / 2 in
    if ltb lo hi
    then probe (search fuel name entries) name lo hi try (get_elem? entries try)
    else missing lo

-- The search over the whole index.
unfoldable pub locate : CString → List Entry → Hit
unfolding search
locate name entries = search (length entries) name entries 0 (length entries)

unfoldable pub tag_at : List Entry → Hit → Option ℕ
tag_at entries (missing n) = none
tag_at entries (found n) = elim (get_elem? entries n) [ none ↦ none | some e ↦ some e.tag_idx ]

-- `_get_by_name`; `none` is ERR_NOTFOUND.
unfoldable pub get_by_name : CString → List Entry → Option ℕ
unfolding locate tag_at
get_by_name name entries = tag_at entries (locate name entries)

unfoldable pub add_at : CString → ℕ → List Entry → Hit → Result (List Entry)
add_at name idx entries (found n) = crash
add_at name idx entries (missing n) =
    ret (insert_at n (record { name = name; tag_idx = idx }) entries)

-- `_add_index`. A name that is there fails an `assert`.
unfoldable pub add_index : CString → ℕ → List Entry → Result (List Entry)
unfolding locate add_at
add_index name idx entries = add_at name idx entries (locate name entries)

unfoldable pub del_at : List Entry → Hit → Result (List Entry)
del_at entries (found n) = ret (remove_at n entries)
del_at entries (missing n) = crash

-- `_del_index`. For a name that is not there `memmove` writes before the array.
unfoldable pub del_index : CString → List Entry → Result (List Entry)
unfolding locate del_at
del_index name entries = del_at entries (locate name entries)
