-- ===== src/Tagbase/Handles.antt =====
-- The two ways to look up a tag, by its name and by its place, tell the same.
use open_dax.Base.{
  ℕ, ◌≡◌, refl, ap, sym, ◌∙◌, Option, none, some, get_elem?, ret, fail, and_then, and_then-ret,
  or_crash, or_crash-ret, Error, Bool, true, false, if◌then◌else◌,
}
use open_dax.Base.Int.{pos}
use open_dax.Text.{CString}
use open_dax.NameIndex.{get_by_name}
use open_dax.Server.{Tag, Server}
use open_dax.Tagbase.{is_data}
use open_dax.Tagbase.Lookup.{TagInfo, tag_info, found_tag, tag_get_name, tag_get_index}
use open_dax.Tagbase.Names.{name_of, Named}

tag_info-ret :
    (n : ℕ) (t : Tag) (info : TagInfo)
    → tag_info n t ≡ ret info
    → (info.idx ≡ n) × (t.name ≡ some info.name)
unfolding tag_info
tag_info-ret n t info h = go (is_data t.tag_data) h
  where
    go :
        (b : Bool)
        → (if b
            then and_then (or_crash t.name) (λ name.
              ret (record { idx = n; type = t.type; count = t.count; attr = t.attr; name = name }))
            else fail Error.deleted)
          ≡ ret info
        → (info.idx ≡ n) × (t.name ≡ some info.name)
    go true h =
        let (name, e, same) =
          and_then-ret (or_crash t.name)
            (λ name.
              ret (record { idx = n; type = t.type; count = t.count; attr = t.attr; name = name }))
            info h in
        let is : record { idx = n; type = t.type; count = t.count; attr = t.attr; name = name }
            ≡ info =
          cc in
        (
          ap (λ (i : TagInfo). i.idx) (sym is),
          or_crash-ret t.name name e ∙ ap (λ (i : TagInfo). some i.name) is,
        )
    go false h = cc

-- In a database whose index tells where each name stands, a tag that is found by name has that name,
-- and is what is found at its place.
pub tag_get_index-tag_get_name :
    (s : Server) (name : CString) (info : TagInfo)
    → Named s
    → tag_get_name s name ≡ ret info
    → (info.name ≡ name) × (tag_get_index s (pos info.idx) ≡ ret info)
unfolding tag_get_name found_tag tag_get_index
tag_get_index-tag_get_name s name info v h = go (get_by_name name s.index) refl h
  where
    go :
        (o : Option ℕ)
        → get_by_name name s.index ≡ o
        → found_tag s o ≡ ret info
        → (info.name ≡ name) × (tag_get_index s (pos info.idx) ≡ ret info)
    go none e h = cc
    go (some n) e h =
        let (t, e', told) = and_then-ret (or_crash (get_elem? s.db n)) (tag_info n) info h in
        let at = or_crash-ret (get_elem? s.db n) t e' in
        let (place, called) = tag_info-ret n t info told in
        let real : some info.name ≡ some name = sym (ap name_of at ∙ called) ∙ v.known name n e in
        (
          cc,
          (λ j. tag_get_index s (pos (place j)))
              ∙ (λ j. elim (at j) [ none ↦ fail Error.arg | some t ↦ tag_info n t ])
              ∙ told,
        )
