-- ===== src/Tagbase/Added.antt =====
-- What `tag_add` comes to, on every branch.
use open_dax.Base.{
  ℕ, ◌*◌, ◌≡◌, refl, ap, sym, ◌∙◌, subst, Option, none, some, length, get_elem?, if◌then◌else◌, leb,
  ◌==◌, not, ◌&&◌, false, true, Outcome, ok, err, fault, Result, ret, fail, crash, run, or_crash,
  Bool, Error, ◌>>=◌, ◌>>◌,
}
use open_dax.Base.Int.{ℤ, pos, equal_ℤ}
use open_dax.Text.{CString}
use open_dax.Types.{TagType}
use open_dax.Cdt.{validate_name, checktype}
use open_dax.NameIndex.{get_by_name}
use open_dax.Event.{Floats}
use open_dax.Server.{Tag, TagData, Server, M, set_tag, has, attr_owned}
use open_dax.Store.{unchecked_tag}
use open_dax.Tagbase.{
  Unset, index_tagcount, index_lastindex, index_added_tag, set_attribute, write_status,
  write_counter, word, tag_desc,
}
use open_dax.Tagbase.Add.{
  make_room, new_size, resize, new_tag, announce, index_tag, count_tag, add_new, add_larger,
  add_again, add_named, add_checked, tag_add,
}
use open_dax.Tagbase.Names.{
  Named, SameNames, SameNames-refl, SameNames-trans, Named-same, After, After->>=, After->>, Quiet,
  write_status-Quiet, write_counter-Quiet, SameNames-set, set_attribute-Quiet,
}
use open_dax.Tagbase.Adding.{
  Entering, Entering-same, Grown, Grown-same, index_tag-Entering, count_tag-Grown, Added,
  Added-of_Grown,
}

-- If it returns a place, the name is added there; if it returns an error, no name has changed.
abbrev pub AddedBy : Server → CString → Outcome Server ℕ → Type 0
AddedBy s name (ok n s') = Added s name n s'
AddedBy s name (err e s') = SameNames s s'
AddedBy s name fault = Unit {0}

AddedBy-of_After :
    (s : Server) (name : CString) (o : Outcome Server ℕ)
    → After (λ n s'. Added s name n s') o
    → AddedBy s name o
AddedBy-of_After s name (ok n s') h = h
AddedBy-of_After s name (err e s') h = elim h [ ]
AddedBy-of_After s name fault h = tt

-- Nothing but a name that is there is needed to add it again.
Added-same :
    (s : Server) (name : CString) (n : ℕ) (s' : Server)
    → Named s
    → get_by_name name s.index ≡ some n
    → SameNames s s'
    → Added s name n s'
Added-same s name n s' v found e = record {
  named = Named-same s s' e v;
  found = ap (get_by_name name) e.index ∙ found;
  kept = λ k j h. ap (get_by_name k) e.index ∙ h;
}

module _ (u : Unset) (floats : Floats) (fd : ℤ) (name : CString) (type : TagType)
    (count attr : ℕ) where
  announce-Grown :
      (s : Server) (n : ℕ) (s₀ : Server) (m : ℕ)
      → Grown s₀ name m s
      → After (λ k s'. (k ≡ n) × Grown s₀ name m s') (announce u floats n name type count attr s)
  unfolding announce
  announce-Grown s n s₀ m g =
      let P : Server → Type 0 = Grown s₀ name m in
      let Q : ℕ → Server → Type 0 = λ k s'. (k ≡ n) × Grown s₀ name m s' in
      let last = write_status floats index_added_tag (tag_desc u n type count attr name) in
      After->> P Q (λ s. write_counter floats index_tagcount s.tagcount s)
        (set_attribute n attr >> (last >> ok n)) s
        (quiet s _ g (write_counter-Quiet floats index_tagcount s.tagcount s))
        (λ s₁ g₁.
          After->> P Q (set_attribute n attr) (last >> ok n) s₁
            (quiet s₁ _ g₁ (set_attribute-Quiet n attr s₁))
            (λ s₂ g₂.
              After->> P Q last (ok n) s₂
                (quiet s₂ _ g₂ (
                  write_status-Quiet floats index_added_tag (tag_desc u n type count attr name) s₂))
                (λ s₃ g₃. (refl, g₃))))
    where
      quiet :
          (s : Server) (o : Outcome Server (Unit {0}))
          → Grown s₀ name m s
          → Quiet s o
          → After (λ _. Grown s₀ name m) o
      quiet s (ok a s') g q = Grown-same s₀ name m s s' g q
      quiet s (err e s') g q = q
      quiet s fault g q = tt

  name-new_tag : (n size : ℕ) → (new_tag u n fd name type count size).name ≡ some name
  unfolding new_tag
  name-new_tag n size = refl

  add_new-Added :
      (size : ℕ) (s : Server)
      → Named s
      → get_by_name name s.index ≡ none
      → After (λ n s'. Added s name n s') (add_new u floats fd name type count attr size s)
  unfolding add_new
  add_new-Added size s v absent =
      let n = length s.db in
      let P : Server → Type 0 = Entering s name n in
      let G : Server → Type 0 = Grown s name n in
      let Q : ℕ → Server → Type 0 = λ k s'. Added s name k s' in
      let t = new_tag u n fd name type count size in
      let end = announce u floats n name type count attr in
      After->> P Q (index_tag n name type)
        (write_counter floats index_lastindex n >> (count_tag t >> end)) s
        (index_tag-Entering s name n type v.sorted absent)
        (λ s₁ p₁.
          After->> P Q (write_counter floats index_lastindex n) (count_tag t >> end) s₁
            (quiet s₁ _ p₁ (write_counter-Quiet floats index_lastindex n s₁))
            (λ s₂ p₂.
              After->> G Q (count_tag t) end s₂
                (count_tag-Grown s name t s₂ (name-new_tag n size) p₂)
                (λ s₃ g₃. finish (end s₃) (announce-Grown s₃ n s n g₃))))
    where
      quiet :
          (s₁ : Server) (o : Outcome Server (Unit {0}))
          → Entering s name (length s.db) s₁
          → Quiet s₁ o
          → After (λ _. Entering s name (length s.db)) o
      quiet s₁ (ok a s') p q = Entering-same s name (length s.db) s₁ s' p q
      quiet s₁ (err e s') p q = q
      quiet s₁ fault p q = tt

      finish :
          (o : Outcome Server ℕ)
          → After (λ k s'. (k ≡ length s.db) × Grown s name (length s.db) s') o
          → After (λ n s'. Added s name n s') o
      finish (ok k s') (e, g) =
          subst (λ k. Added s name k s') (sym e) (Added-of_Grown s name v absent s' g)
      finish (err e s') h = h
      finish fault h = tt

  add_larger-Added :
      (n : ℕ) (t : Tag) (size : ℕ) (s : Server)
      → get_elem? s.db n ≡ some t
      → After (λ k s'. (k ≡ n) × SameNames s s') (add_larger u floats n t count attr size s)
  unfolding add_larger
  add_larger-Added n t size s at =
      let Q : ℕ → Server → Type 0 = λ k s'. (k ≡ n) × SameNames s s' in
      let P : Server → Type 0 = SameNames s in
      let store : TagData → M (Unit {0}) =
        λ d s. ok tt (set_tag s (pos n) (record t { tag_data = d; count = count })) in
      let last = write_status floats index_added_tag (word n) in
      After->>= (λ _ s'. s ≡ s') Q (run (or_crash (resize u.byte_at size t.tag_data)))
        (λ d. store d >> (set_attribute n attr >> (last >> ok n))) s
        (resized (resize u.byte_at size t.tag_data))
        (λ d s₁ e.
          subst (λ s₁. After Q ((store d >> (set_attribute n attr >> (last >> ok n))) s₁)) e
            (After->> P Q (store d) (set_attribute n attr >> (last >> ok n)) s
              (SameNames-set s (set_tag s (pos n) (record t { tag_data = d; count = count })) n t
                (record t { tag_data = d; count = count }) at refl refl refl)
              (λ s₂ p₂.
                After->> P Q (set_attribute n attr) (last >> ok n) s₂
                  (quiet s₂ _ p₂ (set_attribute-Quiet n attr s₂))
                  (λ s₃ p₃.
                    After->> P Q last (ok n) s₃
                      (quiet s₃ _ p₃ (write_status-Quiet floats index_added_tag (word n) s₃))
                      (λ s₄ p₄. (refl, p₄))))))
    where
      resized : (o : Option TagData) → After (λ _ s'. s ≡ s') (run (or_crash o) s)
      resized none = tt
      resized (some d) = refl

      quiet :
          (s₁ : Server) (o : Outcome Server (Unit {0}))
          → SameNames s s₁
          → Quiet s₁ o
          → After (λ _. SameNames s) o
      quiet s₁ (ok a s') p q = SameNames-trans s s₁ s' p q
      quiet s₁ (err e s') p q = q
      quiet s₁ fault p q = tt

  -- A name that is there: the tag keeps its place, or nothing changes.
  again :
      (s : Server) (n : ℕ)
      → Named s
      → get_by_name name s.index ≡ some n
      → (o : Outcome Server ℕ) → After (λ k s'. (k ≡ n) × SameNames s s') o
      → AddedBy s name o
  again s n v found (ok k s') (e, same) =
      subst (λ k. Added s name k s') (sym e) (Added-same s name n s' v found same)
  again s n v found (err e s') h = elim h [ ]
  again s n v found fault h = tt

  add_again-AddedBy :
      (size n : ℕ) (t : Tag) (s : Server)
      → Named s
      → get_by_name name s.index ≡ some n
      → get_elem? s.db n ≡ some t
      → AddedBy s name (add_again u floats fd type count attr size n t s)
  unfolding add_again
  add_again-AddedBy size n t s v found at = refused' (has t attr_owned && not (equal_ℤ t.fd fd))
    where
      same : AddedBy s name ((set_attribute n attr >> ok n) s)
      same = again s n v found ((set_attribute n attr >> ok n) s) (
          After->> (SameNames s) (λ k s'. (k ≡ n) × SameNames s s') (set_attribute n attr) (ok n) s
            (set_attribute-Quiet n attr s) (λ s' p. (refl, p)))

      larger : AddedBy s name (add_larger u floats n t count attr size s)
      larger =
          again s n v found (add_larger u floats n t count attr size s)
            (add_larger-Added n t size s at)

      bigger :
          (b : Bool)
          → AddedBy s name
              ((if b then add_larger u floats n t count attr size else err Error.tag_dupl) s)
      bigger true = larger
      bigger false = SameNames-refl s

      enough :
          (b : Bool)
          → AddedBy s name (
              (if b
                  then set_attribute n attr >> ok n
                  else (if t.type == type
                      then add_larger u floats n t count attr size
                      else err Error.tag_dupl))
                s)
      enough true = same
      enough false = bigger (t.type == type)

      refused' :
          (b : Bool)
          → AddedBy s name (
              (if b
                  then err Error.tag_dupl
                  else (if t.type == type && leb count t.count
                      then set_attribute n attr >> ok n
                      else (if t.type == type
                          then add_larger u floats n t count attr size
                          else err Error.tag_dupl)))
                s)
      refused' true = SameNames-refl s
      refused' false = enough (t.type == type && leb count t.count)

  add_named-AddedBy :
      (size : ℕ) (s : Server)
      → Named s
      → (o : Option ℕ) → get_by_name name s.index ≡ o
      → AddedBy s name (add_named u floats fd name type count attr size o s)
  unfolding add_named
  add_named-AddedBy size s v none e = AddedBy-of_After s name _ (add_new-Added size s v e)
  add_named-AddedBy size s v (some n) e = go (get_elem? s.db n) refl
    where
      go :
          (o : Option Tag)
          → get_elem? s.db n ≡ o
          → AddedBy s name (unchecked_tag o (add_again u floats fd type count attr size n) s)
      go none at = tt
      go (some t) at = add_again-AddedBy size n t s v e at

  add_checked-AddedBy :
      (s : Server) → Named s → AddedBy s name (add_checked u floats fd name type count attr s)
  unfolding add_checked
  add_checked-AddedBy s v = go (new_size s.datatypes type count)
    where
      go :
          (r : Result ℕ)
          → AddedBy s name (
              (run r >>= (λ size.
                  add_named u floats fd name type count attr size (get_by_name name s.index)))
                s)
      go (ret size) = add_named-AddedBy size s v (get_by_name name s.index) refl
      go (fail e) = SameNames-refl s
      go crash = tt

  AddedBy-same :
      (s s₁ : Server) (o : Outcome Server ℕ) → SameNames s s₁ → AddedBy s₁ name o → AddedBy s name o
  AddedBy-same s s₁ (ok n s') e h = record {
    named = h.named;
    found = h.found;
    kept = λ k j known. h.kept k j (ap (get_by_name k) e.index ∙ known);
  }
  AddedBy-same s s₁ (err x s') e h = SameNames-trans s s₁ s' e h
  AddedBy-same s s₁ fault e h = tt

  make_room-SameNames : (s : Server) → SameNames s (make_room s)
  unfolding make_room
  make_room-SameNames s = go (leb s.dbsize (length s.db))
    where
      go : (b : Bool) → SameNames s (if b then record s { dbsize = s.dbsize * 2 } else s)
      go true = record { names = λ n. refl; index = refl; length = refl }
      go false = SameNames-refl s

  -- Adding a tag to a database whose index tells where each name stands leaves such a database. If
  -- it returns a place, the name stands there, and the names that were there stand where they were.
  -- If it returns an error, no name has come, gone or moved.
  pub tag_add-AddedBy :
      (s : Server) → Named s → AddedBy s name (tag_add u floats fd name type count attr s)
  unfolding tag_add
  tag_add-AddedBy s v = counted (count == 0)
    where
      s₁ : Server
      s₁ = make_room s

      room : SameNames s s₁
      room = make_room-SameNames s

      checked :
          (o : Option Error)
          → AddedBy s name (elim o [
            | some e ↦ err Error.tag_bad s₁
            | none ↦ add_checked u floats fd name type count attr s₁
          ])
      checked (some e) = room
      checked none = AddedBy-same s s₁ _ room (add_checked-AddedBy s₁ (Named-same s s₁ room v))

      typed :
          (b : Bool)
          → AddedBy s name (
              if b then err Error.badtype s₁ else (elim (validate_name name) [
                | some e ↦ err Error.tag_bad s₁
                | none ↦ add_checked u floats fd name type count attr s₁
              ]))
      typed true = room
      typed false = checked (validate_name name)

      counted :
          (b : Bool)
          → AddedBy s name (
              if b
              then err Error.arg s
              else (if not (checktype s.datatypes type)
                  then err Error.badtype s₁
                  else (elim (validate_name name) [
                    | some e ↦ err Error.tag_bad s₁
                    | none ↦ add_checked u floats fd name type count attr s₁
                  ])))
      counted true = SameNames-refl s
      counted false = typed (not (checktype s.datatypes type))
