-- ===== src/Tagbase/Deleted.antt =====
-- What `tag_del` comes to, on every branch.
use open_dax.Base.{
  ℕ, ◌-◌, ◌≡◌, ◌≢◌, refl, ap, sym, ◌∙◌, subst, List, [], ◌∷◌, Option, none, some, arith, get_elem?,
  set, if◌then◌else◌, ◌==◌, ==→eq, ==-self, false, true, Outcome, ok, err, fault, Result, ret, fail,
  crash, run, or_crash, Bool, Bool-cases, inl, inr, Error, ◌>>=◌, ◌>>◌, get_elem?-set_self,
  get_elem?-set_ne, lt-of_get_elem?,
}
use native.Mathlib.Decide.{ℕ_discrete}
use open_dax.Base.Int.{pos}
use open_dax.Text.{CString}
use open_dax.Cdt.{Datatype}
use open_dax.NameIndex.{Entry, get_by_name, del_index}
use open_dax.NameIndex.Sorted.{IsSorted, same_name}
use open_dax.NameIndex.Laws.{Holds, del_index-Holds}
use open_dax.Event.{Floats}
use open_dax.Server.{
  Output, Tag, null, Server, M, tag_at, set_tag, emit, has, attr_retain, retain_removed,
}
use open_dax.Store.{at_tag, unchecked_tag}
use open_dax.Store.Notify.{notify_deleted, visible}
use open_dax.Tagbase.{
  Unset, index_tagcount, index_deleted_tag, refcount, is_data, write_status, write_counter,
  tag_desc,
}
use open_dax.Tagbase.Del.{clear_tag, told, event_del_check, detach, forget, delete, tag_del}
use open_dax.Tagbase.Names.{
  name_at, name_of, Named, SameNames, SameNames-refl, SameNames-trans, Named-same, After, After->>,
  Quiet, write_status-Quiet, write_counter-Quiet, SameNames-set,
}
use open_dax.Tagbase.Adding.{same_name_refl, eq-of_same_name}

module _ (s : Server) (name : CString) where
  -- The name is out of the index, and still in the database.
  record Leaving (s' : Server) : Type 0 where
    names : (j : ℕ) → name_at s' j ≡ name_at s j
    sorted : IsSorted s'.index
    lookups :
        (k : CString)
        → get_by_name k s'.index ≡ (if same_name k name then none else get_by_name k s.index)

  -- The name is out of both.
  record Gone (n : ℕ) (s' : Server) : Type 0 where
    names : (j : ℕ) → name_at s' j ≡ (if j == n then none else name_at s j)
    sorted : IsSorted s'.index
    lookups :
        (k : CString)
        → get_by_name k s'.index ≡ (if same_name k name then none else get_by_name k s.index)

  Leaving-same : (s₁ s₂ : Server) → Leaving s₁ → SameNames s₁ s₂ → Leaving s₂
  Leaving-same s₁ s₂ p q = record {
    names = λ j. q.names j ∙ p.names j;
    sorted = subst IsSorted (sym q.index) p.sorted;
    lookups = λ k. ap (get_by_name k) q.index ∙ p.lookups k;
  }

  Gone-same : (n : ℕ) (s₁ s₂ : Server) → Gone n s₁ → SameNames s₁ s₂ → Gone n s₂
  Gone-same n s₁ s₂ p q = record {
    names = λ j. q.names j ∙ p.names j;
    sorted = subst IsSorted (sym q.index) p.sorted;
    lookups = λ k. ap (get_by_name k) q.index ∙ p.lookups k;
  }

-- What deleting the tag at `n` comes to: the tables are in step, its name is unknown, and the other
-- names are found where they were.
pub record Removed (s : Server) (name : CString) (s' : Server) : Type 0 where
  pub named : Named s'
  pub unknown : get_by_name name s'.index ≡ none
  pub kept : (k : CString) → k ≢ name → get_by_name k s'.index ≡ get_by_name k s.index

module _ (s : Server) (name : CString) (n : ℕ) (v : Named s)
    (at : get_by_name name s.index ≡ some n) (s' : Server) (g : Gone s name n s') where
  other : (k : CString) → k ≢ name → same_name k name ≡ false
  other k ne = elim (Bool-cases (same_name k name)) [
    | inl e ↦ absurd (ne (eq-of_same_name k name e))
    | inr e ↦ e
  ]

  Gone-kept : (k : CString) → k ≢ name → get_by_name k s'.index ≡ get_by_name k s.index
  Gone-kept k ne = g.lookups k ∙ (λ i. if other k ne i then none else get_by_name k s.index)

  Gone-unknown : get_by_name name s'.index ≡ none
  Gone-unknown =
      g.lookups name ∙ (λ i. if same_name_refl name i then none else get_by_name name s.index)

  Gone-known : (k : CString) (j : ℕ) → get_by_name k s'.index ≡ some j → name_at s' j ≡ some k
  Gone-known k j h = elim (Bool-cases (same_name k name)) [
    | inl e ↦ cc (g.lookups k)
    | inr e ↦
        let old : get_by_name k s.index ≡ some j =
          sym (g.lookups k ∙ (λ i. if e i then none else get_by_name k s.index)) ∙ h in
        let there = v.known k j old in
        let apart : (j == n) ≡ false = elim (Bool-cases (j == n)) [
          | inl same ↦
              let here : name_at s j ≡ some name =
                ap (name_at s) (==→eq j n same) ∙ v.known name n at in
              let eq : k ≡ name = cc in cc (same_name_refl name)
          | inr ne ↦ ne
        ] in
        g.names j ∙ (λ i. if apart i then none else name_at s j) ∙ there
  ]

  Gone-listed : (k : CString) (j : ℕ) → name_at s' j ≡ some k → get_by_name k s'.index ≡ some j
  Gone-listed k j h = elim (Bool-cases (j == n)) [
    | inl e ↦ cc (g.names j)
    | inr e ↦
        let old : name_at s j ≡ some k =
          sym (g.names j ∙ (λ i. if e i then none else name_at s j)) ∙ h in
        let there = v.listed k j old in
        Gone-kept k (λ (same : k ≡ name).
          let two : some j ≡ some n = sym there ∙ ap (λ k. get_by_name k s.index) same ∙ at in
          ground arith)
        ∙ there
  ]

  Removed-of_Gone : Removed s name s'
  Removed-of_Gone = record {
    named = record { sorted = g.sorted; known = Gone-known; listed = Gone-listed };
    unknown = Gone-unknown;
    kept = Gone-kept;
  }

-- If it succeeds, the name of the tag is deleted; if it returns an error, no name has changed.
abbrev pub RemovedBy : Server → CString → Outcome Server (Unit {0}) → Type 0
RemovedBy s name (ok _ s') = Removed s name s'
RemovedBy s name (err e s') = SameNames s s'
RemovedBy s name fault = Unit {0}

module _ (u : Unset) (floats : Floats) (s : Server) (name : CString) (n : ℕ) (t : Tag) where
  detach-Leaving :
      (s₁ : Server)
      → Named s₁
      → name_at s₁ n ≡ some name
      → get_elem? s₁.db n ≡ some t
      → SameNames s s₁
      → get_by_name name s.index ≡ some n
      → After (λ _. Leaving s name) (detach u floats (pos n) name t s₁)
  unfolding detach
  detach-Leaving s₁ v₁ here at₁ e known = counted (refcount (λ n. n - 1) s₁.datatypes t.type)
    where
      holds :
          Holds
            (λ k. if same_name k name then none else get_by_name k s₁.index)
            (del_index name s₁.index)
      holds = del_index-Holds name n s₁.index v₁.sorted (v₁.listed name n here)

      out : Bool → List Output
      out b = if b then retain_removed n ∷ [] else []

      end : List Datatype → List Entry → M (Unit {0})
      end dts index s = ok tt (
          emit
            (set_tag (record s { datatypes = dts; index = index }) (pos n)
              (record t { events = []; mappings = [] }))
            (out (has t attr_retain)))

      kept : SameNames s (record s₁ { db = set s₁.db n (record t { events = []; mappings = [] }) })
      kept =
          SameNames-trans s s₁
            (record s₁ { db = set s₁.db n (record t { events = []; mappings = [] }) }) e
            (SameNames-set s₁
              (record s₁ { db = set s₁.db n (record t { events = []; mappings = [] }) }) n t
              (record t { events = []; mappings = [] }) at₁ refl refl refl)

      indexed :
          (dts : List Datatype) (r : Result (List Entry))
          → Holds (λ k. if same_name k name then none else get_by_name k s₁.index) r
          → After (λ _. Leaving s name) ((run r >>= end dts) s₁)
      indexed dts (ret index) h = record {
        names = kept.names;
        sorted = h.0;
        lookups = λ k. h.1 k ∙ ap (λ i. if same_name k name then none else get_by_name k i) e.index;
      }
      indexed dts (fail e) h = elim h [ ]
      indexed dts crash h = elim h [ ]

      counted :
          (o : Option (List Datatype))
          → After
              (λ _. Leaving s name)
              ((run (or_crash o) >>= (λ dts. run (del_index name s₁.index) >>= end dts)) s₁)
      counted none = tt
      counted (some dts) = indexed dts (del_index name s₁.index) holds

  clear_tag-Gone :
      (s₁ : Server) → Leaving s name s₁ → After (λ _. Gone s name n) (clear_tag u floats (pos n) s₁)
  unfolding clear_tag
  clear_tag-Gone s₁ p = go (get_elem? s₁.db n) refl
    where
      cleared : Tag → Tag
      cleared t = record t { name = none; tag_data = null; attr = 0 }

      names :
          (t₁ : Tag)
          → get_elem? s₁.db n ≡ some t₁
          → (j : ℕ)
          → name_of (get_elem? (set s₁.db n (cleared t₁)) j)
            ≡ (if j == n then none else name_at s j)
      names t₁ at j = elim (ℕ_discrete n j) [
        | yes e ↦
            subst
              (λ m.
                name_of (get_elem? (set s₁.db n (cleared t₁)) m)
                ≡ (if m == n then none else name_at s m))
              e
              (ap name_of (get_elem?-set_self s₁.db n (cleared t₁) (lt-of_get_elem? s₁.db n t₁ at))
                ∙ sym (λ i. if ==-self n i then none else name_at s n))
        | no ne ↦
            let apart : (j == n) ≡ false = ground arith in
            ap name_of (get_elem?-set_ne s₁.db n j (cleared t₁) ne)
            ∙ p.names j
            ∙ sym (λ i. if apart i then none else name_at s j)
      ]

      go :
          (o : Option Tag)
          → get_elem? s₁.db n ≡ o
          → After
              (λ _. Gone s name n)
              (unchecked_tag o
                (λ t s.
                  ok tt (record (set_tag s (pos n) (cleared t)) { tagcount = s.tagcount - 1 }))
                s₁)
      go none at = tt
      go (some t₁) at = record { names = names t₁ at; sorted = p.sorted; lookups = p.lookups }

  forget-Gone :
      (s₁ : Server)
      → Leaving s name s₁
      → After (λ _. Gone s name n) (forget u floats (pos n) name t s₁)
  unfolding forget
  forget-Gone s₁ p =
      let last = λ (s : Server). write_counter floats index_tagcount s.tagcount s in
      let desc = tag_desc u n t.type t.count t.attr name in
      After->> (Leaving s name) (λ _. Gone s name n) (write_status floats index_deleted_tag desc)
        (clear_tag u floats (pos n) >> last) s₁
        (leaving s₁ _ p (write_status-Quiet floats index_deleted_tag desc s₁))
        (λ s₂ p₂.
          After->> (Gone s name n) (λ _. Gone s name n) (clear_tag u floats (pos n)) last s₂
            (clear_tag-Gone s₂ p₂)
            (λ s₃ g₃. gone s₃ _ g₃ (write_counter-Quiet floats index_tagcount s₃.tagcount s₃)))
    where
      leaving :
          (s₁ : Server) (o : Outcome Server (Unit {0}))
          → Leaving s name s₁
          → Quiet s₁ o
          → After (λ _. Leaving s name) o
      leaving s₁ (ok a s') p q = Leaving-same s name s₁ s' p q
      leaving s₁ (err e s') p q = q
      leaving s₁ fault p q = tt

      gone :
          (s₁ : Server) (o : Outcome Server (Unit {0}))
          → Gone s name n s₁
          → Quiet s₁ o
          → After (λ _. Gone s name n) o
      gone s₁ (ok a s') p q = Gone-same s name n s₁ s' p q
      gone s₁ (err e s') p q = q
      gone s₁ fault p q = tt

  delete-Removed :
      Named s
      → get_elem? s.db n ≡ some t
      → t.name ≡ some name
      → After (λ _. Removed s name) (delete u floats (pos n) t s)
  unfolding delete event_del_check told
  delete-Removed v at called =
      subst
        (λ o.
          After (λ _. Removed s name)
            ((run (or_crash o) >>= (λ k.
                event_del_check u floats (pos n) t
                >> (detach u floats (pos n) k t >> forget u floats (pos n) k t)))
              s))
        (sym called) (noted (notify_deleted floats s.modules n (visible t.tag_data) t.events))
    where
      here : name_at s n ≡ some name
      here = ap name_of at ∙ called

      known : get_by_name name s.index ≡ some n
      known = v.listed name n here

      removed :
          (o : Outcome Server (Unit {0}))
          → After (λ _. Gone s name n) o
          → After (λ _. Removed s name) o
      removed (ok a s') g = Removed-of_Gone s name n v known s' g
      removed (err e s') g = g
      removed fault g = tt

      rest :
          (out : List Output)
          → After
              (λ _. Removed s name)
              ((detach u floats (pos n) name t >> forget u floats (pos n) name t) (emit s out))
      rest out =
          let s₁ = emit s out in
          let e : SameNames s s₁ = record { names = λ j. refl; index = refl; length = refl } in
          removed _ (
            After->> (Leaving s name) (λ _. Gone s name n) (detach u floats (pos n) name t)
              (forget u floats (pos n) name t) s₁
              (detach-Leaving s₁ (Named-same s s₁ e v) here at e known)
              (λ s₂ p₂. forget-Gone s₂ p₂))

      noted :
          (r : Result (List Output))
          → After
              (λ _. Removed s name)
              (((λ s. told u floats s r)
                  >> (detach u floats (pos n) name t >> forget u floats (pos n) name t))
                s)
      noted (ret out) = rest out
      noted (fail e) = tt
      noted crash = tt

-- Deleting a tag of a database whose index tells where each name stands leaves such a database. If
-- it succeeds, the index does not know the tag's name any more, and tells of all other names what it
-- did. If it returns an error, no name has come, gone or moved.
pub tag_del-RemovedBy :
    (u : Unset) (floats : Floats) (s : Server) (n : ℕ) (t : Tag) (name : CString)
    → Named s
    → tag_at s (pos n) ≡ some t
    → t.name ≡ some name
    → RemovedBy s name (tag_del u floats (pos n) s)
unfolding tag_del
tag_del-RemovedBy u floats s n t name v at called =
    subst
      (λ o. RemovedBy s name (
        at_tag o
          (λ t s. if is_data t.tag_data then delete u floats (pos n) t s else err Error.deleted s)
          s))
      (sym at) (there (is_data t.tag_data))
  where
    of_After : (o : Outcome Server (Unit {0})) → After (λ _. Removed s name) o → RemovedBy s name o
    of_After (ok a s') h = h
    of_After (err e s') h = elim h [ ]
    of_After fault h = tt

    there :
        (b : Bool)
        → RemovedBy s name (if b then delete u floats (pos n) t s else err Error.deleted s)
    there true = of_After _ (delete-Removed u floats s name n t v at called)
    there false = SameNames-refl s
