-- ===== src/Tagbase/Adding.antt =====
-- The new name of `tag_add`, on its way into the index and the database.
use open_dax.Base.{
  ℕ, zero, suc, ◌<◌, ◌≡◌, ◌≢◌, inl, inr, refl, ap, sym, ◌∙◌, subst, List, [], ◌∷◌, ◌++◌, Option,
  none, some, arith, length, get_elem?, if◌then◌else◌, ◌==◌, ==→eq, eq→==, false, true, ok, Result,
  ret, fail, crash, run, or_crash, Bool-cases, ◌>>=◌, lt-of_get_elem?, Ordering,
}
use open_dax.Text.{CString, strcmp}
use open_dax.Text.Order.{strcmp_refl, eq-of_strcmp}
use open_dax.Types.{TagType}
use open_dax.Cdt.{Datatype}
use open_dax.NameIndex.{Entry, get_by_name, add_index}
use open_dax.NameIndex.Sorted.{IsSorted, same_name}
use open_dax.NameIndex.Laws.{Holds, add_index-Holds}
use open_dax.Server.{Tag, Server}
use open_dax.Tagbase.{refcount}
use open_dax.Tagbase.Add.{index_tag, count_tag}
use open_dax.Tagbase.Names.{name_at, name_of, Named, SameNames, After}

pub same_name_refl : (k : CString) → same_name k k ≡ true
same_name_refl k = (λ j. elim (strcmp_refl k j) [ Ordering.eq ↦ true | _ ↦ false ])

pub eq-of_same_name : (a b : CString) → same_name a b ≡ true → a ≡ b
eq-of_same_name a b h = go (strcmp a b) refl h
  where
    go : (o : Ordering) → strcmp a b ≡ o → elim o [ Ordering.eq ↦ true | _ ↦ false ] ≡ true → a ≡ b
    go Ordering.lt e h = cc
    go Ordering.eq e h = eq-of_strcmp a b e
    go Ordering.gt e h = cc

module _ (s : Server) (name : CString) (n : ℕ) where
  -- The new name is in the index, and not yet in the database.
  pub record Entering (s' : Server) : Type 0 where
    pub names : (j : ℕ) → name_at s' j ≡ name_at s j
    pub length : length s'.db ≡ length s.db
    pub sorted : IsSorted s'.index
    pub lookups :
        (k : CString)
        → get_by_name k s'.index ≡ (if same_name k name then some n else get_by_name k s.index)

  -- The new name is in both.
  pub record Grown (s' : Server) : Type 0 where
    pub names : (j : ℕ) → name_at s' j ≡ (if j == n then some name else name_at s j)
    pub sorted : IsSorted s'.index
    pub lookups :
        (k : CString)
        → get_by_name k s'.index ≡ (if same_name k name then some n else get_by_name k s.index)

  pub Entering-same : (s₁ s₂ : Server) → Entering s₁ → SameNames s₁ s₂ → Entering s₂
  Entering-same s₁ s₂ p q = record {
    names = λ j. q.names j ∙ p.names j;
    length = q.length ∙ p.length;
    sorted = subst IsSorted (sym q.index) p.sorted;
    lookups = λ k. ap (get_by_name k) q.index ∙ p.lookups k;
  }

  pub Grown-same : (s₁ s₂ : Server) → Grown s₁ → SameNames s₁ s₂ → Grown s₂
  Grown-same s₁ s₂ p q = record {
    names = λ j. q.names j ∙ p.names j;
    sorted = subst IsSorted (sym q.index) p.sorted;
    lookups = λ k. ap (get_by_name k) q.index ∙ p.lookups k;
  }

  pub index_tag-Entering :
      (type : TagType)
      → IsSorted s.index
      → get_by_name name s.index ≡ none
      → After (λ _. Entering) (index_tag n name type s)
  unfolding index_tag
  index_tag-Entering type sorted absent =
      go (add_index name n s.index) (add_index-Holds name n s.index sorted absent)
    where
      counted :
          (index : List Entry) (r : Option (List Datatype))
          → IsSorted index
            × ((k : CString)
                → get_by_name k index
                  ≡ (if same_name k name then some n else get_by_name k s.index))
          → After
              (λ _. Entering)
              ((run (or_crash r) >>= (λ dts s. ok tt (record s { index = index; datatypes = dts })))
                s)
      counted index (some dts) h = record {
        names = λ j. refl;
        length = refl;
        sorted = h.0;
        lookups = h.1;
      }
      counted index none h = tt

      go :
          (r : Result (List Entry))
          → Holds (λ k. if same_name k name then some n else get_by_name k s.index) r
          → After
              (λ _. Entering)
              ((run r >>= (λ index.
                  run (or_crash (refcount suc s.datatypes type))
                  >>= (λ dts s. ok tt (record s { index = index; datatypes = dts }))))
                s)
      go (ret index) h = counted index (refcount suc s.datatypes type) h
      go (fail e) h = elim h [ ]
      go crash h = elim h [ ]

-- A place of the database has a name only if it is in use.
pub name_at-lt : (s : Server) (j : ℕ) (k : CString) → name_at s j ≡ some k → j < length s.db
name_at-lt s j k h = go (get_elem? s.db j) refl h
  where
    go : (o : Option Tag) → get_elem? s.db j ≡ o → name_of o ≡ some k → j < length s.db
    go none e h = cc
    go (some t) e h = lt-of_get_elem? s.db j t e

name_of-append :
    (db : List Tag) (t : Tag) (j : ℕ)
    → name_of (get_elem? (db ++ (t ∷ [])) j)
      ≡ (if j == length db then t.name else name_of (get_elem? db j))
name_of-append [] t zero = ground arith
name_of-append [] t (suc j) = ground arith
name_of-append (u ∷ db) t zero = ground arith
name_of-append (u ∷ db) t (suc j) =
    name_of-append db t j ∙ ap (λ b. if b then t.name else name_of (get_elem? db j)) (ground arith)

pub count_tag-Grown :
    (s : Server) (name : CString) (t : Tag) (s' : Server)
    → t.name ≡ some name
    → Entering s name (length s.db) s'
    → After (λ _. Grown s name (length s.db)) (count_tag t s')
unfolding count_tag
count_tag-Grown s name t s' e p = record {
  names = λ j. name_of-append s'.db t j ∙ (λ i. if j == p.length i then e i else p.names j i);
  sorted = p.sorted;
  lookups = p.lookups;
}

-- What adding a name at `n` comes to: the tables are in step, the name is found there, and the names
-- that were there are found where they were.
pub record Added (s : Server) (name : CString) (n : ℕ) (s' : Server) : Type 0 where
  pub named : Named s'
  pub found : get_by_name name s'.index ≡ some n
  pub kept :
      (k : CString) (j : ℕ) → get_by_name k s.index ≡ some j → get_by_name k s'.index ≡ some j

module _ (s : Server) (name : CString) (v : Named s) (absent : get_by_name name s.index ≡ none)
    (s' : Server) (g : Grown s name (length s.db) s') where
  other : (k : CString) (j : ℕ) → get_by_name k s.index ≡ some j → same_name k name ≡ false
  other k j h = elim (Bool-cases (same_name k name)) [
    | inl e ↦
        let same = eq-of_same_name k name e in
        absurd (ne (sym absent ∙ ap (λ k. get_by_name k s.index) (sym same) ∙ h))
    | inr e ↦ e
  ]
    where
      ne : {j : ℕ} → none ≢ some j
      ne e = cc

  Grown-known : (k : CString) (j : ℕ) → get_by_name k s'.index ≡ some j → name_at s' j ≡ some k
  Grown-known k j h = elim (Bool-cases (same_name k name)) [
    | inl e ↦
        let at : j ≡ length s.db = ground (arith, g.lookups k) in
        g.names j
        ∙ (λ i. if eq→== j (length s.db) at i then some name else name_at s j)
        ∙ ap some (sym (eq-of_same_name k name e))
    | inr e ↦
        let old : get_by_name k s.index ≡ some j = ground (arith, g.lookups k) in
        let there = v.known k j old in
        let before = name_at-lt s j k there in
        let apart : (j == length s.db) ≡ false = ground arith in
        g.names j ∙ (λ i. if apart i then some name else name_at s j) ∙ there
  ]

  Grown-kept :
      (k : CString) (j : ℕ) → get_by_name k s.index ≡ some j → get_by_name k s'.index ≡ some j
  Grown-kept k j h =
      g.lookups k ∙ (λ i. if other k j h i then some (length s.db) else get_by_name k s.index) ∙ h

  Grown-found : get_by_name name s'.index ≡ some (length s.db)
  Grown-found =
      g.lookups name
      ∙ (λ i. if same_name_refl name i then some (length s.db) else get_by_name name s.index)

  Grown-listed : (k : CString) (j : ℕ) → name_at s' j ≡ some k → get_by_name k s'.index ≡ some j
  Grown-listed k j h = elim (Bool-cases (j == length s.db)) [
    | inl e ↦
        let here : some name ≡ some k =
          sym (g.names j ∙ (λ i. if e i then some name else name_at s j)) ∙ h in
        let same : name ≡ k = cc in
        let at = ==→eq j (length s.db) e in
        ap (λ k. get_by_name k s'.index) (sym same) ∙ Grown-found ∙ ap some (sym at)
    | inr e ↦
        Grown-kept k j
          (v.listed k j (sym (g.names j ∙ (λ i. if e i then some name else name_at s j)) ∙ h))
  ]

  pub Added-of_Grown : Added s name (length s.db) s'
  Added-of_Grown = record {
    named = record { sorted = g.sorted; known = Grown-known; listed = Grown-listed };
    found = Grown-found;
    kept = Grown-kept;
  }
