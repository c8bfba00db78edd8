-- ===== src/Tagbase/Names.antt =====
-- Which tag has which name, and what the steps of `tag_add` and `tag_del` do to that.
use open_dax.Base.{
  ℕ, ◌≡◌, refl, ap, sym, ◌∙◌, subst, [], ◌∷◌, Option, none, some, length, get_elem?, set,
  if◌then◌else◌, false, true, Outcome, ok, err, fault, Bool, attempt, ◌>>=◌, ◌>>◌, length-set,
  get_elem?-set_self, get_elem?-set_ne, lt-of_get_elem?,
}
use native.Mathlib.Decide.{ℕ_discrete}
use open_dax.Base.Int.{ℤ, pos, negsuc}
use open_dax.Base.Bits.{test_bit}
use open_dax.Memory.{Block}
use open_dax.Text.{CString}
use open_dax.NameIndex.{get_by_name}
use open_dax.NameIndex.Sorted.{IsSorted}
use open_dax.Event.{Floats}
use open_dax.Server.{Tag, Server, M, tag_at, set_tag, emit, attr_retain, retain_added}
use open_dax.Store.{at_tag, unchecked_tag, write_at, tag_write}
use open_dax.Store.Frame.{Kept, KeptBy}
use open_dax.Store.Untouched.{tag_write-KeptBy}
use open_dax.Tagbase.{set_attribute, write_status, write_counter, is_data, word, with_attributes}

-- The name of the tag at a place.
abbrev pub name_of : Option Tag → Option CString
name_of none = none
name_of (some t) = t.name

abbrev pub name_at : Server → ℕ → Option CString
name_at s n = name_of (get_elem? s.db n)

-- The index is in order, and it tells of each name of the database where it stands, and of no other.
pub record Named (s : Server) : Type 0 where
  pub sorted : IsSorted s.index
  pub known : (k : CString) (n : ℕ) → get_by_name k s.index ≡ some n → name_at s n ≡ some k
  pub listed : (k : CString) (n : ℕ) → name_at s n ≡ some k → get_by_name k s.index ≡ some n

pub record SameNames (s s' : Server) : Type 0 where
  pub names : (n : ℕ) → name_at s' n ≡ name_at s n
  pub index : s'.index ≡ s.index
  pub length : length s'.db ≡ length s.db

pub SameNames-refl : (s : Server) → SameNames s s
SameNames-refl s = record { names = λ n. refl; index = refl; length = refl }

pub SameNames-trans : (s s' s'' : Server) → SameNames s s' → SameNames s' s'' → SameNames s s''
SameNames-trans s s' s'' p q = record {
  names = λ n. q.names n ∙ p.names n;
  index = q.index ∙ p.index;
  length = q.length ∙ p.length;
}

pub Named-same : (s s' : Server) → SameNames s s' → Named s → Named s'
Named-same s s' e v = record {
  sorted = subst IsSorted (sym e.index) v.sorted;
  known = λ k n h. e.names n ∙ v.known k n (ap (get_by_name k) (sym e.index) ∙ h);
  listed = λ k n h. ap (get_by_name k) e.index ∙ v.listed k n (sym (e.names n) ∙ h);
}

-- What holds of a run that returns; it does not end with an error.
abbrev pub After : {A : Type 0} → (A → Server → Type 0) → Outcome Server A → Type 0
After P (ok a s) = P a s
After P (err e s) = ⊥
After P fault = Unit {0}

pub After->>= :
    {A B : Type 0} (P : A → Server → Type 0) (Q : B → Server → Type 0) (m : M A) (f : A → M B)
    (s : Server)
    → After P (m s)
    → ((a : A) (s' : Server) → P a s' → After Q (f a s'))
    → After Q ((m >>= f) s)
After->>= {A} {B} P Q m f s p next = go (m s) p
  where
    go :
        (o : Outcome Server A)
        → After P o
        → After Q (elim o [ ok a s' ↦ f a s' | err e s' ↦ err e s' | fault ↦ fault ])
    go (ok a s') p = next a s' p
    go (err e s') p = elim p [ ]
    go fault p = tt

pub After->> :
    {B : Type 0} (P : Server → Type 0) (Q : B → Server → Type 0) (m : M (Unit {0})) (f : M B)
    (s : Server)
    → After (λ _. P) (m s)
    → ((s' : Server) → P s' → After Q (f s'))
    → After Q ((m >> f) s)
After->> {B} P Q m f s p next = go (m s) p
  where
    go :
        (o : Outcome Server (Unit {0}))
        → After (λ _. P) o
        → After Q (elim o [ ok a s' ↦ f s' | err e s' ↦ err e s' | fault ↦ fault ])
    go (ok a s') p = next s' p
    go (err e s') p = elim p [ ]
    go fault p = tt

-- A step that leaves the names alone.
abbrev pub Quiet : Server → Outcome Server (Unit {0}) → Type 0
Quiet s o = After (λ _. SameNames s) o

Kept-SameNames :
    (i : ℕ) (t : Tag) (s s' : Server) → get_elem? s.db i ≡ some t → Kept i t s s' → SameNames s s'
Kept-SameNames i t s s' at k = record { names = names; index = k.index; length = k.length }
  where
    names : (n : ℕ) → name_at s' n ≡ name_at s n
    names n = elim (ℕ_discrete i n) [
      | yes e ↦
          let (u, at', like) = k.here in
          subst (λ m. name_at s' m ≡ name_at s m) e
            (ap name_of at' ∙ like.name ∙ sym (ap name_of at))
      | no ne ↦ ap name_of (k.others n ne)
    ]

module _ (floats : Floats) where
  pub write_status-Quiet :
      (idx : ℤ) (bytes : Block) (s : Server) → Quiet s (write_status floats idx bytes s)
  unfolding write_status tag_write
  write_status-Quiet (negsuc n) bytes s = SameNames-refl s
  write_status-Quiet (pos i) bytes s = go (get_elem? s.db i) refl
    where
      kept :
          (t : Tag) (o : Outcome Server (Unit {0}))
          → get_elem? s.db i ≡ some t
          → KeptBy i t s o
          → Quiet s (elim o [ ok a s' ↦ ok tt s' | err e s' ↦ ok tt s' | fault ↦ fault ])
      kept t (ok a s') at k = Kept-SameNames i t s s' at k
      kept t (err e s') at k = Kept-SameNames i t s s' at k
      kept t fault at k = tt

      go :
          (o : Option Tag)
          → get_elem? s.db i ≡ o
          → Quiet s (attempt (tag_write floats (negsuc 0) (pos i) (pos 0) bytes) s)
      go none e =
          subst
            (λ o.
              Quiet s
                (attempt (λ s. at_tag o (write_at floats (negsuc 0) (pos 0) bytes (pos i)) s) s))
            (sym e) (SameNames-refl s)
      go (some t) e =
          kept t (tag_write floats (negsuc 0) (pos i) (pos 0) bytes s) e
            (tag_write-KeptBy floats (negsuc 0) i (pos 0) bytes [] t s e).0

  pub write_counter-Quiet : (idx : ℤ) (n : ℕ) (s : Server) → Quiet s (write_counter floats idx n s)
  unfolding write_counter
  write_counter-Quiet idx n s = go (tag_at s idx)
    where
      if_data : (b : Bool) → Quiet s (if b then write_status floats idx (word n) s else ok tt s)
      if_data true = write_status-Quiet idx (word n) s
      if_data false = SameNames-refl s

      go :
          (o : Option Tag)
          → Quiet s (elim o [
            | none ↦ ok tt s
            | some t ↦ if is_data t.tag_data then write_status floats idx (word n) s else ok tt s
          ])
      go none = SameNames-refl s
      go (some t) = if_data (is_data t.tag_data)

-- A tag is put back with the same name.
pub SameNames-set :
    (s s' : Server) (n : ℕ) (t u : Tag)
    → get_elem? s.db n ≡ some t
    → u.name ≡ t.name
    → s'.db ≡ set s.db n u
    → s'.index ≡ s.index
    → SameNames s s'
SameNames-set s s' n t u at same db index = record {
  names = names;
  index = index;
  length = ap length db ∙ length-set s.db n u;
}
  where
    names : (j : ℕ) → name_at s' j ≡ name_at s j
    names j = elim (ℕ_discrete n j) [
      | yes e ↦
          subst (λ m. name_at s' m ≡ name_at s m) e
            (ap (λ db. name_of (get_elem? db n)) db
              ∙ ap name_of (get_elem?-set_self s.db n u (lt-of_get_elem? s.db n t at))
              ∙ same
              ∙ sym (ap name_of at))
      | no ne ↦ ap (λ db. name_of (get_elem? db j)) db ∙ ap name_of (get_elem?-set_ne s.db n j u ne)
    ]

pub set_attribute-Quiet : (n attr : ℕ) (s : Server) → Quiet s (set_attribute n attr s)
unfolding set_attribute
set_attribute-Quiet n attr s = go (get_elem? s.db n) refl
  where
    step : Tag → M (Unit {0})
    step t s = ok tt (
        emit (set_tag s (pos n) (record t { attr = with_attributes attr t.attr }))
          (if test_bit attr attr_retain then retain_added n ∷ [] else []))

    go : (o : Option Tag) → get_elem? s.db n ≡ o → Quiet s (unchecked_tag o step s)
    go none e = tt
    go (some t) e =
        SameNames-set s _ n t (record t { attr = with_attributes attr t.attr }) e refl refl refl
