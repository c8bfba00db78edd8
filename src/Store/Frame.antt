-- ===== src/Store/Frame.antt =====
-- What reads and writes of a tag leave alone, on every branch.
use open_dax.Base.{
  ℕ, ◌≡◌, ◌≢◌, refl, ◌∙◌, List, [], map, Option, none, some, length, get_elem?, set, if◌then◌else◌,
  false, true, Outcome, ok, err, fault, Result, ret, fail, crash, run, Bool, ◌>>=◌, ◌>>◌,
  length-set, get_elem?-set_self, get_elem?-set_ne, lt-of_get_elem?,
}
use open_dax.Base.Int.{ℤ}
use open_dax.Event.{Event}
use open_dax.Server.{Module, Output, Tag, Server, M}
use open_dax.Server.Find.{turn_to, turned, module_find_fd}

-- An event without what it has seen.
abbrev pub unseen : Event → Event
unseen e = record e { test = [] }

-- All of a tag but its data, and what its events have seen.
pub record Like (t u : Tag) : Type 0 where
  pub type : u.type ≡ t.type
  pub attr : u.attr ≡ t.attr
  pub count : u.count ≡ t.count
  pub name : u.name ≡ t.name
  pub fd : u.fd ≡ t.fd
  pub nextevent : u.nextevent ≡ t.nextevent
  pub nextmap : u.nextmap ≡ t.nextmap
  pub events : map unseen u.events ≡ map unseen t.events
  pub mappings : u.mappings ≡ t.mappings
  pub omask : u.omask ≡ t.omask
  pub odata : u.odata ≡ t.odata

module _ (i : ℕ) (t : Tag) where
  -- The tag at `i` is like `t`.
  abbrev pub Here : Server → Type 0
  Here s = (u : Tag) × (get_elem? s.db i ≡ some u) × Like t u

  -- From one state to the next, the other tags and the tables are the same.
  pub record Kept (s s' : Server) : Type 0 where
    pub others : (j : ℕ) → i ≢ j → get_elem? s'.db j ≡ get_elem? s.db j
    pub length : length s'.db ≡ length s.db
    pub index : s'.index ≡ s.index
    pub dbsize : s'.dbsize ≡ s.dbsize
    pub tagcount : s'.tagcount ≡ s.tagcount
    pub datatypes : s'.datatypes ≡ s.datatypes
    pub here : Here s'

  -- The same of what a function returns, also with an error.
  abbrev pub KeptBy : {A : Type 0} → Server → Outcome Server A → Type 0
  KeptBy s (ok a s') = Kept s s'
  KeptBy s (err e s') = Kept s s'
  KeptBy s fault = Unit {0}

  abbrev pub Keeps : {A : Type 0} → M A → Type 0
  Keeps m = (s : Server) → Here s → KeptBy s (m s)

  pub Kept-refl : (s : Server) → Here s → Kept s s
  Kept-refl s h = record {
    others = λ j n. refl;
    length = refl;
    index = refl;
    dbsize = refl;
    tagcount = refl;
    datatypes = refl;
    here = h;
  }

  pub Kept-trans : (s s' s'' : Server) → Kept s s' → Kept s' s'' → Kept s s''
  Kept-trans s s' s'' k l = record {
    others = λ j n. l.others j n ∙ k.others j n;
    length = l.length ∙ k.length;
    index = l.index ∙ k.index;
    dbsize = l.dbsize ∙ k.dbsize;
    tagcount = l.tagcount ∙ k.tagcount;
    datatypes = l.datatypes ∙ k.datatypes;
    here = l.here;
  }

  pub KeptBy-trans :
      {A : Type 0} (s s' : Server) (o : Outcome Server A) → Kept s s' → KeptBy s' o → KeptBy s o
  KeptBy-trans s s' (ok a s'') k l = Kept-trans s s' s'' k l
  KeptBy-trans s s' (err e s'') k l = Kept-trans s s' s'' k l
  KeptBy-trans s s' fault k l = tt

  pub Keeps->>= :
      {A B : Type 0} (m : M A) (f : A → M B) → Keeps m → ((a : A) → Keeps (f a)) → Keeps (m >>= f)
  Keeps->>= {A} {B} m f hm hf s here = go (m s) (hm s here)
    where
      go :
          (o : Outcome Server A)
          → KeptBy s o
          → KeptBy s (elim o [ ok a s' ↦ f a s' | err e s' ↦ err e s' | fault ↦ fault ])
      go (ok a s') k = KeptBy-trans s s' (f a s') k (hf a s' k.here)
      go (err e s') k = k
      go fault k = tt

  pub Keeps->> : {B : Type 0} (m : M (Unit {0})) (f : M B) → Keeps m → Keeps f → Keeps (m >> f)
  Keeps->> {B} m f hm hf s here = go (m s) (hm s here)
    where
      go :
          (o : Outcome Server (Unit {0}))
          → KeptBy s o
          → KeptBy s (elim o [ ok a s' ↦ f s' | err e s' ↦ err e s' | fault ↦ fault ])
      go (ok a s') k = KeptBy-trans s s' (f s') k (hf s' k.here)
      go (err e s') k = k
      go fault k = tt

  pub Keeps-run : {A : Type 0} (r : Result A) → Keeps (run r)
  Keeps-run (ret a) s here = Kept-refl s here
  Keeps-run (fail e) s here = Kept-refl s here
  Keeps-run crash s here = tt

  pub KeptBy-if :
      {A : Type 0} (s : Server) (b : Bool) (o o' : Outcome Server A)
      → KeptBy s o
      → KeptBy s o'
      → KeptBy s (if b then o else o')
  KeptBy-if s true o o' h h' = h
  KeptBy-if s false o o' h h' = h'

  pub Keeps-if :
      {A : Type 0} (b : Bool) (m n : M A) → Keeps m → Keeps n → Keeps (if b then m else n)
  Keeps-if true m n hm hn = hm
  Keeps-if false m n hm hn = hn

  -- A tag goes back to its place, with another value of what may change.
  pub Kept-set :
      (s : Server) (u : Tag) (out : List Output) (modules : List Module)
      → Like t u
      → Here s
      → Kept s (record s { db = set s.db i u; output = out; modules = modules })
  Kept-set s u out modules like (u₀, at, _) = record {
    others = λ j n. get_elem?-set_ne s.db i j u n;
    length = length-set s.db i u;
    index = refl;
    dbsize = refl;
    tagcount = refl;
    datatypes = refl;
    here = (u, get_elem?-set_self s.db i u (lt-of_get_elem? s.db i u₀ at), like);
  }

  pub module_find_fd-Keeps : (fd : ℤ) → Keeps (module_find_fd fd)
  unfolding module_find_fd turned
  module_find_fd-Keeps fd s here = go (turn_to fd [] s.modules)
    where
      go : (o : Option (Module × List Module)) → KeptBy s (turned s o)
      go none = Kept-refl s here
      go (some (m, ring)) = record {
        others = λ j n. refl;
        length = refl;
        index = refl;
        dbsize = refl;
        tagcount = refl;
        datatypes = refl;
        here = here;
      }
