-- ===== src/Store/Spared.antt =====
-- What a write leaves as it is: the tags other than its own, and the tables.
use open_dax.Base.{
  ℕ, ◌≡◌, ◌≢◌, refl, ap, sym, ◌∙◌, subst, [], get_elem?, Outcome, ok, err, fault, ◌>>◌, attempt,
  Option-cases, inl, inr,
}
use open_dax.Base.Int.{ℤ, pos, negsuc}
use open_dax.Memory.{Block}
use open_dax.Event.{Floats}
use open_dax.Server.{Server, Tag, M, tag_at}
use open_dax.Store.{at_tag, write_at, tag_write}
use open_dax.Store.Frame.{KeptBy}
use open_dax.Store.Untouched.{tag_write-KeptBy}

-- The tag at `j` and the tables stay, when the operation returns.
abbrev pub Same : ℕ → Server → Server → Type 0
Same j s s' =
    (get_elem? s'.db j ≡ get_elem? s.db j) × (s'.index ≡ s.index) × (s'.datatypes ≡ s.datatypes)

abbrev pub SameAt : {A : Type 0} → ℕ → Server → Outcome Server A → Type 0
SameAt j s (ok a s') = Same j s s'
SameAt j s (err e s') = Same j s s'
SameAt j s fault = Unit {0}

module _ (j : ℕ) where
  pub SameAt-trans :
      {A : Type 0} (s s' : Server) (o : Outcome Server A)
      → Same j s s'
      → SameAt j s' o
      → SameAt j s o
  SameAt-trans s s' (ok a s'') (d, i, t) (d', i', t') = (d' ∙ d, i' ∙ i, t' ∙ t)
  SameAt-trans s s' (err e s'') (d, i, t) (d', i', t') = (d' ∙ d, i' ∙ i, t' ∙ t)
  SameAt-trans s s' fault k l = tt

  pub SameAt->> :
      {B : Type 0} (s : Server) (m : M (Unit {0})) (f : M B)
      → SameAt j s (m s)
      → ((s' : Server) → SameAt j s' (f s'))
      → SameAt j s ((m >> f) s)
  SameAt->> {B} s m f hm hf = go (m s) hm
    where
      go :
          (o : Outcome Server (Unit {0}))
          → SameAt j s o
          → SameAt j s (elim o [ ok a s' ↦ f s' | err e s' ↦ err e s' | fault ↦ fault ])
      go (ok a s') k = SameAt-trans s s' (f s') k (hf s')
      go (err e s') k = k
      go fault k = tt

  pub KeptBy-SameAt :
      {A : Type 0} (i : ℕ) (t : Tag) (s : Server) (o : Outcome Server A)
      → i ≢ j
      → KeptBy i t s o
      → SameAt j s o
  KeptBy-SameAt i t s (ok a s') ne k = (k.others j ne, k.index, k.datatypes)
  KeptBy-SameAt i t s (err e s') ne k = (k.others j ne, k.index, k.datatypes)
  KeptBy-SameAt i t s fault ne k = tt

  -- The same where the caller drops the error.
  pub attempt-SameAt :
      {A : Type 0} (s : Server) (m : M A) → SameAt j s (m s) → SameAt j s (attempt m s)
  attempt-SameAt {A} s m h = go (m s) h
    where
      go :
          (o : Outcome Server A)
          → SameAt j s o
          → SameAt j s (elim o [ ok a s' ↦ ok tt s' | err e s' ↦ ok tt s' | fault ↦ fault ])
      go (ok a s') k = k
      go (err e s') k = k
      go fault k = tt

  module _ (floats : Floats) where
    pub tag_write-SameAt :
        (fd idx offset : ℤ) (bytes : Block) (s : Server)
        → idx ≢ pos j
        → SameAt j s (tag_write floats fd idx offset bytes s)
    unfolding tag_write
    tag_write-SameAt fd (negsuc i) offset bytes s ne = (refl, refl, refl)
    tag_write-SameAt fd (pos i) offset bytes s ne = elim (Option-cases (tag_at s (pos i))) [
      | inl e ↦
          subst (λ o. SameAt j s (at_tag o (write_at floats fd offset bytes (pos i)) s)) (sym e)
            (refl, refl, refl)
      | inr (t, e) ↦
          KeptBy-SameAt i t s _ (λ same. ne (ap pos same))
            (tag_write-KeptBy floats fd i offset bytes [] t s e).0
    ]
