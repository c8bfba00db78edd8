-- ===== src/Tagbase/Override/Counted.antt =====
-- What the functions of overrides share: they find a tag with data, write a counter, and change the
-- attributes of the tag.
use open_dax.Base.{
  ℕ, ◌≡◌, ◌≢◌, refl, ap, sym, ◌∙◌, subst, Bool, true, false, Option, none, some, get_elem?,
  if◌then◌else◌, Error, Outcome, ok, err, fault, ◌>>◌, >>-ok, get_elem?-set_self, lt-of_get_elem?,
}
use open_dax.Base.Int.{ℤ, pos, negsuc}
use open_dax.Event.{Floats}
use open_dax.Server.{Tag, Server, M, tag_at, set_tag}
use open_dax.Store.{at_tag, tag_write, unchecked_tag}
use open_dax.Store.Spared.{Same, SameAt, attempt-SameAt, tag_write-SameAt}
use open_dax.Tagbase.{is_data, word, write_status, write_counter}
use open_dax.Tagbase.Override.{with_data, change_attr}

module _ {A : Type 0} (idx : ℤ) (f : Tag → M A) (s s' : Server) (t : Tag) (a : A) where
  pub with_data-ok : tag_at s idx ≡ some t → with_data idx f s ≡ ok a s' → f t s ≡ ok a s'
  unfolding with_data
  with_data-ok at h = go (is_data t.tag_data) (sym (ap (λ o. at_tag o g s) at) ∙ h)
    where
      g : Tag → M A
      g t s = if is_data t.tag_data then f t s else err Error.deleted s

      go : (b : Bool) → (if b then f t s else err Error.deleted s) ≡ ok a s' → f t s ≡ ok a s'
      go true h = h
      go false h = cc

module _ (i : ℕ) where
  -- The tag at `i` is `t` now, and the tables are those of `s`.
  abbrev pub Holding : Server → Tag → Server → Type 0
  Holding s t s' =
      (get_elem? s'.db i ≡ some t) × (s'.index ≡ s.index) × (s'.datatypes ≡ s.datatypes)

  pub change_attr-Holding :
      (f : ℕ → ℕ) (s s' : Server) (t : Tag)
      → get_elem? s.db i ≡ some t
      → change_attr (pos i) f s ≡ ok tt s'
      → Holding s (record t { attr = f t.attr }) s'
  unfolding change_attr
  change_attr-Holding f s s' t at h =
      let t' : Tag = record t { attr = f t.attr } in
      let e : ok tt (set_tag s (pos i) t') ≡ ok tt s' =
        sym (
          ap
            (λ o.
              unchecked_tag o (λ t s. ok tt (set_tag s (pos i) (record t { attr = f t.attr }))) s)
            at)
        ∙ h in
      let same : set_tag s (pos i) t' ≡ s' = cc in
      subst (Holding s t') same
        (get_elem?-set_self s.db i t' (lt-of_get_elem? s.db i t at), refl, refl)

  module _ (floats : Floats) where
    pub write_counter-SameAt :
        (idx : ℤ) (n : ℕ) (s : Server) → idx ≢ pos i → SameAt i s (write_counter floats idx n s)
    unfolding write_counter write_status
    write_counter-SameAt idx n s ne = go (tag_at s idx)
      where
        write : Server → Outcome Server (Unit {0})
        write s = write_status floats idx (word n) s

        wrote : SameAt i s (write s)
        wrote =
            attempt-SameAt i s (tag_write floats (negsuc 0) idx (pos 0) (word n))
              (tag_write-SameAt i floats (negsuc 0) idx (pos 0) (word n) s ne)

        go :
            (o : Option Tag)
            → SameAt i s (elim o [
              | none ↦ ok tt s
              | some t ↦ if is_data t.tag_data then write s else ok tt s
            ])
        go none = (refl, refl, refl)
        go (some t) = data_or (is_data t.tag_data)
          where
            data_or : (b : Bool) → SameAt i s (if b then write s else ok tt s)
            data_or true = wrote
            data_or false = (refl, refl, refl)

    pub Same-of_ok :
        (o : Outcome Server (Unit {0})) (s s' : Server) → SameAt i s o → o ≡ ok tt s' → Same i s s'
    Same-of_ok (ok tt s₁) s s' k e = let same : s₁ ≡ s' = cc in subst (Same i s) same k
    Same-of_ok (err e s₁) s s' k h = cc
    Same-of_ok fault s s' k h = cc

    -- A counter of overrides is written, and then the attributes of another tag change.
    pub counted-Holding :
        (idx : ℤ) (n : ℕ) (f : ℕ → ℕ) (s s' : Server) (t : Tag)
        → idx ≢ pos i
        → get_elem? s.db i ≡ some t
        → (write_counter floats idx n >> change_attr (pos i) f) s ≡ ok tt s'
        → Holding s (record t { attr = f t.attr }) s'
    counted-Holding idx n f s s' t ne at h =
        let (s₁, e₁, h₁) = >>-ok (write_counter floats idx n) (change_attr (pos i) f) s tt s' h in
        let (d, x, y) = Same-of_ok _ s s₁ (write_counter-SameAt idx n s ne) e₁ in
        let (d', x', y') = change_attr-Holding f s₁ s' t (d ∙ at) h₁ in (d', x' ∙ x, y' ∙ y)
