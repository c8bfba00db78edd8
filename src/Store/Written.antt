-- ===== src/Store/Written.antt =====
-- What a write of `tag_write` that succeeds has done.
use open_dax.Base.{
  ℕ, ◌≡◌, ap, List, [], Option, none, some, length, set, ok, Result, ret, fail, crash, run, >>=-ok,
  >>-ok, run-ok, or_crash, ◌>>=◌, ◌>>◌, Bool-cases, subst, or_crash-ret, not, ◌||◌, ◌&&◌, ◌==◌, inl,
  inr, sym, ◌∙◌, ◌∷◌, ◌++◌,
}
use open_dax.Base.Int.{ℤ, pos, pos_part, equal_ℤ}
use open_dax.Memory.{Block, splice_int}
use open_dax.Types.{TagType}
use open_dax.Event.{Event, Floats}
use open_dax.Server.{
  Output, Module, Tag, Server, block, has, place_of, emit, attr_special, attr_retain, retained,
}
use open_dax.Server.Find.{turn_to, turned, module_find_fd}
use open_dax.Store.{
  noticed, retain_write, event_check, commit, put_bytes, write_hook, mask_write_hook, stored_write,
  checked_bytes,
}
use open_dax.Store.Hooks.{special_tag_write, special_tag_mask_write, owner_writes}
use open_dax.Store.Notify.{visible, notify_all}

-- All that the search for a module changes is where the ring of modules starts.
pub module_find_fd-turns :
    (fd : ℤ) (s : Server) (m : Option Module) (s' : Server)
    → module_find_fd fd s ≡ ok m s'
    → (ring : List Module) × (s' ≡ record s { modules = ring })
unfolding module_find_fd turned
module_find_fd-turns fd s m s' h = go (turn_to fd [] s.modules) h
  where
    go :
        (o : Option (Module × List Module))
        → turned s o ≡ ok m s'
        → (ring : List Module) × (s' ≡ record s { modules = ring })
    go none p = (s.modules, cc)
    go (some (m', ring)) p = (ring, cc)

pub special_tag_write-turns :
    (fd idx : ℤ) (type : TagType) (offset : ℤ) (size : ℕ) (s s' : Server)
    → special_tag_write fd idx type offset size s ≡ ok tt s'
    → (ring : List Module) × (s' ≡ record s { modules = ring })
unfolding special_tag_write
special_tag_write-turns fd idx type offset size s s' h =
    elim (Bool-cases (not (type == s.module_tag_type) || (equal_ℤ offset (pos 77) && size == 1))) [
      | inl e ↦ (s.modules, let h' : ok tt s ≡ ok tt s' = rw e at h in cc)
      | inr e ↦
          let h' : (module_find_fd fd >>= (λ m. run (owner_writes idx offset m))) s ≡ ok tt s' =
            rw e at h in
          let (m, s₁, find, checked) =
            >>=-ok (module_find_fd fd) (λ m. run (owner_writes idx offset m)) s tt s' h' in
          let (ring, turned) = module_find_fd-turns fd s m s₁ find in
          let (_, same) = run-ok (owner_writes idx offset m) s₁ tt s' checked in
          (ring, sym same ∙ turned)
    ]

-- What a successful write leaves: the tag has the new block, and the rest of the tag database is
-- the same.
pub record Committed (s : Server) (i : ℕ) (t : Tag) (b : Block) (s' : Server) : Type 0 where
  pub looked_at : List Event
  pub db : s'.db ≡ set s.db i (record t { tag_data = block b; events = looked_at })
  pub datatypes : s'.datatypes ≡ s.datatypes
  pub index : s'.index ≡ s.index
  pub tagcount : s'.tagcount ≡ s.tagcount

pub write_hook-turns :
    (fd idx : ℤ) (t : Tag) (offset : ℤ) (size : ℕ) (s s' : Server)
    → write_hook fd idx t offset size s ≡ ok tt s'
    → (ring : List Module) × (s' ≡ record s { modules = ring })
unfolding write_hook
write_hook-turns fd idx t offset size s s' h = elim (Bool-cases (has t attr_special)) [
  | inl e ↦
      let h' : special_tag_write fd idx t.type offset size s ≡ ok tt s' = rw e at h in
      special_tag_write-turns fd idx t.type offset size s s' h'
  | inr e ↦ (s.modules, let h' : ok tt s ≡ ok tt s' = rw e at h in cc)
]

pub mask_write_hook-turns :
    (fd idx : ℤ) (t : Tag) (offset : ℤ) (size : ℕ) (s s' : Server)
    → mask_write_hook fd idx t offset size s ≡ ok tt s'
    → (ring : List Module) × (s' ≡ record s { modules = ring })
unfolding mask_write_hook special_tag_mask_write special_tag_write write_hook
mask_write_hook-turns fd idx t offset size s s' h = write_hook-turns fd idx t offset size s s' h

retain_write-kept :
    (idx : ℤ) (t : Tag) (s s' : Server)
    → retain_write idx t s ≡ ok tt s'
    → (out : List Output) × (s' ≡ record s { output = out })
unfolding retain_write
retain_write-kept idx t s s' h = elim (Bool-cases (has t attr_retain)) [
  | inl e ↦ (
    s.output ++ (retained (place_of idx) ∷ []),
    let h' : ok tt (emit s (retained (place_of idx) ∷ [])) ≡ ok tt s' = rw e at h in cc,
  )
  | inr e ↦ (s.output, let h' : ok tt s ≡ ok tt s' = rw e at h in cc)
]

noticed-kept :
    (s : Server) (i : ℕ) (t : Tag) (r : Result (List Event × List Output)) (s' : Server)
    → noticed s (pos i) t r ≡ ok tt s'
    → (es : List Event) × (out : List Output) × (s'
        ≡ record s { db = set s.db i (record t { events = es }); output = out })
unfolding noticed
noticed-kept s i t (ret (es, out)) s' h = (es, s.output ++ out, cc)
noticed-kept s i t (fail e) s' h = cc
noticed-kept s i t crash s' h = cc

pub unturn :
    (s : Server) (ring : List Module) (i : ℕ) (t : Tag) (b : Block) (s₂ s' : Server)
    → s₂ ≡ record s { modules = ring }
    → Committed s₂ i t b s'
    → Committed s i t b s'
unturn s ring i t b s₂ s' e c = record {
  looked_at = c.looked_at;
  db =
      c.db
      ∙ ap (λ (s₃ : Server). set s₃.db i (record t { tag_data = block b; events = c.looked_at })) e;
  datatypes = c.datatypes ∙ ap (λ (s₃ : Server). s₃.datatypes) e;
  index = c.index ∙ ap (λ (s₃ : Server). s₃.index) e;
  tagcount = c.tagcount ∙ ap (λ (s₃ : Server). s₃.tagcount) e;
}

module _ (floats : Floats) (i : ℕ) where
  pub commit-Committed :
      (offset : ℤ) (size : ℕ) (t : Tag) (b : Block) (s s' : Server)
      → commit floats (pos i) offset size t b s ≡ ok tt s'
      → Committed s i t b s'
  unfolding commit event_check
  commit-Committed offset size t b s s' h =
      let t' = record t { tag_data = block b } in
      let (s₁, checked, rest) =
        >>-ok (event_check floats (pos i) t' (pos_part offset) size) (retain_write (pos i) t) s tt
          s' h in
      let (es, out, e) =
        noticed-kept s i t'
          (notify_all floats s.modules i (visible t'.tag_data) (pos_part offset) size t'.events) s₁
          checked in
      let (out', e') = retain_write-kept (pos i) t s₁ s' rest in
      Committed-of es out' (e' ∙ ap (λ (s₂ : Server). record s₂ { output = out' }) e)
    where
      Committed-of :
          (es : List Event) (out : List Output)
          → s' ≡ record s {
            db = set s.db i (record t { tag_data = block b; events = es });
            output = out;
          }
          → Committed s i t b s'
      Committed-of es out e = record {
        looked_at = es;
        db = ap (λ (s₂ : Server). s₂.db) e;
        datatypes = ap (λ (s₂ : Server). s₂.datatypes) e;
        index = ap (λ (s₂ : Server). s₂.index) e;
        tagcount = ap (λ (s₂ : Server). s₂.tagcount) e;
      }

  pub put_bytes-Committed :
      (offset : ℤ) (bytes : Block) (t : Tag) (old : Block) (s s' : Server)
      → put_bytes floats (pos i) offset bytes t old s ≡ ok tt s'
      → (new : Block) × (splice_int offset bytes old ≡ some new) × Committed s i t new s'
  unfolding put_bytes
  put_bytes-Committed offset bytes t old s s' h =
      let (new, s₁, e, rest) =
        >>=-ok (run (or_crash (splice_int offset bytes old)))
          (λ new. commit floats (pos i) offset (length bytes) t new) s tt s' h in
      let (put, same) = run-ok (or_crash (splice_int offset bytes old)) s new s₁ e in
      (
        new,
        or_crash-ret _ new put,
        subst (λ s₂. Committed s₂ i t new s') (sym same)
            (commit-Committed offset (length bytes) t new s₁ s' rest),
      )

  pub stored_write-Committed :
      (fd offset : ℤ) (bytes : Block) (t : Tag) (s s' : Server)
      → stored_write floats fd offset bytes (pos i) t s ≡ ok tt s'
      → (old : Block) × (new : Block) × (checked_bytes s.datatypes t offset (length bytes)
          ≡ ret old)
        × (splice_int offset bytes old ≡ some new)
        × Committed s i t new s'
  unfolding stored_write
  stored_write-Committed fd offset bytes t s s' h =
      let checked = run (checked_bytes s.datatypes t offset (length bytes)) in
      let hook = write_hook fd (pos i) t offset (length bytes) in
      let (old, s₁, e₁, h₁) =
        >>=-ok checked (λ old. hook >> put_bytes floats (pos i) offset bytes t old) s tt s' h in
      let (got, same) = run-ok (checked_bytes s.datatypes t offset (length bytes)) s old s₁ e₁ in
      let (s₂, e₂, h₂) = >>-ok hook (put_bytes floats (pos i) offset bytes t old) s₁ tt s' h₁ in
      let (ring, turned) = write_hook-turns fd (pos i) t offset (length bytes) s₁ s₂ e₂ in
      let (new, put, c) = put_bytes-Committed offset bytes t old s₂ s' h₂ in
      (
        old,
        new,
        got,
        put,
        unturn s ring i t new s₂ s'
            (turned ∙ ap (λ (s₃ : Server). record s₃ { modules = ring }) (sym same)) c,
      )
