-- ===== src/Store/Roundtrip.antt =====
-- What `tag_read` gives after `tag_write` and `tag_mask_write`.
use open_dax.Base.{
  ℕ, ◌≡◌, refl, ap, sym, ◌∙◌, List, some, length, get_elem?, if◌then◌else◌, false, true, ok, Result,
  ret, run, and_then, and_then-ret, or_crash, or_crash-ret, subst, Bool, get_elem?-set_self,
  lt-of_get_elem?,
}
use open_dax.Base.Int.{ℤ, pos, negsuc}
use open_dax.Memory.{Block, slice_int, splice_int}
use open_dax.Memory.Copies.{slice-splice}
use open_dax.Cdt.{Datatype}
use open_dax.Event.{Event, Floats}
use open_dax.Server.{Tag, Server, block, has, tag_at, attr_virtual, attr_special, attr_ovr_set}
use open_dax.Store.{
  at_tag, check_size, tag_bytes, checked_bytes, overlay, stored_read, read_at, tag_read,
  stored_write, write_at, tag_write,
}
use open_dax.Store.Hooks.{special_tag_read}
use open_dax.Store.Written.{Committed, stored_write-Committed}

-- The tag after a write.
abbrev pub rewritten : Tag → Block → List Event → Tag
rewritten t b es = record t { tag_data = block b; events = es }

-- The size of a tag does not depend on its bytes.
pub checked_bytes-rewritten :
    (dts : List Datatype) (t : Tag) (offset : ℤ) (size : ℕ) (old new : Block) (es : List Event)
    → checked_bytes dts t offset size ≡ ret old
    → checked_bytes dts (rewritten t new es) offset size ≡ ret new
unfolding checked_bytes check_size tag_bytes
checked_bytes-rewritten dts t offset size old new es e =
    let (_, c, _) = and_then-ret (check_size dts t offset size) (λ _. tag_bytes t.tag_data) old e in
    λ j. and_then (c j) (λ _. tag_bytes (block new))

pub slice_int-splice_int :
    (offset : ℤ) (bytes old new : Block)
    → splice_int offset bytes old ≡ some new
    → slice_int offset (pos (length bytes)) new ≡ some bytes
unfolding splice_int slice_int
slice_int-splice_int (pos offset) bytes old new e = slice-splice offset bytes old new e
slice_int-splice_int (negsuc offset) bytes old new e = cc

-- Reading a special tag is always let through.
pub quiet :
    {A : Type 0} (b : Bool) (r : Result A)
    → and_then (if b then special_tag_read else ret tt) (λ _. r) ≡ r
quiet true r = refl
quiet false r = refl

pub overlay-none :
    (t : Tag) (offset : ℤ) (stored : Block)
    → has t attr_ovr_set ≡ false
    → overlay t offset stored ≡ ret stored
unfolding overlay
overlay-none t offset stored o = rw o refl

-- The parts of a read that returns.
pub stored_read-parts :
    (dts : List Datatype) (t : Tag) (offset : ℤ) (size : ℕ) (bytes : Block)
    → has t attr_ovr_set ≡ false
    → stored_read dts t offset size ≡ ret bytes
    → (b : Block) × (checked_bytes dts t offset size ≡ ret b)
      × (slice_int offset (pos size) b ≡ some bytes)
unfolding stored_read
stored_read-parts dts t offset size bytes off h =
    let rest = λ (stored : Block).
      and_then (if has t attr_special then special_tag_read else ret tt)
        (λ _. overlay t offset stored) in
    let (b, c, h₁) =
      and_then-ret (checked_bytes dts t offset size)
        (λ b. and_then (or_crash (slice_int offset (pos size) b)) rest) bytes h in
    let (stored, cut, h₂) = and_then-ret (or_crash (slice_int offset (pos size) b)) rest bytes h₁ in
    let e : ret stored ≡ ret bytes =
      sym (quiet (has t attr_special) (overlay t offset stored) ∙ overlay-none t offset stored off)
      ∙ h₂ in
    let same : stored ≡ bytes = cc in
    (
      b,
      c,
      subst (λ x. slice_int offset (pos size) b ≡ some x) same
          (or_crash-ret (slice_int offset (pos size) b) stored cut),
    )

-- A read of a tag without an override is a copy from its block.
pub stored_read-plain :
    (dts : List Datatype) (t : Tag) (offset : ℤ) (size : ℕ) (b bytes : Block)
    → has t attr_ovr_set ≡ false
    → checked_bytes dts t offset size ≡ ret b
    → slice_int offset (pos size) b ≡ some bytes
    → stored_read dts t offset size ≡ ret bytes
unfolding stored_read
stored_read-plain dts t offset size b bytes o c e =
    (λ j. and_then (c j) (λ b. and_then (or_crash (slice_int offset (pos size) b)) (λ stored.
      and_then (if has t attr_special then special_tag_read else ret tt)
        (λ _. overlay t offset stored))))
    ∙ (λ j. and_then (or_crash (e j)) (λ stored.
        and_then (if has t attr_special then special_tag_read else ret tt)
          (λ _. overlay t offset stored)))
    ∙ quiet (has t attr_special) (overlay t offset bytes)
    ∙ overlay-none t offset bytes o

pub stored_read-rewritten :
    (dts : List Datatype) (t : Tag) (offset : ℤ) (bytes old new : Block) (es : List Event)
    → has t attr_ovr_set ≡ false
    → checked_bytes dts t offset (length bytes) ≡ ret old
    → splice_int offset bytes old ≡ some new
    → stored_read dts (rewritten t new es) offset (length bytes) ≡ ret bytes
stored_read-rewritten dts t offset bytes old new es o c e =
    stored_read-plain dts (rewritten t new es) offset (length bytes) new bytes o
      (checked_bytes-rewritten dts t offset (length bytes) old new es c)
      (slice_int-splice_int offset bytes old new e)

pub tag_at-Committed :
    (s : Server) (i : ℕ) (t : Tag) (b : Block) (s' : Server) (c : Committed s i t b s')
    → tag_at s (pos i) ≡ some t
    → tag_at s' (pos i) ≡ some (rewritten t b c.looked_at)
tag_at-Committed s i t b s' c at =
    ap (λ db. get_elem? db i) c.db
    ∙ get_elem?-set_self s.db i (rewritten t b c.looked_at) (lt-of_get_elem? s.db i t at)

-- A write reaches the tag's block, or that of a queue.
pub tag_write-stored :
    (floats : Floats) (fd : ℤ) (i : ℕ) (offset : ℤ) (bytes : Block) (t : Tag) (s : Server)
    → tag_at s (pos i) ≡ some t
    → has t attr_virtual ≡ false
    → tag_write floats fd (pos i) offset bytes s ≡ stored_write floats fd offset bytes (pos i) t s
unfolding tag_write write_at
tag_write-stored floats fd i offset bytes t s at v =
    ap (λ o. at_tag o (write_at floats fd offset bytes (pos i)) s) at ∙ (rw v refl)

pub tag_read-stored :
    (fd : ℤ) (i : ℕ) (offset : ℤ) (size : ℕ) (t : Tag) (s : Server)
    → tag_at s (pos i) ≡ some t
    → has t attr_virtual ≡ false
    → tag_read fd (pos i) offset size s ≡ run (stored_read s.datatypes t offset size) s
unfolding tag_read read_at
tag_read-stored fd i offset size t s at v =
    ap (λ o. at_tag o (read_at fd offset size (pos i)) s) at ∙ (rw v refl)

-- What a successful write put into a tag that is neither virtual nor overridden, anybody then reads
-- from there.
pub tag_read-tag_write :
    (floats : Floats) (fd fd' : ℤ) (i : ℕ) (offset : ℤ) (bytes : Block) (t : Tag) (s s' : Server)
    → tag_at s (pos i) ≡ some t
    → has t attr_virtual ≡ false
    → has t attr_ovr_set ≡ false
    → tag_write floats fd (pos i) offset bytes s ≡ ok tt s'
    → tag_read fd' (pos i) offset (length bytes) s' ≡ ok bytes s'
tag_read-tag_write floats fd fd' i offset bytes t s s' at v o w =
    let w' = sym (tag_write-stored floats fd i offset bytes t s at v) ∙ w in
    let (old, new, checked, put, c) = stored_write-Committed floats i fd offset bytes t s s' w' in
    tag_read-stored fd' i offset (length bytes) (rewritten t new c.looked_at) s'
      (tag_at-Committed s i t new s' c at) v
    ∙ ap (λ dts. run (stored_read dts (rewritten t new c.looked_at) offset (length bytes)) s')
        c.datatypes
    ∙ ap (λ r. run r s')
        (stored_read-rewritten s.datatypes t offset bytes old new c.looked_at o checked put)
