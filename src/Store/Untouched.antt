-- ===== src/Store/Untouched.antt =====
-- Reads and writes leave alone what `Store.Frame` lists, in every case.
use open_dax.Base.{
  ℕ, ◌≡◌, refl, sym, List, [], ◌∷◌, ◌++◌, Option, none, some, length, get_elem?, Outcome, ok, err,
  fault, Result, ret, fail, crash, run, or_crash, Error, ◌>>◌, not, ◌||◌, ◌&&◌, ◌==◌, subst,
}
use open_dax.Base.Int.{ℤ, pos, pos_part, equal_ℤ}
use open_dax.Memory.{Block, splice_int}
use open_dax.Types.{TagType}
use open_dax.TagQueue.{TagQueue, write_queue}
use open_dax.Event.{Event, Floats}
use open_dax.Server.{
  Output, TagData, null, block, functions, VirtFunctions, WriteFunction, writes_queue, Tag, Server,
  has, tag_at, emit, retained, attr_virtual, attr_special, attr_retain,
}
use open_dax.Server.Find.{module_find_fd}
use open_dax.Store.{
  at_tag, unchecked_tag, checked_bytes, masked_bytes, noticed, retain_write, write_hook,
  mask_write_hook, event_check, event_check_at, commit, put_bytes, stored_write, queue_write,
  virtual_write, write_at, tag_write, put_masked, mask_write_at, tag_mask_write,
}
use open_dax.Store.Hooks.{keep_queue, owner_writes, special_tag_write, special_tag_mask_write}
use open_dax.Store.Notify.{notify_all, visible}
use open_dax.Store.Alike.{Like-refl, Like-data, Like-events, Looked, notify_all-Looked}
use open_dax.Store.Frame.{
  Like, Here, KeptBy, Keeps, Kept-refl, KeptBy-trans, KeptBy-if, Keeps->>=, Keeps->>, Keeps-run,
  Keeps-if, Kept-set, module_find_fd-Keeps,
}

module _ (i : ℕ) (t : Tag) where
  special_tag_write-Keeps :
      (fd idx : ℤ) (type : TagType) (offset : ℤ) (size : ℕ)
      → Keeps i t (special_tag_write fd idx type offset size)
  unfolding special_tag_write
  special_tag_write-Keeps fd idx type offset size s here =
      KeptBy-if i t s (not (type == s.module_tag_type) || (equal_ℤ offset (pos 77) && size == 1))
        (ok tt s) _ (Kept-refl i t s here)
        (Keeps->>= i t (module_find_fd fd) (λ m. run (owner_writes idx offset m))
          (module_find_fd-Keeps i t fd) (λ m. Keeps-run i t (owner_writes idx offset m)) s here)

  write_hook-Keeps :
      (fd : ℤ) (u : Tag) (offset : ℤ) (size : ℕ) → Keeps i t (write_hook fd (pos i) u offset size)
  unfolding write_hook
  write_hook-Keeps fd u offset size =
      Keeps-if i t (has u attr_special) (special_tag_write fd (pos i) u.type offset size) (ok tt)
        (special_tag_write-Keeps fd (pos i) u.type offset size) (Keeps-run i t (ret tt))

  mask_write_hook-Keeps :
      (fd : ℤ) (u : Tag) (offset : ℤ) (size : ℕ)
      → Keeps i t (mask_write_hook fd (pos i) u offset size)
  unfolding mask_write_hook special_tag_mask_write write_hook special_tag_write
  mask_write_hook-Keeps fd u offset size = write_hook-Keeps fd u offset size

  retain_write-Keeps : (u : Tag) → Keeps i t (retain_write (pos i) u)
  unfolding retain_write
  retain_write-Keeps u s here =
      KeptBy-if i t s (has u attr_retain) (ok tt (emit s (retained i ∷ []))) (ok tt s)
        (record {
          others = λ j n. refl;
          length = refl;
          index = refl;
          dbsize = refl;
          tagcount = refl;
          datatypes = refl;
          here = here;
        })
        (Kept-refl i t s here)

  noticed-Kept :
      (u : Tag) (s : Server) (r : Result (List Event × List Output))
      → Like t u
      → Looked u.events r
      → Here i t s
      → KeptBy i t s (noticed s (pos i) u r)
  unfolding noticed
  noticed-Kept u s (ret (es, out)) like same here =
      Kept-set i t s (record u { events = es }) (s.output ++ out) s.modules
        (Like-events t u es like same) here
  noticed-Kept u s (fail e) like same here = tt
  noticed-Kept u s crash like same here = tt

  module _ (floats : Floats) where
    event_check-Keeps :
        (u : Tag) (offset size : ℕ)
        → Like t u
        → Keeps i t (event_check floats (pos i) u offset size)
    unfolding event_check
    event_check-Keeps u offset size like s here =
        noticed-Kept u s (notify_all floats s.modules i (visible u.tag_data) offset size u.events)
          like (notify_all-Looked floats s.modules i (visible u.tag_data) offset size u.events) here

    put_bytes-Keeps :
        (offset : ℤ) (bytes : Block) (u : Tag) (old : Block)
        → Like t u
        → Keeps i t (put_bytes floats (pos i) offset bytes u old)
    unfolding put_bytes commit
    put_bytes-Keeps offset bytes u old like =
        Keeps->>= i t (run (or_crash (splice_int offset bytes old)))
          (λ new. commit floats (pos i) offset (length bytes) u new)
          (Keeps-run i t (or_crash (splice_int offset bytes old)))
          (λ new.
            Keeps->> i t
              (event_check floats (pos i) (record u { tag_data = block new }) (pos_part offset)
                (length bytes))
              (retain_write (pos i) u)
              (event_check-Keeps (record u { tag_data = block new }) (pos_part offset)
                (length bytes) (Like-data t u (block new) like))
              (retain_write-Keeps u))

    stored_write-Keeps :
        (fd offset : ℤ) (bytes : Block) (u : Tag)
        → Like t u
        → Keeps i t (stored_write floats fd offset bytes (pos i) u)
    unfolding stored_write
    stored_write-Keeps fd offset bytes u like s =
        Keeps->>= i t (run (checked_bytes s.datatypes u offset (length bytes)))
          (λ old.
            write_hook fd (pos i) u offset (length bytes)
            >> put_bytes floats (pos i) offset bytes u old)
          (Keeps-run i t (checked_bytes s.datatypes u offset (length bytes)))
          (λ old.
            Keeps->> i t (write_hook fd (pos i) u offset (length bytes))
              (put_bytes floats (pos i) offset bytes u old)
              (write_hook-Keeps fd u offset (length bytes))
              (put_bytes-Keeps offset bytes u old like))
          s

    event_check_at-Keeps : (offset size : ℕ) → Keeps i t (event_check_at floats (pos i) offset size)
    unfolding event_check_at
    event_check_at-Keeps offset size s (u, at, like) = go (get_elem? s.db i) at
      where
        go :
            (o : Option Tag)
            → o ≡ some u
            → KeptBy i t s
                (elim o [ none ↦ fault | some v ↦ event_check floats (pos i) v offset size s ])
        go none e = cc
        go (some v) e =
            let same : u ≡ v = cc in
            event_check-Keeps v offset size (subst (Like t) same like) s (u, at, like)

  keep_queue-Kept :
      {A : Type 0} (s : Server) (u : Tag) (v : VirtFunctions) (o : Outcome TagQueue A)
      → Like t u
      → Here i t s
      → KeptBy i t s (keep_queue s (pos i) u v o)
  unfolding keep_queue
  keep_queue-Kept s u v (ok a q) like here =
      Kept-set i t s (record u { tag_data = functions (record v { userdata = some q }) }) s.output
        s.modules (Like-data t u (functions (record v { userdata = some q })) like) here
  keep_queue-Kept s u v (err e q) like here =
      Kept-set i t s (record u { tag_data = functions (record v { userdata = some q }) }) s.output
        s.modules (Like-data t u (functions (record v { userdata = some q })) like) here
  keep_queue-Kept s u v fault like here = tt

  module _ (floats : Floats) where
    queue_write-Keeps :
        (offset : ℤ) (bytes : Block) (u : Tag) (v : VirtFunctions) (q : Option TagQueue)
        → Like t u
        → Keeps i t (queue_write floats offset bytes (pos i) u v q)
    unfolding queue_write
    queue_write-Keeps offset bytes u v none like s here = tt
    queue_write-Keeps offset bytes u v (some q) like s here =
        go (keep_queue s (pos i) u v (write_queue q offset bytes))
          (keep_queue-Kept s u v (write_queue q offset bytes) like here)
      where
        go :
            (o : Outcome Server (Unit {0}))
            → KeptBy i t s o
            → KeptBy i t s (elim o [
              | ok _ s' ↦ event_check_at floats (pos i) (pos_part offset) (length bytes) s'
              | err e s' ↦ err e s'
              | fault ↦ fault
            ])
        go (ok a s') k =
            KeptBy-trans i t s s'
              (event_check_at floats (pos i) (pos_part offset) (length bytes) s') k
              (event_check_at-Keeps floats (pos_part offset) (length bytes) s' k.here)
        go (err e s') k = k
        go fault k = tt

    virtual_write-Keeps :
        (offset : ℤ) (bytes : Block) (u : Tag) (v : VirtFunctions) (w : Option WriteFunction)
        → Like t u
        → Keeps i t (virtual_write floats offset bytes (pos i) u v w)
    unfolding virtual_write
    virtual_write-Keeps offset bytes u v none like s here = Kept-refl i t s here
    virtual_write-Keeps offset bytes u v (some writes_queue) like s here =
        queue_write-Keeps offset bytes u v v.userdata like s here

    write_at-Keeps :
        (fd offset : ℤ) (bytes : Block) (u : Tag)
        → Like t u
        → Keeps i t (write_at floats fd offset bytes (pos i) u)
    unfolding write_at
    write_at-Keeps fd offset bytes u like s here =
        KeptBy-if i t s (has u attr_virtual) _ (stored_write floats fd offset bytes (pos i) u s)
          (go u.tag_data) (stored_write-Keeps floats fd offset bytes u like s here)
      where
        go :
            (d : TagData)
            → KeptBy i t s (elim d [
              | null ↦ fault
              | block b ↦ fault
              | functions v ↦ virtual_write floats offset bytes (pos i) u v v.wf s
            ])
        go null = tt
        go (block b) = tt
        go (functions v) = virtual_write-Keeps offset bytes u v v.wf like s here

    put_masked-Keeps :
        (offset : ℤ) (bytes mask : Block) (u : Tag) (old : Block)
        → Like t u
        → Keeps i t (put_masked floats (pos i) offset bytes mask u old)
    unfolding put_masked
    put_masked-Keeps offset bytes mask u old like =
        Keeps->>= i t (run (masked_bytes offset bytes mask old))
          (λ masked. put_bytes floats (pos i) offset masked u old)
          (Keeps-run i t (masked_bytes offset bytes mask old))
          (λ masked. put_bytes-Keeps floats offset masked u old like)

    mask_write_at-Keeps :
        (fd offset : ℤ) (bytes mask : Block) (u : Tag)
        → Like t u
        → Keeps i t (mask_write_at floats fd offset bytes mask (pos i) u)
    unfolding mask_write_at
    mask_write_at-Keeps fd offset bytes mask u like s here =
        KeptBy-if i t s (has u attr_virtual) (err Error.illegal s) _ (Kept-refl i t s here) (
          Keeps->>= i t (run (checked_bytes s.datatypes u offset (length bytes)))
            (λ old.
              mask_write_hook fd (pos i) u offset (length bytes)
              >> put_masked floats (pos i) offset bytes mask u old)
            (Keeps-run i t (checked_bytes s.datatypes u offset (length bytes)))
            (λ old.
              Keeps->> i t (mask_write_hook fd (pos i) u offset (length bytes))
                (put_masked floats (pos i) offset bytes mask u old)
                (mask_write_hook-Keeps fd u offset (length bytes))
                (put_masked-Keeps offset bytes mask u old like))
            s here)

-- A write or a masked write to a tag, whether it succeeds or is refused, leaves the other tags as
-- they are, the tables too, and of the tag itself all but its data and the notes of its events: the
-- same events stay, in their order, and so do the counters of events and mappings.
pub tag_write-KeptBy :
    (floats : Floats) (fd : ℤ) (i : ℕ) (offset : ℤ) (bytes mask : Block) (t : Tag) (s : Server)
    → tag_at s (pos i) ≡ some t
    → KeptBy i t s (tag_write floats fd (pos i) offset bytes s)
      × KeptBy i t s (tag_mask_write floats fd (pos i) offset bytes mask s)
unfolding tag_write tag_mask_write
tag_write-KeptBy floats fd i offset bytes mask t s at = (
  subst (λ o. KeptBy i t s (at_tag o (write_at floats fd offset bytes (pos i)) s)) (sym at)
      (write_at-Keeps i t floats fd offset bytes t (Like-refl t) s (t, at, Like-refl t)),
  subst (λ o. KeptBy i t s (unchecked_tag o (mask_write_at floats fd offset bytes mask (pos i)) s))
      (sym at)
      (mask_write_at-Keeps i t floats fd offset bytes mask t (Like-refl t) s (t, at, Like-refl t)),
)
