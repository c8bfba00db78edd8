-- ===== src/Tagbase/Del.antt =====
-- `tag_del` of src/server/tagbase.c, with `event_del_check` of src/server/events.c.
use open_dax.Base.{
  ◌-◌, [], ◌∷◌, none, if◌then◌else◌, Error, ok, err, ◌>>=◌, ◌>>◌, or_crash, run, Outcome, Result,
  ret, fail, crash, fault, List,
}
use open_dax.Base.Int.{ℤ}
use open_dax.Text.{CString}
use open_dax.NameIndex.{del_index}
use open_dax.Event.{Floats}
use open_dax.Server.{
  retain_removed, Output, Server, null, Tag, M, has, tag_at, place_of, set_tag, emit, attr_retain,
}
use open_dax.Store.{at_tag, unchecked_tag}
use open_dax.Store.Notify.{notify_deleted, visible}
use open_dax.Tagbase.{
  Unset, index_tagcount, index_deleted_tag, refcount, is_data, tag_desc, write_status,
  write_counter,
}

module _ (u : Unset) (floats : Floats) where
  -- The end of `tag_del`: name, data and attributes go.
  unfoldable pub clear_tag : ℤ → M (Unit {0})
  clear_tag idx s =
      unchecked_tag (tag_at s idx)
        (λ t s.
          ok tt (record (set_tag s idx (record t { name = none; tag_data = null; attr = 0 })) {
            tagcount = s.tagcount - 1;
          }))
        s

  -- What the events send goes out.
  unfoldable pub told : Server → Result (List Output) → Outcome Server (Unit {0})
  told s (ret out) = ok tt (emit s out)
  told s (fail e) = fault
  told s crash = fault

  -- `event_del_check`
  unfoldable pub event_del_check : ℤ → Tag → M (Unit {0})
  unfolding told
  event_del_check idx t s =
      told s (notify_deleted floats s.modules (place_of idx) (visible t.tag_data) t.events)

  -- The events, mappings and the name of a tag are taken away.
  unfoldable pub detach : ℤ → CString → Tag → M (Unit {0})
  unfolding refcount
  detach idx name t s =
      (do
        dts ← run (or_crash (refcount (λ n. n - 1) s.datatypes t.type))
        index ← run (del_index name s.index)
        λ s. ok tt (
            emit
              (set_tag (record s { datatypes = dts; index = index }) idx
                (record t { events = []; mappings = [] }))
              (if has t attr_retain then retain_removed (place_of idx) ∷ [] else [])))
        s

  -- The end of `tag_del`, once the index does not know the tag.
  unfoldable pub forget : ℤ → CString → Tag → M (Unit {0})
  unfolding write_status tag_desc clear_tag write_counter
  forget idx name t = do
    write_status floats index_deleted_tag (tag_desc u (place_of idx) t.type t.count t.attr name)
    clear_tag idx
    λ s. write_counter floats index_tagcount s.tagcount s

  unfoldable pub delete : ℤ → Tag → M (Unit {0})
  unfolding event_del_check detach forget
  delete idx t = do
    name ← run (or_crash t.name)
    event_del_check idx t
    detach idx name t
    forget idx name t

  -- `tag_del`
  unfoldable pub tag_del : ℤ → M (Unit {0})
  unfolding delete
  tag_del idx s =
      at_tag (tag_at s idx)
        (λ t s. if is_data t.tag_data then delete idx t s else err Error.deleted s) s
