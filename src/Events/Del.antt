-- ===== src/Events/Del.antt =====
-- `event_del`, `event_opt` and `events_cleanup` of src/server/events.c, with `_find_event`.
use open_dax.Base.{
  ℕ, zero, suc, Bool, List, [], ◌∷◌, Option, none, some, length, ◌==◌, if◌then◌else◌, Error, ok,
  err, fault, ◌>>=◌, ◌>>◌, Result, ret, fail, crash, and_then, run,
}
use open_dax.Base.Int.{ℤ, pos, negsuc, ltb_ℤ}
use open_dax.Base.Attrs.{clear_attr}
use open_dax.Event.{Event}
use open_dax.Server.{Module, Tag, Server, M, tag_at, set_tag, attr_event}
use open_dax.Store.{at_tag}
use open_dax.Events.{recount}

-- `_find_event`
unfoldable pub find_event : ℕ → List Event → Option Event
find_event id [] = none
find_event id (e ∷ es) = if e.id == id then some e else find_event id es

-- The loop of `event_del` behind the first event: the list without the event, or none if the event
-- is not there.
unfoldable pub remove_event : ℕ → ℕ → List Event → Result (Option (List Event))
remove_event id notify [] = ret none
remove_event id notify (e ∷ es) =
    if e.id == id
    then (if e.notify == notify then ret (some es) else fail Error.auth)
    else and_then (remove_event id notify es)
        (λ o. elim o [ none ↦ ret none | some es' ↦ ret (some (e ∷ es')) ])

-- The attributes of a tag with these events left.
abbrev pub attr_after : ℕ → List Event → ℕ
attr_after attr [] = clear_attr attr attr_event
attr_after attr (e ∷ es) = attr

-- The end of `event_del`, with the events of the tag as they are then: the module has one event less,
-- whether one was deleted or not.
unfoldable pub end_del : ℤ → ℕ → Tag → List Event → Option Error → M (Unit {0})
unfolding recount
end_del index notify t es e s =
    let s' = set_tag s index (record t { events = es; attr = attr_after t.attr es }) in
    let s'' = record s' { modules = recount notify (negsuc 0) s'.modules } in
    elim e [ none ↦ ok tt s'' | some e ↦ err e s'' ]

-- The first event is freed before its `next` is read.
unfoldable pub del_from : ℤ → ℕ → ℕ → Tag → List Event → M (Unit {0})
unfolding remove_event end_del
del_from index id notify t [] s = err Error.notfound s
del_from index id notify t (e ∷ es) s =
    if e.id == id
    then (if e.notify == notify then fault else err Error.auth s)
    else (do
      o ← run (remove_event id notify es)
      λ s. elim o [
        | none ↦ end_del index notify t (e ∷ es) (some Error.notfound) s
        | some es' ↦ end_del index notify t (e ∷ es') none s
      ])
        s

abbrev pub event_tag : {A : Type 0} → Option Tag → (Tag → M A) → M A
event_tag none f s = err Error.too_big s
event_tag (some t) f s = f t s

-- `event_del`
unfoldable pub event_del : ℤ → ℕ → ℕ → M (Unit {0})
unfolding del_from
event_del index id notify s =
    event_tag (tag_at s index) (λ t. del_from index id notify t t.events) s

unfoldable pub set_options : ℕ → ℕ → List Event → List Event
set_options id options [] = []
set_options id options (e ∷ es) =
    if e.id == id then record e { options = options } ∷ es else e ∷ set_options id options es

-- `event_opt`
unfoldable pub event_opt : ℤ → ℕ → ℕ → ℕ → M (Unit {0})
unfolding find_event set_options
event_opt index id options notify s =
    event_tag (tag_at s index)
      (λ t s. elim (find_event id t.events) [
        | none ↦ err Error.notfound s
        | some e ↦
            if e.notify == notify
            then ok tt (set_tag s index (record t { events = set_options id options t.events }))
            else err Error.auth s
      ])
      s

-- The inner loop of `events_cleanup`: after `event_del` has freed an event, its `next` is read.
unfoldable pub cleanup_events : ℤ → ℕ → List Event → M (Unit {0})
unfolding event_del
cleanup_events index id [] s = ok tt s
cleanup_events index id (e ∷ es) s =
    let rest = λ (s : Server). cleanup_events index id es s in
    if e.notify == id
    then (elim (event_del index e.id id s) [ ok _ s' ↦ fault | err _ s' ↦ rest s' | fault ↦ fault ])
    else rest s

-- `module->event_count > 0`
unfoldable pub has_events : ℕ → List Module → Result Bool
has_events id [] = crash
has_events id (m ∷ ms) = if m.id == id then ret (ltb_ℤ (pos 0) m.event_count) else has_events id ms

-- The outer loop, for the tags below `n`.
unfoldable pub cleanup_tags : ℕ → ℕ → M (Unit {0})
unfolding cleanup_events has_events
cleanup_tags zero id s = ok tt s
cleanup_tags (suc n) id s =
    let rest = λ (s : Server). cleanup_tags n id s in
    elim (has_events id s.modules) [
      | ret more ↦
          if more
          then (at_tag (tag_at s (pos n)) (λ t. cleanup_events (pos n) id t.events) >> rest) s
          else ok tt s
      | fail e ↦ err e s
      | crash ↦ fault
    ]

-- `events_cleanup`
unfoldable pub events_cleanup : ℕ → M (Unit {0})
unfolding cleanup_tags
events_cleanup id s = cleanup_tags (length s.db) id s
