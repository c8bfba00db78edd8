-- ===== src/Events/OfQueue.antt =====
-- `event_add` at the tag of a queue.
use open_dax.Base.{
  ℕ, ◌^◌, ◌≤◌, ◌≡◌, refl, ap, ◌∙◌, true, Bool-cases, inl, inr, none, some, length, get_elem?-ge,
  ltb, ◌==◌, fault, ◌>>=◌, ◌>>◌, crash, run, arith,
}
use open_dax.Base.Int.{signed}
use open_dax.Memory.{Block}
use open_dax.Types.{is_queue}
use open_dax.Event.{event_write}
use open_dax.Server.{Handle, Tag, Server, M, has, tag_at, attr_virtual}
use open_dax.Store.{at_tag}
use open_dax.Store.Notify.{visible}
use open_dax.Events.{set_event_data, check_queue, check_event, new_event, add_event, event_add}

-- The type of a queue is no index of a tag.
no_tag_at :
    (s : Server) (type : ℕ)
    → is_queue type ≡ true
    → length s.db ≤ 2 ^ 30
    → tag_at s (signed 32 type) ≡ none
no_tag_at s type q few = elim (Bool-cases (ltb type (2 ^ 31))) [
  | inl small ↦ rw small (get_elem?-ge s.db type (ground (arith)))
  | inr large ↦ rw large refl
]

-- A defect: `event_add` asks for the size of a queue's items with their type in place of the tag's
-- index. With at most 2 ^ 30 tags, a write event on a queue from byte 0 on reads outside of the
-- database.
pub event_add-queue :
    (h : Handle) (sent : Block) (notify : ℕ) (t : Tag) (s : Server)
    → tag_at s h.index ≡ some t
    → is_queue t.type ≡ true
    → length s.db ≤ 2 ^ 30
    → h.byte ≡ 0
    → event_add h event_write sent notify s ≡ fault
unfolding event_add check_event check_queue
event_add-queue h sent notify t s at q few start =
    let f = λ (t : Tag) (s : Server).
      (run (check_event s h event_write t)
          >> (run (
                set_event_data s.datatypes (new_event h event_write t notify) sent
                  (visible t.tag_data))
              >>= (λ kept. add_event h event_write notify t kept)))
        s in
    let rest : M ℕ =
      run (set_event_data s.datatypes (new_event h event_write t notify) sent (visible t.tag_data))
      >>= (λ kept. add_event h event_write notify t kept) in
    ap (λ o. at_tag o f s) at ∙ ap (λ r. (run r >> rest) s) checked
  where
    at_start : (h.byte == 0) ≡ true
    at_start = ground (arith, start)

    checked : check_event s h event_write t ≡ crash
    checked = elim (Bool-cases (has t attr_virtual)) [
      | inl v ↦ rw (v, q, at_start, no_tag_at s t.type q few) refl
      | inr v ↦ rw (v, q, at_start, no_tag_at s t.type q few) refl
    ]
