-- ===== src/Events/Adding.antt =====
-- What `event_add` leaves, and when a change event that it added fires.
use open_dax.Base.{
  ℕ, ◌+◌, ◌%◌, ◌^◌, ◌≤◌, ◌≡◌, ◌≢◌, refl, ap, sym, ◌∙◌, subst, Bool, true, false, not, ◌&&◌, Option,
  none, some, get_elem?, set, ltb, if◌then◌else◌, Error, ok, err, ◌>>=◌, ◌>>◌, >>=-ok, >>-ok,
  run-ok, and_then, and_then-ret, Result, ret, fail, run, arith, get_elem?-set_self,
  get_elem?-set_ne, lt-of_get_elem?,
}
use open_dax.Base.Int.{ℤ, pos, negsuc}
use open_dax.Memory.{Block}
use open_dax.Event.{Event}
use open_dax.Server.{Handle, Tag, Server, M, has, tag_at, place_of, attr_virtual}
use open_dax.Types.{is_queue}
use open_dax.Store.{at_tag, tag_get_size}
use open_dax.Store.Notify.{visible}
use open_dax.Events.{
  as_word, verify_event_type, set_event_data, check_queue, check_event, new_event, with_event,
  recount, add_event, event_add,
}

module _ (i : ℕ) (h : Handle) (etype : ℕ) (sent : Block) (notify : ℕ) (t : Tag) (s : Server) where
  -- The tag has a new first event, and the others are the same.
  pub record Added (n : ℕ) (s' : Server) : Type 0 where
    pub number : n ≡ t.nextevent
    pub event : Event
    pub now : tag_at s' (pos i) ≡ some (with_event t event)
    pub others : (j : ℕ) → i ≢ j → get_elem? s'.db j ≡ get_elem? s.db j
    pub handled :
        event ≡ record (new_event h etype t notify) { operand = event.operand; test = event.test }
    pub kept :
        set_event_data s.datatypes (new_event h etype t notify) sent (visible t.tag_data)
        ≡ ret (event.operand, event.test)
    pub room : ℤ
    pub sized : tag_get_size s.datatypes t ≡ ret room
    pub inside : (h.byte + h.size) % 2 ^ 32 ≤ as_word room
    pub verified : verify_event_type h.type etype ≡ true

  -- The checks that were passed.
  check_event-inside :
      check_event s h etype t ≡ ret tt
      → (room : ℤ) × (tag_get_size s.datatypes t ≡ ret room)
        × ((h.byte + h.size) % 2 ^ 32 ≤ as_word room)
        × (verify_event_type h.type etype ≡ true)
  unfolding check_event
  check_event-inside e = virtual (has t attr_virtual && not (is_queue t.type)) e
    where
      last : ℤ → Result (Unit {0})
      last room =
          if ltb (as_word room) ((h.byte + h.size) % 2 ^ 32)
          then fail Error.too_big
          else if verify_event_type h.type etype
          then ret tt
          else fail Error.arg

      checks : Result (Unit {0})
      checks = and_then (check_queue s h etype t) (λ _. and_then (tag_get_size s.datatypes t) last)

      fits :
          (room : ℤ) (b c : Bool)
          → (if b then fail Error.too_big else if c then ret tt else fail Error.arg) ≡ ret tt
          → (b ≡ false) × (c ≡ true)
      fits room true c e = cc
      fits room false true e = (refl, refl)
      fits room false false e = cc

      virtual :
          (b : Bool)
          → (if b then fail Error.illegal else checks) ≡ ret tt
          → (room : ℤ) × (tag_get_size s.datatypes t ≡ ret room)
            × ((h.byte + h.size) % 2 ^ 32 ≤ as_word room)
            × (verify_event_type h.type etype ≡ true)
      virtual true e = cc
      virtual false e =
          let (_, _, e₁) =
            and_then-ret (check_queue s h etype t) (λ _. and_then (tag_get_size s.datatypes t) last)
              tt e in
          let (room, e₂, e₃) = and_then-ret (tag_get_size s.datatypes t) last tt e₁ in
          let (small, good) =
            fits room (ltb (as_word room) ((h.byte + h.size) % 2 ^ 32))
              (verify_event_type h.type etype) e₃ in
          (room, e₂, ground (arith, small), good)

  -- For a tag that is known to be there.
  pub event_add-AddedAt :
      (n : ℕ) (s' : Server)
      → h.index ≡ pos i
      → tag_at s (pos i) ≡ some t
      → event_add h etype sent notify s ≡ ok n s'
      → Added n s'
  unfolding event_add add_event
  event_add-AddedAt n s' place at e =
      let put = λ (kept : Block × Block). add_event h etype notify t kept in
      let kept = λ (s : Server).
        set_event_data s.datatypes (new_event h etype t notify) sent (visible t.tag_data) in
      let keep : M ℕ = λ s. (run (kept s) >>= put) s in
      let f = λ (t : Tag) (s : Server).
        (run (check_event s h etype t)
            >> (run (
                  set_event_data s.datatypes (new_event h etype t notify) sent (visible t.tag_data))
                >>= (λ kept. add_event h etype notify t kept)))
          s in
      let e₀ : f t s ≡ ok n s' = sym (ap (λ o. at_tag o f s) (ap (tag_at s) place ∙ at)) ∙ e in
      let rest : M ℕ = run (kept s) >>= put in
      let (s₁, e₁, h₁) = >>-ok (run (check_event s h etype t)) rest s n s' e₀ in
      let ((operand, test), s₂, e₂, h₂) = >>=-ok (run (kept s)) put s₁ n s' h₁ in
      let (passed, same₁) = run-ok (check_event s h etype t) s tt s₁ e₁ in
      let (got, same₂) = run-ok (kept s) s₁ (operand, test) s₂ e₂ in
      let (room, szd, ins, ver) = check_event-inside passed in
      let ev : Event = record (new_event h etype t notify) { operand = operand; test = test } in
      let s₃ : Server = record s {
        db = set s.db i (with_event t ev);
        modules = recount notify (pos 1) s.modules;
      } in
      let h₃ : add_event h etype notify t (operand, test) s ≡ ok n s' =
        subst (λ s. add_event h etype notify t (operand, test) s ≡ ok n s') (sym (same₁ ∙ same₂))
          h₂ in
      let h₄ : ok t.nextevent s₃ ≡ ok n s' =
        sym (λ j. ok t.nextevent (record s {
          db = set s.db (place_of (place j)) (with_event t ev);
          modules = recount notify (pos 1) s.modules;
        }))
        ∙ h₃ in
      let num : t.nextevent ≡ n = cc in
      let is : s₃ ≡ s' = cc in
      record {
        number = sym num;
        event = ev;
        now =
            sym (ap (λ (s : Server). tag_at s (pos i)) is)
            ∙ get_elem?-set_self s.db i (with_event t ev) (lt-of_get_elem? s.db i t at);
        others = λ j ne.
            sym (ap (λ (s : Server). get_elem? s.db j) is)
            ∙ get_elem?-set_ne s.db i j (with_event t ev) ne;
        handled = refl;
        kept = got;
        room = room;
        sized = szd;
        inside = ins;
        verified = ver;
      }

-- If `event_add` returns a number, the handle's index is a tag's, and the number is the counter of
-- that tag. The event with that number, the data of the handle and the module is now first of the
-- tag's events, and the other tags are the same; its range, as a sum of 32 bits, is inside the tag,
-- and its kind goes with its type.
pub event_add-Added :
    (h : Handle) (etype : ℕ) (sent : Block) (notify n : ℕ) (s s' : Server)
    → event_add h etype sent notify s ≡ ok n s'
    → (i : ℕ) × (t : Tag) × (h.index ≡ pos i)
      × (tag_at s (pos i) ≡ some t)
      × Added i h etype sent notify t s n s'
unfolding event_add
event_add-Added h etype sent notify n s s' e = at h.index refl
  where
    no_tag : tag_at s h.index ≡ none → ⊥
    no_tag q =
        let f = λ (t : Tag) (s : Server).
          (run (check_event s h etype t)
              >> (run (
                    set_event_data s.datatypes (new_event h etype t notify) sent
                      (visible t.tag_data))
                  >>= (λ kept. add_event h etype notify t kept)))
            s in
        let e₀ : err Error.arg s ≡ ok n s' = subst (λ o. at_tag o f s ≡ ok n s') q e in cc

    there :
        (i : ℕ) (o : Option Tag)
        → h.index ≡ pos i
        → tag_at s (pos i) ≡ o
        → (i : ℕ) × (t : Tag) × (h.index ≡ pos i)
          × (tag_at s (pos i) ≡ some t)
          × Added i h etype sent notify t s n s'
    there i (some t) p q = (i, t, p, q, event_add-AddedAt i h etype sent notify t s n s' p q e)
    there i none p q = absurd (no_tag (ap (tag_at s) p ∙ q))

    at :
        (z : ℤ)
        → h.index ≡ z
        → (i : ℕ) × (t : Tag) × (h.index ≡ pos i)
          × (tag_at s (pos i) ≡ some t)
          × Added i h etype sent notify t s n s'
    at (pos i) p = there i (tag_at s (pos i)) p refl
    at (negsuc k) p = absurd (no_tag (ap (tag_at s) p))
