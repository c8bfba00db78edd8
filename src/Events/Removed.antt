-- ===== src/Events/Removed.antt =====
-- What `event_del` does, on every branch.
use open_dax.Base.{
  ℕ, ◌<◌, ◌≡◌, refl, ap, sym, ◌∙◌, subst, false, Bool-cases, inl, inr, List, [], ◌∷◌, Option, none,
  some, ◌==◌, ==→eq, if◌then◌else◌, Error, Outcome, ok, err, fault, ◌>>=◌, Result, ret, fail, crash,
  run, get_elem?-set_self, lt-of_get_elem?,
}
use open_dax.Base.Int.{pos, negsuc}
use open_dax.Event.{Event}
use open_dax.Server.{Tag, Server, tag_at, set_tag}
use open_dax.Events.{recount}
use open_dax.Events.Del.{
  find_event, remove_event, attr_after, end_del, del_from, event_tag, event_del,
}
use open_dax.Events.Numbered.{Numbered, Without, Removes, remove_event-Removes}

module _ (i id notify : ℕ) (t : Tag) where
  -- The tag has these events after the call.
  pub record Has (s' : Server) (P : List Event → Type 0) : Type 0 where
    pub after : Tag
    pub there : tag_at s' (pos i) ≡ some after
    pub counter : after.nextevent ≡ t.nextevent
    pub property : P after.events

  -- It is deleted; or an error is returned, and the events are the same; or it stands first, where
  -- its memory is read after it was freed.
  abbrev pub Deletes : Outcome Server (Unit {0}) → Type 0
  Deletes (ok a s') = Has s' (λ es. Without t.nextevent id t.events es)
  Deletes (err e s') = Has s' (λ es. es ≡ t.events)
  Deletes fault =
      (e : Event) × (es : List Event) × (t.events ≡ e ∷ es) × (e.id ≡ id) × (e.notify ≡ notify)

  module _ (s : Server) (at : tag_at s (pos i) ≡ some t) where
    unchanged : (e : Error) → Deletes (err e s)
    unchanged e = record { after = t; there = at; counter = refl; property = refl }

    end_del-Has :
        (es : List Event) (P : List Event → Type 0)
        → P es
        → Has
            (record (set_tag s (pos i) (record t { events = es; attr = attr_after t.attr es })) {
              modules = recount notify (negsuc 0) s.modules;
            })
            P
    end_del-Has es P h = record {
      after = record t { events = es; attr = attr_after t.attr es };
      there =
          get_elem?-set_self s.db i (record t { events = es; attr = attr_after t.attr es })
            (lt-of_get_elem? s.db i t at);
      counter = refl;
      property = h;
    }

    finish-Deletes :
        (e : Event) (es : List Event)
        → t.events ≡ e ∷ es
        → (e.id == id) ≡ false
        → e.id < t.nextevent
        → (r : Result (Option (List Event))) → Removes e.id id es r
        → Deletes (
            (run r >>= (λ o s. elim o [
              | none ↦ end_del (pos i) notify t (e ∷ es) (some Error.notfound) s
              | some es' ↦ end_del (pos i) notify t (e ∷ es') none s
            ]))
              s)
    unfolding end_del find_event
    finish-Deletes e es is ne lt (ret none) h =
        end_del-Has (e ∷ es) (λ es'. es' ≡ t.events) (sym is)
    finish-Deletes e es is ne lt (ret (some es')) h =
        end_del-Has (e ∷ es') (λ es'. Without t.nextevent id t.events es')
          (record {
            numbered = (lt, h.numbered);
            gone = (λ j. if ne j then some e else find_event id es') ∙ h.gone;
            others = λ k d.
                (λ j. if e.id == k then some e else h.others k d j) ∙ sym (ap (find_event k) is);
          })
    finish-Deletes e es is ne lt (fail x) h = unchanged x
    finish-Deletes e es is ne lt crash h = elim h [ ]

    del_from-Deletes :
        (es : List Event)
        → t.events ≡ es
        → Numbered t.nextevent es
        → Deletes (del_from (pos i) id notify t es s)
    unfolding del_from
    del_from-Deletes [] is k = unchanged Error.notfound
    del_from-Deletes (e ∷ es) is (lt, k) = elim (Bool-cases (e.id == id)) [
      | inl here ↦ rw here (elim (Bool-cases (e.notify == notify)) [
        | inl own ↦ rw own (e, es, is, ==→eq e.id id here, ==→eq e.notify notify own)
        | inr other ↦ rw other (unchanged Error.auth)
      ])
      | inr ne ↦ rw ne (
          finish-Deletes e es is ne lt (remove_event id notify es)
            (remove_event-Removes id notify e.id es k))
    ]

    -- For a tag whose events are numbered downwards from its counter: if `event_del` succeeds, the event
    -- of that number is gone, the others are found as before, and the numbering holds; if it returns an
    -- error, the events are the same. It is undefined only where that event is the first of
    -- the tag and the module's own.
    pub event_del-Deletes : Numbered t.nextevent t.events → Deletes (event_del (pos i) id notify s)
    unfolding event_del
    event_del-Deletes k =
        subst (λ o. Deletes (event_tag o (λ t. del_from (pos i) id notify t t.events) s)) (sym at)
          (del_from-Deletes t.events refl k)
