-- ===== src/Store/Alike.antt =====
-- Tags that are alike but for their data and the notes of their events, and what the loop of
-- `event_check` of src/server/events.c does to the events.
use open_dax.Base.{
  ℕ, ◌≡◌, refl, ◌∙◌, ap₂, map, Bool, true, false, if◌then◌else◌, and_then, List, [], ◌∷◌, ◌++◌,
  Result, ret, fail, crash,
}
use open_dax.Memory.{Block}
use open_dax.Event.{Event, Floats}
use open_dax.Server.{Module, Output, TagData, Tag}
use open_dax.Store.Notify.{notify_all, notify_one, meets, send_event}
use open_dax.Event.Bits.{Verdict}
use open_dax.Event.Hit.{event_hit}
use open_dax.Store.Frame.{unseen, Like}

pub Like-refl : (t : Tag) → Like t t
Like-refl t = record {
  type = refl;
  attr = refl;
  count = refl;
  name = refl;
  fd = refl;
  nextevent = refl;
  nextmap = refl;
  events = refl;
  mappings = refl;
  omask = refl;
  odata = refl;
}

pub Like-data : (t u : Tag) (d : TagData) → Like t u → Like t (record u { tag_data = d })
Like-data t u d like = record {
  type = like.type;
  attr = like.attr;
  count = like.count;
  name = like.name;
  fd = like.fd;
  nextevent = like.nextevent;
  nextmap = like.nextmap;
  events = like.events;
  mappings = like.mappings;
  omask = like.omask;
  odata = like.odata;
}

pub Like-events :
    (t u : Tag) (es : List Event)
    → Like t u
    → map unseen es ≡ map unseen u.events
    → Like t (record u { events = es })
Like-events t u es like same = record {
  type = like.type;
  attr = like.attr;
  count = like.count;
  name = like.name;
  fd = like.fd;
  nextevent = like.nextevent;
  nextmap = like.nextmap;
  events = same ∙ like.events;
  mappings = like.mappings;
  omask = like.omask;
  odata = like.odata;
}

-- What the loop of `event_check` returns are the events that it was given, but for their notes.
abbrev pub Looked : List Event → Result (List Event × List Output) → Type 0
Looked es (ret (es', out)) = map unseen es' ≡ map unseen es
Looked es (fail e) = Unit
Looked es crash = Unit

module _ (floats : Floats) (modules : List Module) (idx : ℕ) (dat : Block) (offset size : ℕ) where
  abbrev pub LookedAt : Event → Result (Event × List Output) → Type 0
  LookedAt e (ret (e', out)) = unseen e' ≡ unseen e
  LookedAt e (fail x) = Unit
  LookedAt e crash = Unit

  notify_one-LookedAt : (e : Event) → LookedAt e (notify_one floats modules idx dat offset size e)
  unfolding notify_one
  notify_one-LookedAt e = go (meets e offset size) (event_hit floats e dat offset size)
    where
      sends : (fires : Bool) → Result (List Output)
      sends fires = if fires then send_event modules idx dat e else ret []

      told :
          (test : Block) (r : Result (List Output))
          → LookedAt e (and_then r (λ out. ret (record e { test = test }, out)))
      told test (ret out) = refl
      told test (fail x) = tt
      told test crash = tt

      go :
          (b : Bool) (v : Verdict)
          → LookedAt e (
              if b
              then and_then v (λ (fires, test).
                and_then
                  (if fires then send_event modules idx dat e else ret [])
                  (λ out. ret (record e { test = test }, out)))
              else ret (e, []))
      go false v = refl
      go true (ret (fires, test)) = told test (sends fires)
      go true (fail x) = tt
      go true crash = tt

  pub notify_all-Looked :
      (es : List Event) → Looked es (notify_all floats modules idx dat offset size es)
  unfolding notify_all
  notify_all-Looked [] = refl
  notify_all-Looked (e ∷ es) =
      go (notify_one floats modules idx dat offset size e) (notify_one-LookedAt e)
        (notify_all floats modules idx dat offset size es) (notify_all-Looked es)
    where
      go :
          (r : Result (Event × List Output))
          → LookedAt e r
          → (rs : Result (List Event × List Output)) → Looked es rs
          → Looked
              (e ∷ es)
              (and_then r (λ (e', out). and_then rs (λ (es', out'). ret (e' ∷ es', out ++ out'))))
      go (ret (e', out)) h (ret (es', out')) hs = ap₂ ◌∷◌ h hs
      go (ret (e', out)) h (fail x) hs = tt
      go (ret (e', out)) h crash hs = tt
      go (fail x) h rs hs = tt
      go crash h rs hs = tt
