-- ===== src/Events/Numbered.antt =====
-- The numbers of a tag's events, and what `event_del` does to the events of a tag.
use open_dax.Base.{
  ℕ, ◌<◌, ◌≤◌, ◌≡◌, ◌≢◌, refl, sym, ◌∙◌, Bool, true, false, Bool-cases, inl, inr, List, [], ◌∷◌,
  Option, none, some, ◌==◌, ==→eq, if◌then◌else◌, Error, Result, ret, fail, crash, and_then, arith,
}
use open_dax.Event.{Event}
use open_dax.Events.Del.{find_event, remove_event}

-- The events have numbers below `n`, the newest first.
abbrev pub Numbered : ℕ → List Event → Type 0
Numbered n [] = Unit {0}
Numbered n (e ∷ es) = (e.id < n) × Numbered e.id es

pub Numbered-le : (n m : ℕ) (es : List Event) → n ≤ m → Numbered n es → Numbered m es
Numbered-le n m [] h k = tt
Numbered-le n m (e ∷ es) h (lt, k) = (omega arith, k)

-- An event of a number that is not below `n` is not there.
find_event-Numbered :
    (n id : ℕ) (es : List Event) → Numbered n es → n ≤ id → find_event id es ≡ none
unfolding find_event
find_event-Numbered n id [] k h = refl
find_event-Numbered n id (e ∷ es) (lt, k) h =
    let ne : (e.id == id) ≡ false = ground arith in
    (λ j. if ne j then some e else find_event id es)
    ∙ find_event-Numbered e.id id es k (omega arith)

-- `es'` is `es` without the event of number `id`.
pub record Without (n id : ℕ) (es es' : List Event) : Type 0 where
  pub numbered : Numbered n es'
  pub gone : find_event id es' ≡ none
  pub others : (k : ℕ) → k ≢ id → find_event k es' ≡ find_event k es

-- What the loop gives: the list without the event, or none if it is not there.
abbrev pub Removes : ℕ → ℕ → List Event → Result (Option (List Event)) → Type 0
Removes n id es (ret none) = find_event id es ≡ none
Removes n id es (ret (some es')) = Without n id es es'
Removes n id es (fail e) = Unit {0}
Removes n id es crash = ⊥

module _ (id notify : ℕ) where
  behind :
      (n : ℕ) (e : Event) (es : List Event) (r : Result (Option (List Event)))
      → e.id < n
      → (e.id == id) ≡ false
      → Removes e.id id es r
      → Removes n id
          (e ∷ es)
          (and_then r (λ o. elim o [ none ↦ ret none | some es' ↦ ret (some (e ∷ es')) ]))
  unfolding find_event
  behind n e es (ret none) lt ne h = (λ j. if ne j then some e else find_event id es) ∙ h
  behind n e es (ret (some es')) lt ne h = record {
    numbered = (lt, h.numbered);
    gone = (λ j. if ne j then some e else find_event id es') ∙ h.gone;
    others = λ k d. λ j. if e.id == k then some e else h.others k d j;
  }
  behind n e es (fail x) lt ne h = tt
  behind n e es crash lt ne h = h

  pub remove_event-Removes :
      (n : ℕ) (es : List Event) → Numbered n es → Removes n id es (remove_event id notify es)
  unfolding remove_event find_event
  remove_event-Removes n [] k = refl
  remove_event-Removes n (e ∷ es) (lt, k) = elim (Bool-cases (e.id == id)) [
    | inl here ↦
        let same = ==→eq e.id id here in
        rw here (
          owned (e.notify == notify) (record {
            numbered = Numbered-le e.id n es (omega arith) k;
            gone = find_event-Numbered e.id id es k (omega arith);
            others = λ j d.
                let ne : (e.id == j) ≡ false = ground (arith, same, d) in
                sym (λ x. if ne x then some e else find_event j es);
          }))
    | inr ne ↦
        rw ne (behind n e es (remove_event id notify es) lt ne (remove_event-Removes e.id es k))
  ]
    where
      owned :
          (b : Bool)
          → Without n id (e ∷ es) es
          → Removes n id (e ∷ es) (if b then ret (some es) else fail Error.auth)
      owned true w = w
      owned false w = tt
