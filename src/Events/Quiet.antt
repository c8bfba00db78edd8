-- ===== src/Events/Quiet.antt =====
-- A change event that `event_add` has just added.
use open_dax.Base.{
  ℕ, ◌+◌, ◌-◌, ◌<◌, ◌≤◌, ◌≡◌, refl, ap, sym, ◌∙◌, subst, Bool, true, false, List, [], some,
  get_elem?, take, drop, length, ◌==◌, Result, ret, and_then, and_then-ret, or_crash-ret, ok, arith,
  get_elem?-take, get_elem?-drop, length-take, length-drop,
}
use open_dax.Base.Int.{ℤ, pos}
use open_dax.Memory.{Block, slice}
use open_dax.Memory.Copies.{slice-parts}
use open_dax.Types.{dax_bool}
use open_dax.Cdt.{Datatype, type_size}
use open_dax.Event.{Event, event_change, event_deadband}
use open_dax.Event.Bits.{change}
use open_dax.Event.Changed.{SameNote, change-Noted}
use open_dax.Server.{Handle, Tag, Server, block, tag_at}
use open_dax.Store.Notify.{visible}
use open_dax.Events.{items_size, copied_bytes, set_event_data, new_event, with_event, event_add}
use open_dax.Events.Adding.{event_add-AddedAt}

-- A change event on items of `size` bytes keeps these bytes of the tag.
change-kept :
    (dts : List Datatype) (e : Event) (sent dat operand test : Block)
    → e.eventtype ≡ event_change
    → (e.datatype == dax_bool) ≡ false
    → items_size e.count (type_size dts e.datatype) ≡ ret (pos e.size)
    → set_event_data dts e sent dat ≡ ret (operand, test)
    → (e.byte + e.size ≤ length dat) × (test ≡ take e.size (drop e.byte dat))
unfolding set_event_data copied_bytes
change-kept dts e sent dat operand test kind nb sz h =
    let keep = λ (testsize : ℤ).
      and_then (copied_bytes testsize e.byte dat)
        (λ test. let p : Result (Block × Block) = ret ([], test) in p) in
    let not_deadband : (e.eventtype == event_deadband) ≡ false = ground (arith, kind) in
    let is_change : (e.eventtype == event_change) ≡ true = ground (arith, kind) in
    let h₁ : keep (pos e.size) ≡ ret (operand, test) = rw (not_deadband, is_change, nb, sz) at h in
    let (test', cut, same) =
      and_then-ret (copied_bytes (pos e.size) e.byte dat) (λ test. ret ([], test)) (operand, test)
        h₁ in
    let same' : test' ≡ test = cc in
    let (room, is) =
      slice-parts e.byte e.size dat test' (or_crash-ret (slice e.byte e.size dat) test' cut) in
    (room, sym same' ∙ is)

-- The notes of the event are the bytes that it was taken from.
noted-kept :
    (e : Event) (dat : Block) (p : ℕ)
    → e.test ≡ take e.size (drop e.byte dat)
    → e.byte ≤ p
    → p < e.byte + e.size
    → SameNote e e.test dat p
noted-kept e dat p is from to =
    ap (λ b. get_elem? b (p - e.byte)) is
    ∙ get_elem?-take e.size (p - e.byte) (drop e.byte dat) (omega arith)
    ∙ get_elem?-drop e.byte (p - e.byte) dat
    ∙ ap (get_elem? dat) (omega arith)

-- A change event on a type other than BOOL, of a handle whose size is that of its items: once
-- `event_add` has added it to a tag with a block of data, no write that leaves the bytes as they are
-- fires it, wherever it meets the event.
pub event_add-quiet :
    (i : ℕ) (h : Handle) (sent : Block) (notify n : ℕ) (t : Tag) (b : Block) (s s' : Server)
    → h.index ≡ pos i
    → tag_at s (pos i) ≡ some t
    → t.tag_data ≡ block b
    → (h.type == dax_bool) ≡ false
    → items_size h.count (type_size s.datatypes h.type) ≡ ret (pos h.size)
    → event_add h event_change sent notify s ≡ ok n s'
    → (e : Event) × (tag_at s' (pos i) ≡ some (with_event t e))
      × ((offset size : ℕ)
          → offset < e.byte + e.size
          → e.byte < offset + size
          → (noted : Block) × (change e b offset size ≡ ret (false, noted)))
event_add-quiet i h sent notify n t b s s' place at is_block nb sz added =
    let a = event_add-AddedAt i h event_change sent notify t s n s' place at added in
    let e₀ = new_event h event_change t notify in
    let (room, is) =
      change-kept s.datatypes e₀ sent (visible t.tag_data) a.event.operand a.event.test refl nb sz
        a.kept in
    let e : Event = record e₀ { operand = a.event.operand; test = a.event.test } in
    let room' : e.byte + e.size ≤ length b =
      subst (λ d. e.byte + e.size ≤ length (visible d)) is_block room in
    let is' : e.test ≡ take e.size (drop e.byte b) =
      is ∙ ap (λ d. take e.size (drop e.byte (visible d))) is_block in
    (
      e,
      a.now ∙ ap (λ e. some (with_event t e)) a.handled,
      λ offset size before after.
          let v =
            change-Noted e b offset size nb room'
              (omega
                (arith, ap length is', length-take e.size (drop e.byte b), length-drop e.byte b))
              before after in
          (
            v.noted,
            v.returns
                ∙ ap (λ (f : Bool). let p : Result (Bool × Block) = ret (f, v.noted) in p)
                    (v.loud (λ p c. noted-kept e b p is' c.0 c.1)),
          ),
    )
