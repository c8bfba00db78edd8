-- ===== src/Cdt/Total.antt =====
-- When `type_size` of src/server/tagbase.c returns a size, and when its `assert` stops the server.
use open_dax.Base.{
  ℕ, zero, suc, ◌+◌, ◌*◌, ◌/◌, ◌<◌, ◌≡◌, refl, ap, ◌∙◌, sym, ◌≢◌, inl, inr, true, false, List, [],
  ◌∷◌, none, some, arith, ◌==◌, length, get_elem?, get_elem?-of_lt, Bool-cases, Result, ret,
  and_then-ne-ret, and_then-ret, subst, lt-of_get_elem?,
}
use open_dax.Types.{TagType, dax_bool, is_custom, cdt_to_index, typesize}
use open_dax.Cdt.{
  Member, Datatype, u32, align, checktype, place, place_custom, place_all, bytes, custom_size,
  type_size_fuel, type_size,
}
use open_dax.Cdt.Size.{MemberBelow, AllBelow, IsStratified, type_size-fuel, fuel-congr}

-- The table holds no compound type of size 0, such as a definition without members.
abbrev pub NoEmptyTypes : List Datatype → Type 0
NoEmptyTypes dts =
    (t : TagType) → is_custom t ≡ true → cdt_to_index t < length dts → type_size dts t ≢ ret 0

module _ (dts : List Datatype) (nested : TagType → Result ℕ) (i : ℕ) where
  -- `nested` gives every valid compound type below place `i` a positive size.
  abbrev Sizes : Type 0
  Sizes =
      (t : TagType)
      → checktype dts t ≡ true
      → is_custom t ≡ true
      → cdt_to_index t < i
      → (s : ℕ) × (nested t ≡ ret s) × (s ≢ 0)

  place-total :
      (pos : ℕ) (m : Member) → Sizes → MemberBelow dts i m → (p : ℕ) × (place nested pos m ≡ ret p)
  unfolding place place_custom
  place-total pos m sizes below = elim (Bool-cases (m.type == dax_bool)) [
    | inl b ↦ (u32 (pos + m.count), rw b)
    | inr b ↦ elim (Bool-cases (is_custom m.type)) [
      | inl e ↦
          let (s, eq, ne) = sizes m.type below.0 e (below.1 e) in
          (u32 (align pos + u32 (s * m.count) * 8), ground (arith, eq))
      | inr e ↦ (u32 (align pos + typesize m.type * m.count), ground arith)
    ]
  ]

  place_all-total :
      (pos : ℕ) (ms : List Member)
      → Sizes
      → AllBelow dts i ms
      → (p : ℕ) × (place_all nested pos ms ≡ ret p)
  unfolding place_all
  place_all-total pos [] sizes below = (pos, refl)
  place_all-total pos (m ∷ ms) sizes below =
      let (p, e) = place-total pos m sizes below.0 in
      let (q, e') = place_all-total p ms sizes below.1 in (q, rw (e, place_all) e')

-- With enough fuel, every compound type below the table's end has a size.
total-fuel :
    (dts : List Datatype) (n : ℕ) (t : TagType)
    → IsStratified dts
    → NoEmptyTypes dts
    → checktype dts t ≡ true
    → cdt_to_index t < length dts
    → cdt_to_index t < n
    → (s : ℕ) × (type_size_fuel n dts t ≡ ret s)
unfolding type_size_fuel custom_size
total-fuel dts zero t w ne valid h p = elim p [ ]
total-fuel dts (suc n) t w ne valid h p =
    let (d, e) = get_elem?-of_lt dts (cdt_to_index t) h in
    let (pos, placed) =
      place_all-total dts (type_size_fuel n dts) (cdt_to_index t) 0 d.members
        (λ u ok c b.
          let (s, eq) = total-fuel dts n u w ne ok (omega arith) (omega arith) in
          (
            s,
            eq,
            λ z.
                ne u c (omega arith)
                  (sym (type_size-fuel dts n u w (omega arith) (omega arith)) ∙ eq ∙ ap ret z),
          ))
        (w (cdt_to_index t) d e) in
    elim (Bool-cases (is_custom t)) [
      | inl c ↦ (bytes pos, ground (arith, placed))
      | inr c ↦ (typesize t / 8, ground arith)
    ]

-- In a table where every entry is built of earlier ones and no compound type is empty, `type_size`
-- returns a size for every valid type whose index lies in the table.
pub type_size-total :
    (dts : List Datatype) (t : TagType)
    → IsStratified dts
    → NoEmptyTypes dts
    → checktype dts t ≡ true
    → cdt_to_index t < length dts
    → (s : ℕ) × (type_size dts t ≡ ret s)
unfolding type_size
type_size-total dts t w ne valid h = total-fuel dts (suc (length dts)) t w ne valid h (omega arith)

module _ (nested : TagType → Result ℕ) (m : Member) (empty : nested m.type ≡ ret 0) where
  place_all-ne-ret :
      (ms : List Member) (k pos p : ℕ)
      → get_elem? ms k ≡ some m
      → (m.type == dax_bool) ≡ false
      → is_custom m.type ≡ true
      → place_all nested pos ms ≢ ret p
  unfolding place_all place place_custom
  place_all-ne-ret [] k pos p at b c = cc
  place_all-ne-ret (x ∷ ms) zero pos p at b c = ground (arith, empty)
  place_all-ne-ret (x ∷ ms) (suc k) pos p at b c =
      and_then-ne-ret (place nested pos x) _ p (λ q. place_all-ne-ret ms k q p at b c)

custom-ne-bool : (t : TagType) → is_custom t ≡ true → (t == dax_bool) ≡ false
custom-ne-bool t c = ground arith

AllBelow-get_elem? :
    (dts : List Datatype) (i : ℕ) (ms : List Member) (k : ℕ) (m : Member)
    → AllBelow dts i ms
    → get_elem? ms k ≡ some m
    → MemberBelow dts i m
AllBelow-get_elem? dts i [] k m below at = cc
AllBelow-get_elem? dts i (x ∷ ms) zero m below at =
    subst (λ o. elim o [ none ↦ Unit {0} | some y ↦ MemberBelow dts i y ]) at below.0
AllBelow-get_elem? dts i (x ∷ ms) (suc k) m below at = AllBelow-get_elem? dts i ms k m below.1 at

-- A defect: where an entry of the table has a compound member of size 0, `type_size` of that entry
-- returns no size, whatever the other members are. A module can define such an entry in two calls.
pub type_size-empty_member :
    (dts : List Datatype) (t : TagType) (d : Datatype) (k : ℕ) (m : Member) (s : ℕ)
    → IsStratified dts
    → is_custom t ≡ true
    → get_elem? dts (cdt_to_index t) ≡ some d
    → get_elem? d.members k ≡ some m
    → is_custom m.type ≡ true
    → type_size dts m.type ≡ ret 0
    → type_size dts t ≢ ret s
unfolding type_size type_size_fuel custom_size
type_size-empty_member dts t d k m s w ct at mem cm empty e =
    let inside = lt-of_get_elem? dts (cdt_to_index t) d at in
    let below = AllBelow-get_elem? dts (cdt_to_index t) d.members k m (w _ d at) mem in
    let nested = type_size_fuel (length dts) dts in
    let smaller = below.1 cm in
    let shrunk : nested m.type ≡ ret 0 =
      fuel-congr dts (length dts) (suc (length dts)) m.type w (omega arith) (omega arith) ∙ empty in
    let whole : custom_size nested (some d) ≡ ret s = ground arith in
    let (pos, placed, _) = and_then-ret (place_all nested 0 d.members) _ s whole in
    place_all-ne-ret nested m shrunk d.members k 0 pos mem (custom-ne-bool m.type cm) cm placed
