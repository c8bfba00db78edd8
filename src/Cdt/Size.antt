-- ===== src/Cdt/Size.antt =====
-- `type_size` of src/server/tagbase.c: its recursion ends, and when its `assert` stops the server.
use open_dax.Base.{
  ℕ, zero, suc, ◌/◌, ◌<◌, ◌≡◌, refl, ap, inl, inr, true, not, List, [], ◌∷◌, Option, none, some,
  arith, if◌then◌else◌, length, get_elem?, Bool-cases, Error, Result, ret, fail, and_then,
}
use open_dax.Types.{TagType, is_custom, cdt_to_index, typesize}
use open_dax.Cdt.{
  Member, Datatype, checktype, place, place_all, bytes, custom_size, type_size_fuel, type_size,
}

-- A member's type is a valid one, and a compound one stands earlier in the table.
abbrev pub MemberBelow : List Datatype → ℕ → Member → Type 0
MemberBelow dts i m =
    (checktype dts m.type ≡ true) × (is_custom m.type ≡ true → cdt_to_index m.type < i)

abbrev pub AllBelow : List Datatype → ℕ → List Member → Type 0
AllBelow dts i [] = Unit {0}
AllBelow dts i (m ∷ ms) = MemberBelow dts i m × AllBelow dts i ms

-- Every entry is built of earlier ones.
abbrev pub IsStratified : List Datatype → Type 0
IsStratified dts = (i : ℕ) (d : Datatype) → get_elem? dts i ≡ some d → AllBelow dts i d.members

place-congr :
    (dts : List Datatype) (f g : TagType → Result ℕ) (i pos : ℕ) (m : Member)
    → MemberBelow dts i m
    → ((t : TagType) → is_custom t ≡ true → cdt_to_index t < i → f t ≡ g t)
    → place f pos m ≡ place g pos m
unfolding place
place-congr dts f g i pos m below same = elim (Bool-cases (is_custom m.type)) [
  | inl e ↦ rw (same m.type e (below.1 e))
  | inr e ↦ ground (arith, e)
]

place_all-congr :
    (dts : List Datatype) (f g : TagType → Result ℕ) (i pos : ℕ) (ms : List Member)
    → AllBelow dts i ms
    → ((t : TagType) → is_custom t ≡ true → cdt_to_index t < i → f t ≡ g t)
    → place_all f pos ms ≡ place_all g pos ms
unfolding place_all
place_all-congr dts f g i pos [] below same = refl
place_all-congr dts f g i pos (m ∷ ms) below same = λ j.
    and_then (place-congr dts f g i pos m below.0 same j)
      (λ p. place_all-congr dts f g i p ms below.1 same j)

custom_size-congr :
    (dts : List Datatype) (f g : TagType → Result ℕ) (i : ℕ) (o : Option Datatype)
    → ((d : Datatype) → o ≡ some d → AllBelow dts i d.members)
    → ((t : TagType) → is_custom t ≡ true → cdt_to_index t < i → f t ≡ g t)
    → custom_size f o ≡ custom_size g o
unfolding custom_size
custom_size-congr dts f g i none w same = refl
custom_size-congr dts f g i (some d) w same =
    λ j. and_then (place_all-congr dts f g i 0 d.members (w d refl) same j) (λ pos. ret (bytes pos))

-- Fuel beyond the place of a type changes nothing.
pub fuel-congr :
    (dts : List Datatype) (n m : ℕ) (t : TagType)
    → IsStratified dts
    → cdt_to_index t < n
    → cdt_to_index t < m
    → type_size_fuel n dts t ≡ type_size_fuel m dts t
unfolding type_size_fuel
fuel-congr dts zero m t w p q = elim p [ ]
fuel-congr dts (suc n) zero t w p q = elim q [ ]
fuel-congr dts (suc n) (suc m) t w p q =
    ap
      (λ r.
        if not (checktype dts t)
        then fail Error.notfound
        else if is_custom t
        then r
        else ret (typesize t / 8))
      (custom_size-congr dts (type_size_fuel n dts) (type_size_fuel m dts) (cdt_to_index t)
        (get_elem? dts (cdt_to_index t)) (w (cdt_to_index t))
        (λ u _ b. fuel-congr dts n m u w (omega arith) (omega arith)))

-- The recursion of `type_size` ends: in a table where every entry is built of earlier ones, and for
-- a type whose entry is in the table, any fuel above the type's place gives the size that
-- `type_size` returns.
pub type_size-fuel :
    (dts : List Datatype) (fuel : ℕ) (t : TagType)
    → IsStratified dts
    → cdt_to_index t < length dts
    → cdt_to_index t < fuel
    → type_size_fuel fuel dts t ≡ type_size dts t
unfolding type_size
type_size-fuel dts fuel t w h p = fuel-congr dts fuel (suc (length dts)) t w p (omega arith)
