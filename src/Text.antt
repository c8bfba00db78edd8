-- ===== src/Text.antt =====
-- C strings as lists of bytes, without the final zero, and what the server uses of <string.h>,
-- <strings.h>, <ctype.h> and <stdlib.h> in the C locale.
pub mod Order
use Prim.Native.Char.{code}
use Prim.Native.String.{String}
use open_dax.Base.{
  ℕ, zero, suc, ◌+◌, ◌-◌, ◌*◌, ◌/◌, ◌%◌, ◌^◌, compare, Ordering, Bool, true, false, ◌&&◌, ◌||◌,
  List, [], ◌∷◌, ◌++◌, Option, none, some, ltb, leb, ◌==◌, if◌then◌else◌,
}

abbrev pub CString : Type 0
CString = List ℕ

-- The bytes of an ASCII literal.
abbrev pub codes : String → CString
codes String.[] = []
codes (String.◌∷◌ c s) = code c ∷ codes s

-- `strcmp`: the sign of its result. A proper prefix comes first, since its zero byte is less.
unfoldable pub strcmp : CString → CString → Ordering
strcmp [] [] = Ordering.eq
strcmp [] (y ∷ ys) = Ordering.lt
strcmp (x ∷ xs) [] = Ordering.gt
strcmp (x ∷ xs) (y ∷ ys) = elim (compare x y) [
  | Ordering.lt ↦ Ordering.lt
  | Ordering.gt ↦ Ordering.gt
  | Ordering.eq ↦ strcmp xs ys
]

unfoldable pub is_upper : ℕ → Bool
is_upper c = leb b'A' c && leb c b'Z'

unfoldable pub is_lower : ℕ → Bool
is_lower c = leb b'a' c && leb c b'z'

unfoldable pub isalpha : ℕ → Bool
unfolding is_upper is_lower
isalpha c = is_upper c || is_lower c

unfoldable pub isdigit : ℕ → Bool
isdigit c = leb b'0' c && leb c b'9'

unfoldable pub to_lower : ℕ → ℕ
unfolding is_upper
to_lower c = if is_upper c then c + 32 else c

-- `!strcasecmp(a, b)`
unfoldable pub same_nocase : CString → CString → Bool
unfolding to_lower
same_nocase [] [] = true
same_nocase [] (y ∷ ys) = false
same_nocase (x ∷ xs) [] = false
same_nocase (x ∷ xs) (y ∷ ys) = (to_lower x == to_lower y) && same_nocase xs ys

-- The bytes up to the first delimiter, and what follows it.
unfoldable pub until : ℕ → CString → CString × CString
until d [] = ([], [])
until d (c ∷ s) = if c == d then ([], s) else let (token, rest) = until d s in (c ∷ token, rest)

-- `strtok_r` with one delimiter: leading delimiters are skipped, and `none` is NULL.
unfoldable pub strtok : ℕ → CString → Option (CString × CString)
unfolding until
strtok d [] = none
strtok d (c ∷ s) = let rest = strtok d s in if c == d then rest else some (until d (c ∷ s))

-- The digits of a number below `10 ^ fuel`, before what follows.
unfoldable pub decimal : ℕ → ℕ → CString → CString
decimal zero n rest = rest
decimal (suc fuel) n rest =
    let more = decimal fuel (n / 10) ((b'0' + n % 10) ∷ rest) in
    if ltb n 10 then (b'0' + n) ∷ rest else more

-- `snprintf("%d")` of a 32-bit word, which it reads as an `int`.
unfoldable pub print_int : ℕ → CString
unfolding decimal
print_int w = if ltb w (2 ^ 31) then decimal 10 w [] else b'-' ∷ decimal 10 (2 ^ 32 - w) []

-- The value of a digit in bases up to 16.
unfoldable pub digit_value : ℕ → Option ℕ
unfolding isdigit
digit_value c =
    if isdigit c
    then some (c - b'0')
    else if leb b'a' c && leb c b'f'
    then some (c - b'a' + 10)
    else if leb b'A' c && leb c b'F'
    then some (c - b'A' + 10)
    else none

unfoldable pub digits_from : ℕ → ℕ → CString → ℕ
unfolding digit_value
digits_from base acc [] = acc
digits_from base acc (c ∷ s) = elim (digit_value c) [
  | none ↦ acc
  | some v ↦ elim (ltb v base) [ true ↦ digits_from base (acc * base + v) s | false ↦ acc ]
]

-- Whether a string begins with a hexadecimal digit: `0x` alone is read as 0.
unfoldable pub hex_next : CString → Bool
unfolding digit_value
hex_next [] = false
hex_next (c ∷ s) = elim (digit_value c) [ none ↦ false | some v ↦ true ]

-- `strtol` with base 0, after the sign: `0x` and `0` choose the base.
unfoldable pub magnitude : CString → ℕ
unfolding digits_from hex_next
magnitude [] = 0
magnitude (c ∷ []) = digits_from 10 0 (c ∷ [])
magnitude (c ∷ x ∷ s) =
    if c == b'0'
    then if (x == b'x' || x == b'X') && hex_next s
      then digits_from 16 0 s
      else digits_from 8 0 (x ∷ s)
    else digits_from 10 0 (c ∷ x ∷ s)

unfoldable pub is_space : ℕ → Bool
is_space c = (c == b' ') || (leb 9 c && leb c 13)

-- `strtol(s, NULL, 0)`, clamped to a `long`, as the `uint32_t` that the server keeps of it.
unfoldable pub strtol_u32 : CString → ℕ
unfolding is_space magnitude
strtol_u32 [] = 0
strtol_u32 (c ∷ s) =
    let spaced = strtol_u32 s in
    if is_space c
    then spaced
    else if c == b'-'
    then (2 ^ 63 - min63 (magnitude s)) % 2 ^ 32
    else if c == b'+'
    then plus (magnitude s)
    else plus (magnitude (c ∷ s))
  where
    min63 : ℕ → ℕ
    min63 n = if leb (2 ^ 63) n then 2 ^ 63 else n

    plus : ℕ → ℕ
    plus n = (if leb (2 ^ 63) n then 2 ^ 63 - 1 else n) % 2 ^ 32
