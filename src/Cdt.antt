-- ===== src/Cdt.antt =====
-- The compound datatypes of src/server/tagbase.c: the table `_datatypes`, names and types, the size
-- of a type, and the text form in which modules define a type.
-- `_datatypes` is the list of its first `_datatype_index` entries; its growth by
-- DAX_DATATYPE_SIZE is not kept, and no allocation fails.
pub mod Size
pub mod Total
pub mod Table
use open_dax.Base.{
  ℕ, zero, suc, ◌+◌, ◌-◌, ◌*◌, ◌/◌, ◌%◌, ◌^◌, Bool, true, false, not, ◌&&◌, ◌||◌, List, [], ◌∷◌,
  ◌++◌, Option, none, some, ltb, leb, ◌==◌, if◌then◌else◌, length, get_elem?, Error, Result, ret,
  fail, crash, and_then, or_fail, check, Ordering,
}
use open_dax.Text.{
  CString, strcmp, isalpha, isdigit, same_nocase, strtok, strtol_u32, print_int, codes,
}
use open_dax.Types.{
  TagType, dax_bool, dax_byte, dax_sint, dax_char, dax_word, dax_int, dax_uint, dax_dword, dax_dint,
  dax_udint, dax_real, dax_lword, dax_lint, dax_ulint, dax_time, dax_lreal, is_custom,
  without_queue, cdt_to_index, cdt_to_type, typesize, is_base,
}

-- `cdt_member`
pub record Member : Type 0 where
  pub name : CString
  pub type : TagType
  pub count : ℕ

-- `datatype`
pub record Datatype : Type 0 where
  pub name : CString
  pub flags : ℕ
  pub refcount : ℕ
  pub members : List Member

abbrev pub dax_tagname_size : ℕ
dax_tagname_size = 32

unfoldable pub is_name_char : ℕ → Bool
unfolding isalpha isdigit
is_name_char c = isalpha c || c == b'_' || isdigit c

unfoldable pub all_name_chars : CString → Bool
unfolding is_name_char
all_name_chars [] = true
all_name_chars (c ∷ s) = is_name_char c && all_name_chars s

-- `_validate_name`; `none` is its 0. An empty name begins with its zero byte.
unfoldable pub validate_name : CString → Option Error
unfolding all_name_chars
validate_name [] = some Error.arg
validate_name (c ∷ s) =
    if ltb dax_tagname_size (length (c ∷ s))
    then some Error.too_big
    else if not (isalpha c || c == b'_')
    then some Error.arg
    else if all_name_chars s
    then none
    else some Error.arg

-- `_checktype`: whether it returns 0. Otherwise it returns ERR_NOTFOUND.
unfoldable pub checktype : List Datatype → TagType → Bool
checktype dts type =
    let t = without_queue type in is_base t || (is_custom t && ltb (cdt_to_index t) (length dts))

-- Words are unsigned and have 32 bits.
abbrev pub u32 : ℕ → ℕ
u32 n = n % 2 ^ 32

-- `pos |= 0x07; pos++` unless `pos` is already at a byte.
unfoldable pub align : ℕ → ℕ
align pos = if pos % 8 == 0 then pos else u32 (pos / 8 * 8 + 8)

-- A member of a compound type of that size. The `assert` stops the server.
unfoldable pub place_custom : ℕ → ℕ → Result ℕ → Result ℕ
unfolding align
place_custom pos count (ret size) =
    if size == 0 then crash else ret (u32 (align pos + u32 (size * count) * 8))
place_custom pos count (fail e) = crash
place_custom pos count crash = crash

-- The body of the loop in `type_size`.
unfoldable pub place : (TagType → Result ℕ) → ℕ → Member → Result ℕ
unfolding align place_custom
place nested pos m =
    if m.type == dax_bool
    then ret (u32 (pos + m.count))
    else if is_custom m.type
    then place_custom pos m.count (nested m.type)
    else ret (u32 (align pos + typesize m.type * m.count))

unfoldable pub place_all : (TagType → Result ℕ) → ℕ → List Member → Result ℕ
place_all nested pos [] = ret pos
place_all nested pos (m ∷ ms) = and_then (place nested pos m) (λ pos'. place_all nested pos' ms)

-- From bits to bytes.
unfoldable pub bytes : ℕ → ℕ
bytes pos = if pos == 0 then 0 else (pos - 1) / 8 + 1

-- The compound branch of `type_size`, at the entry of the type.
unfoldable pub custom_size : (TagType → Result ℕ) → Option Datatype → Result ℕ
unfolding place_all place bytes
custom_size nested none = crash
custom_size nested (some d) = and_then (place_all nested 0 d.members) (λ pos. ret (bytes pos))

-- `type_size`, with fuel for the nesting of datatypes. The queue bit of a compound type stays in
-- the index, which then lies outside of the table.
unfoldable pub type_size_fuel : ℕ → List Datatype → TagType → Result ℕ
unfolding custom_size checktype
type_size_fuel zero dts type = crash
type_size_fuel (suc fuel) dts type =
    if not (checktype dts type)
    then fail Error.notfound
    else if is_custom type
    then custom_size (type_size_fuel fuel dts) (get_elem? dts (cdt_to_index type))
    else ret (typesize type / 8)

-- A type is nested at most as deep as the table is long (`Cdt.Size.type_size-fuel`).
unfoldable pub type_size : List Datatype → TagType → Result ℕ
type_size dts type = type_size_fuel (suc (length dts)) dts type

-- The names of the base types, in the order of the tests in `cdt_get_type`.
abbrev pub base_names : List (CString × TagType)
base_names =
    (codes "BOOL", dax_bool)
    ∷ (codes "BYTE", dax_byte)
    ∷ (codes "SINT", dax_sint)
    ∷ (codes "CHAR", dax_char)
    ∷ (codes "WORD", dax_word)
    ∷ (codes "INT", dax_int)
    ∷ (codes "UINT", dax_uint)
    ∷ (codes "DWORD", dax_dword)
    ∷ (codes "DINT", dax_dint)
    ∷ (codes "UDINT", dax_udint)
    ∷ (codes "TIME", dax_time)
    ∷ (codes "REAL", dax_real)
    ∷ (codes "LWORD", dax_lword)
    ∷ (codes "LINT", dax_lint)
    ∷ (codes "ULINT", dax_ulint)
    ∷ (codes "LREAL", dax_lreal)
    ∷ []

unfoldable pub find_base : CString → List (CString × TagType) → Option TagType
find_base name [] = none
find_base name ((n, t) ∷ rest) = if same_nocase name n then some t else find_base name rest

-- The loop over `_datatypes`, from place `n` on.
unfoldable pub find_custom : CString → ℕ → List Datatype → Option TagType
find_custom name n [] = none
find_custom name n (d ∷ ds) =
    if same_nocase name d.name then some (cdt_to_type n) else find_custom name (suc n) ds

-- `cdt_get_type`; `none` is its 0.
unfoldable pub cdt_get_type : List Datatype → CString → Option TagType
unfolding find_base find_custom
cdt_get_type dts name = elim (find_base name base_names) [
  | some t ↦ some t
  | none ↦ find_custom name 0 dts
]

unfoldable pub base_name : TagType → List (CString × TagType) → Option CString
base_name t [] = none
base_name t ((n, u) ∷ rest) = if t == u then some n else base_name t rest

-- `cdt_get_name`; `none` is NULL.
unfoldable pub cdt_get_name : List Datatype → TagType → Option CString
unfolding base_name
cdt_get_name dts t =
    if is_custom t
    then (elim (get_elem? dts (cdt_to_index t)) [ none ↦ none | some d ↦ some d.name ])
    else base_name t base_names

unfoldable pub has_member : CString → List Member → Bool
has_member name [] = false
has_member name (m ∷ ms) = same_nocase name m.name || has_member name ms

-- `cdt_append` after its string is split.
unfoldable pub append_member :
    List Datatype → List Member → CString → CString → CString → Result (List Member)
unfolding has_member validate_name cdt_get_type
append_member dts members name typestr countstr = and_then (check (validate_name name)) (λ _.
    and_then (or_fail (cdt_get_type dts typestr) Error.arg) (λ t.
      if has_member name members
      then fail Error.dupl
      else ret (members ++ (record { name = name; type = t; count = strtol_u32 countstr } ∷ []))))

-- `cdt_append`: a member "Name,Type,Count".
unfoldable pub cdt_append : List Datatype → List Member → CString → Result (List Member)
unfolding append_member strtok
cdt_append dts members str = and_then (or_fail (strtok b',' str) Error.arg) (λ (name, str₁).
    and_then (or_fail (strtok b',' str₁) Error.arg) (λ (typestr, str₂).
      and_then (or_fail (strtok b',' str₂) Error.arg)
        (λ (countstr, str₃). append_member dts members name typestr countstr)))

-- The loop of `cdt_create` over the members' strings. Each round takes at least one byte.
unfoldable pub append_all : ℕ → List Datatype → List Member → CString → Result (List Member)
append_all zero dts members str = crash
append_all (suc fuel) dts members str = elim (strtok b':' str) [
  | none ↦ ret members
  | some (member, rest) ↦
      and_then (cdt_append dts members member) (λ members'. append_all fuel dts members' rest)
]

-- ":Name,Type,Count" for each member; a NULL type name is fatal in `strlen`.
unfoldable pub serialize_members : List Datatype → List Member → Result CString
unfolding cdt_get_name print_int
serialize_members dts [] = ret []
serialize_members dts (m ∷ ms) = elim (cdt_get_name dts m.type) [
  | none ↦ crash
  | some type ↦
      and_then (serialize_members dts ms)
        (λ rest. ret (b':' ∷ m.name ++ (b',' ∷ type ++ (b',' ∷ print_int m.count ++ rest))))
]

-- `serialize_datatype`. It does not ask whether the type is a compound one.
unfoldable pub serialize_datatype : List Datatype → TagType → Result CString
unfolding serialize_members
serialize_datatype dts type =
    and_then (or_fail (get_elem? dts (cdt_to_index type)) Error.arg)
      (λ d. and_then (serialize_members dts d.members) (λ rest. ret (d.name ++ rest)))

-- `cdt_create` where the name is known: the definition must be the text of the known type. For a
-- base type `serialize_datatype` may fail, which leaves that text unset.
unfoldable pub create_known :
    List Datatype → CString → TagType → Result CString → Result (TagType × List Datatype)
create_known dts str type (ret serial) = elim (strcmp serial str) [
  | Ordering.eq ↦ ret (type, dts)
  | _ ↦ fail Error.dupl
]
create_known dts str type (fail e) = crash
create_known dts str type crash = crash

-- `cdt_create` where the name is new.
unfoldable pub create_new : List Datatype → CString → CString → Result (TagType × List Datatype)
unfolding append_all cdt_append
create_new dts name rest = and_then (append_all (suc (length rest)) dts [] rest) (λ members. ret (
  cdt_to_type (length dts),
  dts ++ (record { name = name; flags = 0; refcount = 0; members = members } ∷ []),
))

-- `cdt_create` after the name is split off.
unfoldable pub cdt_create_named :
    List Datatype → CString → CString → CString → Result (TagType × List Datatype)
unfolding validate_name cdt_get_type serialize_datatype create_known create_new
cdt_create_named dts str name rest = and_then (check (validate_name name)) (λ _.
    elim (cdt_get_type dts name) [
      | some type ↦ create_known dts str type (serialize_datatype dts type)
      | none ↦ create_new dts name rest
    ])

-- `cdt_create`: the new type and table. Its 0 with an error code is `fail`. Without a first token
-- the name is NULL, which `strlen` reads.
unfoldable pub cdt_create : List Datatype → CString → Result (TagType × List Datatype)
unfolding cdt_create_named strtok
cdt_create dts str = elim (strtok b':' str) [
  | none ↦ crash
  | some (name, rest) ↦ cdt_create_named dts str name rest
]
