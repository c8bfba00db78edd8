-- ===== src/Types.antt =====
-- The type codes of opendax.h and libcommon.h, as 32-bit words.
use open_dax.Base.{
  ℕ, ◌+◌, ◌-◌, ◌/◌, ◌%◌, ◌^◌, Bool, false, ◌||◌, List, [], ◌∷◌, ◌==◌, if◌then◌else◌,
}

abbrev pub TagType : Type 0
TagType = ℕ

abbrev pub dax_bool : TagType
dax_bool = 0x0010

abbrev pub dax_byte : TagType
dax_byte = 0x0003

abbrev pub dax_sint : TagType
dax_sint = 0x0013

abbrev pub dax_char : TagType
dax_char = 0x0023

abbrev pub dax_word : TagType
dax_word = 0x0004

abbrev pub dax_int : TagType
dax_int = 0x0014

abbrev pub dax_uint : TagType
dax_uint = 0x0024

abbrev pub dax_dword : TagType
dax_dword = 0x0005

abbrev pub dax_dint : TagType
dax_dint = 0x0015

abbrev pub dax_udint : TagType
dax_udint = 0x0025

abbrev pub dax_real : TagType
dax_real = 0x0035

abbrev pub dax_lword : TagType
dax_lword = 0x0006

abbrev pub dax_lint : TagType
dax_lint = 0x0016

abbrev pub dax_ulint : TagType
dax_ulint = 0x0026

abbrev pub dax_time : TagType
dax_time = 0x0036

abbrev pub dax_lreal : TagType
dax_lreal = 0x0046

abbrev pub dax_custom : ℕ
dax_custom = 0x8000_0000

abbrev pub dax_queue : ℕ
dax_queue = 0x4000_0000

-- `IS_CUSTOM`: bit 31.
abbrev pub is_custom : TagType → Bool
is_custom t = t / 2 ^ 31 % 2 == 1

-- `IS_QUEUE`: bit 30.
abbrev pub is_queue : TagType → Bool
is_queue t = t / 2 ^ 30 % 2 == 1

-- `type & ~DAX_QUEUE`
abbrev pub without_queue : TagType → TagType
without_queue t = if is_queue t then t - dax_queue else t

-- `CDT_TO_INDEX`: the word without bit 31.
abbrev pub cdt_to_index : TagType → ℕ
cdt_to_index t = t % 2 ^ 31

-- `CDT_TO_TYPE`: the word with bit 31.
abbrev pub cdt_to_type : ℕ → TagType
cdt_to_type i = if is_custom i then i else i + 2 ^ 31

-- `TYPESIZE`, in bits.
abbrev pub typesize : TagType → ℕ
typesize t = 2 ^ (t % 16)

-- The base types, in the order of the tests in `_checktype`.
abbrev pub base_types : List TagType
base_types =
    dax_bool ∷ dax_byte ∷ dax_sint ∷ dax_char ∷ dax_word ∷ dax_int ∷ dax_uint ∷ dax_dword ∷ dax_dint
    ∷ dax_udint ∷ dax_time ∷ dax_real ∷ dax_lword ∷ dax_lint ∷ dax_ulint ∷ dax_lreal ∷ []

unfoldable pub contains : TagType → List TagType → Bool
contains t [] = false
contains t (u ∷ us) = t == u || contains t us

unfoldable pub is_base : TagType → Bool
unfolding contains
is_base t = contains t base_types
