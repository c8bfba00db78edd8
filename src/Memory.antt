-- ===== src/Memory.antt =====
-- Blocks of bytes, and copies from and to them: a copy outside of a block is not defined.
pub mod Copies
pub mod Flags
pub mod Prefix
pub mod Pieces
use open_dax.Base.{
  ℕ, zero, suc, ◌+◌, ◌*◌, List, [], ◌∷◌, ◌++◌, Option, none, some, leb, ret, crash, and_then,
  if◌then◌else◌, length, get_elem?, take, drop, Result, ret, or_crash,
}
use open_dax.Base.Int.{ℤ, pos, negsuc}

abbrev pub Block : Type 0
Block = List ℕ

-- `memcpy(dest, &block[offset], size)`
unfoldable pub slice : ℕ → ℕ → Block → Option Block
slice offset size block =
    if leb (offset + size) (length block) then some (take size (drop offset block)) else none

-- `memcpy(&block[offset], bytes, size)`
unfoldable pub splice : ℕ → Block → Block → Option Block
splice offset bytes block =
    if leb (offset + length bytes) (length block)
    then some (take offset block ++ (bytes ++ drop (offset + length bytes) block))
    else none

-- The same at `int` arguments: a negative place or size is outside of every block.
unfoldable pub slice_int : ℤ → ℤ → Block → Option Block
unfolding slice
slice_int (pos offset) (pos size) block = slice offset size block
slice_int (pos offset) (negsuc size) block = none
slice_int (negsuc offset) size block = none

unfoldable pub splice_int : ℤ → Block → Block → Option Block
unfolding splice
splice_int (pos offset) bytes block = splice offset bytes block
splice_int (negsuc offset) bytes block = none

-- `block[i]`
abbrev pub byte_at : Block → ℕ → Result ℕ
byte_at block i = or_crash (get_elem? block i)

-- The number that bytes stand for, the lowest first, as the server's machine reads them.
unfoldable pub little_endian : Block → ℕ
little_endian [] = 0
little_endian (b ∷ bs) = b + 256 * little_endian bs

abbrev pub from_network : Block → Result ℕ
from_network (a ∷ b ∷ c ∷ d ∷ []) = ret (d + 256 * (c + 256 * (b + 256 * a)))
from_network _ = crash

-- `ntohl(*(uint32_t *)&block[offset])`
unfoldable pub word_at : ℕ → Block → Result ℕ
word_at offset block = and_then (or_crash (slice offset 4 block)) from_network
