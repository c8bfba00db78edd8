-- ===== src/Handlers.antt =====
-- The handlers of src/server/message.c for the messages that add, delete, read and write tags. A
-- size below 0, which these messages can carry, is not followed: it counts as not defined where the tag
-- is there.
pub mod Fields
pub mod Served
pub mod Others
use open_dax.Base.{
  ℕ, ◌+◌, ◌-◌, ◌/◌, ◌^◌, not, ◌&&◌, List, [], ◌∷◌, ◌++◌, Option, none, some, length, take, drop,
  ltb, ◌==◌, if◌then◌else◌, Error, Outcome, ok, err, fault, ◌>>=◌, ◌>>◌, attempt, Result, ret, fail,
  crash, and_then, or_crash, run,
}
use open_dax.Base.Int.{ℤ, pos, negsuc, signed}
use open_dax.Memory.{Block, slice, little_endian}
use open_dax.Text.{CString}
use open_dax.Event.{Floats}
use open_dax.Server.{Tag, Server, M, tag_at, emit}
use open_dax.Store.{at_tag, unchecked_tag, tag_read, tag_write, tag_mask_write}
use open_dax.Tagbase.{Unset, word}
use open_dax.Tagbase.Add.{tag_add}
use open_dax.Tagbase.Del.{tag_del}
use open_dax.Tagbase.Lookup.{TagInfo, tag_get_index, is_tag_readonly, is_tag_owned}
use open_dax.Mapping.{map_check}
use open_dax.Client.{Response, response, error, message_send}
use open_dax.Buffers.{Message}

-- The commands, and the size of `msg->data`.
abbrev pub msg_tag_add_command : ℕ
msg_tag_add_command = 2

abbrev pub msg_tag_del_command : ℕ
msg_tag_del_command = 3

abbrev pub msg_tag_read_command : ℕ
msg_tag_read_command = 6

abbrev pub msg_tag_write_command : ℕ
msg_tag_write_command = 7

abbrev pub msg_tag_mwrite_command : ℕ
msg_tag_mwrite_command = 8

abbrev pub msg_data_size : ℕ
msg_data_size = 4088

-- The numbers of opendax.h, without their sign.
abbrev pub error_number : Error → ℕ
error_number Error.generic = 1
error_number Error.no_socket = 2
error_number Error.too_big = 3
error_number Error.arg = 4
error_number Error.notfound = 5
error_number Error.msg_send = 6
error_number Error.msg_recv = 7
error_number Error.tag_bad = 8
error_number Error.tag_dupl = 9
error_number Error.alloc = 10
error_number Error.msg_bad = 11
error_number Error.dupl = 12
error_number Error.illegal = 15
error_number Error.empty = 20
error_number Error.badtype = 21
error_number Error.auth = 23
error_number Error.deleted = 26
error_number Error.readonly = 27
error_number Error.writeonly = 28
error_number Error.timeout = 14
error_number Error.disconnected = 31

-- An error as the four bytes of an `int`.
abbrev pub error_word : Error → Block
error_word e = word (2 ^ 32 - error_number e)

-- `_message_send`, of which the handlers drop the result.
unfoldable pub answer : ℤ → ℕ → Response → Block → M (Unit {0})
unfolding message_send
answer fd command kind payload s = elim (message_send fd command payload kind) [
  | ret out ↦ ok tt (emit s (out ∷ []))
  | fail e ↦ ok tt s
  | crash ↦ fault
]

-- The reply to a message that was worked off.
unfoldable pub settle :
    {A : Type 0} → ℤ → ℕ → (A → M (Unit {0})) → Outcome Server A → Outcome Server (Unit {0})
unfolding answer
settle fd command done (ok a s) = done a s
settle fd command done (err e s) = answer fd command error (error_word e) s
settle fd command done fault = fault

-- The string that a block begins with.
unfoldable pub c_string : Block → Result CString
c_string [] = crash
c_string (c ∷ cs) =
    let rest = c_string cs in if c == 0 then ret [] else and_then rest (λ s. ret (c ∷ s))

-- `name[0] == '_'`
abbrev pub is_reserved : CString → Result Block → Result Block
is_reserved [] r = r
is_reserved (c ∷ cs) r = if c == b'_' then fail Error.illegal else r

-- `stack` is what stands in `msg->data` from its start on; the data of a message covers its front.
module _ (stack : Block) where
  abbrev pub msg_data : Message → Block
  msg_data msg = take msg_data_size (msg.data_bytes ++ drop (length msg.data_bytes) stack)

  -- `*((uint32_t *)&msg->data[k])`
  unfoldable pub field_at : ℕ → Message → Result ℕ
  unfolding slice little_endian
  field_at k msg = and_then (or_crash (slice k 4 (msg_data msg))) (λ b. ret (little_endian b))

-- A read of `size` bytes, an `int`.
unfoldable pub read_sized : ℤ → ℤ → ℤ → ℤ → M Block
unfolding tag_read
read_sized fd idx offset (pos size) s = tag_read fd idx offset size s
read_sized fd idx offset (negsuc n) s = at_tag (tag_at s idx) (λ t s. fault) s

module _ (floats : Floats) where
  -- `map_check` after a write, which has not succeeded at a negative offset.
  unfoldable pub check_written : ℤ → ℤ → ℕ → M (Unit {0})
  unfolding map_check
  check_written idx (pos offset) size s = attempt (map_check floats idx offset size) s
  check_written idx (negsuc n) size s = fault

  -- The reply to a write.
  unfoldable pub reply_written :
      ℤ → ℕ → ℤ → ℤ → ℕ → Outcome Server (Unit {0}) → Outcome Server (Unit {0})
  unfolding settle check_written answer
  reply_written fd command idx offset size =
      settle fd command
        (λ (_ : Unit {0}). check_written idx offset size >> answer fd command response [])

  -- The call of `msg_tag_write`; the attributes are read before the index is checked.
  unfoldable pub write_allowed : ℤ → ℤ → ℤ → Block → M (Unit {0})
  unfolding tag_write
  write_allowed fd idx offset bytes s =
      unchecked_tag (tag_at s idx)
        (λ t s.
          if is_tag_readonly t && not (is_tag_owned fd t)
          then err Error.readonly s
          else tag_write floats fd idx offset bytes s)
        s

  -- The call of `msg_tag_mask_write`.
  unfoldable pub mask_allowed : ℤ → ℤ → ℤ → Block → Block → M (Unit {0})
  unfolding tag_mask_write
  mask_allowed fd idx offset bytes mask s =
      unchecked_tag (tag_at s idx)
        (λ t s.
          if is_tag_readonly t
          then err Error.readonly s
          else tag_mask_write floats fd idx offset bytes mask s)
        s

module _ (u : Unset) (floats : Floats) where
  -- The call of `msg_tag_add`; names that begin with an underscore are the server's.
  unfoldable pub add_allowed : ℤ → CString → ℕ → ℕ → ℕ → M ℕ
  unfolding tag_add
  add_allowed fd name type count attr s = elim (is_reserved name (ret [])) [
    | ret _ ↦ tag_add u floats fd name type count attr s
    | fail e ↦ err e s
    | crash ↦ fault
  ]

  -- The calls of `msg_tag_del`
  unfoldable pub del_allowed : ℤ → M (Unit {0})
  unfolding tag_get_index tag_del
  del_allowed idx s = elim (tag_get_index s idx) [
    | ret tag ↦ elim (is_reserved tag.name (ret [])) [
      | ret _ ↦ tag_del u floats idx s
      | fail e ↦ err e s
      | crash ↦ fault
    ]
    | fail e ↦ err Error.arg s
    | crash ↦ fault
  ]

module _ (stack : Block) where
  -- `msg_tag_read`, with room for 4088 bytes.
  unfoldable pub msg_tag_read : Message → M (Unit {0})
  unfolding field_at read_sized settle answer
  msg_tag_read msg = do
    index ← run (field_at stack 0 msg)
    offset ← run (field_at stack 4 msg)
    size ← run (field_at stack 8 msg)
    λ s.
        settle msg.fd msg_tag_read_command
          (λ (bytes : Block).
            if ltb msg_data_size (length bytes)
            then (λ s. fault)
            else answer msg.fd msg_tag_read_command response bytes)
          (read_sized msg.fd (signed 32 index) (signed 32 offset) (signed 32 size) s)

  module _ (floats : Floats) where
    -- `msg_tag_write`
    unfoldable pub msg_tag_write : Message → M (Unit {0})
    unfolding field_at write_allowed reply_written
    msg_tag_write msg = do
      index ← run (field_at stack 0 msg)
      offset ← run (field_at stack 4 msg)
      λ s.
          if ltb (length msg.data_bytes) 8
          then fault
          else reply_written floats msg.fd msg_tag_write_command (signed 32 index)
              (signed 32 offset) (length msg.data_bytes - 8)
              (write_allowed floats msg.fd (signed 32 index) (signed 32 offset)
                (drop 8 msg.data_bytes) s)

    -- `msg_tag_mask_write`: the second half of the data is the mask.
    unfoldable pub msg_tag_mask_write : Message → M (Unit {0})
    unfolding field_at mask_allowed reply_written
    msg_tag_mask_write msg = do
      index ← run (field_at stack 0 msg)
      offset ← run (field_at stack 4 msg)
      λ s.
          let size = (length msg.data_bytes - 8) / 2 in
          if ltb (length msg.data_bytes) 8
          then fault
          else reply_written floats msg.fd msg_tag_mwrite_command (signed 32 index)
              (signed 32 offset) size
              (mask_allowed floats msg.fd (signed 32 index) (signed 32 offset)
                (take size (drop 8 msg.data_bytes)) (take size (drop (8 + size) msg.data_bytes)) s)

  module _ (u : Unset) (floats : Floats) where
    -- `msg_tag_add`
    unfoldable pub msg_tag_add : Message → M (Unit {0})
    unfolding field_at c_string add_allowed settle answer
    msg_tag_add msg = do
      type ← run (field_at stack 0 msg)
      count ← run (field_at stack 4 msg)
      attr ← run (field_at stack 8 msg)
      name ← run (c_string (drop 12 (msg_data stack msg)))
      λ s.
          settle msg.fd msg_tag_add_command
            (λ (n : ℕ). answer msg.fd msg_tag_add_command response (word n))
            (add_allowed u floats msg.fd name type count attr s)

    -- `msg_tag_del`
    unfoldable pub msg_tag_del : Message → M (Unit {0})
    unfolding field_at del_allowed settle answer
    msg_tag_del msg = do
      index ← run (field_at stack 0 msg)
      λ s.
          settle msg.fd msg_tag_del_command
            (λ (_ : Unit {0}). answer msg.fd msg_tag_del_command response (word index))
            (del_allowed u floats (signed 32 index) s)
