-- ===== src/Handlers/Others.antt =====
-- The handlers of src/server/message.c for mappings and overrides. As in Handlers, a message that is
-- shorter than its fields, or a negative size, is not followed where the tag is there.
use open_dax.Base.{
  ℕ, ◌+◌, ◌-◌, ◌/◌, ◌%◌, [], ◌++◌, length, take, drop, get_elem?, ltb, if◌then◌else◌, Outcome, ok,
  err, fault, ◌>>=◌, ◌>>◌, Result, ret, and_then, or_crash, run,
}
use open_dax.Base.Int.{ℤ, pos, negsuc, signed}
use open_dax.Memory.{Block}
use open_dax.Event.{Floats}
use open_dax.Server.{Handle, Server, M, tag_at}
use open_dax.Store.{at_tag}
use open_dax.Tagbase.{word}
use open_dax.Tagbase.Override.{override_add, override_del, override_get, override_set}
use open_dax.Mapping.{map_add, map_del}
use open_dax.Client.{response, error}
use open_dax.Buffers.{Message}
use open_dax.Handlers.{msg_data, msg_data_size, field_at, error_word, answer, settle}

abbrev pub msg_map_add_command : ℕ
msg_map_add_command = 15

abbrev pub msg_map_del_command : ℕ
msg_map_del_command = 16

abbrev pub msg_add_ovrd_command : ℕ
msg_add_ovrd_command = 24

abbrev pub msg_del_ovrd_command : ℕ
msg_del_ovrd_command = 25

abbrev pub msg_get_ovrd_command : ℕ
msg_get_ovrd_command = 26

abbrev pub msg_set_ovrd_command : ℕ
msg_set_ovrd_command = 27

-- A reply without data.
abbrev pub settle_empty : ℤ → ℕ → Outcome Server (Unit {0}) → Outcome Server (Unit {0})
settle_empty fd command = settle fd command (λ _. answer fd command response [])

-- `override_get` with an `int` for its size.
unfoldable pub override_sized : ℤ → ℤ → ℤ → M (Block × Block)
unfolding override_get
override_sized idx offset (pos size) s = override_get idx offset size s
override_sized idx offset (negsuc n) s = at_tag (tag_at s idx) (λ t s. fault) s

module _ (stack : Block) where
  -- A handle of a mapping, which takes 21 bytes.
  unfoldable pub handle_from : ℕ → Message → Result Handle
  unfolding field_at
  handle_from k msg = and_then (field_at stack k msg) (λ index.
      and_then (field_at stack (k + 4) msg) (λ byte.
        and_then (or_crash (get_elem? (msg_data stack msg) (k + 8))) (λ bit.
          and_then (field_at stack (k + 9) msg) (λ count.
            and_then (field_at stack (k + 13) msg) (λ size.
              and_then (field_at stack (k + 17) msg) (λ type. ret (record {
                index = signed 32 index;
                byte = byte;
                bit = bit;
                count = count;
                size = size;
                type = type;
              })))))))

  -- `msg_map_add`
  unfoldable pub msg_map_add : Message → M (Unit {0})
  unfolding handle_from map_add settle answer
  msg_map_add msg = do
    src ← run (handle_from 0 msg)
    dest ← run (handle_from 21 msg)
    λ s.
        settle msg.fd msg_map_add_command
          (λ (n : ℕ). answer msg.fd msg_map_add_command response (word n)) (map_add src dest s)

  -- `msg_map_del`, which returns the error too.
  unfoldable pub msg_map_del : Message → M (Unit {0})
  unfolding field_at map_del answer
  msg_map_del msg = do
    index ← run (field_at stack 0 msg)
    id ← run (field_at stack 4 msg)
    λ s. elim (map_del (signed 32 index) id s) [
      | ok _ s' ↦ answer msg.fd msg_map_del_command response (word 0) s'
      | err e s' ↦ (answer msg.fd msg_map_del_command error (error_word e) >> err e) s'
      | fault ↦ fault
    ]

  -- `msg_get_override`: the bytes and the masks share a block of 4088 bytes.
  unfoldable pub msg_get_override : Message → M (Unit {0})
  unfolding field_at override_sized settle answer
  msg_get_override msg = do
    index ← run (field_at stack 0 msg)
    byte ← run (field_at stack 4 msg)
    size ← run (field_at stack 8 msg)
    λ s.
        settle msg.fd msg_get_ovrd_command
          (λ (got : Block × Block).
            if ltb msg_data_size (length (got.0 ++ got.1))
            then (λ s. fault)
            else answer msg.fd msg_get_ovrd_command response (got.0 ++ got.1))
          (override_sized (signed 32 index) (signed 32 byte) (signed 32 size) s)

  module _ (floats : Floats) where
    -- `msg_add_override`; what `malloc` leaves in new blocks are the first two parameters. Four bytes
    -- behind the place are not used.
    unfoldable pub msg_add_override : (ℕ → ℕ) → (ℕ → ℕ) → Message → M (Unit {0})
    unfolding field_at override_add settle answer
    msg_add_override data_at mask_at msg = do
      index ← run (field_at stack 0 msg)
      byte ← run (field_at stack 4 msg)
      λ s.
          let size = (length msg.data_bytes - 12) / 2 in
          if ltb (length msg.data_bytes) 12
          then fault
          else settle_empty msg.fd msg_add_ovrd_command (
              override_add floats data_at mask_at (signed 32 index) (signed 32 byte)
                (take size (drop 12 msg.data_bytes)) (take size (drop (12 + size) msg.data_bytes))
                s)

    -- `msg_del_override`
    unfoldable pub msg_del_override : Message → M (Unit {0})
    unfolding field_at override_del settle answer
    msg_del_override msg = do
      index ← run (field_at stack 0 msg)
      byte ← run (field_at stack 4 msg)
      λ s.
          if ltb (length msg.data_bytes) 8
          then fault
          else settle_empty msg.fd msg_del_ovrd_command
              (override_del floats (signed 32 index) (signed 32 byte) (drop 8 msg.data_bytes) s)

    -- `msg_set_override`, with the lowest byte of the flag.
    unfoldable pub msg_set_override : Message → M (Unit {0})
    unfolding field_at override_set settle answer
    msg_set_override msg = do
      index ← run (field_at stack 0 msg)
      flag ← run (field_at stack 4 msg)
      λ s.
          settle_empty msg.fd msg_set_ovrd_command
            (override_set floats (signed 32 index) (flag % 256) s)
