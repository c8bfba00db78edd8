-- ===== src/Handlers/Fields.antt =====
-- The requests of a client to read and to write a tag, and their fields, as the handlers of
-- src/server/message.c take them.
use open_dax.Base.{ℕ, ◌^◌, ◌<◌, ◌≡◌, ap, ◌∙◌, ◌++◌, ret, and_then, or_crash, arith}
use open_dax.Base.Int.{ℤ, pos, signed}
use open_dax.Memory.{Block, little_endian}
use open_dax.Memory.Copies.{slice-inside}
use open_dax.Store.Hooks.{memory_of}
use open_dax.Tagbase.{word}
use open_dax.Buffers.{Message}
use open_dax.Handlers.{msg_data, field_at, msg_tag_read_command, msg_tag_write_command}

pub little_endian-word : (n : ℕ) → n < 2 ^ 32 → little_endian (word n) ≡ n
unfolding little_endian memory_of
little_endian-word n h = omega arith

pub signed-small : (n : ℕ) → n < 2 ^ 31 → signed 32 n ≡ pos n
signed-small n h = ground arith

-- The requests of a client.
abbrev pub write_request : ℤ → ℕ → ℕ → Block → Message
write_request fd i offset bytes = record {
  msg_type = msg_tag_write_command;
  data_bytes = word i ++ (word offset ++ bytes);
  fd = fd;
}

abbrev pub read_request : ℤ → ℕ → ℕ → ℕ → Message
read_request fd i offset size = record {
  msg_type = msg_tag_read_command;
  data_bytes = word i ++ (word offset ++ word size);
  fd = fd;
}

module _ (stack : Block) (fd : ℤ) (i offset : ℕ) where
  pub first_field :
      (command : ℕ) (rest : Block)
      → i < 2 ^ 32
      → field_at stack 0 (record { msg_type = command; data_bytes = word i ++ rest; fd = fd })
        ≡ ret i
  unfolding field_at memory_of
  first_field command rest h =
      ap (λ o. and_then (or_crash o) (λ b. ret (little_endian b)))
        (slice-inside 0 4
          (msg_data stack (record { msg_type = command; data_bytes = word i ++ rest; fd = fd }))
          (omega arith))
      ∙ ap ret (little_endian-word i h)

  pub second_field :
      (command : ℕ) (rest : Block)
      → offset < 2 ^ 32
      → field_at stack 4
          (record { msg_type = command; data_bytes = word i ++ (word offset ++ rest); fd = fd })
        ≡ ret offset
  unfolding field_at memory_of
  second_field command rest h =
      ap (λ o. and_then (or_crash o) (λ b. ret (little_endian b)))
        (slice-inside 4 4
          (msg_data stack
            (record { msg_type = command; data_bytes = word i ++ (word offset ++ rest); fd = fd }))
          (omega arith))
      ∙ ap ret (little_endian-word offset h)

  pub third_field :
      (command size : ℕ)
      → size < 2 ^ 32
      → field_at stack 8 (record {
        msg_type = command;
        data_bytes = word i ++ (word offset ++ word size);
        fd = fd;
      })
        ≡ ret size
  unfolding field_at memory_of
  third_field command size h =
      ap (λ o. and_then (or_crash o) (λ b. ret (little_endian b)))
        (slice-inside 8 4
          (msg_data stack (record {
            msg_type = command;
            data_bytes = word i ++ (word offset ++ word size);
            fd = fd;
          }))
          (omega arith))
      ∙ ap ret (little_endian-word size h)
