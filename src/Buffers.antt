-- ===== src/Buffers.antt =====
-- src/server/buffer.c: the buffers in which the bytes from the sockets of the modules become messages,
-- with `msg_dispatcher` of src/server/message.c, which they end in.
pub mod Pending
pub mod Search
pub mod Slots
pub mod Freed
pub mod Received
pub mod Framing
pub mod Pieces
pub mod Requests
use open_dax.Base.{
  ℕ, ◌+◌, ◌-◌, ◌*◌, ◌%◌, ◌^◌, Bool, ◌||◌, ◌&&◌, List, [], ◌∷◌, ◌++◌, Option, none, some, length,
  get_elem?, set, replicate, ltb, ◌==◌, if◌then◌else◌, Error, Outcome, ok, err, fault, ◌>>=◌,
  Result, ret, fail, crash, and_then, or_crash, run,
}
use open_dax.Base.Int.{ℤ, pos, negsuc, ◌+ℤ◌, ltb_ℤ, equal_ℤ}
use open_dax.Memory.{Block, slice, splice, word_at}
use open_dax.Server.{Server, M}
use open_dax.Store.Notify.{dax_msgmax}
use open_dax.Events.{as_word}

-- `dax_buffnode`, in the list's order; `fd` is 0 where the buffer is free.
pub record BuffNode : Type 0 where
  pub fd : ℤ
  pub index : ℤ
  pub buffer : Block

-- `dax_message`; its `size` is the length of the data.
pub record Message : Type 0 where
  pub msg_type : ℕ
  pub data_bytes : Block
  pub fd : ℤ

-- The list from `_buffer` on, beside the rest of the server.
pub record Receiver : Type 0 where
  pub buffers : List BuffNode
  pub server : Server

abbrev pub R : Type 0 → Type 0
R A = Receiver → Outcome Receiver A

-- `_new_buffnode`; `unset` is what malloc leaves in the buffer.
abbrev pub new_buffnode : Block → BuffNode
new_buffnode unset = record { fd = pos 0; index = pos 0; buffer = unset }

-- `buff_initialize`
unfoldable pub buff_initialize : Block → ℤ → List BuffNode
buff_initialize unset (pos count) = replicate count (new_buffnode unset)
buff_initialize unset (negsuc count) = []

-- What the loop of `find_buff_slot` comes to: a buffer of the descriptor, the first free one, neither.
pub data Found : Type 0 where
  mine spare : ℕ → Found
  full : Found

abbrev pub first_of : Option ℕ → ℕ → Option ℕ
first_of none n = some n
first_of (some k) n = some k

-- The loop, at the place `n`; `firstfree` is the first free place before.
unfoldable pub scan : ℤ → Option ℕ → ℕ → List BuffNode → Found
scan fd none n [] = full
scan fd (some k) n [] = spare k
scan fd firstfree n (b ∷ bs) =
    if equal_ℤ b.fd fd
    then mine n
    else scan fd (if equal_ℤ b.fd (pos 0) then first_of firstfree n else firstfree) (n + 1) bs

pub record BuffSlot : Type 0 where
  pub place : ℕ
  pub nodes : List BuffNode

-- `result->fd = fd`
unfoldable pub claim : ℤ → ℕ → List BuffNode → Result BuffSlot
claim fd n bs =
    and_then (or_crash (get_elem? bs n))
      (λ b. ret (record { place = n; nodes = set bs n (record b { fd = fd }) }))

-- A new buffer at the end. An empty list has no last node.
unfoldable pub append_node : Block → ℤ → List BuffNode → Result BuffSlot
append_node unset fd [] = crash
append_node unset fd (b ∷ bs) = ret (record {
  place = length (b ∷ bs);
  nodes = (b ∷ bs) ++ (record (new_buffnode unset) { fd = fd } ∷ []);
})

-- `find_buff_slot`
unfoldable pub find_buff_slot : Block → ℤ → List BuffNode → Result BuffSlot
unfolding scan claim append_node
find_buff_slot unset fd bs = elim (scan fd none 0 bs) [
  | mine n ↦ ret (record { place = n; nodes = bs })
  | spare n ↦ claim fd n bs
  | full ↦ append_node unset fd bs
]

abbrev pub released : BuffNode → BuffNode
released b = record b { fd = pos 0; index = pos 0 }

-- `buff_free`
unfoldable pub buff_free : ℤ → List BuffNode → List BuffNode
buff_free fd [] = []
buff_free fd (b ∷ bs) = if equal_ℤ b.fd fd then released b ∷ bs else b ∷ buff_free fd bs

-- `buff_freeall` behind `n` nodes: the last node goes if it is not the first and there are too many.
unfoldable pub free_from : ℤ → ℕ → List BuffNode → List BuffNode
free_from min n [] = []
free_from min n (b ∷ []) = if ltb_ℤ min (pos (n + 1)) && ltb 0 n then [] else released b ∷ []
free_from min n (b ∷ c ∷ bs) = released b ∷ free_from min (n + 1) (c ∷ bs)

-- `buff_freeall`
unfoldable pub buff_freeall : ℤ → List BuffNode → List BuffNode
unfolding free_from
buff_freeall min bs = free_from min 0 bs

-- What `read` returned enters a buffer at `index`. The result of a failed read is -1 in a `size_t`,
-- which passes the test for an error, and is added.
unfoldable pub keep_received : BuffNode → ℕ → Option Block → Result BuffNode
keep_received b index none = ret (record b { index = b.index +ℤ negsuc 0 })
keep_received b index (some []) = fail Error.no_socket
keep_received b index (some (x ∷ xs)) =
    and_then (or_crash (splice index (x ∷ xs) b.buffer))
      (λ block. ret (record b { index = pos (index + length (x ∷ xs)); buffer = block }))

-- The call of `read`, which is a function from the number of bytes that are asked for.
unfoldable pub read_into : (ℕ → Option Block) → BuffNode → ℤ → Result BuffNode
unfolding keep_received
read_into read b (pos index) = keep_received b index (read ((dax_msgmax + 2 ^ 32 - index) % 2 ^ 32))
read_into read b (negsuc n) = crash

-- `node->index < (size - 1)`, between unsigned numbers.
abbrev pub is_part : ℤ → ℕ → Bool
is_part index size = ltb (as_word index) ((size + 2 ^ 32 - 1) % 2 ^ 32)

-- `CHECK_COMMAND`
abbrev pub check_command : ℕ → Bool
check_command x = x == 0 || ltb 27 x

-- `cmd_arr[msg_type]`, on the rest of the server.
abbrev pub run_handler : (Message → M (Unit {0})) → Message → R (Unit {0})
run_handler cmd_arr msg r = elim (cmd_arr msg r.server) [
  | ok a s ↦ ok tt (record r { server = s })
  | err e s ↦ err e (record r { server = s })
  | fault ↦ fault
]

module _ (cmd_arr : Message → M (Unit {0})) where
  -- The message of a command is taken out of the buffer, and run_handler.
  unfoldable pub hand_over : ℤ → Block → ℕ → ℕ → R (Unit {0})
  unfolding slice buff_free
  hand_over fd buff size msg_type = do
    data_bytes ← run (or_crash (slice 8 ((size + 2 ^ 32 - 8) % 2 ^ 32) buff))
    λ r.
        run_handler cmd_arr (record { msg_type = msg_type; data_bytes = data_bytes; fd = fd })
          (record r { buffers = buff_free fd r.buffers })

  -- `msg_dispatcher`
  unfoldable pub msg_dispatcher : ℤ → Block → R (Unit {0})
  unfolding word_at hand_over
  msg_dispatcher fd buff = do
    size ← run (word_at 0 buff)
    msg_type ← run (word_at 4 buff)
    if check_command msg_type then err Error.msg_bad else hand_over fd buff size msg_type

  -- The end of `buff_read`. Each size passes one of its first two tests, so that the third is never
  -- made.
  unfoldable pub deliver : ℤ → BuffNode → R (Unit {0})
  unfolding msg_dispatcher
  deliver fd b = do
    size ← run (word_at 0 b.buffer)
    if is_part b.index size then err Error.msg_bad else msg_dispatcher fd b.buffer

  unfoldable pub read_node : (ℕ → Option Block) → ℤ → ℕ → BuffNode → R (Unit {0})
  unfolding read_into deliver
  read_node read fd n b = do
    b' ← run (read_into read b b.index)
    λ r. deliver fd b' (record r { buffers = set r.buffers n b' })

  -- `buff_read`
  unfoldable pub buff_read : Block → (ℕ → Option Block) → ℤ → R (Unit {0})
  unfolding find_buff_slot read_node
  buff_read unset read fd r =
      (do
        slot ← run (find_buff_slot unset fd r.buffers)
        b ← run (or_crash (get_elem? slot.nodes slot.place))
        λ r. read_node read fd slot.place b (record r { buffers = slot.nodes }))
        r
