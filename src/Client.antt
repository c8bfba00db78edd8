-- ===== src/Client.antt =====
-- The messages between a client and the server, as bytes on a socket: `_message_send` and
-- `_message_get` of src/lib/libmsg.c, and the server's `_message_send` of src/server/message.c. A
-- socket takes what is sent.
pub mod Words
pub mod Loops
pub mod Replies
use open_dax.Base.{
  ℕ, ◌+◌, ◌-◌, ◌^◌, Bool, List, [], ◌∷◌, ◌++◌, length, take, drop, leb, ltb, if◌then◌else◌, Error,
  Result, ret, fail, crash, and_then, or_crash,
}
use open_dax.Base.Int.{ℤ, pos, negsuc}
use open_dax.Memory.{Block, from_network, word_at}
use open_dax.Server.{Output, sent}
use open_dax.Store.Notify.{dax_msgmax, big_endian32}

-- A message to the server: its size with the header, the command, the data.
abbrev pub encoded : ℕ → Block → Block
encoded command payload = big_endian32 (length payload + 8) ++ (big_endian32 command ++ payload)

-- The client's `_message_send`: what it writes to the socket. A payload that leaves no room for the
-- header is copied beyond the buffer.
unfoldable pub client_send : ℤ → ℕ → Block → Result Block
client_send (negsuc n) command payload = fail Error.disconnected
client_send (pos sfd) command payload =
    if ltb dax_msgmax (length payload + 8) then crash else ret (encoded command payload)

-- The argument `response` of the server's `_message_send`.
pub data Response : Type 0 where
  response error neither : Response

-- The bits MSG_RESPONSE and MSG_ERROR, on a command below them.
abbrev pub with_flag : ℕ → Response → ℕ
with_flag command response = command + 0x0100_0000
with_flag command error = command + 0x0200_0000
with_flag command neither = command

-- A message to a client: the size of the data, the command, the data.
abbrev pub reply : ℕ → Response → Block → Block
reply command kind payload =
    big_endian32 (length payload) ++ (big_endian32 (with_flag command kind) ++ payload)

-- The server's `_message_send`
unfoldable pub message_send : ℤ → ℕ → Block → Response → Result Output
message_send fd command payload kind =
    if ltb (dax_msgmax - 8) (length payload)
    then fail Error.too_big
    else ret (sent fd (reply command kind payload))

-- What comes out of a socket: bytes that are there at once, or the error of a `read`. At the end
-- of the list the socket is closed.
pub data Arrival : Type 0 where
  bytes : Block → Arrival
  would_block broken : Arrival

pub record Taken : Type 0 where
  pub block : Block
  pub rest : List Arrival

-- Room for the bytes in `buff`.
abbrev pub in_buff : Block → Result Block
in_buff b = if ltb dax_msgmax (length b) then crash else ret b

-- A loop of `_message_get`: until there are `limit` bytes, it asks for `ask index` more. A read that
-- leaves bytes behind has got all that it asked for, and is the last.
unfoldable pub receive : (ℕ → ℕ) → ℕ → Block → List Arrival → Result Taken
receive ask limit got [] =
    if leb limit (length got)
    then ret (record { block = got; rest = [] })
    else fail Error.disconnected
receive ask limit got (would_block ∷ rest) =
    if leb limit (length got)
    then ret (record { block = got; rest = would_block ∷ rest })
    else fail Error.timeout
receive ask limit got (broken ∷ rest) =
    if leb limit (length got)
    then ret (record { block = got; rest = broken ∷ rest })
    else fail Error.msg_recv
receive ask limit got (bytes [] ∷ rest) =
    if leb limit (length got)
    then ret (record { block = got; rest = bytes [] ∷ rest })
    else fail Error.disconnected
receive ask limit got (bytes (x ∷ xs) ∷ rest) =
    let n = ask (length got) in
    let all = receive ask limit (got ++ (x ∷ xs)) rest in
    let part : Taken = record {
      block = got ++ take n (x ∷ xs);
      rest = bytes (drop n (x ∷ xs)) ∷ rest;
    } in
    if leb limit (length got)
    then ret (record { block = got; rest = bytes (x ∷ xs) ∷ rest })
    else if leb (length (x ∷ xs)) n
    then and_then (in_buff (got ++ (x ∷ xs))) (λ _. all)
    else and_then (in_buff (got ++ take n (x ∷ xs))) (λ _. ret part)

-- What `_message_get` leaves in its `dax_message`, and in the socket.
pub record Got : Type 0 where
  pub msg_type : ℕ
  pub data_bytes : Block
  pub rest : List Arrival

-- The second loop, and the copy to `msg->data`, which has 4088 bytes.
unfoldable pub get_data : ℕ → ℕ → List Arrival → Result Got
unfolding receive
get_data size msg_type arrivals = and_then (receive (λ index. size - index) size [] arrivals) (λ t.
    if ltb (dax_msgmax - 8) size
    then crash
    else ret (record { msg_type = msg_type; data_bytes = take size t.block; rest = t.rest }))

-- `_message_get`: each read for the header asks for eight bytes, whatever there is already.
unfoldable pub message_get : List Arrival → Result Got
unfolding receive word_at get_data
message_get arrivals = and_then (receive (λ index. 8) 8 [] arrivals) (λ t.
    and_then (word_at 0 t.block)
      (λ size. and_then (word_at 4 t.block) (λ msg_type. get_data size msg_type t.rest)))
