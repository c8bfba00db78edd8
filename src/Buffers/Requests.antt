-- ===== src/Buffers/Requests.antt =====
-- A request of a client, from `_message_send` of src/lib/libmsg.c to the handler that
-- `msg_dispatcher` of src/server/message.c calls.
use open_dax.Base.{
  ℕ, ◌+◌, ◌≤◌, ◌<◌, ◌≡◌, ◌≢◌, sym, ◌∙◌, false, List, [], ◌∷◌, ◌++◌, some, length, ltb, Bool-cases,
  inl, inr, ret, crash, ◌>>◌, arith,
}
use open_dax.Base.Int.{ℤ, pos, negsuc}
use open_dax.Memory.{Block}
use open_dax.Memory.Pieces.{joined, NotEmpty}
use open_dax.Server.{M}
use open_dax.Store.Notify.{dax_msgmax}
use open_dax.Client.{encoded, client_send}
use open_dax.Buffers.{BuffNode, Message, Receiver, check_command, run_handler, buff_read}
use open_dax.Buffers.Pending.{pending, IsTidy}
use open_dax.Buffers.Framing.{received}
use open_dax.Buffers.Pieces.{Waits, arrive, arrive-handled}

-- A client that is connected sends no more than fits.
client_send-parts :
    (sfd : ℤ) (command : ℕ) (payload m : Block)
    → client_send sfd command payload ≡ ret m
    → (length payload + 8 ≤ dax_msgmax) × (encoded command payload ≡ m)
unfolding client_send
client_send-parts (negsuc n) command payload m e = cc
client_send-parts (pos n) command payload m e =
    elim (Bool-cases (ltb dax_msgmax (length payload + 8))) [
      | inl big ↦ let e' : crash ≡ ret m = rw big at e in cc
      | inr fits ↦
          let e' : ret (encoded command payload) ≡ ret m = rw fits at e in (ground arith, cc)
    ]

-- A request that a client has sent arrives in pieces, the first of four bytes or more, the last of two
-- or more, and none empty, on a descriptor other than 0 that has nothing waiting: then the calls of
-- `buff_read` for the pieces come to one run of the handler, on the command and the data that the client
-- gave, with nothing of the descriptor waiting and with what waits of other descriptors unchanged.
pub client_send-arrive :
    (cmd_arr : Message → M (Unit {0})) (unset : Block) (fd sfd : ℤ) (command : ℕ)
    (payload m : Block) (first : Block) (pieces : List Block) (last : Block) (r : Receiver)
    → length unset ≡ dax_msgmax
    → fd ≢ pos 0
    → check_command command ≡ false
    → client_send sfd command payload ≡ ret m
    → 0 < length r.buffers
    → IsTidy r.buffers
    → pending fd r.buffers ≡ []
    → 4 ≤ length first
    → NotEmpty pieces
    → 2 ≤ length last
    → first ++ (joined pieces ++ last) ≡ m
    → (bs : List BuffNode) × ((arrive cmd_arr unset fd (first ∷ pieces)
            >> buff_read cmd_arr unset (λ _. some last) fd)
          r
        ≡ run_handler cmd_arr (received fd command payload) (record r { buffers = bs }))
      × Waits fd [] r.buffers bs
client_send-arrive cmd_arr unset fd sfd command payload m first pieces last r whole used valid s
      some_buffer t e four ne two is =
    let (small, p) = client_send-parts sfd command payload m s in
    arrive-handled cmd_arr unset fd used whole command payload small valid first pieces last r
      some_buffer t e four ne two (is ∙ sym p)
