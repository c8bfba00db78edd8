-- ===== src/Tests/Messages.antt =====
-- The theorems on buffers and messages at a server with one free buffer.
use open_dax.Base.{
  ℕ, zero, suc, ◌≡◌, refl, List, [], ◌∷◌, ◌++◌, some, length, get_elem?, replicate,
  length-replicate, ok, ret, ◌>>◌, arith, subst,
}
use open_dax.Base.Int.{pos}
use open_dax.Memory.{Block}
use open_dax.Memory.Pieces.{joined, NotEmpty}
use open_dax.Server.{sent, M, emit}
use open_dax.Store.Notify.{dax_msgmax}
use open_dax.Client.{encoded, client_send, message_send, response, with_flag, message_get}
use open_dax.Client.Loops.{coming}
use open_dax.Client.Replies.{message_get-message_send}
use open_dax.Buffers.{
  BuffNode, Message, Receiver, BuffSlot, new_buffnode, run_handler, buff_read, find_buff_slot,
}
use open_dax.Buffers.Pending.{pending, owners, IsSound, IsTidy}
use open_dax.Buffers.Slots.{Claims, find_buff_slot-Claims}
use open_dax.Buffers.Framing.{received}
use open_dax.Buffers.Pieces.{Waits, arrive}
use open_dax.Buffers.Requests.{client_send-arrive}
use open_dax.Tests.Samples.{one_tag}

-- A handler that sends the data back.
abbrev echo : Message → M (Unit {0})
echo msg s = ok tt (emit s (sent msg.fd msg.data_bytes ∷ []))

abbrev zeros : Block
zeros = replicate 4096 0

zeros_whole : length zeros ≡ dax_msgmax
zeros_whole = length-replicate {A = ℕ} 4096 0

abbrev one_free : List BuffNode
one_free = new_buffnode zeros ∷ []

free-IsSound : IsSound (new_buffnode zeros)
free-IsSound = record {
  used = 0;
  index_is = refl;
  fits = omega arith;
  whole = zeros_whole;
  free_empty = λ _. refl;
}

one_free-IsTidy : IsTidy one_free
unfolding owners
one_free-IsTidy = record { sound = only; single = λ fd z. ground arith }
  where
    only : (i : ℕ) (b : BuffNode) → get_elem? one_free i ≡ some b → IsSound b
    only zero b e = subst IsSound {x = new_buffnode zeros} {y = b} (cc) free-IsSound
    only (suc i) b e = cc

abbrev waiting : Receiver
waiting = record { buffers = one_free; server = one_tag }

-- The parts of a request for the command 3.
abbrev size_part : Block
size_part = 0 ∷ 0 ∷ 0 ∷ 12 ∷ []

abbrev middle_parts : List Block
middle_parts = (0 ∷ 0 ∷ []) ∷ (0 ∷ 3 ∷ 7 ∷ []) ∷ []

abbrev last_part : Block
last_part = 8 ∷ 9 ∷ 6 ∷ []

is_sent : client_send (pos 5) 3 (7 ∷ 8 ∷ 9 ∷ 6 ∷ []) ≡ ret (encoded 3 (7 ∷ 8 ∷ 9 ∷ 6 ∷ []))
unfolding client_send
is_sent = refl

nothing_waits : pending (pos 7) one_free ≡ []
unfolding pending
nothing_waits = refl

parts_joined : size_part ++ (joined middle_parts ++ last_part) ≡ encoded 3 (7 ∷ 8 ∷ 9 ∷ 6 ∷ [])
unfolding joined
parts_joined = refl

client_send-arrive_example :
    (bs : List BuffNode) × ((arrive echo zeros (pos 7) (size_part ∷ middle_parts)
          >> buff_read echo zeros (λ _. some last_part) (pos 7))
        waiting
      ≡ run_handler echo
          (received (pos 7) 3 (7 ∷ 8 ∷ 9 ∷ 6 ∷ []))
          (record waiting { buffers = bs }))
    × Waits (pos 7) [] one_free bs
client_send-arrive_example =
    client_send-arrive echo zeros (pos 7) (pos 5) 3 (7 ∷ 8 ∷ 9 ∷ 6 ∷ [])
      (encoded 3 (7 ∷ 8 ∷ 9 ∷ 6 ∷ [])) size_part middle_parts last_part waiting zeros_whole
      (λ e. cc) refl is_sent (omega arith) one_free-IsTidy nothing_waits (omega arith)
      (omega arith, (omega arith, tt)) (omega arith) parts_joined

find_buff_slot-Claims_example :
    (slot : BuffSlot) × (find_buff_slot zeros (pos 7) one_free ≡ ret slot)
    × Claims (pos 7) one_free slot
find_buff_slot-Claims_example =
    find_buff_slot-Claims zeros (pos 7) (new_buffnode zeros) [] (λ e. cc) zeros_whole
      one_free-IsTidy

-- A reply to the command 6, of which the header arrives with the first byte, and a byte more behind it.
abbrev reply_start : Block
reply_start = 0 ∷ 0 ∷ 0 ∷ 3 ∷ 1 ∷ 0 ∷ 0 ∷ 6 ∷ 40 ∷ []

abbrev reply_parts : List Block
reply_parts = (50 ∷ []) ∷ (60 ∷ 70 ∷ []) ∷ []

replied :
    message_send (pos 7) 6 (40 ∷ 50 ∷ 60 ∷ []) response
    ≡ ret (sent (pos 7) (0 ∷ 0 ∷ 0 ∷ 3 ∷ 1 ∷ 0 ∷ 0 ∷ 6 ∷ 40 ∷ 50 ∷ 60 ∷ []))
unfolding message_send
replied = refl

reply_joined :
    reply_start ++ joined reply_parts
    ≡ (0 ∷ 0 ∷ 0 ∷ 3 ∷ 1 ∷ 0 ∷ 0 ∷ 6 ∷ 40 ∷ 50 ∷ 60 ∷ []) ++ (70 ∷ [])
unfolding joined
reply_joined = refl

message_get-message_send_example :
    (rest : List Block) × (message_get (coming (reply_start ∷ reply_parts) [])
      ≡ ret (record {
        msg_type = with_flag 6 response;
        data_bytes = 40 ∷ 50 ∷ 60 ∷ [];
        rest = coming rest [];
      }))
    × (joined rest ≡ 70 ∷ [])
    × NotEmpty rest
message_get-message_send_example =
    message_get-message_send (pos 7) 6 (40 ∷ 50 ∷ 60 ∷ []) response
      (0 ∷ 0 ∷ 0 ∷ 3 ∷ 1 ∷ 0 ∷ 0 ∷ 6 ∷ 40 ∷ 50 ∷ 60 ∷ []) (70 ∷ []) reply_start reply_parts []
      (omega arith) replied (omega arith) (omega arith, (omega arith, tt)) reply_joined
