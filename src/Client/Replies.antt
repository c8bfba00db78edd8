-- ===== src/Client/Replies.antt =====
-- What `_message_get` of src/lib/libmsg.c makes of the bytes that `_message_send` of
-- src/server/message.c sends.
use open_dax.Base.{
  ℕ, ◌-◌, ◌^◌, ◌≤◌, ◌<◌, ◌≡◌, ap, sym, ◌∙◌, false, List, [], ◌∷◌, ◌++◌, length, take, drop, ltb,
  Bool-cases, inl, inr, Error, ret, fail, arith, length-take, take-append-drop,
}
use open_dax.Base.Int.{ℤ}
use open_dax.Memory.{Block, word_at}
use open_dax.Memory.Copies.{take_append, slice-inside}
use open_dax.Memory.Pieces.{joined, NotEmpty, append-split}
use open_dax.Server.{sent}
use open_dax.Store.Notify.{dax_msgmax, big_endian32}
use open_dax.Client.Words.{from_network-big_endian32}
use open_dax.Client.Loops.{coming, receive-Leaves, header-Leaves}
use open_dax.Client.{
  Response, response, error, neither, with_flag, reply, message_send, Arrival, get_data,
  message_get,
}
use mathlib.Core.List.{append_assoc, append-nil}

-- The two words of a header.
header_words :
    (size command : ℕ)
    → size < 2 ^ 32
    → command < 2 ^ 32
    → (word_at 0 (big_endian32 size ++ big_endian32 command) ≡ ret size)
      × (word_at 4 (big_endian32 size ++ big_endian32 command) ≡ ret command)
unfolding word_at
header_words size command h k = (
  rw (slice-inside 0 4 (big_endian32 size ++ big_endian32 command) (omega arith))
      (from_network-big_endian32 size h),
  rw (slice-inside 4 4 (big_endian32 size ++ big_endian32 command) (omega arith))
      (from_network-big_endian32 command k),
)

get_data-Leaves :
    (msg_type : ℕ) (payload extra : Block) (pieces : List Block) (tail : List Arrival)
    → NotEmpty pieces
    → joined pieces ≡ payload ++ extra
    → length payload ≤ dax_msgmax - 8
    → (rest : List Block) × (get_data (length payload) msg_type (coming pieces tail)
        ≡ ret (record { msg_type = msg_type; data_bytes = payload; rest = coming rest tail }))
      × (joined rest ≡ extra)
      × NotEmpty rest
unfolding get_data
get_data-Leaves msg_type payload extra pieces tail ne e h =
    let (t, f, l) = receive-Leaves [] payload extra pieces tail ne e (omega arith) (omega arith) in
    let small : ltb (dax_msgmax - 8) (length payload) ≡ false = ground arith in
    let whole : take (length payload) payload ≡ payload =
      ap (take (length payload)) (sym (append-nil payload)) ∙ take_append payload [] in
    (
      l.pieces,
      rw f (
          rw l.is (
            rw small (
              ap
                (λ b.
                  ret (record { msg_type = msg_type; data_bytes = b; rest = coming l.pieces tail }))
                whole))),
      l.others,
      l.full,
    )

-- What the server's `_message_send` has sent, `_message_get` takes out of the socket, however it is
-- cut into pieces, as long as the first one has the header: the command with its flag, the payload,
-- and nothing of what comes after.
pub message_get-message_send :
    (fd : ℤ) (command : ℕ) (payload : Block) (kind : Response) (m extra : Block) (first : Block)
    (pieces : List Block) (tail : List Arrival)
    → command < 0x0100_0000
    → message_send fd command payload kind ≡ ret (sent fd m)
    → 8 ≤ length first
    → NotEmpty pieces
    → first ++ joined pieces ≡ m ++ extra
    → (rest : List Block) × (message_get (coming (first ∷ pieces) tail)
        ≡ ret (record {
          msg_type = with_flag command kind;
          data_bytes = payload;
          rest = coming rest tail;
        }))
      × (joined rest ≡ extra)
      × NotEmpty rest
unfolding message_get message_send
message_get-message_send fd command payload kind m extra first pieces tail small s h ne e =
    elim (Bool-cases (ltb (dax_msgmax - 8) (length payload))) [
      | inl big ↦ let s' : fail Error.too_big ≡ ret (sent fd m) = rw big at s in cc
      | inr room ↦
          let s' : ret (sent fd (reply command kind payload)) ≡ ret (sent fd m) = rw room at s in
          let is : reply command kind payload ≡ m = cc in
          let fits : length payload ≤ dax_msgmax - 8 = ground arith in
          let word = with_flag command kind in
          let header = big_endian32 (length payload) ++ big_endian32 word in
          let (p, q) =
            append-split (take 8 first) header (drop 8 first ++ joined pieces) (payload ++ extra)
              (omega (arith, length-take 8 first))
              (sym (append_assoc (take 8 first) (drop 8 first) (joined pieces))
                ∙ (ap (λ x. x ++ joined pieces) (take-append-drop 8 first)
                    ∙ (e ∙ ap (λ x. x ++ extra) (sym is)))) in
          let (t, f, l) = header-Leaves first pieces tail h ne in
          let (w, v) = header_words (length payload) word (omega arith) (below kind) in
          let (rest, g, r, ne') =
            get_data-Leaves word payload extra l.pieces tail l.full (l.others ∙ q) fits in
          (rest, rw f (rw l.is (rw p (rw w (rw v g)))), r, ne')
    ]
  where
    below : (kind : Response) → with_flag command kind < 2 ^ 32
    below response = omega arith
    below error = omega arith
    below neither = omega arith
