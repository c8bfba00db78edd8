-- ===== src/Buffers/Framing.antt =====
-- How the bytes of a socket become messages: `buff_read` of src/server/buffer.c, with `msg_dispatcher`
-- of src/server/message.c, on the layout of a message in src/libcommon.h.
use open_dax.Base.{
  ℕ, ◌+◌, ◌-◌, ◌%◌, ◌^◌, ◌≤◌, ◌<◌, ◌≡◌, refl, ap, sym, ◌∙◌, true, false, [], ◌++◌, some, length,
  take, Error, err, ret, and_then, or_crash, arith, length-append,
}
use open_dax.Base.Int.{ℤ, pos_part}
use open_dax.Memory.{Block, slice, from_network, word_at}
use open_dax.Memory.Copies.{slice-inside, take_append}
use open_dax.Memory.Prefix.{slice-take, slice-append}
use open_dax.Server.{M}
use open_dax.Store.Notify.{dax_msgmax}
use open_dax.Client.{encoded}
use open_dax.Client.Words.{from_network-big_endian32}
use open_dax.Buffers.{
  BuffNode, Message, Receiver, is_part, check_command, run_handler, hand_over, msg_dispatcher,
  deliver, buff_free,
}
use open_dax.Buffers.Pending.{content, IsSound}
use open_dax.Buffers.Received.{length-content}
use mathlib.Core.List.{append-nil}

module _ (command : ℕ) (sent extra : Block) where
  size_word :
      length sent + 8 < 2 ^ 32 → word_at 0 (encoded command sent ++ extra) ≡ ret (length sent + 8)
  unfolding word_at
  size_word h =
      rw (slice-inside 0 4 (encoded command sent ++ extra) (omega arith))
        (from_network-big_endian32 (length sent + 8) h)

  command_word : command < 2 ^ 32 → word_at 4 (encoded command sent ++ extra) ≡ ret command
  unfolding word_at
  command_word h =
      rw (slice-inside 4 4 (encoded command sent ++ extra) (omega arith))
        (from_network-big_endian32 command h)

  data_part : slice 8 (length sent) (encoded command sent ++ extra) ≡ some sent
  data_part =
      slice-inside 8 (length sent) (encoded command sent ++ extra)
        (omega (arith, length-append sent extra))
      ∙ ap some (take_append sent extra)

-- A copy of bytes that a buffer holds.
slice-content :
    (offset size : ℕ) (b : BuffNode) (s : IsSound b)
    → offset + size ≤ length (content b)
    → slice offset size b.buffer ≡ slice offset size (content b)
slice-content offset size b s h =
    slice-take offset size s.used b.buffer (omega (arith, length-content b s))
      (omega (arith, s.whole, s.fits))
    ∙ ap (λ i. slice offset size (take i b.buffer)) (ap pos_part (sym s.index_is))

word_at-content :
    (offset : ℕ) (b : BuffNode) (s : IsSound b)
    → offset + 4 ≤ length (content b)
    → word_at offset b.buffer ≡ word_at offset (content b)
unfolding word_at
word_at-content offset b s h =
    ap (λ o. and_then (or_crash o) from_network) (slice-content offset 4 b s h)

word_at-prefix :
    (offset : ℕ) (xs ys : Block)
    → offset + 4 ≤ length xs
    → word_at offset (xs ++ ys) ≡ word_at offset xs
unfolding word_at
word_at-prefix offset xs ys h =
    ap (λ o. and_then (or_crash o) from_network) (slice-append offset 4 xs ys h)

-- The message that the handler of the command gets.
abbrev pub received : ℤ → ℕ → Block → Message
received fd command sent = record { msg_type = command; data_bytes = sent; fd = fd }

module _ (cmd_arr : Message → M (Unit {0})) (fd : ℤ) (command : ℕ) (sent : Block) where
  -- A part of a message is not delivered.
  pub deliver-part :
      (b : BuffNode) (rest : Block) (r : Receiver) (s : IsSound b)
      → content b ++ rest ≡ encoded command sent
      → length sent + 8 ≤ dax_msgmax
      → 4 ≤ length (content b)
      → 2 ≤ length rest
      → deliver cmd_arr fd b r ≡ err Error.msg_bad r
  unfolding deliver
  deliver-part b rest r s e small h k =
      let n = ap length e in
      let size : word_at 0 b.buffer ≡ ret (length sent + 8) =
        word_at-content 0 b s h
        ∙ (sym (word_at-prefix 0 (content b) rest h)
            ∙ (ap (word_at 0) (e ∙ sym (append-nil (encoded command sent)))
                ∙ size_word command sent [] (omega arith))) in
      let part : is_part b.index (length sent + 8) ≡ true =
        rw s.index_is (ground (arith, n, length-append (content b) rest, length-content b s)) in
      rw size (rw part refl)

  -- A whole message is handled, and its buffer is free.
  pub deliver-whole :
      (b : BuffNode) (extra : Block) (r : Receiver) (s : IsSound b)
      → content b ≡ encoded command sent ++ extra
      → length sent + 8 ≤ dax_msgmax
      → check_command command ≡ false
      → deliver cmd_arr fd b r
        ≡ run_handler cmd_arr
            (received fd command sent)
            (record r { buffers = buff_free fd r.buffers })
  unfolding deliver msg_dispatcher hand_over
  deliver-whole b extra r s e small valid =
      let n : length (content b) ≡ length sent + 8 + length extra =
        ap length e ∙ omega (arith, length-append sent extra) in
      let size : word_at 0 b.buffer ≡ ret (length sent + 8) =
        word_at-content 0 b s (omega (arith, n))
        ∙ (ap (word_at 0) e ∙ size_word command sent extra (omega arith)) in
      let msg_type : word_at 4 b.buffer ≡ ret command =
        word_at-content 4 b s (omega (arith, n))
        ∙ (ap (word_at 4) e ∙ command_word command sent extra (ground arith)) in
      let body : slice 8 ((length sent + 8 + 2 ^ 32 - 8) % 2 ^ 32) b.buffer ≡ some sent =
        ap (λ i. slice 8 i b.buffer) {y = length sent} (omega arith)
        ∙ (slice-content 8 (length sent) b s (omega (arith, n))
            ∙ (ap (slice 8 (length sent)) e ∙ data_part command sent extra)) in
      let not_part : is_part b.index (length sent + 8) ≡ false =
        rw s.index_is (ground (arith, n, length-content b s)) in
      rw size (rw not_part (rw msg_type (rw valid (rw body refl))))
