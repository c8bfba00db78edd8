-- ===== src/Buffers/Received.antt =====
-- What `buff_read` of src/server/buffer.c does with the bytes that `read` returns.
use open_dax.Base.{
  ℕ, ◌+◌, ◌-◌, ◌%◌, ◌^◌, ◌≤◌, ◌<◌, ◌≡◌, ◌≢◌, refl, ap, sym, ◌∙◌, List, [], ◌∷◌, ◌++◌, Option, some,
  length, set, take, drop, ret, arith, length-append, length-take, get_elem?-set_self,
  lt-of_get_elem?,
}
use open_dax.Base.Int.{ℤ, pos}
use open_dax.Memory.{Block, splice}
use open_dax.Memory.Copies.{length-splice}
use open_dax.Memory.Prefix.{take-splice}
use open_dax.Server.{M}
use open_dax.Store.Notify.{dax_msgmax}
use open_dax.Buffers.{
  BuffNode, Message, Receiver, find_buff_slot, keep_received, read_into, deliver, read_node,
  buff_read,
}
use open_dax.Buffers.Pending.{
  one-fd, content, pending, pending-of, pending-set, IsSound, IsTidy, set-IsTidy,
}
use open_dax.Buffers.Slots.{Claims, find_buff_slot-Claims}

-- The number of bytes that `buff_read` asks for.
asked : (i : ℕ) → i ≤ 4096 → (dax_msgmax + 2 ^ 32 - i) % 2 ^ 32 ≡ dax_msgmax - i
asked i h = omega arith

-- A buffer with these bytes more.
pub record Kept (b : BuffNode) (bytes : Block) (b' : BuffNode) : Type 0 where
  pub sound : IsSound b'
  pub same_fd : b'.fd ≡ b.fd
  pub held : content b' ≡ content b ++ bytes
  pub counted : b'.index ≡ pos (length (content b ++ bytes))

splice-inside :
    (offset : ℕ) (bytes block : Block)
    → offset + length bytes ≤ length block
    → splice offset bytes block
      ≡ some (take offset block ++ (bytes ++ drop (offset + length bytes) block))
unfolding splice
splice-inside offset bytes block h = ground arith

pub length-content : (b : BuffNode) (s : IsSound b) → length (content b) ≡ s.used
length-content b s = rw s.index_is (omega (arith, length-take s.used b.buffer, s.whole, s.fits))

keep_received-Kept :
    (b : BuffNode) (bytes : Block) (s : IsSound b)
    → b.fd ≢ pos 0
    → 0 < length bytes
    → s.used + length bytes ≤ dax_msgmax
    → (b' : BuffNode) × (keep_received b s.used (some bytes) ≡ ret b') × Kept b bytes b'
unfolding keep_received
keep_received-Kept b [] s used h k = absurd (omega arith)
keep_received-Kept b (x ∷ xs) s used h k =
    let bytes = x ∷ xs in
    let block' = take s.used b.buffer ++ (bytes ++ drop (s.used + length bytes) b.buffer) in
    let e = splice-inside s.used bytes b.buffer (omega (arith, s.whole)) in
    (
      record b { index = pos (s.used + length bytes); buffer = block' },
      rw e refl,
      record {
        sound = record {
          used = s.used + length bytes;
          index_is = refl;
          fits = k;
          whole = length-splice s.used bytes b.buffer block' e ∙ s.whole;
          free_empty = λ z. absurd (used z);
        };
        same_fd = refl;
        held = rw s.index_is (take-splice s.used bytes b.buffer block' e);
        counted = ap pos (omega (arith, length-append (content b) bytes, length-content b s));
      },
    )

pub read_into-Kept :
    (read : ℕ → Option Block) (b : BuffNode) (bytes : Block)
    → IsSound b
    → b.fd ≢ pos 0
    → read (dax_msgmax - length (content b)) ≡ some bytes
    → 0 < length bytes
    → length (content b) + length bytes ≤ dax_msgmax
    → (b' : BuffNode) × (read_into read b b.index ≡ ret b') × Kept b bytes b'
unfolding read_into
read_into-Kept read b bytes s used r h k =
    let n = length-content b s in
    let (b', e, kept) = keep_received-Kept b bytes s used h (omega (arith, n)) in
    let r' : read ((dax_msgmax + 2 ^ 32 - s.used) % 2 ^ 32) ≡ some bytes =
      ap read (asked s.used s.fits ∙ ap (λ i. dax_msgmax - i) (sym n)) ∙ r in
    (b', ap (read_into read b) s.index_is ∙ (ap (keep_received b s.used) r' ∙ e), kept)

-- The list of buffers has these bytes more of a descriptor, in its buffer `node`.
pub record Gains (fd : ℤ) (bytes : Block) (bs bs' : List BuffNode) (node : BuffNode) : Type 0 where
  pub tidy : IsTidy bs'
  pub owned : node.fd ≡ fd
  pub node_sound : IsSound node
  pub counted : node.index ≡ pos (length (pending fd bs'))
  pub held : content node ≡ pending fd bs'
  pub grown : pending fd bs' ≡ pending fd bs ++ bytes
  pub others : (g : ℤ) → g ≢ pos 0 → g ≢ fd → pending g bs' ≡ pending g bs
  pub some_left : 0 < length bs'

module _ (cmd_arr : Message → M (Unit {0})) (unset : Block) (read : ℕ → Option Block) (fd : ℤ)
    (used : fd ≢ pos 0) (whole : length unset ≡ dax_msgmax) where
  -- `buff_read` comes to `deliver`, with the bytes in the descriptor's buffer.
  pub buff_read-Gains :
      (r : Receiver) (bytes : Block)
      → 0 < length r.buffers
      → IsTidy r.buffers
      → read (dax_msgmax - length (pending fd r.buffers)) ≡ some bytes
      → 0 < length bytes
      → length (pending fd r.buffers) + length bytes ≤ dax_msgmax
      → (bs : List BuffNode) × (node : BuffNode) × (buff_read cmd_arr unset read fd r
          ≡ deliver cmd_arr fd node (record r { buffers = bs }))
        × Gains fd bytes r.buffers bs node
  unfolding buff_read read_node
  buff_read-Gains r bytes some_buffer t e h k =
      let (slot, f, c) = found r.buffers some_buffer t in
      let s = c.tidy.sound slot.place c.node c.found in
      let n : length (content c.node) ≡ length (pending fd r.buffers) = ap length c.holds in
      let (b', g, kept) =
        read_into-Kept read c.node bytes s (λ z. used (sym c.owned ∙ z))
          (ap (λ i. read (dax_msgmax - i)) n ∙ e) h (omega (arith, n)) in
      let owner : b'.fd ≡ fd = kept.same_fd ∙ c.owned in
      let bs = set slot.nodes slot.place b' in
      let t' : IsTidy bs =
        set-IsTidy slot.nodes slot.place c.node b' c.tidy c.found kept.sound
          (λ fd' z. omega (arith, c.tidy.single fd' z, one-fd fd' b' c.node kept.same_fd)) in
      let at_place =
        get_elem?-set_self slot.nodes slot.place b'
          (lt-of_get_elem? slot.nodes slot.place c.node c.found) in
      let here : pending fd bs ≡ content b' =
        pending-of fd bs slot.place b' (t'.single fd used) at_place owner in
      let grown : pending fd bs ≡ pending fd r.buffers ++ bytes =
        here ∙ (kept.held ∙ ap (λ p. p ++ bytes) c.holds) in
      (
        bs,
        b',
        rw f (rw c.found (rw g refl)),
        record {
          tidy = t';
          owned = owner;
          node_sound = kept.sound;
          counted = kept.counted ∙ ap (λ p. pos (length p)) (sym kept.held ∙ sym here);
          held = sym here;
          grown = grown;
          others = λ g' z d.
              pending-set g' slot.nodes slot.place c.node b' c.found (λ p. d (sym p ∙ c.owned))
                (λ p. d (sym p ∙ owner))
              ∙ c.others g' z d;
          some_left = omega (arith, lt-of_get_elem? bs slot.place b' at_place);
        },
      )
    where
      found :
          (bs : List BuffNode)
          → 0 < length bs
          → IsTidy bs
          → (slot : _) × (find_buff_slot unset fd bs ≡ ret slot) × Claims fd bs slot
      found [] h t = absurd (omega arith)
      found (b ∷ bs) h t = find_buff_slot-Claims unset fd b bs used whole t
