-- ===== src/Mapping/Followed.antt =====
-- What a mapping that `map_check` follows leaves in its destination.
use open_dax.Base.{
  ℕ, ◌+◌, ◌*◌, ◌<◌, ◌≤◌, ◌≡◌, ap, sym, ◌∙◌, subst, false, none, some, drop, length,
  length-replicate, replicate, ok, ret, run, run-ok, ◌>>=◌, >>=-ok, ◌>>◌, >>-ok, Result, crash,
  if◌then◌else◌, or_crash, or_crash-ret, arith,
}
use open_dax.Base.Int.{ℤ, pos, negsuc, signed}
use open_dax.Memory.{Block, slice}
use open_dax.Memory.Copies.{length-slice}
use open_dax.Memory.Flags.{flag}
use open_dax.Event.{Floats}
use open_dax.Server.{DataMap, Tag, Server, block, has, tag_at, attr_virtual, attr_ovr_set}
use open_dax.Store.{stored_read, tag_read, tag_write, tag_mask_write}
use open_dax.Store.Roundtrip.{tag_read-stored, tag_read-tag_write, stored_read-parts}
use open_dax.Store.Masking.{slice_int-length, tag_read-tag_mask_write}
use open_dax.Mapping.{mask_bits, overlaps, copy_map, copy_bytes, copy_bits}
use open_dax.Mapping.Bits.{Bytes, Raised, mask_bits-Raised}
use open_dax.Mapping.Moved.{move_bits-Moved}
use open_dax.Mapping.Copied.{BitsCopied, Masked-BitsCopied, Bytes-replicate, flag-drop}

-- The mapping stays within the tags: the bits it takes are in the source `b`, and those it gives in as
-- many bytes as the source has.
pub record InTags (m : DataMap) (b : Block) : Type 0 where
  pub from : m.source.bit < 8
  pub to : m.dest.bit < 8
  pub taken : m.source.bit + m.source.count ≤ 8 * length (drop m.source.byte b)
  pub given : m.dest.bit + m.source.count ≤ 8 * m.source.size

module _ (floats : Floats) (fd : ℤ) (i : ℕ) (m : DataMap) (b : Block) (u : Tag) (s s' : Server)
    (dest : m.dest.index ≡ pos i) (at : tag_at s (pos i) ≡ some u)
    (stored : has u attr_virtual ≡ false) (plain : has u attr_ovr_set ≡ false) where
  length-read :
      (offset : ℤ) (size : ℕ) (bytes : Block)
      → tag_read fd (pos i) offset size s ≡ ok bytes s
      → length bytes ≡ size
  length-read offset size bytes e =
      let (got, _) =
        run-ok (stored_read s.datatypes u offset size) s bytes s
          (sym (tag_read-stored fd i offset size u s at stored) ∙ e) in
      let (old, _, cut) = stored_read-parts s.datatypes u offset size bytes plain got in
      slice_int-length offset size old bytes cut

  -- A round of `map_check` for a mapping of bytes to a tag that is neither virtual nor overridden, if it
  -- succeeds: a read then gives the bytes of the source in the destination.
  pub copy_map-bytes :
      copy_map floats m none (block b) s ≡ ok tt s'
      → (bytes : Block) × (slice m.source.byte m.source.size b ≡ some bytes)
        × (tag_read fd (pos i) (signed 32 m.dest.byte) m.source.size s' ≡ ok bytes s')
  unfolding copy_map copy_bytes
  copy_map-bytes e =
      let clear : Result (Unit {0}) = if overlaps m then crash else ret tt in
      let write =
        λ (bytes : Block). tag_write floats (negsuc 0) m.dest.index (signed 32 m.dest.byte) bytes in
      let (bytes, s₁, e₁, e₂) =
        >>=-ok (run (or_crash (slice m.source.byte m.source.size b)))
          (λ bytes. write bytes >> run clear) s tt s' e in
      let (cut, same) = run-ok (or_crash (slice m.source.byte m.source.size b)) s bytes s₁ e₁ in
      let (s₂, e₃, e₄) = >>-ok (write bytes) (run clear) s₁ tt s' e₂ in
      let (_, there) = run-ok clear s₂ tt s' e₄ in
      let cut' = or_crash-ret (slice m.source.byte m.source.size b) bytes cut in
      let written : tag_write floats (negsuc 0) (pos i) (signed 32 m.dest.byte) bytes s ≡ ok tt s' =
        (λ j. tag_write floats (negsuc 0) (sym dest j) (signed 32 m.dest.byte) bytes (same j))
        ∙ e₃
        ∙ ap (ok tt) there in
      (
        bytes,
        cut',
        subst (λ n. tag_read fd (pos i) (signed 32 m.dest.byte) n s' ≡ ok bytes s')
            (length-slice m.source.byte m.source.size b bytes cut')
            (tag_read-tag_write floats (negsuc 0) fd i (signed 32 m.dest.byte) bytes u s s' at
              stored plain written),
      )

  -- The same for a mapping of bits with the mask that `map_add` makes: the bits of the source are then
  -- at their places in the destination, and the other bits of it are those that a read gave before.
  pub copy_map-bits :
      (mask : Block)
      → InTags m b
      → mask_bits m.source.count 0 m.dest.bit (replicate m.source.size 0) ≡ ret mask
      → copy_map floats m (some mask) (block b) s ≡ ok tt s'
      → (before : Block) × (after : Block) × (tag_read fd
            (pos i)
            (signed 32 m.dest.byte)
            m.source.size
            s
          ≡ ok before s)
        × (tag_read fd (pos i) (signed 32 m.dest.byte) m.source.size s' ≡ ok after s')
        × BitsCopied m.source.count
            (8 * m.source.byte + m.source.bit)
            m.dest.bit
            m.source.size
            b
            before
            after
  unfolding copy_map copy_bits
  copy_map-bits mask w made e =
      let n = m.source.count in
      let size = m.source.size in
      let src = drop m.source.byte b in
      let zeros : Block = replicate size 0 in
      let len = length-replicate {A = ℕ} size 0 in
      let (new, e_new, v) =
        move_bits-Moved n m.source.bit 0 m.source.bit m.dest.bit 0 m.dest.bit src zeros
          (omega arith) (omega arith) w.from w.to w.taken (omega (arith, w.given, len)) in
      let (mask', e_mask, r) =
        mask_bits-Raised n m.dest.bit 0 m.dest.bit zeros (omega arith) w.to
          (omega (arith, w.given, len)) in
      let same : ret mask' ≡ ret mask = sym e_mask ∙ made in
      let same' : mask' ≡ mask = cc in
      let write = λ (new : Block).
        tag_mask_write floats (negsuc 0) m.dest.index (signed 32 m.dest.byte) new mask in
      let written : tag_mask_write floats (negsuc 0) (pos i) (signed 32 m.dest.byte) new mask s
          ≡ ok tt s' =
        (λ j. tag_mask_write floats (negsuc 0) (sym dest j) (signed 32 m.dest.byte) new mask s)
        ∙ (sym (λ j. (run (e_new j) >>= write) s) ∙ e) in
      let (before, after, e_before, e_after, masked) =
        tag_read-tag_mask_write floats (negsuc 0) fd i (signed 32 m.dest.byte) new mask u s s' at
          stored plain written in
      let size' : length new ≡ size = v.size ∙ len in
      let here : tag_read fd (pos i) (signed 32 m.dest.byte) size s ≡ ok before s =
        subst (λ k. tag_read fd (pos i) (signed 32 m.dest.byte) k s ≡ ok before s) size' e_before in
      let c =
        Masked-BitsCopied n m.source.bit m.dest.bit size src before new mask after w.given
          (sym (length-read (signed 32 m.dest.byte) size before here))
          (subst (Raised n m.dest.bit zeros) same' r) v
          (subst Bytes same' (r.bytes (Bytes-replicate size))) masked in
      (
        before,
        after,
        here,
        subst (λ k. tag_read fd (pos i) (signed 32 m.dest.byte) k s' ≡ ok after s') size' e_after,
        record {
          copied = λ k h.
              c.copied k h
              ∙ flag-drop b m.source.byte (m.source.bit + k)
              ∙ ap (flag b) (omega arith);
          others = c.others;
        },
      )
