-- ===== src/Store/Bounds.antt =====
-- The bounds of reads and writes, for blocks that are as long as their tags.
use open_dax.Base.{
  ℕ, suc, ◌+◌, ◌^◌, ◌<◌, ◌≤◌, ◌≡◌, refl, ap, ◌∙◌, List, some, arith, length, take, drop, leb,
  if◌then◌else◌, false, true, ok, err, fault, Error, Result, ret, fail, crash, run, and_then,
  Bool-cases, inl, inr, leb→le,
}
use open_dax.Base.Int.{ℤ, pos, negsuc, ltb_ℤ, ◌+ℤ◌, add_overflows}
use open_dax.Memory.{Block, slice_int}
use open_dax.Memory.Copies.{slice_int-inside}
use open_dax.Cdt.{Datatype}
use open_dax.Server.{Tag, Server, block, has, tag_at, attr_virtual, attr_ovr_set}
use open_dax.Store.{tag_get_size, check_size, tag_bytes, checked_bytes, stored_read, tag_read}
use open_dax.Store.Roundtrip.{tag_read-stored, stored_read-plain}

-- A tag of that many bytes, with a block of the same length, and no function or override over it.
pub record Plain (s : Server) (i : ℕ) (t : Tag) (b : Block) : Type 0 where
  pub at : tag_at s (pos i) ≡ some t
  pub plain : has t attr_virtual ≡ false
  pub no_override : has t attr_ovr_set ≡ false
  pub data_block : t.tag_data ≡ block b
  pub sized : tag_get_size s.datatypes t ≡ ret (pos (length b))

module _ (dts : List Datatype) (t : Tag) (n : ℕ) (sized : tag_get_size dts t ≡ ret (pos n)) where
  compared : ℤ → ℕ → Result ℤ → Result (Unit {0})
  compared offset size r =
      and_then r (λ room. if ltb_ℤ room (offset +ℤ pos size) then fail Error.too_big else ret tt)

  pub check_size-pos :
      (offset size : ℕ)
      → offset + size < 2 ^ 31
      → check_size dts t (pos offset) size
        ≡ (if leb (offset + size) n then ret tt else fail Error.too_big)
  unfolding check_size compared
  check_size-pos offset size h =
      let small : add_overflows (pos offset) (pos size) ≡ false = ground arith in
      (λ j. if small j then crash else compared (pos offset) size (sized j)) ∙ ground arith

  check_size-overflow :
      (offset size : ℕ) → 2 ^ 31 ≤ offset + size → check_size dts t (pos offset) size ≡ crash
  unfolding check_size compared
  check_size-overflow offset size h =
      let large : add_overflows (pos offset) (pos size) ≡ true = ground arith in
      (λ j. if large j then crash else compared (pos offset) size (sized j))

  pub check_size-negative :
      (k size : ℕ)
      → k < 2 ^ 31
      → size < 2 ^ 31
      → size ≤ n + suc k
      → check_size dts t (negsuc k) size ≡ ret tt
  unfolding check_size compared
  check_size-negative k size hk h le =
      let small : add_overflows (negsuc k) (pos size) ≡ false = ground arith in
      (λ j. if small j then crash else compared (negsuc k) size (sized j)) ∙ ground arith

module _ (s : Server) (i : ℕ) (t : Tag) (b : Block) (p : Plain s i t b) where
  checked :
      (offset : ℤ) (size : ℕ) (r : Result (Unit {0}))
      → check_size s.datatypes t offset size ≡ r
      → checked_bytes s.datatypes t offset size ≡ and_then r (λ _. ret b)
  unfolding checked_bytes tag_bytes
  checked offset size r e =
      (λ j. and_then (e j) (λ _. tag_bytes t.tag_data))
      ∙ (λ j. and_then r (λ _. tag_bytes (p.data_block j)))

  read-of :
      (fd offset : ℤ) (size : ℕ) (r : Result Block)
      → stored_read s.datatypes t offset size ≡ r
      → tag_read fd (pos i) offset size s ≡ run r s
  read-of fd offset size r e =
      tag_read-stored fd i offset size t s p.at p.plain ∙ ap (λ r. run r s) e

  refused :
      (offset : ℤ) (size : ℕ) (e : Error)
      → checked_bytes s.datatypes t offset size ≡ fail e
      → stored_read s.datatypes t offset size ≡ fail e
  unfolding stored_read
  refused offset size e c = rw c refl

  overflowed :
      (offset : ℤ) (size : ℕ)
      → checked_bytes s.datatypes t offset size ≡ crash
      → stored_read s.datatypes t offset size ≡ crash
  unfolding stored_read
  overflowed offset size c = rw c refl

  beyond :
      (k size : ℕ)
      → checked_bytes s.datatypes t (negsuc k) size ≡ ret b
      → stored_read s.datatypes t (negsuc k) size ≡ crash
  unfolding stored_read slice_int
  beyond k size c = rw c refl

  -- A read within the sums of an `int`.
  read_small :
      (fd : ℤ) (offset size : ℕ)
      → offset + size < 2 ^ 31
      → tag_read fd (pos i) (pos offset) size s ≡ (
          if leb (offset + size) (length b)
          then ok (take size (drop offset b)) s
          else err Error.too_big s)
  read_small fd offset size h =
      let c = check_size-pos s.datatypes t (length b) p.sized offset size h in
      elim (Bool-cases (leb (offset + size) (length b))) [
        | inl e ↦
            let c' : check_size s.datatypes t (pos offset) size ≡ ret tt = c ∙ rw e refl in
            read-of fd (pos offset) size (ret (take size (drop offset b))) (
              stored_read-plain s.datatypes t (pos offset) size b (take size (drop offset b))
                p.no_override (checked (pos offset) size (ret tt) c') (cut offset size e))
            ∙ (rw e refl)
        | inr e ↦
            let c' : check_size s.datatypes t (pos offset) size ≡ fail Error.too_big =
              c ∙ rw e refl in
            read-of fd (pos offset) size (fail Error.too_big) (
              refused (pos offset) size Error.too_big
                (checked (pos offset) size (fail Error.too_big) c'))
            ∙ (rw e refl)
      ]
    where
      cut :
          (offset size : ℕ)
          → leb (offset + size) (length b) ≡ true
          → slice_int (pos offset) (pos size) b ≡ some (take size (drop offset b))
      cut offset size e = slice_int-inside offset size b (leb→le (offset + size) (length b) e)

  -- For a tag that is not virtual, has no override set and has a block of its size: a read from a
  -- place that is not negative gives the bytes of that range if the range ends inside the block. Else
  -- it is refused as too big, but for a range whose end is no `int`, where the sum in the size check
  -- overflows, and the read is not defined.
  pub tag_read-bounds :
      (fd : ℤ) (offset size : ℕ)
      → tag_read fd (pos i) (pos offset) size s ≡ (
          if leb (2 ^ 31) (offset + size)
          then fault
          else if leb (offset + size) (length b)
          then ok (take size (drop offset b)) s
          else err Error.too_big s)
  tag_read-bounds fd offset size = elim (Bool-cases (leb (2 ^ 31) (offset + size))) [
    | inl e ↦
        let large : 2 ^ 31 ≤ offset + size = leb→le (2 ^ 31) (offset + size) e in
        read-of fd (pos offset) size crash (
          overflowed (pos offset) size (
            checked (pos offset) size crash
              (check_size-overflow s.datatypes t (length b) p.sized offset size large)))
        ∙ (rw e refl)
    | inr e ↦ read_small fd offset size (ground arith) ∙ (rw e refl)
  ]

  -- A read from a negative place that the size check lets through is not defined.
  pub tag_read-negative :
      (fd : ℤ) (k size : ℕ)
      → k < 2 ^ 31
      → size < 2 ^ 31
      → size ≤ length b + suc k
      → tag_read fd (pos i) (negsuc k) size s ≡ fault
  tag_read-negative fd k size hk hs le = read-of fd (negsuc k) size crash (
      beyond k size (
        checked (negsuc k) size (ret tt)
          (check_size-negative s.datatypes t (length b) p.sized k size hk hs le)))
