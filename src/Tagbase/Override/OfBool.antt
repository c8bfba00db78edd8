-- ===== src/Tagbase/Override/OfBool.antt =====
-- The first override of a BOOL tag.
use open_dax.Base.{
  ℕ, ◌<◌, ◌≡◌, refl, ap, ◌∙◌, true, List, ◌++◌, ◌*◌, ◌-◌, ltb, replicate, none, some, length,
  if◌then◌else◌, Error, err, fault, ◌>>=◌, ret, crash, run, arith,
}
use open_dax.Base.Int.{ℤ, pos, signed}
use open_dax.Memory.{Block}
use open_dax.Cdt.{Datatype, type_size, type_size_fuel, u32, checktype}
use open_dax.Types.{dax_bool, is_base}
use open_dax.Event.{Floats}
use open_dax.Server.{Tag, Server, tag_at}
use open_dax.Store.{at_tag, sized}
use open_dax.Tagbase.{is_data}
use open_dax.Tagbase.Add.{unset_bytes}
use open_dax.Tagbase.Override.{with_data, over_size, block_of, fresh, put_override, override_add}

type_size-bool : (dts : List Datatype) → type_size dts dax_bool ≡ ret 0
unfolding type_size type_size_fuel checktype is_base
type_size-bool dts = refl

over_size-bool : (dts : List Datatype) (t : Tag) → t.type ≡ dax_bool → over_size dts t ≡ ret (pos 0)
unfolding over_size sized
over_size-bool dts t e =
    (λ j. sized t.count (type_size dts (e j)))
    ∙ (λ j. sized t.count (type_size-bool dts j))
    ∙ ap (λ n. ret (signed 32 n)) zero_size
  where
    zero_size : u32 (0 * t.count) ≡ 0
    zero_size = omega arith

-- A defect: the first override of a BOOL tag, of one byte or more, clears bytes behind the end of its
-- block, which has the size of one BOOL, 0, by the count.
pub override_add-bool :
    (floats : Floats) (data_at mask_at : ℕ → ℕ) (idx offset : ℤ) (bytes mask : Block) (t : Tag)
    (s : Server)
    → tag_at s idx ≡ some t
    → is_data t.tag_data ≡ true
    → t.type ≡ dax_bool
    → t.odata ≡ none
    → 0 < length bytes
    → override_add floats data_at mask_at idx offset bytes mask s ≡ fault
unfolding override_add with_data block_of fresh
override_add-bool floats data_at mask_at idx offset bytes mask t s at alive bool new more =
    let n = length bytes in
    let masks = λ (room : ℤ). λ (odata : Block).
      run (block_of mask_at room n t.odata t.omask)
      >>= (λ omask. put_override floats idx offset bytes mask t odata omask room) in
    let g = λ (t : Tag) (s : Server).
      (run (over_size s.datatypes t) >>= (λ room.
          run (block_of data_at room (length bytes) t.odata t.odata) >>= (λ odata.
            run (block_of mask_at room (length bytes) t.odata t.omask)
            >>= (λ omask. put_override floats idx offset bytes mask t odata omask room))))
        s in
    let over : ltb 0 n ≡ true = ground arith in
    ap (λ o. at_tag o (λ t s. if is_data t.tag_data then g t s else err Error.deleted s) s) at
    ∙ (λ j. if alive j then g t s else err Error.deleted s)
    ∙ (λ j.
        (run (over_size-bool s.datatypes t bool j)
            >>= (λ room. run (block_of data_at room n t.odata t.odata) >>= masks room))
          s)
    ∙ (λ j. (run (block_of data_at (pos 0) n (new j) (new j)) >>= masks (pos 0)) s)
    ∙ (λ j.
        (run (if over j then crash else ret (replicate n 0 ++ unset_bytes data_at n (0 - n)))
            >>= masks (pos 0))
          s)
