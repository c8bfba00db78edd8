-- ===== src/Tagbase/Override/Overlaid.antt =====
-- What `override_add` and `override_set` leave of the tag and of the server.
use open_dax.Base.{
  ℕ, ◌+◌, ◌<◌, ◌≡◌, ◌≢◌, sym, ◌∙◌, subst, Bool, true, false, some, length, get_elem?, ◌==◌,
  if◌then◌else◌, ok, ◌>>=◌, ◌>>◌, >>=-ok, >>-ok, run-ok, or_crash-ret, run, or_crash, arith,
  get_elem?-set_self, lt-of_get_elem?,
}
use open_dax.Base.Int.{ℤ, pos}
use open_dax.Base.Bits.{set_bit}
use open_dax.Base.Attrs.{clear_attr}
use open_dax.Memory.{Block, splice_int}
use open_dax.Event.{Floats}
use open_dax.Server.{Tag, Server, M, has, tag_at, set_tag, attr_ovr_set, attr_override}
use open_dax.Tagbase.{write_counter}
use open_dax.Tagbase.Override.{
  change_attr, index_ovrd_installed, index_ovrd_set, within, over_size, block_of, count_override,
  put_override, override_add, override_set, raise_flag, lower_flag, one_less,
}
use open_dax.Tagbase.Override.Counted.{with_data-ok, Holding, change_attr-Holding, counted-Holding}

-- The tag with an override.
abbrev pub overridden : Tag → Block → Block → Tag
overridden t od om = record t {
  odata = some od;
  omask = some om;
  attr = set_bit t.attr attr_override;
}

module _ (i : ℕ) (floats : Floats) (t : Tag) where
  -- The tag was counted already, or is counted now.
  count_override-Holding :
      (t₁ : Tag) (s s' : Server)
      → index_ovrd_installed ≢ pos i
      → get_elem? s.db i ≡ some t₁
      → (count_override floats (pos i) t >> change_attr (pos i) (λ a. set_bit a attr_override)) s
        ≡ ok tt s'
      → Holding i s (record t₁ { attr = set_bit t₁.attr attr_override }) s'
  unfolding count_override
  count_override-Holding t₁ s s' ne at h = go (has t attr_override) h
    where
      s₁ : Server
      s₁ = record s { ovrdinstalled = s.ovrdinstalled + 1 }

      go :
          (b : Bool)
          → ((λ (s : Server).
                  if b
                  then ok tt s
                  else write_counter floats index_ovrd_installed
                      (s.ovrdinstalled + 1)
                      (record s { ovrdinstalled = s.ovrdinstalled + 1 }))
                >> change_attr (pos i) (λ a. set_bit a attr_override))
              s
            ≡ ok tt s'
          → Holding i s (record t₁ { attr = set_bit t₁.attr attr_override }) s'
      go true h = change_attr-Holding i (λ a. set_bit a attr_override) s s' t₁ at h
      go false h =
          counted-Holding i floats index_ovrd_installed (s.ovrdinstalled + 1)
            (λ a. set_bit a attr_override) s₁ s' t₁ ne at h

  module _ (offset : ℤ) (bytes mask : Block) where
    -- What `override_add` leaves.
    pub record Overlaid (s s' : Server) : Type 0 where
      pub odata : Block
      pub omask : Block
      pub over : Block
      pub under : Block
      pub data_put : splice_int offset bytes over ≡ some odata
      pub mask_put : splice_int offset mask under ≡ some omask
      pub holding : Holding i s (overridden t odata omask) s'

    put_override-Overlaid :
        (odata omask : Block) (room : ℤ) (s s' : Server)
        → index_ovrd_installed ≢ pos i
        → get_elem? s.db i ≡ some t
        → put_override floats (pos i) offset bytes mask t odata omask room s ≡ ok tt s'
        → Overlaid s s'
    unfolding put_override
    put_override-Overlaid odata omask room s s' ne at h =
        let s₁ = set_tag s (pos i) (record t { odata = some odata; omask = some omask }) in
        let last : M (Unit {0}) =
          count_override floats (pos i) t >> change_attr (pos i) (λ a. set_bit a attr_override) in
        let put = λ (od om : Block). λ (s : Server).
          last (set_tag s (pos i) (record t { odata = some od; omask = some om })) in
        let put_mask = λ (od : Block). run (or_crash (splice_int offset mask omask)) >>= put od in
        let put_data = run (or_crash (splice_int offset bytes odata)) >>= put_mask in
        let (s₂, e₂, h₂) = >>-ok (run (within room offset (length bytes))) put_data s₁ tt s' h in
        let (od, s₃, e₃, h₃) =
          >>=-ok (run (or_crash (splice_int offset bytes odata))) put_mask s₂ tt s' h₂ in
        let (om, s₄, e₄, h₄) =
          >>=-ok (run (or_crash (splice_int offset mask omask))) (put od) s₃ tt s' h₃ in
        let (w, same₂) = run-ok (within room offset (length bytes)) s₁ tt s₂ e₂ in
        let (d, same₃) = run-ok (or_crash (splice_int offset bytes odata)) s₂ od s₃ e₃ in
        let (m, same₄) = run-ok (or_crash (splice_int offset mask omask)) s₃ om s₄ e₄ in
        let t₂ : Tag = record t { odata = some od; omask = some om } in
        let h₅ : last (set_tag s₁ (pos i) t₂) ≡ ok tt s' =
          subst (λ s. put od om s ≡ ok tt s') (sym (same₂ ∙ same₃ ∙ same₄)) h₄ in
        let lt = lt-of_get_elem? s.db i t at in
        let (at', x, y) =
          count_override-Holding t₂ (set_tag s₁ (pos i) t₂) s' ne
            (get_elem?-set_self s₁.db i t₂ (
              lt-of_get_elem? s₁.db i _ (
                get_elem?-set_self s.db i (record t { odata = some odata; omask = some omask })
                  lt)))
            h₅ in
        record {
          odata = od;
          omask = om;
          over = odata;
          under = omask;
          data_put = or_crash-ret (splice_int offset bytes odata) od d;
          mask_put = or_crash-ret (splice_int offset mask omask) om m;
          holding = (at', x, y);
        }

    pub override_add-Overlaid :
        (data_at mask_at : ℕ → ℕ) (s s' : Server)
        → index_ovrd_installed ≢ pos i
        → tag_at s (pos i) ≡ some t
        → override_add floats data_at mask_at (pos i) offset bytes mask s ≡ ok tt s'
        → Overlaid s s'
    unfolding override_add
    override_add-Overlaid data_at mask_at s s' ne at h =
        let n = length bytes in
        let put = λ (room : ℤ). λ (odata omask : Block).
          put_override floats (pos i) offset bytes mask t odata omask room in
        let masks = λ (room : ℤ).
          λ (odata : Block). run (block_of mask_at room n t.odata t.omask) >>= put room odata in
        let blocks = λ (room : ℤ). run (block_of data_at room n t.odata t.odata) >>= masks room in
        let size : M ℤ = run (over_size s.datatypes t) in
        let h₀ : (size >>= blocks) s ≡ ok tt s' =
          with_data-ok (pos i)
            (λ t s.
              (run (over_size s.datatypes t) >>= (λ room.
                  run (block_of data_at room n t.odata t.odata) >>= (λ odata.
                    run (block_of mask_at room n t.odata t.omask) >>= (λ omask.
                      put_override floats (pos i) offset bytes mask t odata omask room))))
                s)
            s s' t tt at h in
        let (room, s₁, e₁, h₁) = >>=-ok size blocks s tt s' h₀ in
        let (odata, s₂, e₂, h₂) =
          >>=-ok (run (block_of data_at room n t.odata t.odata)) (masks room) s₁ tt s' h₁ in
        let (omask, s₃, e₃, h₃) =
          >>=-ok (run (block_of mask_at room n t.odata t.omask)) (put room odata) s₂ tt s' h₂ in
        let (_, same₁) = run-ok (over_size s.datatypes t) s room s₁ e₁ in
        let (_, same₂) = run-ok (block_of data_at room n t.odata t.odata) s₁ odata s₂ e₂ in
        let (_, same₃) = run-ok (block_of mask_at room n t.odata t.omask) s₂ omask s₃ e₃ in
        put_override-Overlaid odata omask room s s' ne at
          (subst (λ s. put room odata omask s ≡ ok tt s') (sym (same₁ ∙ same₂ ∙ same₃)) h₃)

module _ (i flag : ℕ) (floats : Floats) (s s' : Server) (t : Tag) (ne : index_ovrd_set ≢ pos i)
    (at : tag_at s (pos i) ≡ some t) (h : override_set floats (pos i) flag s ≡ ok tt s') where
  flagged :
      (if flag == 0 then lower_flag floats (pos i) t s else raise_flag floats (pos i) t t.odata s)
      ≡ ok tt s'
  unfolding override_set
  flagged =
      with_data-ok (pos i)
        (λ t s.
          if flag == 0
          then lower_flag floats (pos i) t s
          else raise_flag floats (pos i) t t.odata s)
        s s' t tt at h

  -- The flag of an override that is there, and was not set.
  pub raised-Holding :
      0 < flag
      → has t attr_ovr_set ≡ false
      → (b : Block) → t.odata ≡ some b
      → Holding i s (record t { attr = set_bit t.attr attr_ovr_set }) s'
  unfolding raise_flag
  raised-Holding up off b here =
      let raised : (flag == 0) ≡ false = ground arith in
      counted-Holding i floats index_ovrd_set (s.ovrdset + 1) (λ a. set_bit a attr_ovr_set)
        (record s { ovrdset = s.ovrdset + 1 }) s' t ne at
        (sym (
            (λ j.
              if raised j
              then lower_flag floats (pos i) t s
              else raise_flag floats (pos i) t (here j) s)
            ∙ (λ j.
                if off j
                then ok tt s
                else (write_counter floats index_ovrd_set (s.ovrdset + 1)
                      >> change_attr (pos i) (λ a. set_bit a attr_ovr_set))
                    (record s { ovrdset = s.ovrdset + 1 })))
          ∙ flagged)

  -- The flag of an override that was set.
  pub lowered-Holding :
      flag ≡ 0
      → has t attr_ovr_set ≡ true
      → Holding i s (record t { attr = clear_attr t.attr attr_ovr_set }) s'
  unfolding lower_flag
  lowered-Holding down on =
      let lowered : (flag == 0) ≡ true = ground arith in
      counted-Holding i floats index_ovrd_set (one_less s.ovrdset) (λ a. clear_attr a attr_ovr_set)
        (record s { ovrdset = one_less s.ovrdset }) s' t ne at
        (sym (
            (λ j.
              if lowered j
              then lower_flag floats (pos i) t s
              else raise_flag floats (pos i) t t.odata s)
            ∙ (λ j.
                if on j
                then (write_counter floats index_ovrd_set (one_less s.ovrdset)
                      >> change_attr (pos i) (λ a. clear_attr a attr_ovr_set))
                    (record s { ovrdset = one_less s.ovrdset })
                else ok tt s))
          ∙ flagged)
