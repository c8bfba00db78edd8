-- ===== src/Mapping/Defects.antt =====
-- Where `map_add`, `map_del` and `map_check` go wrong.
use open_dax.Base.{
  ℕ, zero, suc, ◌+◌, ◌*◌, ◌<◌, ◌≤◌, ◌≡◌, refl, ap, ◌∙◌, true, false, Bool-cases, inl, inr, ltb,
  ◌==◌, eq→==, ==-self, if◌then◌else◌, List, [], ◌∷◌, ◌++◌, Option, none, some, get_elem?-ge,
  get_elem?-of_lt, set, length, length-set, length-replicate, replicate, ok, fault, ◌>>=◌, ◌>>◌,
  run, Result, ret, crash, and_then, or_crash, arith,
}
use open_dax.Base.Int.{ℤ}
use open_dax.Base.Bits.{set_bit}
use open_dax.Memory.{Block, byte_at}
use open_dax.Types.{dax_bool}
use open_dax.Server.{Handle, DataMap, Tag, Server, tag_at, set_tag, attr_mapping}
use open_dax.Store.{at_tag}
use open_dax.Mapping.{
  raise, next_byte, next_bit, mask_bits, new_mask, check_map, find_same, add_map, map_add,
  after_map, find_map, del_map, keep_maps, map_del,
}
use open_dax.Mapping.Bits.{not_wide, step_place, step_small}

-- The loop for the mask leaves it if the mask is too short for the bits.
mask_bits-overflow :
    (n p i b : ℕ) (mask : Block)
    → p ≡ 8 * i + b
    → b < 8
    → p ≤ 8 * length mask
    → 8 * length mask < p + n
    → mask_bits n i b mask ≡ crash
unfolding mask_bits
mask_bits-overflow zero p i b mask place small le over = absurd (omega arith)
mask_bits-overflow (suc n) p i b mask place small le over =
    let next = λ (x : ℕ). mask_bits n (next_byte i b) (next_bit b) (set mask i (raise x b)) in
    (λ j. and_then (if not_wide b small j then crash else byte_at mask i) next)
    ∙ elim (Bool-cases (ltb i (length mask))) [
      | inl inside ↦
          let (x, at) = get_elem?-of_lt mask i (ground (arith, inside)) in
          (λ j. and_then (or_crash (at j)) next)
          ∙ mask_bits-overflow n (p + 1) (next_byte i b) (next_bit b) (set mask i (raise x b))
              (step_place p i b place small) (step_small b small)
              (ground (arith, length-set mask i (raise x b), inside))
              (omega (arith, length-set mask i (raise x b)))
      | inr outside ↦
          λ j. and_then (or_crash (get_elem?-ge mask i (ground (arith, outside)) j)) next
    ]

-- A defect: a mapping of BOOLs that `map_add` lets through, from a bit of the destination on with more
-- bits than the bytes of the source have from there, is written behind the end of its mask.
pub map_add-overflow :
    (src dest : Handle) (t u : Tag) (s : Server)
    → tag_at s src.index ≡ some t
    → tag_at s dest.index ≡ some u
    → check_map s src dest t u ≡ ret tt
    → find_same src dest t.mappings ≡ none
    → src.type ≡ dax_bool
    → dest.bit < 8
    → dest.bit ≤ 8 * src.size
    → 8 * src.size < dest.bit + src.count
    → map_add src dest s ≡ fault
unfolding map_add add_map new_mask
map_add-overflow src dest t u s at at' passed new bool small le over =
    let is_bool : (src.type == dax_bool) ≡ true = eq→== src.type dax_bool bool in
    let len = length-replicate {A = ℕ} src.size 0 in
    let f = λ (t u : Tag). λ (s : Server).
      (run (check_map s src dest t u) >> add_map src dest t (find_same src dest t.mappings)) s in
    let short : mask_bits src.count 0 dest.bit (replicate src.size 0) ≡ crash =
      mask_bits-overflow src.count dest.bit 0 dest.bit (replicate src.size 0) (omega arith) small
        (omega (arith, le, len)) (omega (arith, over, len)) in
    let no_mask : new_mask src dest ≡ crash =
      (λ j.
        if is_bool j
        then and_then (mask_bits src.count 0 dest.bit (replicate src.size 0))
            (λ mask. ret (some mask))
        else ret none)
      ∙ ap (λ r. and_then r (λ mask. ret (some mask))) short in
    ap (λ o. at_tag o (λ t. at_tag (tag_at s dest.index) (f t)) s) at
    ∙ ap (λ o. at_tag o (f t) s) at'
    ∙ ap (λ r. (run r >> add_map src dest t (find_same src dest t.mappings)) s) passed
    ∙ ap (λ o. add_map src dest t o s) new
    ∙ ap
        (λ r.
          (run r >>= (λ mask. λ s. ok t.nextmap (
              set_tag s src.index (record t {
                nextmap = t.nextmap + 1;
                mappings =
                    record { id = t.nextmap; source = src; dest = dest; mask = mask } ∷ t.mappings;
                attr = set_bit t.attr attr_mapping;
              }))))
            s)
        no_mask

after_map-skip :
    (id : ℕ) (ms ns : List DataMap)
    → find_map id ms ≡ none
    → after_map id (ms ++ ns) ≡ after_map id ns
unfolding after_map find_map
after_map-skip id [] ns h = refl
after_map-skip id (m ∷ ms) ns h = elim (Bool-cases (m.id == id)) [
  | inl e ↦ let h' : some m ≡ none = rw e at h in cc
  | inr e ↦ rw e (after_map-skip id ms ns (rw e at h))
]

-- A defect: `map_del` of a mapping that is not the first of its tag takes away the mappings between the
-- first and it, too.
pub map_del-drops :
    (index : ℤ) (t : Tag) (s : Server) (m x : DataMap) (between rest : List DataMap)
    → tag_at s index ≡ some t
    → t.mappings ≡ m ∷ (between ++ (x ∷ rest))
    → (m.id == x.id) ≡ false
    → find_map x.id between ≡ none
    → map_del index x.id s ≡ ok tt (set_tag s index (record t { mappings = m ∷ rest }))
unfolding map_del del_map after_map keep_maps
map_del-drops index t s m x between rest at is ne skip =
    let cut : del_map x.id (m ∷ (between ++ (x ∷ rest))) ≡ ret (some (m ∷ rest)) =
      (λ j.
        if ne j
        then ret (some (between ++ (x ∷ rest)))
        else kept (after_map x.id (between ++ (x ∷ rest))))
      ∙ ap kept (after_map-skip x.id between (x ∷ rest) skip)
      ∙ ap kept found in
    ap (λ o. at_tag o (λ t. run (del_map x.id t.mappings) >>= keep_maps index t) s) at
    ∙ ap (λ ms. (run (del_map x.id ms) >>= keep_maps index t) s) is
    ∙ ap (λ r. (run r >>= keep_maps index t) s) cut
  where
    kept : Option (List DataMap) → Result (Option (List DataMap))
    kept o = elim o [ none ↦ ret none | some rest ↦ ret (some (m ∷ rest)) ]

    found : after_map x.id (x ∷ rest) ≡ some rest
    found =
        let e : (x.id == x.id) ≡ true = ==-self x.id in
        λ j. if e j then some rest else after_map x.id rest
