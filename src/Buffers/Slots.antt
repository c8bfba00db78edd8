-- ===== src/Buffers/Slots.antt =====
-- The buffer that `find_buff_slot` of src/server/buffer.c finds for a descriptor, and what
-- `buff_free` and `buff_freeall` leave.
use open_dax.Base.{
  ℕ, zero, suc, ◌+◌, ◌≤◌, ◌≡◌, ◌≢◌, refl, ap, sym, ◌∙◌, ◌⊎◌, subst, List, [], ◌∷◌, ◌++◌, none, some,
  length, get_elem?, set, Bool-cases, inl, inr, ret, arith, get_elem?-set_self, lt-of_get_elem?,
  get_elem?-append_right,
}
use open_dax.Base.Int.{ℤ, pos, equal_ℤ, equal_ℤ→eq}
use open_dax.Memory.{Block}
use open_dax.Store.Notify.{dax_msgmax}
use open_dax.Buffers.{
  BuffNode, new_buffnode, Found, mine, spare, full, scan, BuffSlot, claim, append_node,
  find_buff_slot,
}
use open_dax.Buffers.Search.{Absent, owners-Absent, Scanned, scan-Scanned}
use open_dax.Buffers.Pending.{
  one, owners, owners-append, content, pending, pending-none, pending-of, pending-set,
  pending-append, IsSound, IsTidy, set-IsTidy,
}

-- Which buffer it is: one of the descriptor, with the list as it was; where it has none, a free one,
-- which is then the descriptor's; and where none is free, one that is added at the end.
pub data Choice (fd : ℤ) (bs : List BuffNode) : BuffSlot → Type 0 where
  own :
      (n : ℕ) (b : BuffNode)
      → get_elem? bs n ≡ some b
      → b.fd ≡ fd
      → Choice fd bs (record { place = n; nodes = bs })
  free :
      (n : ℕ) (b : BuffNode)
      → Absent fd bs
      → get_elem? bs n ≡ some b
      → b.fd ≡ pos 0
      → Choice fd bs (record { place = n; nodes = set bs n (record b { fd = fd }) })
  added :
      (b : BuffNode)
      → Absent fd bs
      → Absent (pos 0) bs
      → Choice fd bs (record { place = length bs; nodes = bs ++ (b ∷ []) })

-- The slot is a buffer of the descriptor, chosen in that order, with what it waited with; the list is
-- tidy, and what others wait with is as before.
pub record Claims (fd : ℤ) (bs : List BuffNode) (slot : BuffSlot) : Type 0 where
  pub choice : Choice fd bs slot
  pub node : BuffNode
  pub found : get_elem? slot.nodes slot.place ≡ some node
  pub owned : node.fd ≡ fd
  pub holds : content node ≡ pending fd bs
  pub tidy : IsTidy slot.nodes
  pub others : (g : ℤ) → g ≢ pos 0 → g ≢ fd → pending g slot.nodes ≡ pending g bs

append-cases :
    (bs : List BuffNode) (b c : BuffNode) (i : ℕ)
    → get_elem? (bs ++ (b ∷ [])) i ≡ some c
    → (get_elem? bs i ≡ some c) ⊎ (b ≡ c)
append-cases [] b c zero p = inr (cc)
append-cases [] b c (suc i) p = cc
append-cases (x ∷ xs) b c zero p = inl p
append-cases (x ∷ xs) b c (suc i) p = append-cases xs b c i p

append-IsTidy :
    (bs : List BuffNode) (b : BuffNode)
    → IsTidy bs
    → IsSound b
    → ((fd : ℤ) → fd ≢ pos 0 → one fd b + owners fd bs ≤ 1)
    → IsTidy (bs ++ (b ∷ []))
unfolding owners
append-IsTidy bs b t s h = record {
  sound =
      λ i c p. elim (append-cases bs b c i p) [ inl q ↦ t.sound i c q | inr q ↦ subst IsSound q s ];
  single = λ fd z. omega (arith, owners-append fd bs (b ∷ []), h fd z);
}

content-free : (b : BuffNode) → IsSound b → b.fd ≡ pos 0 → content b ≡ []
content-free b s z = rw s.index_is (rw (s.free_empty z) refl)

module _ (unset : Block) (fd : ℤ) (bs : List BuffNode) (used : fd ≢ pos 0) (t : IsTidy bs) where
  mine-Claims :
      (n : ℕ) (b : BuffNode)
      → get_elem? bs n ≡ some b
      → b.fd ≡ fd
      → Claims fd bs (record { place = n; nodes = bs })
  mine-Claims n b e f = record {
    choice = own n b e f;
    node = b;
    found = e;
    owned = f;
    holds = sym (pending-of fd bs n b (t.single fd used) e f);
    tidy = t;
    others = λ g _ _. refl;
  }

  spare-Claims :
      (n : ℕ) (b : BuffNode)
      → get_elem? bs n ≡ some b
      → b.fd ≡ pos 0
      → owners fd bs ≡ 0
      → Claims fd bs (record { place = n; nodes = set bs n (record b { fd = fd }) })
  spare-Claims n b e z o =
      let b' : BuffNode = record b { fd = fd } in
      let s = t.sound n b e in
      record {
        choice = free n b (owners-Absent fd bs o) e z;
        node = b';
        found = get_elem?-set_self bs n b' (lt-of_get_elem? bs n b e);
        owned = refl;
        holds = content-free b s z ∙ sym (pending-none fd bs o);
        tidy =
            set-IsTidy bs n b b' t e
              (record {
                used = s.used;
                index_is = s.index_is;
                fits = s.fits;
                whole = s.whole;
                free_empty = λ p. absurd (used p);
              })
              (λ g z'. elim (Bool-cases (equal_ℤ fd g)) [
                | inl p ↦
                    let q : owners g bs ≡ 0 = subst (λ g. owners g bs ≡ 0) (equal_ℤ→eq fd g p) o in
                    ground arith
                | inr p ↦ let q : one g b' ≡ 0 = rw p refl in omega (arith, t.single g z')
              ]);
        others = λ g z' d. pending-set g bs n b b' e (λ p. z' (cc)) (λ p. d (sym p));
      }

  appended-Claims :
      length unset ≡ dax_msgmax
      → owners fd bs ≡ 0
      → owners (pos 0) bs ≡ 0
      → Claims fd bs (record {
        place = length bs;
        nodes = bs ++ (record (new_buffnode unset) { fd = fd } ∷ []);
      })
  appended-Claims whole o full_up =
      let b' : BuffNode = record (new_buffnode unset) { fd = fd } in
      let last : get_elem? (bs ++ (b' ∷ [])) (length bs) ≡ some b' =
        ap (get_elem? (bs ++ (b' ∷ []))) {x = length bs} {y = length bs + 0} (omega arith)
        ∙ get_elem?-append_right bs (b' ∷ []) 0 in
      record {
        choice = added b' (owners-Absent fd bs o) (owners-Absent (pos 0) bs full_up);
        node = b';
        found = last;
        owned = refl;
        holds = sym (pending-none fd bs o);
        tidy =
            append-IsTidy bs b' t
              (record {
                used = 0;
                index_is = refl;
                fits = omega arith;
                whole = whole;
                free_empty = λ p. absurd (used p);
              })
              (λ g z. elim (Bool-cases (equal_ℤ fd g)) [
                | inl p ↦
                    let q : owners g bs ≡ 0 = subst (λ g. owners g bs ≡ 0) (equal_ℤ→eq fd g p) o in
                    ground arith
                | inr p ↦ let q : one g b' ≡ 0 = rw p refl in omega (arith, t.single g z)
              ]);
        others = λ g z' d. pending-append g bs b' (λ p. d (sym p));
      }

-- For a descriptor that is not 0, a list that is tidy and not empty has a buffer, with the bytes that
-- the descriptor waits with: its own, else one that is free, else, where none is, one added at the
-- end. The list stays tidy, with no second buffer of a descriptor, and what others wait with is as
-- before.
pub find_buff_slot-Claims :
    (unset : Block) (fd : ℤ) (b : BuffNode) (bs : List BuffNode)
    → fd ≢ pos 0
    → length unset ≡ dax_msgmax
    → IsTidy (b ∷ bs)
    → (slot : BuffSlot) × (find_buff_slot unset fd (b ∷ bs) ≡ ret slot) × Claims fd (b ∷ bs) slot
unfolding find_buff_slot claim append_node
find_buff_slot-Claims unset fd b bs used whole t = go (scan fd none 0 (b ∷ bs)) (
    scan-Scanned fd (b ∷ bs) none 0 (b ∷ bs)
      (λ i. ap (get_elem? (b ∷ bs)) {x = 0 + i} {y = i} (omega arith)) refl refl)
  where
    go :
        (f : Found)
        → Scanned fd (b ∷ bs) f
        → (slot : BuffSlot) × ((elim f [
          | mine n ↦ ret (record { place = n; nodes = b ∷ bs })
          | spare n ↦ claim fd n (b ∷ bs)
          | full ↦ append_node unset fd (b ∷ bs)
        ])
            ≡ ret slot)
          × Claims fd (b ∷ bs) slot
    go (mine n) (c, e, f) = (_, refl, mine-Claims unset fd (b ∷ bs) used t n c e f)
    go (spare n) (c, e, z, o) = (_, rw e refl, spare-Claims unset fd (b ∷ bs) used t n c e z o)
    go full (o, z) = (_, refl, appended-Claims unset fd (b ∷ bs) used t whole o z)
