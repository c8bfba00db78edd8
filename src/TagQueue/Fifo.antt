-- ===== src/TagQueue/Fifo.antt =====
-- A valid queue is a first-in first-out list of entries, while it has room. A write into a full one
-- reads a pointer that `realloc` left unset.
use open_dax.Base.{
  ℕ, zero, suc, ◌+◌, ◌-◌, ◌*◌, ◌%◌, ◌<◌, ◌≡◌, refl, sym, ap, ap₂, ◌∙◌, List, [], ◌∷◌, ◌++◌, Option,
  some, arith, length, get_elem?, get_elem?-set_self, get_elem?-set_ne, get_elem?-append_left,
  get_elem?-append_right, get_elem?-of_lt, Outcome, ok, err, fault, Error, eq→==, ◌==◌,
  if◌then◌else◌, false, take, replicate, length-take,
}
use open_dax.Base.Int.{pos}
use open_dax.TagQueue.{
  Slot, null, area, unset, TagQueue, grow, put, put_next, write_queue, take_entry, advance,
  read_queue,
}
use open_dax.TagQueue.Inv.{
  Inv, mod_cases, next, next-lt, used-ne-next, reused, allocating, reused-Inv, allocating-here,
  allocating-there, allocating-Inv,
}

-- The bytes behind the pointer that is `k` after `qread`.
abbrev pub item : TagQueue → ℕ → Option (List ℕ)
item q k = take_entry q (get_elem? q.queue ((q.qread + k) % q.qsize))

-- `f` at `n` numbers from `k` on.
abbrev pub tabulate {ℓ} : {A : Type ℓ} → (ℕ → A) → ℕ → ℕ → List A
tabulate f zero k = []
tabulate f (suc n) k = f k ∷ tabulate f n (k + 1)

-- The entries, oldest first.
abbrev pub contents : TagQueue → List (Option (List ℕ))
contents q = tabulate (item q) q.qcount 0

module _ {ℓ} {A : Type ℓ} where
  tabulate-congr :
      (f g : ℕ → A) (n k : ℕ) → ((j : ℕ) → j < k + n → f j ≡ g j) → tabulate f n k ≡ tabulate g n k
  tabulate-congr f g zero k h = refl
  tabulate-congr f g (suc n) k h =
      λ i. h k (omega arith) i ∷ tabulate-congr f g n (k + 1) (λ j l. h j (omega arith)) i

  tabulate-snoc : (f : ℕ → A) (n k : ℕ) → tabulate f (suc n) k ≡ tabulate f n k ++ (f (k + n) ∷ [])
  tabulate-snoc f zero k = ap (λ j. f j ∷ []) (omega arith)
  tabulate-snoc f (suc n) k =
      ap (◌∷◌ (f k)) (tabulate-snoc f n (k + 1))
      ∙ ap (λ j. f k ∷ (tabulate f n (k + 1) ++ (f j ∷ []))) (omega arith)

  tabulate-shift :
      (f g : ℕ → A) (n k : ℕ)
      → ((j : ℕ) → j < k + n → f (j + 1) ≡ g j)
      → tabulate f n (k + 1) ≡ tabulate g n k
  tabulate-shift f g zero k h = refl
  tabulate-shift f g (suc n) k h =
      λ i. h k (omega arith) i ∷ tabulate-shift f g n (k + 1) (λ j l. h j (omega arith)) i

module _ (q : TagQueue) (v : Inv q) (room : q.qcount < q.qsize) (bytes : List ℕ) where
  -- A write into a valid queue with room returns a valid queue with the new entry at its end.
  abbrev pub Appended : Outcome TagQueue (Unit {0}) → Type 0
  Appended (ok _ q') = Inv q' × (contents q' ≡ contents q ++ (some bytes ∷ []))
  Appended (err e q') = ⊥
  Appended fault = ⊥

  contents-append :
      (q' : TagQueue)
      → q'.qcount ≡ q.qcount + 1
      → ((k : ℕ) → k < q.qcount → item q' k ≡ item q k)
      → item q' q.qcount ≡ some bytes
      → contents q' ≡ contents q ++ (some bytes ∷ [])
  contents-append q' count old new =
      ap (λ n. tabulate (item q') n 0) {x = q'.qcount} {y = suc q.qcount} (omega arith)
      ∙ tabulate-snoc (item q') q.qcount 0
      ∙ ap₂ (λ l x. l ++ (x ∷ []))
          (tabulate-congr (item q') (item q) q.qcount 0 (λ j h. old j (omega arith)))
          (ap (item q') (omega arith) ∙ new)

  put-Appended :
      (s : Slot)
      → get_elem? q.queue (next q v room) ≡ some s
      → Appended (put q (next q v room) bytes (some s))
  unfolding put take_entry
  put-Appended unset at = v.no_unset (next q v room) at
  put-Appended null at = (
    allocating-Inv q v room bytes at,
    contents-append q' refl
        (λ k h.
          let (b, e) = v.used k h in
          ap (take_entry q') (allocating-there q v room bytes _ (used-ne-next q v room k h) ∙ e)
          ∙ get_elem?-append_left q.areas (bytes ∷ []) b (v.allocated _ b e)
          ∙ sym (ap (take_entry q) e))
        (ap (take_entry q') (allocating-here q v room bytes)
          ∙ ap (get_elem? q'.areas) (omega arith)
          ∙ get_elem?-append_right q.areas (bytes ∷ []) 0),
  )
    where
      q' : TagQueue
      q' = allocating q v room bytes
  put-Appended (area a) at = (
    reused-Inv q v room a bytes at,
    contents-append q' refl
        (λ k h.
          let (b, e) = v.used k h in
          ap (take_entry q') e
          ∙ get_elem?-set_ne q.areas a b bytes (λ same.
            used-ne-next q v room k h (v.apart _ _ a (e ∙ ap (λ c. some (area c)) (sym same)) at))
          ∙ sym (ap (take_entry q) e))
        (ap (take_entry q') at ∙ get_elem?-set_self q.areas a bytes (v.allocated _ a at)),
  )
    where
      q' : TagQueue
      q' = reused q v room a bytes

  -- While there is room, writing an entry of the right size at offset 0 appends it.
  pub write_queue-Appended : length bytes ≡ q.size → Appended (write_queue q (pos 0) bytes)
  unfolding write_queue put_next
  write_queue-Appended sized =
      let (s, at) = get_elem?-of_lt q.queue (next q v room) (next-lt q v room) in
      let open_ : (q.qcount == q.qsize) ≡ false = ground arith in
      rw (eq→== (length bytes) q.size sized, open_, put_next, at) (put-Appended s at)

module _ (q : TagQueue) (v : Inv q) where
  -- A read takes the oldest entry off, and fails with ERR_EMPTY on the empty queue alone.
  abbrev pub Reads : List (Option (List ℕ)) → Outcome TagQueue (List ℕ) → Type 0
  Reads [] r = r ≡ err Error.empty q
  Reads (x ∷ rest) r =
      (bytes : List ℕ) × (q' : TagQueue) × (r ≡ ok bytes q')
      × (x ≡ some bytes)
      × (contents q' ≡ rest)
      × Inv q'

  step_round :
      (k : ℕ) → k + 1 < q.qsize → ((advance q).qread + k) % q.qsize ≡ (q.qread + (k + 1)) % q.qsize
  unfolding advance
  step_round k h = ground (
    arith,
    v.read_in,
    mod_cases ((if q.qread + 1 == q.qsize then 0 else q.qread + 1) + k) q.qsize,
    mod_cases (q.qread + (k + 1)) q.qsize,
  )

  advance-Inv : 0 < q.qcount → Inv (advance q)
  unfolding advance
  advance-Inv h = record {
    whole = v.whole;
    nonempty = v.nonempty;
    read_in = ground (arith, v.read_in, v.nonempty);
    count_in = omega (arith, v.count_in);
    no_unset = v.no_unset;
    used = λ k less.
        let (a, e) = v.used (k + 1) (omega arith) in
        (a, ap (get_elem? q.queue) (step_round k (omega (arith, v.count_in))) ∙ e);
    apart = v.apart;
    allocated = v.allocated;
  }

  -- A read of a valid queue takes its oldest entry off and keeps the queue valid; of an empty
  -- queue it fails with ERR_EMPTY and changes nothing.
  pub read_queue-Reads : Reads (contents q) (read_queue q)
  unfolding read_queue take_entry advance
  read_queue-Reads = go q.qcount refl
    where
      go : (n : ℕ) → q.qcount ≡ n → Reads (tabulate (item q) n 0) (read_queue q)
      go zero e = rw (eq→== q.qcount 0 e, read_queue)
      go (suc n) e =
          let (a, at) = v.used 0 (omega arith) in
          let inside = v.allocated _ a at in
          let (bytes, here) = get_elem?-of_lt q.areas a inside in
          let first : get_elem? q.queue q.qread ≡ some (area a) =
            ap (get_elem? q.queue) {x = q.qread} {y = (q.qread + 0) % q.qsize}
              (ground (arith, mod_cases (q.qread + 0) q.qsize, v.read_in))
            ∙ at in
          (
            bytes,
            advance q,
            ground (arith, first, here),
            ap (take_entry q) at ∙ here,
            ap (λ m. tabulate (item (advance q)) m 0) {x = (advance q).qcount} {y = n} (omega arith)
                ∙ sym (
                    tabulate-shift (item q) (item (advance q)) n 0 (λ j l.
                      ap (λ i. take_entry q (get_elem? q.queue i))
                        (sym (step_round j (omega (arith, v.count_in)))))),
            advance-Inv (omega arith),
          )

first_of_fill : (n : ℕ) → 0 < n → get_elem? (replicate n unset) 0 ≡ some unset
first_of_fill zero h = elim h [ ]
first_of_fill (suc n) h = refl

module _ (q : TagQueue) (v : Inv q) (bytes : List ℕ) where
  unset_next :
      q.qcount ≡ q.qsize
      → get_elem? (grow q).queue ((q.qread + q.qcount) % (q.qsize * 2)) ≡ some unset
  unfolding grow
  unset_next full =
      let room = q.qsize - q.qread in
      let fill = replicate room unset in
      let old = take q.qread q.queue in
      let place : (q.qread + q.qcount) % (q.qsize * 2) ≡ length q.queue + (length old + 0) =
        ground (
          arith,
          v.whole,
          v.read_in,
          length-take q.qread q.queue,
          mod_cases (q.qread + q.qcount) (q.qsize * 2),
        ) in
      ap (get_elem? (grow q).queue) place
      ∙ get_elem?-append_right q.queue (old ++ fill) (length old + 0)
      ∙ get_elem?-append_right old fill 0
      ∙ first_of_fill room (omega (arith, v.read_in))

  -- A defect: a write into a full queue, at any size, reads a pointer that `realloc` left unset.
  pub write_queue-full :
      q.qcount ≡ q.qsize → length bytes ≡ q.size → write_queue q (pos 0) bytes ≡ fault
  unfolding write_queue put_next put
  write_queue-full full sized =
      rw (eq→== (length bytes) q.size sized, eq→== q.qcount q.qsize full, write_queue)
        (ap (put (grow q) ((q.qread + q.qcount) % (q.qsize * 2)) bytes) (unset_next full))
