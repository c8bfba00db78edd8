-- ===== src/TagQueue/Inv.antt =====
-- The invariant of a queue: each pointer in use has an area of its own.
use native.Mathlib.Nat.{mod-eq_of_lt, mod-eq-sub-mod}
use native.Mathlib.Decide.{dec_lt, ℕ_discrete}
use open_dax.Base.{
  ℕ, zero, suc, ◌+◌, ◌-◌, ◌%◌, ◌≤◌, ◌<◌, ◌≡◌, ◌≢◌, refl, sym, ap, ◌∙◌, subst, ◌⊎◌, inl, inr, List,
  [], ◌∷◌, ◌++◌, some, arith, length, get_elem?, set, length-set, length-append, get_elem?-set_self,
  get_elem?-set_ne, replicate,
}
use open_dax.TagQueue.{start_queue_size, Slot, null, area, unset, TagQueue, new_queue}

-- `queue` holds `qsize` pointers, none of them unset; the pointers from `qread` on, round the end
-- of the array, are `qcount` areas; an area has one pointer to it, and `size` bytes.
pub record Inv (q : TagQueue) : Type 0 where
  pub whole : length q.queue ≡ q.qsize
  pub nonempty : 0 < q.qsize
  pub read_in : q.qread < q.qsize
  pub count_in : q.qcount ≤ q.qsize
  pub no_unset : (i : ℕ) → get_elem? q.queue i ≢ some unset
  pub used :
      (k : ℕ)
      → k < q.qcount
      → (a : ℕ) × (get_elem? q.queue ((q.qread + k) % q.qsize) ≡ some (area a))
  pub apart :
      (i j a : ℕ)
      → get_elem? q.queue i ≡ some (area a)
      → get_elem? q.queue j ≡ some (area a)
      → i ≡ j
  pub allocated : (i a : ℕ) → get_elem? q.queue i ≡ some (area a) → a < length q.areas

-- Going round once at most.
pub mod_cases : (a m : ℕ) → a < m + m → ((a < m) × (a % m ≡ a)) ⊎ ((m ≤ a) × (a % m ≡ a - m))
mod_cases a m h = elim (dec_lt a m) [
  | yes p ↦ inl (p, mod-eq_of_lt p)
  | no p ↦ inr (
    omega arith,
    mod-eq-sub-mod {n = a} {m = m} (omega arith) ∙ mod-eq_of_lt {n = a - m} {m = m} (omega arith),
  )
]

-- Within the array's size two steps from `r` meet at one place only if they are the same.
pub round_apart : (r m j k : ℕ) → r < m → j < m → k < m → (r + j) % m ≡ (r + k) % m → j ≡ k
round_apart r m j k hr hj hk e = ground (arith, mod_cases (r + j) m, mod_cases (r + k) m)

pub round-lt : (r m k : ℕ) → r < m → k < m → (r + k) % m < m
round-lt r m k hr hk = ground (arith, mod_cases (r + k) m)

all_null : (n i : ℕ) (s : Slot) → s ≢ null → get_elem? (replicate n null) i ≢ some s
all_null zero i s h e = cc
all_null (suc n) zero s h e = h (cc)
all_null (suc n) (suc i) s h e = all_null n i s h e

-- A new queue is empty and valid.
pub new_queue-Inv : (type count size : ℕ) → Inv (new_queue type count size)
unfolding new_queue
new_queue-Inv type count size = record {
  whole = refl;
  nonempty = omega arith;
  read_in = omega arith;
  count_in = omega arith;
  no_unset = λ i h. absurd (all_null start_queue_size i unset (λ e. cc) h);
  used = λ k h. absurd (omega arith);
  apart = λ i j a h h'. absurd (all_null start_queue_size i (area a) (λ e. cc) h);
  allocated = λ i a h. absurd (all_null start_queue_size i (area a) (λ e. cc) h);
}

module _ (q : TagQueue) (v : Inv q) (room : q.qcount < q.qsize) where
  abbrev pub next : ℕ
  next = (q.qread + q.qcount) % q.qsize

  pub next-lt : next < length q.queue
  next-lt = omega (arith, v.whole, round-lt q.qread q.qsize q.qcount v.read_in room)

  pub used-ne-next : (k : ℕ) → k < q.qcount → (q.qread + k) % q.qsize ≢ next
  used-ne-next k h e =
      let same = round_apart q.qread q.qsize k q.qcount v.read_in (omega arith) room e in
      omega arith

  -- The queue after a write into the area `a` that `next` has.
  abbrev pub reused : ℕ → List ℕ → TagQueue
  reused a bytes = record q { areas = set q.areas a bytes; qcount = q.qcount + 1 }

  -- The queue after a write into a new area.
  abbrev pub allocating : List ℕ → TagQueue
  allocating bytes = record q {
    queue = set q.queue next (area (length q.areas));
    areas = q.areas ++ (bytes ∷ []);
    qcount = q.qcount + 1;
  }

  pub reused-Inv :
      (a : ℕ) (bytes : List ℕ) → get_elem? q.queue next ≡ some (area a) → Inv (reused a bytes)
  reused-Inv a bytes at = record {
    whole = v.whole;
    nonempty = v.nonempty;
    read_in = v.read_in;
    count_in = omega arith;
    no_unset = v.no_unset;
    used = λ k h. elim (dec_lt k q.qcount) [
      | yes p ↦ v.used k p
      | no p ↦
          let last : k ≡ q.qcount = omega arith in
          (a, ap (λ j. get_elem? q.queue ((q.qread + j) % q.qsize)) last ∙ at)
    ];
    apart = v.apart;
    allocated = λ i b h. omega (arith, v.allocated i b h, length-set q.areas a bytes);
  }

  pub allocating-here :
      (bytes : List ℕ) → get_elem? (allocating bytes).queue next ≡ some (area (length q.areas))
  allocating-here bytes = get_elem?-set_self q.queue next (area (length q.areas)) next-lt

  pub allocating-there :
      (bytes : List ℕ) (i : ℕ)
      → i ≢ next
      → get_elem? (allocating bytes).queue i ≡ get_elem? q.queue i
  allocating-there bytes i h =
      get_elem?-set_ne q.queue next i (area (length q.areas)) (λ e. h (sym e))

  -- Each pointer of the new queue is the new area, at `next`, or an old pointer elsewhere.
  allocating-cases :
      (bytes : List ℕ) (i : ℕ) (s : Slot)
      → get_elem? (allocating bytes).queue i ≡ some s
      → ((i ≡ next) × (s ≡ area (length q.areas))) ⊎ (get_elem? q.queue i ≡ some s)
  allocating-cases bytes i s h = elim (ℕ_discrete i next) [
    | yes p ↦
        let e : get_elem? (allocating bytes).queue next ≡ some s =
          subst (λ j. get_elem? (allocating bytes).queue j ≡ some s) p h in
        let e' = allocating-here bytes in inl (p, cc)
    | no p ↦ inr (sym (allocating-there bytes i p) ∙ h)
  ]

  old-area : (i : ℕ) → get_elem? q.queue i ≢ some (area (length q.areas))
  old-area i h = let lt = v.allocated i (length q.areas) h in omega arith

  allocating-apart :
      (bytes : List ℕ) (i j a : ℕ)
      → get_elem? (allocating bytes).queue i ≡ some (area a)
      → get_elem? (allocating bytes).queue j ≡ some (area a)
      → i ≡ j
  allocating-apart bytes i j a hi hj =
      go (allocating-cases bytes i (area a) hi) (allocating-cases bytes j (area a) hj)
    where
      go :
          ((i ≡ next) × (area a ≡ area (length q.areas))) ⊎ (get_elem? q.queue i ≡ some (area a))
          → ((j ≡ next) × (area a ≡ area (length q.areas))) ⊎ (get_elem? q.queue j ≡ some (area a))
          → i ≡ j
      go (inl (p, _)) (inl (p', _)) = p ∙ sym p'
      go (inl (_, e)) (inr h) = absurd (old-area j (h ∙ ap some e))
      go (inr h) (inl (_, e)) = absurd (old-area i (h ∙ ap some e))
      go (inr h) (inr h') = v.apart i j a h h'

  pub allocating-Inv :
      (bytes : List ℕ) → get_elem? q.queue next ≡ some null → Inv (allocating bytes)
  allocating-Inv bytes at = record {
    whole = length-set q.queue next (area (length q.areas)) ∙ v.whole;
    nonempty = v.nonempty;
    read_in = v.read_in;
    count_in = omega arith;
    no_unset = λ i h. elim (allocating-cases bytes i unset h) [
      | inl (_, e) ↦ cc
      | inr old ↦ v.no_unset i old
    ];
    used = λ k h. elim (dec_lt k q.qcount) [
      | yes p ↦ let (a, e) = v.used k p in (a, allocating-there bytes _ (used-ne-next k p) ∙ e)
      | no p ↦
          let last : k ≡ q.qcount = omega arith in
          (
            length q.areas,
            ap (λ j. get_elem? (allocating bytes).queue ((q.qread + j) % q.qsize)) last
                ∙ allocating-here bytes,
          )
    ];
    apart = allocating-apart bytes;
    allocated = λ i b h. elim (allocating-cases bytes i (area b) h) [
      | inl (_, e) ↦
          let new : b ≡ length q.areas = cc in omega (arith, length-append q.areas (bytes ∷ []))
      | inr old ↦ omega (arith, v.allocated i b old, length-append q.areas (bytes ∷ []))
    ];
  }
