-- ===== src/Buffers/Freed.antt =====
-- What `buff_free` and `buff_freeall` of src/server/buffer.c leave.
use open_dax.Base.{
  ℕ, zero, suc, ◌+◌, ◌≡◌, ◌≢◌, refl, ap, sym, ◌∙◌, ◌⊎◌, subst, ◌&&◌, List, [], ◌∷◌, some, ltb,
  length, get_elem?, set, length-set, if◌then◌else◌, Bool-cases, inl, inr, arith,
}
use open_dax.Base.Int.{ℤ, pos, ltb_ℤ, equal_ℤ, equal_ℤ→eq}
use open_dax.Buffers.{BuffNode, released, buff_free, free_from, buff_freeall}
use open_dax.Buffers.Pending.{
  one-same, one-other, owners, pending, pending-none, pending-set, owners-set, IsSound, IsTidy,
  set-IsTidy,
}

-- `buff_free` finds no buffer, or releases the one that it finds.
buff_free-set :
    (fd : ℤ) (bs : List BuffNode)
    → ((owners fd bs ≡ 0) × (buff_free fd bs ≡ bs))
      ⊎ ((n : ℕ) × (b : BuffNode) × (get_elem? bs n ≡ some b)
          × (b.fd ≡ fd)
          × (buff_free fd bs ≡ set bs n (released b)))
unfolding owners buff_free
buff_free-set fd [] = inl (refl, refl)
buff_free-set fd (x ∷ xs) = elim (Bool-cases (equal_ℤ x.fd fd)) [
  | inl p ↦ inr (0, x, refl, equal_ℤ→eq x.fd fd p, rw p refl)
  | inr p ↦ elim (buff_free-set fd xs) [
    | inl (o, q) ↦ inl (rw p (omega (arith, o)), rw p (ap (◌∷◌ x) q))
    | inr (n, b, e, f, q) ↦ inr (suc n, b, e, f, rw p (ap (◌∷◌ x) q))
  ]
]

released-IsSound : (b : BuffNode) → IsSound b → IsSound (released b)
released-IsSound b s = record {
  used = 0;
  index_is = refl;
  fits = omega arith;
  whole = s.whole;
  free_empty = λ _. refl;
}

-- Nothing of a descriptor waits any more, and the others are as they were.
pub record Freed (fd : ℤ) (bs bs' : List BuffNode) : Type 0 where
  pub tidy : IsTidy bs'
  pub nothing : pending fd bs' ≡ []
  pub others : (g : ℤ) → g ≢ pos 0 → g ≢ fd → pending g bs' ≡ pending g bs
  pub as_many : length bs' ≡ length bs

-- `buff_free` of a descriptor that is not 0 empties its buffer, and leaves the others alone.
pub buff_free-Freed :
    (fd : ℤ) (bs : List BuffNode) → fd ≢ pos 0 → IsTidy bs → Freed fd bs (buff_free fd bs)
buff_free-Freed fd bs used t = elim (buff_free-set fd bs) [
  | inl (o, q) ↦
      rw q (record {
        tidy = t;
        nothing = pending-none fd bs o;
        others = λ g _ _. refl;
        as_many = refl;
      })
  | inr (n, b, e, f, q) ↦
      let c = released b in
      rw q (record {
        tidy =
            set-IsTidy bs n b c t e (released-IsSound b (t.sound n b e))
              (λ g z. omega (arith, t.single g z, one-other g c (λ p. z (sym p))));
        nothing = pending-none fd (set bs n c) (
            omega (
              arith,
              owners-set fd bs n b c e,
              one-same fd b f,
              one-other fd c (λ p. used (sym p)),
              t.single fd used,
            ));
        others = λ g z d. pending-set g bs n b c e (λ p. d (sym p ∙ f)) (λ p. z (sym p));
        as_many = length-set bs n c;
      })
]

-- All the buffers are free.
pub record AllFree (bs : List BuffNode) : Type 0 where
  pub tidy : IsTidy bs
  pub nothing : (fd : ℤ) → fd ≢ pos 0 → pending fd bs ≡ []

free_from-IsSound :
    (min : ℤ) (n : ℕ) (bs : List BuffNode)
    → ((i : ℕ) (b : BuffNode) → get_elem? bs i ≡ some b → IsSound b)
    → (i : ℕ) (b : BuffNode) → get_elem? (free_from min n bs) i ≡ some b
    → IsSound b
unfolding free_from
free_from-IsSound min n [] s i b e = cc
free_from-IsSound min n (x ∷ []) s i b e = elim (Bool-cases (ltb_ℤ min (pos (n + 1)) && ltb 0 n)) [
  | inl p ↦ let q : get_elem? {A = BuffNode} [] i ≡ some b = rw p at e in cc
  | inr p ↦ let q : get_elem? (released x ∷ []) i ≡ some b = rw p at e in only i q
]
  where
    only : (i : ℕ) → get_elem? (released x ∷ []) i ≡ some b → IsSound b
    only zero q = subst IsSound {x = released x} {y = b} (cc) (released-IsSound x (s 0 x refl))
    only (suc i) q = cc
free_from-IsSound min n (x ∷ y ∷ xs) s zero b e =
    subst IsSound {x = released x} {y = b} (cc) (released-IsSound x (s 0 x refl))
free_from-IsSound min n (x ∷ y ∷ xs) s (suc i) b e =
    free_from-IsSound min (n + 1) (y ∷ xs) (λ j. s (suc j)) i b e

free_from-owners :
    (min : ℤ) (fd : ℤ) (n : ℕ) (bs : List BuffNode)
    → fd ≢ pos 0
    → owners fd (free_from min n bs) ≡ 0
unfolding free_from owners
free_from-owners min fd n [] z = refl
free_from-owners min fd n (x ∷ []) z = elim (Bool-cases (ltb_ℤ min (pos (n + 1)) && ltb 0 n)) [
  | inl p ↦ rw p refl
  | inr p ↦ rw p (omega (arith, one-other fd (released x) (λ q. z (sym q))))
]
free_from-owners min fd n (x ∷ y ∷ xs) z =
    omega (
      arith,
      one-other fd (released x) (λ q. z (sym q)),
      free_from-owners min fd (n + 1) (y ∷ xs) z,
    )

free_from-length :
    (min : ℤ) (n : ℕ) (b : BuffNode) (bs : List BuffNode)
    → length (free_from min n (b ∷ bs)) ≡ (
        if ltb_ℤ min (pos (n + length (b ∷ bs))) && ltb 1 (n + length (b ∷ bs))
        then length bs
        else length (b ∷ bs))
unfolding free_from
free_from-length min n b [] = ground arith
free_from-length min n b (c ∷ bs) = ground (arith, free_from-length min (n + 1) c bs)

-- After `buff_freeall` all buffers are free, and it has freed the last one if there is more than one
-- and more than the least number of them.
pub buff_freeall-AllFree :
    (min : ℤ) (b : BuffNode) (bs : List BuffNode)
    → IsTidy (b ∷ bs)
    → AllFree (buff_freeall min (b ∷ bs))
      × (length (buff_freeall min (b ∷ bs)) ≡ (
          if ltb_ℤ min (pos (length (b ∷ bs))) && ltb 1 (length (b ∷ bs))
          then length bs
          else length (b ∷ bs)))
unfolding buff_freeall
buff_freeall-AllFree min b bs t = (
  record {
    tidy = record {
      sound = free_from-IsSound min 0 (b ∷ bs) t.sound;
      single = λ fd z. omega (arith, free_from-owners min fd 0 (b ∷ bs) z);
    };
    nothing =
        λ fd z. pending-none fd (free_from min 0 (b ∷ bs)) (free_from-owners min fd 0 (b ∷ bs) z);
  },
  ground (arith, free_from-length min 0 b bs),
)
