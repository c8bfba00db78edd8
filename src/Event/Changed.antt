-- ===== src/Event/Changed.antt =====
-- When `_event_change` fires on bytes, and what it notes.
use open_dax.Base.{
  ℕ, zero, suc, ◌+◌, ◌-◌, ◌<◌, ◌≤◌, ◌≡◌, ◌≢◌, ◌⊎◌, inl, inr, refl, ap, sym, ◌∙◌, subst, Bool, true,
  false, not, ◌||◌, ◌==◌, ==→eq, eq→==, if◌then◌else◌, Bool-cases, some, length, get_elem?, set,
  arith, leb, ltb, ret, and_then, or_crash, get_elem?-of_lt, get_elem?-set_self, get_elem?-set_ne,
  length-set,
}
use open_dax.Memory.{Block}
use open_dax.Types.{dax_bool}
use open_dax.Event.{Event}
use open_dax.Event.Bits.{Verdict, change_loop, change, shared, shared_from}

-- The `n` bytes of `test` from `i` on, and those of `dat` from `j` on, are the same.
abbrev pub Agree : ℕ → ℕ → ℕ → Block → Block → Type 0
Agree n i j test dat = (k : ℕ) → k < n → get_elem? test (i + k) ≡ get_elem? dat (j + k)

-- The verdict fires unless those bytes agree, or if it was to fire before; and its test block agrees
-- with the data there, and is `test` elsewhere.
pub record Noted (n i j : ℕ) (test dat : Block) (hit : Bool) (r : Verdict) : Type 0 where
  pub fires : Bool
  pub noted : Block
  pub returns : r ≡ ret (fires, noted)
  pub copied : Agree n i j noted dat
  pub kept : (k : ℕ) → (k < i) ⊎ (i + n ≤ k) → get_elem? noted k ≡ get_elem? test k
  pub quiet : fires ≡ false → (hit ≡ false) × Agree n i j test dat
  pub loud : Agree n i j test dat → fires ≡ hit

-- The test block after a round of the loop.
abbrev next : ℕ → ℕ → ℕ → Block → Block
next i x y test = if x == y then test else set test i y

length-next : (i x y : ℕ) (test : Block) → length (next i x y test) ≡ length test
length-next i x y test = elim (Bool-cases (x == y)) [
  | inl e ↦ rw e refl
  | inr e ↦ rw e (length-set test i y)
]

module _ (n i j x y : ℕ) (test dat : Block) (hit : Bool) (atx : get_elem? test i ≡ some x)
    (aty : get_elem? dat j ≡ some y) (inside : i < length test) where
  next-here : get_elem? (next i x y test) i ≡ some y
  next-here = elim (Bool-cases (x == y)) [
    | inl e ↦ rw e (atx ∙ ap some (==→eq x y e))
    | inr e ↦ rw e (get_elem?-set_self test i y inside)
  ]

  next-there : (k : ℕ) → i ≢ k → get_elem? (next i x y test) k ≡ get_elem? test k
  next-there k ne = elim (Bool-cases (x == y)) [
    | inl e ↦ rw e refl
    | inr e ↦ rw e (get_elem?-set_ne test i k y ne)
  ]

  -- The bytes behind `i` agree as they did before the round.
  later : (k : ℕ) → get_elem? (next i x y test) (i + 1 + k) ≡ get_elem? test (i + suc k)
  later k = next-there (i + 1 + k) (λ e. absurd (omega arith)) ∙ ap (get_elem? test) (omega arith)

  first : i + 0 ≡ i
  first = omega arith

  module _ (r : Verdict)
      (v : Noted n (i + 1) (j + 1) (next i x y test) dat (hit || not (x == y)) r) where
    first_byte : Agree (suc n) i j test dat → (x == y) ≡ true
    first_byte a =
        let same : some x ≡ some y =
          sym atx
          ∙ ap (get_elem? test) (omega arith)
          ∙ a 0 (omega arith)
          ∙ ap (get_elem? dat) (omega arith)
          ∙ aty in
        eq→== x y (cc)

    round-Noted : Noted (suc n) i j test dat hit r
    round-Noted = record {
      fires = v.fires;
      noted = v.noted;
      returns = v.returns;
      copied = copied;
      kept = kept;
      quiet = λ e. (unfired (v.quiet e).0, agree (v.quiet e).0 (v.quiet e).1);
      loud = λ a.
          v.loud (λ k h. later k ∙ a (suc k) (omega arith) ∙ ap (get_elem? dat) (omega arith))
          ∙ (λ l. hit || not (first_byte a l))
          ∙ or_false hit;
    }
      where
        or_false : (b : Bool) → (b || false) ≡ b
        or_false true = refl
        or_false false = refl

        unfired : (hit || not (x == y)) ≡ false → hit ≡ false
        unfired e = elim (Bool-cases hit) [
          | inl t ↦ let e' : true ≡ false = sym (λ l. t l || not (x == y)) ∙ e in cc
          | inr f ↦ f
        ]

        copied : Agree (suc n) i j v.noted dat
        copied zero h =
            ap (get_elem? v.noted) first
            ∙ v.kept i (inl (omega arith))
            ∙ next-here
            ∙ sym aty
            ∙ ap (get_elem? dat) (omega arith)
        copied (suc k) h =
            ap (get_elem? v.noted) {y = i + 1 + k} (omega arith)
            ∙ v.copied k (omega arith)
            ∙ ap (get_elem? dat) (omega arith)

        kept : (k : ℕ) → (k < i) ⊎ (i + suc n ≤ k) → get_elem? v.noted k ≡ get_elem? test k
        kept k (inl b) = v.kept k (inl (omega arith)) ∙ next-there k (λ e. absurd (omega arith))
        kept k (inr b) = v.kept k (inr (omega arith)) ∙ next-there k (λ e. absurd (omega arith))

        same_byte : (hit || not (x == y)) ≡ false → x ≡ y
        same_byte e = ==→eq x y (ground arith)

        agree :
            (hit || not (x == y)) ≡ false
            → Agree n (i + 1) (j + 1) (next i x y test) dat
            → Agree (suc n) i j test dat
        agree e a zero h =
            ap (get_elem? test) first
            ∙ atx
            ∙ ap some (same_byte e)
            ∙ sym aty
            ∙ ap (get_elem? dat) (omega arith)
        agree e a (suc k) h = sym (later k) ∙ a k (omega arith) ∙ ap (get_elem? dat) (omega arith)

change_loop-Noted :
    (n i j : ℕ) (test dat : Block) (hit : Bool)
    → i + n ≤ length test
    → j + n ≤ length dat
    → Noted n i j test dat hit (change_loop n i j test dat hit)
unfolding change_loop
change_loop-Noted zero i j test dat hit p q = record {
  fires = hit;
  noted = test;
  returns = refl;
  copied = λ k h. elim h [ ];
  kept = λ k h. refl;
  quiet = λ e. (e, λ k h. elim h [ ]);
  loud = λ a. refl;
}
change_loop-Noted (suc n) i j test dat hit p q =
    let (x, atx) = get_elem?-of_lt test i (omega arith) in
    let (y, aty) = get_elem?-of_lt dat j (omega arith) in
    let r = change_loop n (i + 1) (j + 1) (next i x y test) dat (hit || not (x == y)) in
    let v =
      change_loop-Noted n (i + 1) (j + 1) (next i x y test) dat (hit || not (x == y))
        (omega (arith, length-next i x y test)) (omega arith) in
    subst (Noted (suc n) i j test dat hit)
      (sym (λ l. and_then (or_crash (atx l)) (λ x. and_then (or_crash (aty l)) (λ y.
        change_loop n (i + 1) (j + 1) (if x == y then test else set test i y) dat
          (hit || not (x == y))))))
      (round-Noted n i j x y test dat hit atx aty (omega arith) r v)

-- The byte at place `p` of a tag is one of the event's, and one that the write has written.
abbrev pub Covered : Event → ℕ → ℕ → ℕ → Type 0
Covered e offset size p = (e.byte ≤ p) × (p < e.byte + e.size) × (offset ≤ p) × (p < offset + size)

-- The byte of a block of notes that is kept for place `p` of the tag is the one in the data.
abbrev pub SameNote : Event → Block → Block → ℕ → Type 0
SameNote e notes dat p = get_elem? notes (p - e.byte) ≡ get_elem? dat p

-- The verdict fires unless the bytes that both cover are as they were noted. The new notes are the
-- data's for these bytes, and the old ones elsewhere.
pub record NotedBy (e : Event) (dat : Block) (offset size : ℕ) (r : Verdict) : Type 0 where
  pub fires : Bool
  pub noted : Block
  pub returns : r ≡ ret (fires, noted)
  pub copied : (p : ℕ) → Covered e offset size p → SameNote e noted dat p
  pub kept : (k : ℕ) → ¬ Covered e offset size (e.byte + k) → get_elem? noted k ≡ get_elem? e.test k
  pub quiet : fires ≡ false → (p : ℕ) → Covered e offset size p → SameNote e e.test dat p
  pub loud : ((p : ℕ) → Covered e offset size p → SameNote e e.test dat p) → fires ≡ false

module _ (e : Event) (offset size : ℕ) (after : offset < e.byte + e.size)
    (before : e.byte < offset + size) where
  -- The bytes that both cover, as the loop counts them.
  counted :
      (notes dat : Block)
      → ((p : ℕ) → Covered e offset size p → SameNote e notes dat p)
      → Agree (shared e offset size) (offset - e.byte) (shared_from e offset) notes dat
  counted notes dat same k h =
      ap (get_elem? notes) (ground arith)
      ∙ same (shared_from e offset + k) (ground arith, ground arith, ground arith, ground arith)

  placed :
      (notes dat : Block)
      → Agree (shared e offset size) (offset - e.byte) (shared_from e offset) notes dat
      → (p : ℕ) → Covered e offset size p
      → SameNote e notes dat p
  placed notes dat agree p (a, b, c, d) =
      let k = p - shared_from e offset in
      ap (get_elem? notes) (ground arith)
      ∙ agree k (ground arith)
      ∙ ap (get_elem? dat) (ground arith)

  outside :
      (k : ℕ)
      → ¬ Covered e offset size (e.byte + k)
      → (k < offset - e.byte) ⊎ (offset - e.byte + shared e offset size ≤ k)
  outside k not_covered = elim (Bool-cases (ltb k (offset - e.byte))) [
    | inl p ↦ inl (ground arith)
    | inr p ↦ elim (Bool-cases (leb (offset - e.byte + shared e offset size) k)) [
      | inl q ↦ inr (ground arith)
      | inr q ↦ absurd (not_covered (ground arith, ground arith, ground arith, ground arith))
    ]
  ]

-- A write that meets a change event on bytes, with the event inside the tag and a test block of its
-- size: the event fires exactly if a byte of the tag that is the event's and that the write has
-- written differs from what was noted of it. Then the new bytes are noted there, and elsewhere the
-- notes stay.
pub change-Noted :
    (e : Event) (dat : Block) (offset size : ℕ)
    → (e.datatype == dax_bool) ≡ false
    → e.byte + e.size ≤ length dat
    → e.size ≤ length e.test
    → offset < e.byte + e.size
    → e.byte < offset + size
    → NotedBy e dat offset size (change e dat offset size)
unfolding change
change-Noted e dat offset size b inside room meets_end meets_start =
    let v =
      change_loop-Noted (shared e offset size) (offset - e.byte) (shared_from e offset) e.test dat
        false (omega arith) (omega arith) in
    record {
      fires = v.fires;
      noted = v.noted;
      returns = rw (b, change) v.returns;
      copied = placed e offset size meets_end meets_start v.noted dat v.copied;
      kept = λ k c. v.kept k (outside e offset size meets_end meets_start k c);
      quiet = λ f. placed e offset size meets_end meets_start e.test dat (v.quiet f).1;
      loud = λ same. v.loud (counted e offset size meets_end meets_start e.test dat same);
    }
