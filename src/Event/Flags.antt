-- ===== src/Event/Flags.antt =====
-- When `_event_set` and `_event_reset` fire, and what they note, bit by bit.
use open_dax.Base.{
  ℕ, zero, suc, ◌+◌, ◌-◌, ◌*◌, ◌/◌, ◌%◌, ◌<◌, ◌≤◌, ◌≡◌, ◌≢◌, ◌⊎◌, inl, inr, refl, ap, sym, ◌∙◌,
  subst, Bool, true, false, not, ◌&&◌, ◌||◌, ◌==◌, if◌then◌else◌, Bool-cases, none, some, length,
  get_elem?, set, drop, arith, ret, and_then, or_crash, get_elem?-of_lt, get_elem?-set_self,
  get_elem?-set_ne, length-set, length-drop,
}
use native.Mathlib.Decide.{ℕ_discrete}
use open_dax.Base.Bits.{
  test_bit, bit-set_bit_self, bit-set_bit_ne, bit-clear_bit_self, bit-clear_bit_ne,
}
use open_dax.Memory.{Block}
use open_dax.Memory.Flags.{at_bit, flag}
use open_dax.Event.{Event}
use open_dax.Event.Bits.{Verdict, rounds, bit_loop, mark, set_test, reset_test, set_or_reset}

module _ (holds : ℕ → ℕ → Bool) where
  -- The verdict fires if the condition holds at one of the `n` bits from `p` on whose flag was down,
  -- or if it was to fire before. The flags there then say where the condition holds, and the others
  -- stay.
  pub record Flagged (n p : ℕ) (test dat : Block) (hit : Bool) (r : Verdict) : Type 0 where
    pub fires : Bool
    pub noted : Block
    pub returns : r ≡ ret (fires, noted)
    pub marked : (k : ℕ) → k < n → flag noted (p + k) ≡ at_bit holds dat (p + k)
    pub kept : (q : ℕ) → (q < p) ⊎ (p + n ≤ q) → flag noted q ≡ flag test q
    pub quiet :
        fires ≡ false
        → (hit ≡ false)
          × ((k : ℕ) → k < n → at_bit holds dat (p + k) ≡ true → flag test (p + k) ≡ true)
    pub loud :
        ((k : ℕ) → k < n → at_bit holds dat (p + k) ≡ true → flag test (p + k) ≡ true) → fires ≡ hit

  abbrev body : ℕ → ℕ → ℕ → Bool × ℕ
  body x y k = mark (holds y k) x k

  mark_self : (c : Bool) (x k : ℕ) → k < 8 → test_bit (mark c x k).1 k ≡ c
  unfolding mark
  mark_self true x k h = elim (Bool-cases (test_bit x k)) [
    | inl e ↦ rw e e
    | inr e ↦ rw e (ground (arith, bit-set_bit_self k x))
  ]
  mark_self false x k h = ground (arith, bit-clear_bit_self k x h)

  mark_ne :
      (c : Bool) (x k j : ℕ) → k < 8 → j < 8 → j ≢ k → test_bit (mark c x k).1 j ≡ test_bit x j
  unfolding mark
  mark_ne true x k j h hj ne = elim (Bool-cases (test_bit x k)) [
    | inl e ↦ rw e refl
    | inr e ↦ rw e (ap (λ (v : ℕ). v == 1) (bit-set_bit_ne j k x ne))
  ]
  mark_ne false x k j h hj ne = ap (λ (v : ℕ). v == 1) (bit-clear_bit_ne j k x hj h ne)

  mark-fires : (c : Bool) (x k : ℕ) → (mark c x k).0 ≡ (c && not (test_bit x k))
  unfolding mark
  mark-fires true x k = elim (Bool-cases (test_bit x k)) [ inl e ↦ rw e refl | inr e ↦ rw e refl ]
  mark-fires false x k = refl

  module _ (n p i b x y : ℕ) (test dat : Block) (hit : Bool) (place : p ≡ 8 * i + b) (small : b < 8)
      (atx : get_elem? test i ≡ some x) (aty : get_elem? dat i ≡ some y)
      (inside : i < length test) where
    next : Block
    next = set test i (mark (holds y b) x b).1

    flag-of :
        (t : Block) (q j k z : ℕ)
        → q / 8 ≡ j
        → q % 8 ≡ k
        → get_elem? t j ≡ some z
        → flag t q ≡ test_bit z k
    flag-of t q j k z e f at =
        (λ l. elim (get_elem? t (e l)) [ none ↦ false | some y ↦ test_bit y (f l) ])
        ∙ (λ l. elim (at l) [ none ↦ false | some y ↦ test_bit y k ])

    next-here : flag next p ≡ holds y b
    unfolding next
    next-here =
        flag-of next p i b (mark (holds y b) x b).1 (omega arith) (omega arith)
          (get_elem?-set_self test i _ inside)
        ∙ mark_self (holds y b) x b small

    next-there : (q : ℕ) → q ≢ p → flag next q ≡ flag test q
    unfolding next
    next-there q ne = elim (ℕ_discrete i (q / 8)) [
      | yes e ↦
          flag-of next q i (q % 8) (mark (holds y b) x b).1 (sym e) refl
            (get_elem?-set_self test i _ inside)
          ∙ mark_ne (holds y b) x b (q % 8) small (omega arith) (λ f. ne (omega arith))
          ∙ sym (flag-of test q i (q % 8) x (sym e) refl atx)
      | no far ↦
          ap (λ o. elim o [ none ↦ false | some y ↦ test_bit y (q % 8) ])
            (get_elem?-set_ne test i (q / 8) _ far)
    ]

    test-here : flag test p ≡ test_bit x b
    test-here = flag-of test p i b x (omega arith) (omega arith) atx

    holds-here : at_bit holds dat p ≡ holds y b
    holds-here =
        let e : p / 8 ≡ i = omega arith in
        let f : p % 8 ≡ b = omega arith in
        (λ l. elim (get_elem? dat (e l)) [ none ↦ false | some y ↦ holds y (f l) ])
        ∙ (λ l. elim (aty l) [ none ↦ false | some y ↦ holds y b ])

    module _ (r : Verdict)
        (v : Flagged n (p + 1) next dat (hit || (mark (holds y b) x b).0) r) where
      round-Flagged : Flagged (suc n) p test dat hit r
      round-Flagged = record {
        fires = v.fires;
        noted = v.noted;
        returns = v.returns;
        marked = marked;
        kept = kept;
        quiet = λ e. (
          unfired (holds y b) (test_bit x b) hit (fired ∙ (v.quiet e).0),
          up (v.quiet e).0 (v.quiet e).1,
        );
        loud = λ a.
            v.loud (λ k h c.
              next-there (p + 1 + k) (λ e. absurd (omega arith))
              ∙ ap (flag test) (omega arith)
              ∙ a (suc k) (omega arith) (ap (at_bit holds dat) (omega arith) ∙ c))
            ∙ silent a;
      }
        where
          fired : (hit || (holds y b && not (test_bit x b))) ≡ (hit || (mark (holds y b) x b).0)
          fired = ap (λ c. hit || c) (sym (mark-fires (holds y b) x b))

          unfired : (c d e : Bool) → (e || (c && not d)) ≡ false → e ≡ false
          unfired c d true e = cc
          unfired c d false e = refl

          flag_up : (c d e : Bool) → (e || (c && not d)) ≡ false → c ≡ true → d ≡ true
          flag_up true true e h t = refl
          flag_up true false true h t = cc
          flag_up true false false h t = cc
          flag_up false d e h t = cc

          quiet_round : (c d e : Bool) → (c ≡ true → d ≡ true) → (e || (c && not d)) ≡ e
          quiet_round c d true h = refl
          quiet_round false d false h = refl
          quiet_round true true false h = refl
          quiet_round true false false h = sym (h refl)

          marked : (k : ℕ) → k < suc n → flag v.noted (p + k) ≡ at_bit holds dat (p + k)
          marked zero h =
              ap (flag v.noted) (omega arith)
              ∙ v.kept p (inl (omega arith))
              ∙ next-here
              ∙ sym holds-here
              ∙ ap (at_bit holds dat) (omega arith)
          marked (suc k) h =
              ap (flag v.noted) {y = p + 1 + k} (omega arith)
              ∙ v.marked k (omega arith)
              ∙ ap (at_bit holds dat) (omega arith)

          kept : (q : ℕ) → (q < p) ⊎ (p + suc n ≤ q) → flag v.noted q ≡ flag test q
          kept q (inl h) = v.kept q (inl (omega arith)) ∙ next-there q (λ e. absurd (omega arith))
          kept q (inr h) = v.kept q (inr (omega arith)) ∙ next-there q (λ e. absurd (omega arith))

          up :
              (hit || (mark (holds y b) x b).0) ≡ false
              → ((k : ℕ)
                  → k < n
                  → at_bit holds dat (p + 1 + k) ≡ true
                  → flag next (p + 1 + k) ≡ true)
              → (k : ℕ) → k < suc n
              → at_bit holds dat (p + k) ≡ true
              → flag test (p + k) ≡ true
          up e a zero h c =
              ap (flag test) (omega arith)
              ∙ test-here
              ∙ flag_up (holds y b) (test_bit x b) hit (fired ∙ e)
                  (sym holds-here ∙ ap (at_bit holds dat) (omega arith) ∙ c)
          up e a (suc k) h c =
              ap (flag test) {y = p + 1 + k} (omega arith)
              ∙ sym (next-there (p + 1 + k) (λ e. absurd (omega arith)))
              ∙ a k (omega arith) (ap (at_bit holds dat) (omega arith) ∙ c)

          silent :
              ((k : ℕ) → k < suc n → at_bit holds dat (p + k) ≡ true → flag test (p + k) ≡ true)
              → (hit || (mark (holds y b) x b).0) ≡ hit
          silent a =
              sym fired
              ∙ quiet_round (holds y b) (test_bit x b) hit (λ c.
                sym test-here
                ∙ ap (flag test) (omega arith)
                ∙ a 0 (omega arith) (ap (at_bit holds dat) (omega arith) ∙ holds-here ∙ c))

  bit_loop-Flagged :
      (n p i b : ℕ) (test dat : Block) (hit : Bool)
      → p ≡ 8 * i + b
      → b < 8
      → p + n ≤ 8 * length test
      → p + n ≤ 8 * length dat
      → Flagged n p test dat hit (bit_loop body n i b test dat hit)
  unfolding bit_loop next
  bit_loop-Flagged zero p i b test dat hit place small room room' = record {
    fires = hit;
    noted = test;
    returns = refl;
    marked = λ k h. elim h [ ];
    kept = λ q h. refl;
    quiet = λ e. (e, λ k h. elim h [ ]);
    loud = λ a. refl;
  }
  bit_loop-Flagged (suc n) p i b test dat hit place small room room' =
      let (x, atx) = get_elem?-of_lt test i (omega arith) in
      let (y, aty) = get_elem?-of_lt dat i (omega arith) in
      let wraps = b + 1 == 8 in
      let new = set test i (mark (holds y b) x b).1 in
      let v =
        bit_loop-Flagged n (p + 1) (if wraps then i + 1 else i) (if wraps then 0 else b + 1) new dat
          (hit || (mark (holds y b) x b).0) (ground arith) (ground arith)
          (omega (arith, length-set test i (mark (holds y b) x b).1)) (omega arith) in
      subst (Flagged (suc n) p test dat hit)
        (sym (λ l. and_then (or_crash (atx l)) (λ x. and_then (or_crash (aty l)) (λ y.
          bit_loop body n (if wraps then i + 1 else i) (if wraps then 0 else b + 1)
            (set test i (mark (holds y b) x b).1) dat (hit || (mark (holds y b) x b).0)))))
        (round-Flagged n p i b x y test dat hit place small atx aty (omega arith) _ v)

-- What a set event looks for in a bit, and what a reset event does.
abbrev pub bit_is_set : ℕ → ℕ → Bool
bit_is_set y k = test_bit y k

abbrev pub bit_is_clear : ℕ → ℕ → Bool
bit_is_clear y k = not (test_bit y k)

-- A set event and a reset event, with their bits inside the tag and a test block with a flag for each:
-- the event fires exactly if one of its bits is set (clear, for a reset event) whose flag is down.
-- Then the flag of each of its bits says whether the bit is set (clear), and the other flags stay.
pub set_or_reset-Flagged :
    (e : Event) (dat : Block)
    → e.bit < 8
    → e.bit + rounds e.count ≤ 8 * length e.test
    → e.bit + rounds e.count ≤ 8 * (length dat - e.byte)
    → Flagged bit_is_set
        (rounds e.count)
        e.bit
        e.test
        (drop e.byte dat)
        false
        (set_or_reset set_test e dat)
      × Flagged bit_is_clear
          (rounds e.count)
          e.bit
          e.test
          (drop e.byte dat)
          false
          (set_or_reset reset_test e dat)
unfolding set_or_reset set_test reset_test
set_or_reset-Flagged e dat small room inside =
    let inside' : e.bit + rounds e.count ≤ 8 * length (drop e.byte dat) =
      omega (arith, length-drop e.byte dat) in
    (
      bit_loop-Flagged bit_is_set (rounds e.count) e.bit 0 e.bit e.test (drop e.byte dat) false
          (omega arith) small room inside',
      bit_loop-Flagged bit_is_clear (rounds e.count) e.bit 0 e.bit e.test (drop e.byte dat) false
          (omega arith) small room inside',
    )
