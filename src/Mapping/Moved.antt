-- ===== src/Mapping/Moved.antt =====
-- The loop over bits of `map_check`: which bits are up in what it makes.
use open_dax.Base.{
  ℕ, zero, suc, ◌+◌, ◌*◌, ◌<◌, ◌≤◌, ◌≡◌, ◌≢◌, ◌⊎◌, inl, inr, refl, ap, sym, ◌∙◌, false, Bool-cases,
  ◌||◌, leb, if◌then◌else◌, some, get_elem?, get_elem?-of_lt, set, length, length-set, ret, crash,
  and_then, or_crash, arith,
}
use open_dax.Base.Bits.{test_bit, set_bit}
use open_dax.Memory.{Block, byte_at}
use open_dax.Memory.Flags.{flag, flag-at, flag-set_self, flag-set_ne}
use open_dax.Mapping.{raise, next_byte, next_bit, move_bits}
use open_dax.Mapping.Bits.{raise-small, not_wide, step_place, step_small}

-- The `n` bits of `made` from `q` on are up where those of `src` from `p` on are, or those of `out`; the
-- others are those of `out`.
pub record Moved (n p q : ℕ) (src out made : Block) : Type 0 where
  pub inside : (k : ℕ) → k < n → flag made (q + k) ≡ (flag src (p + k) || flag out (q + k))
  pub outside : (r : ℕ) → (r < q) ⊎ (q + n ≤ r) → flag made r ≡ flag out r
  pub size : length made ≡ length out

-- One round: the bit at `q`.
record Once (p q : ℕ) (src out out' : Block) : Type 0 where
  here : flag out' q ≡ (flag src p || flag out q)
  there : (r : ℕ) → r ≢ q → flag out' r ≡ flag out r
  same : length out' ≡ length out

module _ (p i b q j c y x : ℕ) (src out : Block) (from : p ≡ 8 * i + b) (to : q ≡ 8 * j + c)
    (small : b < 8) (small' : c < 8) (aty : get_elem? src i ≡ some y)
    (atx : get_elem? out j ≡ some x) (room : j < length out) where
  source_flag : flag src p ≡ test_bit y b
  source_flag = flag-at src p i b y (omega arith) (omega arith) aty

  once :
      (out' : Block) × ((if test_bit y b
          then and_then (byte_at out j) (λ x. ret (set out j (raise x c)))
          else ret out)
        ≡ ret out')
      × Once p q src out out'
  once = elim (Bool-cases (test_bit y b)) [
    | inl up ↦ (
      set out j (set_bit x c),
      (λ l.
            if up l
            then and_then (or_crash (atx l)) (λ x. ret (set out j (raise x c)))
            else ret out)
          ∙ (λ l. ret (set out j (raise-small x c small' l))),
      record {
        here =
            flag-set_self q j c x out to small' atx room
            ∙ (λ l. (sym (source_flag ∙ up)) l || flag out q);
        there = λ r ne. flag-set_ne q j c x out to small' atx room r ne;
        same = length-set out j (set_bit x c);
      },
    )
    | inr down ↦ (
      out,
      (λ l.
          if down l then and_then (byte_at out j) (λ x. ret (set out j (raise x c))) else ret out),
      record {
        here = λ l. (sym (source_flag ∙ down)) l || flag out q;
        there = λ r ne. refl;
        same = refl;
      },
    )
  ]

round-Moved :
    (n p q : ℕ) (src out out' made : Block)
    → Once p q src out out'
    → Moved n (p + 1) (q + 1) src out' made
    → Moved (suc n) p q src out made
round-Moved n p q src out out' made o v = record {
  inside = inside;
  outside = outside;
  size = v.size ∙ o.same;
}
  where
    inside : (k : ℕ) → k < suc n → flag made (q + k) ≡ (flag src (p + k) || flag out (q + k))
    inside zero h =
        ap (flag made) (omega arith)
        ∙ v.outside q (inl (omega arith))
        ∙ o.here
        ∙ (λ l. flag src (at_front p l) || flag out (at_front q l))
      where
        at_front : (m : ℕ) → m ≡ m + 0
        at_front m = omega arith
    inside (suc k) h =
        ap (flag made) {y = q + 1 + k} (omega arith)
        ∙ v.inside k (omega arith)
        ∙ (λ l. flag src (later p l) || o.there (q + 1 + k) (λ e. absurd (omega arith)) l)
        ∙ (λ l. flag src (p + suc k) || flag out (later q l))
      where
        later : (m : ℕ) → m + 1 + k ≡ m + suc k
        later m = omega arith

    outside : (r : ℕ) → (r < q) ⊎ (q + suc n ≤ r) → flag made r ≡ flag out r
    outside r (inl h) = v.outside r (inl (omega arith)) ∙ o.there r (λ e. absurd (omega arith))
    outside r (inr h) = v.outside r (inr (omega arith)) ∙ o.there r (λ e. absurd (omega arith))

-- With room for its bits in both blocks the loop returns.
pub move_bits-Moved :
    (n p i b q j c : ℕ) (src out : Block)
    → p ≡ 8 * i + b
    → q ≡ 8 * j + c
    → b < 8
    → c < 8
    → p + n ≤ 8 * length src
    → q + n ≤ 8 * length out
    → (made : Block) × (move_bits n i b j c src out ≡ ret made) × Moved n p q src out made
unfolding move_bits
move_bits-Moved zero p i b q j c src out from to small small' room room' =
    (out, refl, record { inside = λ k h. elim h [ ]; outside = λ r h. refl; size = refl })
move_bits-Moved (suc n) p i b q j c src out from to small small' room room' =
    let (y, aty) = get_elem?-of_lt src i (omega arith) in
    let (x, atx) = get_elem?-of_lt out j (omega arith) in
    let (out', e, o) = once p i b q j c y x src out from to small small' aty atx (omega arith) in
    let next = move_bits n (next_byte i b) (next_bit b) (next_byte j c) (next_bit c) src in
    let (made, h, v) =
      move_bits-Moved n (p + 1) (next_byte i b) (next_bit b) (q + 1) (next_byte j c) (next_bit c)
        src out' (step_place p i b from small) (step_place q j c to small') (step_small b small)
        (step_small c small') (omega arith) (omega (arith, o.same)) in
    let narrow : (leb 31 b || leb 31 c) ≡ false =
      (λ l. not_wide b small l || leb 31 c) ∙ not_wide c small' in
    (
      made,
      (λ l. and_then (if narrow l then crash else or_crash (aty l)) (λ y.
            and_then
              (if test_bit y b
                then and_then (byte_at out j) (λ x. ret (set out j (raise x c)))
                else ret out)
              next))
          ∙ (λ l. and_then (e l) next)
          ∙ h,
      round-Moved n p q src out out' made o v,
    )
