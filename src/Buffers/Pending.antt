-- ===== src/Buffers/Pending.antt =====
-- What the buffers of Buffers stand for: for each descriptor the bytes that it has sent and that are
-- not yet a message.
use open_dax.Base.{
  ℕ, zero, suc, ◌+◌, ◌≤◌, subst, ◌≡◌, ◌≢◌, refl, ap, sym, ◌∙◌, true, false, List, [], ◌∷◌, ◌++◌,
  some, length, get_elem?, set, take, if◌then◌else◌, Bool-cases, inl, inr, arith,
  get_elem?-set_self, get_elem?-set_ne, lt-of_get_elem?,
}
use open_dax.Base.Int.{ℤ, pos, pos_part, equal_ℤ, equal_ℤ-self, equal_ℤ→eq}
use open_dax.Memory.{Block}
use open_dax.Store.Notify.{dax_msgmax}
use open_dax.Buffers.{BuffNode}
use native.Mathlib.Decide.{ℕ_discrete}

-- 1 for a buffer of the descriptor, 0 for another.
abbrev pub one : ℤ → BuffNode → ℕ
one fd b = if equal_ℤ b.fd fd then 1 else 0

-- How many buffers a descriptor has.
unfoldable pub owners : ℤ → List BuffNode → ℕ
owners fd [] = 0
owners fd (b ∷ bs) = one fd b + owners fd bs

abbrev pub content : BuffNode → Block
content b = take (pos_part b.index) b.buffer

-- The bytes that wait in the first buffer of a descriptor.
unfoldable pub pending : ℤ → List BuffNode → Block
pending fd [] = []
pending fd (b ∷ bs) = if equal_ℤ b.fd fd then content b else pending fd bs

-- A buffer of 4096 bytes that holds `used` of them, none if it is free.
pub record IsSound (b : BuffNode) : Type 0 where
  pub used : ℕ
  pub index_is : b.index ≡ pos used
  pub fits : used ≤ dax_msgmax
  pub whole : length b.buffer ≡ dax_msgmax
  pub free_empty : b.fd ≡ pos 0 → used ≡ 0

-- Sound buffers, and no descriptor has two of them.
pub record IsTidy (bs : List BuffNode) : Type 0 where
  pub sound : (i : ℕ) (b : BuffNode) → get_elem? bs i ≡ some b → IsSound b
  pub single : (fd : ℤ) → fd ≢ pos 0 → owners fd bs ≤ 1

pub one-same : (fd : ℤ) (b : BuffNode) → b.fd ≡ fd → one fd b ≡ 1
one-same fd b e = rw e (rw (equal_ℤ-self fd) refl)

pub equal_ℤ-ne : (a b : ℤ) → a ≢ b → equal_ℤ a b ≡ false
equal_ℤ-ne a b h = elim (Bool-cases (equal_ℤ a b)) [
  | inl e ↦ absurd (h (equal_ℤ→eq a b e))
  | inr e ↦ e
]

pub one-other : (fd : ℤ) (b : BuffNode) → b.fd ≢ fd → one fd b ≡ 0
one-other fd b h = rw (equal_ℤ-ne b.fd fd h) refl

pub one-fd : (fd : ℤ) (b c : BuffNode) → b.fd ≡ c.fd → one fd b ≡ one fd c
one-fd fd b c e = ap {B = ℕ} (λ x. if equal_ℤ x fd then 1 else 0) e

-- Replacing a buffer changes the counts by that buffer.
pub owners-set :
    (fd : ℤ) (bs : List BuffNode) (n : ℕ) (b b' : BuffNode)
    → get_elem? bs n ≡ some b
    → owners fd (set bs n b') + one fd b ≡ owners fd bs + one fd b'
unfolding owners
owners-set fd [] n b b' e = cc
owners-set fd (x ∷ xs) zero b b' e =
    let p : one fd x ≡ one fd b = ap (one fd) {x = x} {y = b} (cc) in omega (arith, p)
owners-set fd (x ∷ xs) (suc n) b b' e = omega (arith, owners-set fd xs n b b' e)

pub owners-append :
    (fd : ℤ) (xs ys : List BuffNode) → owners fd (xs ++ ys) ≡ owners fd xs + owners fd ys
unfolding owners
owners-append fd [] ys = omega arith
owners-append fd (x ∷ xs) ys = omega (arith, owners-append fd xs ys)

pub owners-of :
    (fd : ℤ) (bs : List BuffNode) (n : ℕ) (b : BuffNode)
    → get_elem? bs n ≡ some b
    → b.fd ≡ fd
    → 1 ≤ owners fd bs
unfolding owners
owners-of fd [] n b e h = cc
owners-of fd (x ∷ xs) zero b e h = let p : one fd x ≡ 1 = one-same fd x (cc) in omega (arith, p)
owners-of fd (x ∷ xs) (suc n) b e h = omega (arith, owners-of fd xs n b e h)

-- A descriptor without a buffer has nothing waiting.
pub pending-none : (fd : ℤ) (bs : List BuffNode) → owners fd bs ≡ 0 → pending fd bs ≡ []
unfolding owners pending
pending-none fd [] h = refl
pending-none fd (x ∷ xs) h = elim (Bool-cases (equal_ℤ x.fd fd)) [
  | inl e ↦ absurd (ground arith)
  | inr e ↦ rw e (pending-none fd xs (ground arith))
]

-- The only buffer of a descriptor is the one that counts.
pub pending-of :
    (fd : ℤ) (bs : List BuffNode) (n : ℕ) (b : BuffNode)
    → owners fd bs ≤ 1
    → get_elem? bs n ≡ some b
    → b.fd ≡ fd
    → pending fd bs ≡ content b
unfolding owners pending
pending-of fd [] n b h e f = cc
pending-of fd (x ∷ xs) zero b h e f =
    let p : equal_ℤ x.fd fd ≡ true =
      ap (λ y. equal_ℤ y fd) {x = x.fd} {y = fd} (cc) ∙ equal_ℤ-self fd in
    rw p (ap content {x = x} {y = b} (cc))
pending-of fd (x ∷ xs) (suc n) b h e f = elim (Bool-cases (equal_ℤ x.fd fd)) [
  | inl p ↦ absurd (let q : one fd x ≡ 1 = rw p refl in omega (arith, owners-of fd xs n b e f, q))
  | inr p ↦ rw p (pending-of fd xs n b (omega arith) e f)
]

-- A buffer that is none of the descriptor's, before and after, does not matter to it.
pub pending-set :
    (fd : ℤ) (bs : List BuffNode) (n : ℕ) (b b' : BuffNode)
    → get_elem? bs n ≡ some b
    → b.fd ≢ fd
    → b'.fd ≢ fd
    → pending fd (set bs n b') ≡ pending fd bs
unfolding pending
pending-set fd [] n b b' e h h' = refl
pending-set fd (x ∷ xs) zero b b' e h h' =
    let p : equal_ℤ x.fd fd ≡ false = equal_ℤ-ne x.fd fd (λ q. h (cc)) in
    rw p (rw (equal_ℤ-ne b'.fd fd h') refl)
pending-set fd (x ∷ xs) (suc n) b b' e h h' =
    ap (λ t. if equal_ℤ x.fd fd then content x else t) (pending-set fd xs n b b' e h h')

pub pending-append :
    (fd : ℤ) (xs : List BuffNode) (b : BuffNode)
    → b.fd ≢ fd
    → pending fd (xs ++ (b ∷ [])) ≡ pending fd xs
unfolding pending
pending-append fd [] b h = rw (equal_ℤ-ne b.fd fd h) refl
pending-append fd (x ∷ xs) b h =
    ap (λ t. if equal_ℤ x.fd fd then content x else t) (pending-append fd xs b h)

-- A tidy list stays so with a sound buffer in place of another, if that has no descriptor that
-- another buffer has.
pub set-IsTidy :
    (bs : List BuffNode) (n : ℕ) (b b' : BuffNode)
    → IsTidy bs
    → get_elem? bs n ≡ some b
    → IsSound b'
    → ((fd : ℤ) → fd ≢ pos 0 → one fd b' + owners fd bs ≤ 1 + one fd b)
    → IsTidy (set bs n b')
set-IsTidy bs n b b' t e s h = record {
  sound = λ i c p. elim (ℕ_discrete n i) [
    | yes q ↦
        subst IsSound {x = b'} {y = c}
          (let r = get_elem?-set_self bs n b' (lt-of_get_elem? bs n b e) in
            let q' = ap (get_elem? (set bs n b')) q in cc)
          s
    | no q ↦ t.sound i c (sym (get_elem?-set_ne bs n i b' q) ∙ p)
  ];
  single = λ fd z. omega (arith, owners-set fd bs n b b' e, h fd z);
}
