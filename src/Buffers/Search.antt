-- ===== src/Buffers/Search.antt =====
-- What the loop of `find_buff_slot` of src/server/buffer.c finds: its own buffer, a free one, or none.
use open_dax.Base.{
  ℕ, zero, suc, ◌+◌, ◌≡◌, ◌≢◌, refl, ap, ◌∙◌, false, List, [], ◌∷◌, Option, none, some, get_elem?,
  if◌then◌else◌, Bool-cases, inl, inr, arith,
}
use open_dax.Base.Int.{ℤ, pos, equal_ℤ, equal_ℤ→eq}
use open_dax.Buffers.{BuffNode, Found, mine, spare, full, first_of, scan}
use open_dax.Buffers.Pending.{one, one-same, owners}

-- No buffer is the descriptor's.
abbrev pub Absent : ℤ → List BuffNode → Type 0
Absent fd bs = (i : ℕ) (b : BuffNode) → get_elem? bs i ≡ some b → b.fd ≢ fd

pub owners-Absent : (fd : ℤ) (bs : List BuffNode) → owners fd bs ≡ 0 → Absent fd bs
unfolding owners
owners-Absent fd [] o i b e f = cc
owners-Absent fd (c ∷ bs) o zero b e f =
    let same : c ≡ b = cc in
    let mine : one fd c ≡ 1 = one-same fd c (ap (λ c. c.fd) same ∙ f) in absurd (omega arith)
owners-Absent fd (c ∷ bs) o (suc i) b e f = owners-Absent fd bs (omega arith) i b e f

-- What the loop has found among all buffers.
abbrev pub Scanned : ℤ → List BuffNode → Found → Type 0
Scanned fd all (mine n) = (b : BuffNode) × (get_elem? all n ≡ some b) × (b.fd ≡ fd)
Scanned fd all (spare n) =
    (b : BuffNode) × (get_elem? all n ≡ some b) × (b.fd ≡ pos 0) × (owners fd all ≡ 0)
Scanned fd all full = (owners fd all ≡ 0) × (owners (pos 0) all ≡ 0)

-- The free buffer before those that are left, if there is one.
abbrev FreeAt : List BuffNode → List BuffNode → Option ℕ → Type 0
FreeAt all bs none = owners (pos 0) all ≡ owners (pos 0) bs
FreeAt all bs (some k) = (b : BuffNode) × (get_elem? all k ≡ some b) × (b.fd ≡ pos 0)

FreeAt-step :
    (all : List BuffNode) (free : Option ℕ) (n : ℕ) (b : BuffNode) (bs : List BuffNode)
    → FreeAt all (b ∷ bs) free
    → get_elem? all n ≡ some b
    → FreeAt all bs (if equal_ℤ b.fd (pos 0) then first_of free n else free)
unfolding owners
FreeAt-step all free n b bs f e = elim (Bool-cases (equal_ℤ b.fd (pos 0))) [
  | inl p ↦ rw p (first free f (equal_ℤ→eq b.fd (pos 0) p))
  | inr p ↦ rw p (passed free f p)
]
  where
    first :
        (free : Option ℕ)
        → FreeAt all (b ∷ bs) free
        → b.fd ≡ pos 0
        → FreeAt all bs (first_of free n)
    first none f z = (b, e, z)
    first (some k) f z = f

    passed :
        (free : Option ℕ)
        → FreeAt all (b ∷ bs) free
        → equal_ℤ b.fd (pos 0) ≡ false
        → FreeAt all bs free
    passed none f p = let other : one (pos 0) b ≡ 0 = rw p refl in omega (arith, f, other)
    passed (some k) f p = f

pub scan-Scanned :
    (fd : ℤ) (all : List BuffNode) (free : Option ℕ) (n : ℕ) (bs : List BuffNode)
    → ((i : ℕ) → get_elem? all (n + i) ≡ get_elem? bs i)
    → FreeAt all bs free
    → owners fd all ≡ owners fd bs
    → Scanned fd all (scan fd free n bs)
unfolding scan owners
scan-Scanned fd all none n [] at f o = (o, f)
scan-Scanned fd all (some k) n [] at f o = (f.0, f.1, f.2, o)
scan-Scanned fd all free n (b ∷ bs) at f o =
    let here : get_elem? all n ≡ some b =
      ap (get_elem? all) {x = n} {y = n + 0} (omega arith) ∙ at 0 in
    elim (Bool-cases (equal_ℤ b.fd fd)) [
      | inl p ↦ rw p (b, here, equal_ℤ→eq b.fd fd p)
      | inr p ↦ rw p (
          scan-Scanned fd all (if equal_ℤ b.fd (pos 0) then first_of free n else free) (n + 1) bs
            (λ i. ap (get_elem? all) {x = n + 1 + i} {y = n + suc i} (omega arith) ∙ at (suc i))
            (FreeAt-step all free n b bs f here) (o ∙ rw p (omega arith)))
    ]
