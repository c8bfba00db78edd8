-- ===== src/Groups/Halved.antt =====
-- What the loop of `groups_cleanup` of src/server/groups.c deletes: each call of `group_del` makes the
-- bound of the loop smaller.
use open_dax.Base.{
  ℕ, zero, suc, ◌+◌, ◌-◌, ◌/◌, ◌%◌, ◌^◌, ◌<◌, ◌≤◌, ◌≡◌, refl, ap, sym, ◌∙◌, true, false, ltb,
  Bool-cases, inl, inr, List, [], ◌∷◌, some, none, length, get_elem?, set, Error, ok, err,
  if◌then◌else◌, attempt, ◌>>◌, arith, get_elem?-of_lt,
}
use open_dax.Server.{Group, Module}
use open_dax.Groups.{is_used, del_at, group_del}
use open_dax.Groups.Cleanup.{cleanup_loop, groups_cleanup, groups_cleanup-empty}

-- What `group_del` leaves of a group.
abbrev pub emptied : Group → Group
emptied g = record g { flags = 0; count = 0; members = none }

-- The groups with the first `j` emptied, and the rest as they were.
unfoldable pub cleared : ℕ → List Group → List Group
cleared zero gs = gs
cleared (suc j) [] = []
cleared (suc j) (g ∷ gs) = emptied g ∷ cleared j gs

cleared-here : (j : ℕ) (gs : List Group) → get_elem? (cleared j gs) j ≡ get_elem? gs j
unfolding cleared
cleared-here zero gs = refl
cleared-here (suc j) [] = refl
cleared-here (suc j) (g ∷ gs) = cleared-here j gs

set-cleared :
    (j : ℕ) (gs : List Group) (g : Group)
    → get_elem? gs j ≡ some g
    → set (cleared j gs) j (emptied g) ≡ cleared (suc j) gs
unfolding cleared
set-cleared j [] g at = cc
set-cleared zero (x ∷ gs) g at = let same : x ≡ g = cc in ap (λ x. emptied x ∷ gs) (sym same)
set-cleared (suc j) (x ∷ gs) g at = ap (λ gs. emptied x ∷ gs) (set-cleared j gs g at)

-- The module after `j` rounds.
abbrev pub after : ℕ → Module → Module
after j m = record m { tag_groups = cleared j m.tag_groups; groups_size = m.groups_size - j }

module _ (m : Module) (whole : length m.tag_groups ≡ m.groups_size) (few : m.groups_size ≤ 4096)
    (in_use : (i : ℕ) (g : Group) → get_elem? m.tag_groups i ≡ some g → is_used g ≡ true) where
  deleted : (j : ℕ) → j < m.groups_size → group_del j (after j m) ≡ ok tt (after (suc j) m)
  unfolding group_del del_at
  deleted j h =
      let (g, at) = get_elem?-of_lt m.tag_groups j (omega arith) in
      let there : get_elem? (cleared j m.tag_groups) j ≡ some g =
        cleared-here j m.tag_groups ∙ at in
      let less : (m.groups_size - j + (2 ^ 32 - 1)) % 2 ^ 32 ≡ m.groups_size - suc j =
        omega arith in
      let left = λ (gs : List Group) (n : ℕ). record m { tag_groups = gs; groups_size = n } in
      (λ k. del_at (after j m) j (there k))
      ∙ (λ k.
          if in_use j g at k
          then ok tt (
              left (set (cleared j m.tag_groups) j (emptied g))
                ((m.groups_size - j + (2 ^ 32 - 1)) % 2 ^ 32))
          else err Error.notfound (after j m))
      ∙ (λ k. ok tt (left (set-cleared j m.tag_groups g at k) (less k)))

  rounds :
      (fuel j : ℕ)
      → j ≤ (m.groups_size + 1) / 2
      → (m.groups_size + 1) / 2 ≤ j + fuel
      → cleanup_loop fuel j (after j m) ≡ ok tt (after ((m.groups_size + 1) / 2) m)
  unfolding cleanup_loop
  rounds zero j le enough =
      let last : j ≡ (m.groups_size + 1) / 2 = omega arith in
      let e : ltb j (m.groups_size - j) ≡ false = ground arith in
      rw e (ap (λ j. ok tt (after j m)) last)
  rounds (suc fuel) j le enough = elim (Bool-cases (ltb j (m.groups_size - j))) [
    | inl e ↦
        let more : j < (m.groups_size + 1) / 2 = ground arith in
        rw e (
          (λ k. (attempt (λ _. deleted j (omega arith) k) >> cleanup_loop fuel (j + 1)) (after j m))
          ∙ ap (λ n. cleanup_loop fuel n (after (suc j) m)) {x = j + 1} {y = suc j} (omega arith)
          ∙ rounds fuel (suc j) (omega arith) (omega arith))
    | inr e ↦
        let last : j ≡ (m.groups_size + 1) / 2 = ground arith in
        rw e (ap (λ j. ok tt (after j m)) last)
  ]

  -- A defect: for a module with at most 4096 groups, all in use, `groups_cleanup` ends and leaves the
  -- module without an array of groups; but its loop, whose bound `group_del` makes smaller, deletes
  -- only the first half of them. The others are as they were when the array is freed.
  pub groups_cleanup-half :
      (cleanup_loop m.groups_size 0 m ≡ ok tt (after ((m.groups_size + 1) / 2) m))
      × (groups_cleanup m ≡ ok tt (record m { tag_groups = []; groups_size = 0 }))
  unfolding cleared
  groups_cleanup-half = (
    ap (λ n. cleanup_loop m.groups_size 0 (record m { groups_size = n })) {x = m.groups_size}
          {y = m.groups_size - 0} (omega arith)
        ∙ rounds m.groups_size 0 (omega arith) (omega arith),
    groups_cleanup-empty m (omega arith) few,
  )
