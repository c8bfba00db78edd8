-- ===== src/Groups/Laws.antt =====
-- What `group_add` and `group_del` do to the groups of a module.
use open_dax.Base.{
  ℕ, zero, suc, ◌+◌, ◌<◌, ◌≡◌, inl, inr, refl, ap, sym, ◌∙◌, subst, ◌==◌, if◌then◌else◌, Bool-cases,
  List, [], ◌∷◌, ◌++◌, Option, none, some, length, get_elem?, take, arith, length-append,
}
use open_dax.Server.{Group, Module}
use open_dax.Groups.{is_used, init_groups, find_free, started, grown}

-- The group at a place, if it is in use.
abbrev pub used_of : Option Group → Option Group
used_of none = none
used_of (some g) = if is_used g then some g else none

abbrev pub used_at : Module → ℕ → Option Group
used_at m n = used_of (get_elem? m.tag_groups n)

pub find_free-lem :
    (gs : List Group) (n k i : ℕ)
    → find_free n k gs ≡ some i
    → (j : ℕ) × (i ≡ n + j) × (used_of (get_elem? gs j) ≡ none) × (j < length gs)
unfolding find_free
find_free-lem gs n zero i h = cc
find_free-lem [] n (suc k) i h = cc
find_free-lem (g ∷ gs) n (suc k) i h = elim (Bool-cases (is_used g)) [
  | inl e ↦
      let h' : find_free (n + 1) k gs ≡ some i = rw e at h in
      let (j, at, free, lt) = find_free-lem gs (n + 1) k i h' in
      (suc j, omega arith, free, omega arith)
  | inr e ↦ let h' : some n ≡ some i = rw e at h in (0, ground arith, rw e refl, omega arith)
]

module _ (unset : ℕ → ℕ) where
  init_groups_unused : (n k j : ℕ) → used_of (get_elem? (init_groups unset n k) j) ≡ none
  unfolding init_groups
  init_groups_unused n zero j = refl
  init_groups_unused n (suc k) zero = refl
  init_groups_unused n (suc k) (suc j) = init_groups_unused (n + 1) k j

  length-init_groups : (n k : ℕ) → length (init_groups unset n k) ≡ k
  unfolding init_groups
  length-init_groups n zero = refl
  length-init_groups n (suc k) = ap suc (length-init_groups (n + 1) k)

  -- What a step towards a place for a new group keeps.
  pub record Ready (m m' : Module) : Type 0 where
    pub whole : m'.groups_size ≡ length m'.tag_groups
    pub same : (j : ℕ) → used_at m' j ≡ used_at m j

  Ready-refl : (m : Module) → m.groups_size ≡ length m.tag_groups → Ready m m
  Ready-refl m w = record { whole = w; same = λ j. refl }

  nothing_used : (gs : List Group) (j : ℕ) → length gs ≡ 0 → used_of (get_elem? gs j) ≡ none
  nothing_used [] j e = refl
  nothing_used (g ∷ gs) j e = absurd (omega arith)

  pub started-Ready : (m : Module) → m.groups_size ≡ length m.tag_groups → Ready m (started unset m)
  unfolding started
  started-Ready m w = elim (Bool-cases (m.groups_size == 0)) [
    | inl e ↦
        let first : Module = record m { tag_groups = init_groups unset 0 16; groups_size = 16 } in
        subst (Ready m) (sym (λ i. if e i then first else m)) (record {
          whole = sym (length-init_groups 0 16);
          same = λ j. init_groups_unused 0 16 j ∙ sym (nothing_used m.tag_groups j (ground arith));
        })
    | inr e ↦
        subst (Ready m)
          (sym (λ i.
            if e i then record m { tag_groups = init_groups unset 0 16; groups_size = 16 } else m))
          (Ready-refl m w)
  ]

  take_all : (gs : List Group) (n : ℕ) → n ≡ length gs → take n gs ≡ gs
  take_all [] zero e = refl
  take_all [] (suc n) e = refl
  take_all (g ∷ gs) zero e = absurd (omega arith)
  take_all (g ∷ gs) (suc n) e = ap (◌∷◌ g) (take_all gs n (omega arith))

  used_of_append :
      (gs : List Group) (n k j : ℕ)
      → used_of (get_elem? (gs ++ init_groups unset n k) j) ≡ used_of (get_elem? gs j)
  used_of_append [] n k j = init_groups_unused n k j
  used_of_append (g ∷ gs) n k zero = refl
  used_of_append (g ∷ gs) n k (suc j) = used_of_append gs n k j

  pub grown-Ready : (m : Module) → m.groups_size ≡ length m.tag_groups → Ready m (grown unset m)
  unfolding grown
  grown-Ready m w = record {
    whole = omega (
      arith,
      length-append (take m.groups_size m.tag_groups)
          (init_groups unset m.groups_size m.groups_size),
      ap length (take_all m.tag_groups m.groups_size w),
      length-init_groups m.groups_size m.groups_size,
    );
    same = λ j.
        used_of_append (take m.groups_size m.tag_groups) m.groups_size m.groups_size j
        ∙ ap (λ gs. used_of (get_elem? gs j)) (take_all m.tag_groups m.groups_size w);
  }
