-- ===== src/Groups/Adding.antt =====
-- What `group_add` comes to, on every branch.
use open_dax.Base.{
  ℕ, zero, suc, ◌+◌, ◌*◌, ◌<◌, ◌≤◌, ◌≡◌, ◌≢◌, refl, ap, sym, ◌∙◌, subst, Bool, true, false, ◌==◌,
  ltb, if◌then◌else◌, Bool-cases, inl, inr, List, Option, none, some, length, get_elem?, Error,
  Outcome, ok, err, fault, Result, ret, fail, crash, arith, get_elem?-set_self, get_elem?-set_ne,
  get_elem?-ge, length-set, take, ◌++◌, length-take, get_elem?-append_right, lt-of_get_elem?,
  get_elem?-of_lt,
}
use native.Mathlib.Decide.{ℕ_discrete}
use open_dax.Base.Bits.{set_bit, test_bit, bit-set_bit_self}
use open_dax.Memory.{Block}
use open_dax.Server.{Handle, Group, Module}
use open_dax.Groups.{
  init_group, init_groups, tag_group_max_count, tag_group_max_members, is_used, find_free, started,
  grown, choose, add_place, decode, set_members, fill, add_filled, group_add,
}
use open_dax.Groups.Decoding.{decode_total}
use open_dax.Groups.Laws.{used_of, used_at, find_free-lem, Ready, started-Ready, grown-Ready}

-- The group at `n` was free, and now has `count` members, which the message tells; the other groups
-- are the same.
pub record AddedAt (m : Module) (block : Block) (count n : ℕ) (m' : Module) : Type 0 where
  pub whole : m'.groups_size ≡ length m'.tag_groups
  pub free : used_at m n ≡ none
  pub group : Group
  pub there : used_at m' n ≡ some group
  pub counted : group.count ≡ count
  pub handles : List Handle
  pub members : group.members ≡ some handles
  pub as_told : decode block 0 count 0 ≡ ret handles
  pub others : (j : ℕ) → n ≢ j → used_at m' j ≡ used_at m j

-- It returns: a number, and the group is added there, or an error, and no group has changed.
abbrev pub AddedTo : Module → Block → ℕ → Outcome Module ℕ → Type 0
AddedTo m block count (ok n m') = AddedAt m block count n m'
AddedTo m block count (err e m') =
    (m'.groups_size ≡ length m'.tag_groups) × ((j : ℕ) → used_at m' j ≡ used_at m j)
AddedTo m block count fault = ⊥

used_of_set : (g : Group) (flags : ℕ) → g.flags ≡ set_bit flags 0 → used_of (some g) ≡ some g
used_of_set g flags e =
    let up : is_used g ≡ true = ground (arith, bit-set_bit_self 0 flags, e) in
    λ i. if up i then some g else none

unused : (g g' : Group) → g'.flags ≡ g.flags → used_of (some g) ≡ none → used_of (some g') ≡ none
unused g g' e h = elim (Bool-cases (is_used g)) [
  | inl up ↦ let h' : some g ≡ none = (sym (λ i. if up i then some g else none)) ∙ h in cc
  | inr down ↦
      let down' : is_used g' ≡ false = ap (λ (f : ℕ). test_bit f 0) e ∙ down in
      λ i. if down' i then some g' else none
]

module _ (unset : ℕ → ℕ) (m : Module) where
  abbrev Placed : Outcome Module ℕ → Type 0
  Placed (ok n m') = Ready unset m m' × (n < length m'.tag_groups) × (used_at m' n ≡ none)
  Placed (err e m') = Ready unset m m'
  Placed fault = ⊥

  started_pos : (m : Module) → 0 < (started unset m).groups_size
  unfolding started
  started_pos m = elim (Bool-cases (m.groups_size == 0)) [
    | inl e ↦ rw e (omega arith)
    | inr e ↦ rw e (ground arith)
  ]

  choose-Placed :
      (m₁ : Module) (o : Option ℕ)
      → Ready unset m m₁
      → 0 < m₁.groups_size
      → find_free 0 m₁.groups_size m₁.tag_groups ≡ o
      → Placed (choose unset m₁ o)
  unfolding choose
  choose-Placed m₁ (some n) r p e =
      let (j, at, free, lt) = find_free-lem m₁.tag_groups 0 m₁.groups_size n e in
      let same : j ≡ n = omega arith in (r, omega arith, subst (λ n. used_at m₁ n ≡ none) same free)
  choose-Placed m₁ none r p e =
      let inside : ltb (length m₁.tag_groups) m₁.groups_size ≡ false = ground (arith, r.whole) in
      subst
        (λ (b : Bool). Placed (
          if b
          then fault
          else if ltb tag_group_max_count (m₁.groups_size * 2)
          then err Error.too_big m₁
          else ok m₁.groups_size (grown unset m₁)))
        (sym inside) (limit (ltb tag_group_max_count (m₁.groups_size * 2)))
    where
      g : Ready unset m₁ (grown unset m₁)
      g = grown-Ready unset m₁ r.whole

      limit :
          (b : Bool)
          → Placed (if b then err Error.too_big m₁ else ok m₁.groups_size (grown unset m₁))
      limit true = r
      limit false = (
        record { whole = g.whole; same = λ j. g.same j ∙ r.same j },
        omega (arith, g.whole, twice),
        g.same m₁.groups_size
            ∙ ap used_of (get_elem?-ge m₁.tag_groups m₁.groups_size (omega (arith, r.whole))),
      )
        where
          twice : (grown unset m₁).groups_size ≡ m₁.groups_size * 2
          twice = refl

  add_place-Placed : m.groups_size ≡ length m.tag_groups → Placed (add_place unset m)
  unfolding add_place
  add_place-Placed w =
      choose-Placed (started unset m) _ (started-Ready unset m w) (started_pos m) refl

  fill-AddedTo :
      (block : Block) (n count : ℕ) (m₁ : Module)
      → 21 * count ≤ length block
      → Ready unset m m₁
      → used_at m₁ n ≡ none
      → (o : Option Group) → get_elem? m₁.tag_groups n ≡ o
      → n < length m₁.tag_groups
      → (r : Result (List Handle)) → decode block 0 count 0 ≡ r
      → AddedTo m block count (fill m₁ n count o r)
  unfolding fill set_members
  fill-AddedTo block n count m₁ long p free none at lt r d =
      let (g, at') = get_elem?-of_lt m₁.tag_groups n lt in
      let none_some : none ≡ some g = sym at ∙ at' in cc
  fill-AddedTo block n count m₁ long p free (some g) at lt crash d =
      absurd (decode_total block count 0 0 (omega arith) d)
  fill-AddedTo block n count m₁ long p free (some g) at lt (fail e) d = (
    p.whole ∙ sym (length-set m₁.tag_groups n (record g { members = none })),
    λ j. elim (ℕ_discrete n j) [
      | yes e ↦
          subst (λ j. used_at (set_members m₁ n (record g { members = none })) j ≡ used_at m j) e
            (ap used_of (get_elem?-set_self m₁.tag_groups n (record g { members = none }) lt)
              ∙ unused g (record g { members = none }) refl (sym (ap used_of at) ∙ free)
              ∙ sym (sym (p.same n) ∙ free))
      | no ne ↦
          ap used_of (get_elem?-set_ne m₁.tag_groups n j (record g { members = none }) ne)
          ∙ p.same j
    ],
  )
  fill-AddedTo block n count m₁ long p free (some g) at lt (ret hs) d =
      let g' : Group = record g { members = some hs; flags = set_bit g.flags 0; count = count } in
      record {
        whole = p.whole ∙ sym (length-set m₁.tag_groups n g');
        free = sym (p.same n) ∙ free;
        group = g';
        there = ap used_of (get_elem?-set_self m₁.tag_groups n g' lt) ∙ used_of_set g' g.flags refl;
        counted = refl;
        handles = hs;
        members = refl;
        as_told = d;
        others = λ j ne. ap used_of (get_elem?-set_ne m₁.tag_groups n j g' ne) ∙ p.same j;
      }

  add_filled-AddedTo :
      (block : Block) (count : ℕ)
      → 21 * count ≤ length block
      → (o : Outcome Module ℕ) → Placed o
      → AddedTo m block count (add_filled block count o)
  unfolding add_filled
  add_filled-AddedTo block count long (ok n m₁) (r, lt, free) =
      fill-AddedTo block n count m₁ long r free (get_elem? m₁.tag_groups n) refl lt
        (decode block 0 count 0) refl
  add_filled-AddedTo block count long (err e m₁) r = (r.whole, r.same)
  add_filled-AddedTo block count long fault r = elim r [ ]

  -- For a module whose array of groups is as long as it says, and a message that has the handles it
  -- counts, `group_add` returns. If it returns a number, that group was not in use, and now has the
  -- members that the message tells, as many as it says, and the other groups are the same. If it
  -- returns an error, the groups in use are the same. In both cases the array is as long as the module
  -- says.
  pub group_add-AddedTo :
      (block : Block) (count : ℕ)
      → 21 * count ≤ length block
      → m.groups_size ≡ length m.tag_groups
      → AddedTo m block count (group_add unset block count m)
  unfolding group_add
  group_add-AddedTo block count long w = checked (ltb tag_group_max_members count)
    where
      checked :
          (b : Bool)
          → AddedTo m block count
              (if b then err Error.arg m else add_filled block count (add_place unset m))
      checked true = (w, λ j. refl)
      checked false = add_filled-AddedTo block count long (add_place unset m) (add_place-Placed w)

  started_same : 0 < m.groups_size → started unset m ≡ m
  unfolding started
  started_same p =
      let e : (m.groups_size == 0) ≡ false = ground arith in
      λ i. if e i then record m { tag_groups = init_groups unset 0 16; groups_size = 16 } else m

  add_place_full :
      0 < m.groups_size
      → m.groups_size * 2 ≤ 4096
      → m.groups_size ≤ length m.tag_groups
      → find_free 0 m.groups_size m.tag_groups ≡ none
      → add_place unset m ≡ ok m.groups_size (grown unset m)
  unfolding add_place choose
  add_place_full p limit room full =
      let inside : ltb (length m.tag_groups) m.groups_size ≡ false = ground arith in
      let e : ltb tag_group_max_count (m.groups_size * 2) ≡ false = ground arith in
      ap (λ m₁. choose unset m₁ (find_free 0 m₁.groups_size m₁.tag_groups)) (started_same p)
      ∙ ap (choose unset m) full
      ∙ (λ i.
          if inside i
          then fault
          else if e i
          then err Error.too_big m
          else ok m.groups_size (grown unset m))

  grown_next :
      0 < m.groups_size
      → m.groups_size ≤ length m.tag_groups
      → get_elem? (grown unset m).tag_groups m.groups_size ≡ some (init_group (unset m.groups_size))
  unfolding grown
  grown_next p le =
      let old = take m.groups_size m.tag_groups in
      let fresh = init_groups unset m.groups_size m.groups_size in
      ap (get_elem? (old ++ fresh)) {y = length old + 0}
        (omega (arith, length-take m.groups_size m.tag_groups))
      ∙ get_elem?-append_right old fresh 0
      ∙ first m.groups_size m.groups_size p
    where
      first : (n k : ℕ) → 0 < k → get_elem? (init_groups unset n k) 0 ≡ some (init_group (unset n))
      first n zero h = elim h [ ]
      first n (suc k) h = refl

  -- A defect: once the array is longer than the module says, which `group_del` makes it, and the
  -- groups up to that size are in use, adding a group of members that the message tells takes the
  -- place behind them, whatever group is in use there.
  pub group_add-replaces :
      (block : Block) (count : ℕ) (handles : List Handle)
      → 0 < m.groups_size
      → m.groups_size * 2 ≤ 4096
      → m.groups_size < length m.tag_groups
      → find_free 0 m.groups_size m.tag_groups ≡ none
      → count ≤ 150
      → decode block 0 count 0 ≡ ret handles
      → (m' : Module) × (group_add unset block count m ≡ ok m.groups_size m')
        × (get_elem? m'.tag_groups m.groups_size
            ≡ some (record { flags = 1; size = 0; count = count; members = some handles }))
  unfolding group_add add_filled fill set_members init_group set_bit
  group_add-replaces block count handles p limit longer full few told =
      let few' : ltb tag_group_max_members count ≡ false = ground arith in
      let n = m.groups_size in
      let g : Group = record { flags = 1; size = 0; count = count; members = some handles } in
      (
        set_members (grown unset m) n g,
        (λ i. if few' i then err Error.arg m else add_filled block count (add_place unset m))
            ∙ ap (add_filled block count) (add_place_full p limit (omega arith) full)
            ∙ (λ i. fill (grown unset m) n count (grown_next p (omega arith) i) (told i)),
        get_elem?-set_self (grown unset m).tag_groups n g
            (lt-of_get_elem? (grown unset m).tag_groups n _ (grown_next p (omega arith))),
      )
