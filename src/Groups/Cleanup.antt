-- ===== src/Groups/Cleanup.antt =====
-- `groups_cleanup` of src/server/groups.c, which deletes the groups of a module and frees the array.
use open_dax.Base.{
  ℕ, zero, suc, ◌+◌, ◌-◌, ◌%◌, ◌^◌, ◌<◌, ◌≤◌, ◌≡◌, refl, ap, sym, ◌∙◌, subst, Bool, true, false,
  ltb, if◌then◌else◌, Bool-cases, inl, inr, [], none, length, set, Error, Outcome, ok, err, fault,
  ◌>>◌, attempt, arith, get_elem?-of_lt, length-set,
}
use open_dax.Server.{Group, Module}
use open_dax.Groups.{is_used, del_at, group_del}

-- The loop, from the number `n` on: its bound is read again in each round, and the error that a call
-- returns is dropped. The fuel is the bound at first, and running out of it counts as not defined.
unfoldable pub cleanup_loop : ℕ → ℕ → Module → Outcome Module (Unit {0})
unfolding group_del
cleanup_loop zero n m = if ltb n m.groups_size then fault else ok tt m
cleanup_loop (suc fuel) n m =
    if ltb n m.groups_size then (attempt (group_del n) >> cleanup_loop fuel (n + 1)) m else ok tt m

abbrev no_groups : Module → Outcome Module (Unit {0})
no_groups m = ok tt (record m { tag_groups = []; groups_size = 0 })

-- `groups_cleanup`
unfoldable pub groups_cleanup : Module → Outcome Module (Unit {0})
unfolding cleanup_loop
groups_cleanup m = (cleanup_loop m.groups_size 0 >> no_groups) m

-- The module is as `m`, its groups aside, and its array is at least as long as it says.
record Left (m m' : Module) : Type 0 where
  rest :
      record m' { tag_groups = []; groups_size = 0 } ≡ record m { tag_groups = []; groups_size = 0 }
  room : m'.groups_size ≤ length m'.tag_groups
  small : m'.groups_size ≤ m.groups_size

abbrev Leaves : Module → Outcome Module (Unit {0}) → Type 0
Leaves m (ok a m') = Left m m'
Leaves m (err e m') = ⊥
Leaves m fault = ⊥

Left-trans : (m m' m'' : Module) → Left m m' → Left m' m'' → Left m m''
Left-trans m m' m'' l k = record {
  rest = k.rest ∙ l.rest;
  room = k.room;
  small = omega (arith, l.small, k.small);
}

Leaves-trans :
    (m m' : Module) (o : Outcome Module (Unit {0})) → Left m m' → Leaves m' o → Leaves m o
Leaves-trans m m' (ok a m'') l k = Left-trans m m' m'' l k
Leaves-trans m m' (err e m'') l k = elim k [ ]
Leaves-trans m m' fault l k = elim k [ ]

group_del-Leaves :
    (m : Module) (n : ℕ)
    → m.groups_size ≤ length m.tag_groups
    → m.groups_size ≤ 4096
    → n < m.groups_size
    → Leaves m (attempt (group_del n) m)
unfolding group_del del_at
group_del-Leaves m n room few h =
    let (g, at) = get_elem?-of_lt m.tag_groups n (omega arith) in
    subst (λ o. Leaves m (attempt (λ m. del_at m n o) m)) (sym at) (go g (is_used g))
  where
    go :
        (g : Group) (b : Bool)
        → Leaves m (
            attempt
              (λ m.
                if b
                then ok tt (record m {
                  tag_groups =
                      set m.tag_groups n (record g { flags = 0; count = 0; members = none });
                  groups_size = (m.groups_size + (2 ^ 32 - 1)) % 2 ^ 32;
                })
                else err Error.notfound m)
              m)
    go g true =
        let less : (m.groups_size + (2 ^ 32 - 1)) % 2 ^ 32 ≤ m.groups_size = omega arith in
        record {
          rest = refl;
          room = omega (
            arith,
            length-set m.tag_groups n (record g { flags = 0; count = 0; members = none }),
          );
          small = less;
        }
    go g false = record { rest = refl; room = room; small = omega arith }

cleanup_loop-Leaves :
    (fuel n : ℕ) (m : Module)
    → m.groups_size ≤ length m.tag_groups
    → m.groups_size ≤ 4096
    → m.groups_size ≤ n + fuel
    → Leaves m (cleanup_loop fuel n m)
unfolding cleanup_loop
cleanup_loop-Leaves zero n m room few enough =
    let e : ltb n m.groups_size ≡ false = ground arith in
    rw e (record { rest = refl; room = room; small = omega arith })
cleanup_loop-Leaves (suc fuel) n m room few enough = elim (Bool-cases (ltb n m.groups_size)) [
  | inl e ↦ rw e (
      round (attempt (group_del n) m) (group_del-Leaves m n room few (ground arith)) (λ m' l.
        cleanup_loop-Leaves fuel (n + 1) m' l.room (omega (arith, l.small))
          (omega (arith, l.small))))
  | inr e ↦ rw e (record { rest = refl; room = room; small = omega arith })
]
  where
    round :
        (o : Outcome Module (Unit {0}))
        → Leaves m o
        → ((m' : Module) → Left m m' → Leaves m' (cleanup_loop fuel (n + 1) m'))
        → Leaves m (elim o [
          | ok a m' ↦ cleanup_loop fuel (n + 1) m'
          | err e m' ↦ err e m'
          | fault ↦ fault
        ])
    round (ok a m') l ih = Leaves-trans m m' _ l (ih m' l)
    round (err e m') l ih = elim l [ ]
    round fault l ih = elim l [ ]

-- For a module with an array of at most 4096 groups, which is at least as long as it says,
-- `groups_cleanup` ends, and leaves the module with no groups and otherwise as it was.
pub groups_cleanup-empty :
    (m : Module)
    → m.groups_size ≤ length m.tag_groups
    → m.groups_size ≤ 4096
    → groups_cleanup m ≡ ok tt (record m { tag_groups = []; groups_size = 0 })
unfolding groups_cleanup
groups_cleanup-empty m room few =
    done (cleanup_loop m.groups_size 0 m)
      (cleanup_loop-Leaves m.groups_size 0 m room few (omega arith))
  where
    done :
        (o : Outcome Module (Unit {0}))
        → Leaves m o
        → elim o [ ok a m' ↦ no_groups m' | err e m' ↦ err e m' | fault ↦ fault ]
          ≡ ok tt (record m { tag_groups = []; groups_size = 0 })
    done (ok a m') l = ap (ok tt) l.rest
    done (err e m') l = elim l [ ]
    done fault l = elim l [ ]
