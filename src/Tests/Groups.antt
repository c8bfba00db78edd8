-- ===== src/Tests/Groups.antt =====
-- The theorems on groups at modules without a group and with more than they know of.
use open_dax.Base.{
  ℕ, zero, suc, ◌≢◌, ◌≡◌, refl, ap, sym, ◌∙◌, true, List, [], ◌∷◌, some, get_elem?, ok, ret, arith,
  none,
}
use open_dax.Base.Int.{pos}
use open_dax.Memory.{Block}
use open_dax.Types.{dax_byte}
use open_dax.Server.{Handle, Group, Module, Server}
use open_dax.Groups.Cleanup.{cleanup_loop, groups_cleanup}
use open_dax.Groups.Halved.{after, groups_cleanup-half}
use open_dax.Groups.Members.{group_write}
use open_dax.Groups.Spared.{group_write-SameAt}
use open_dax.Store.Spared.{SameAt}
use open_dax.Tests.Samples.{tag_ab, one_tag, no_floats}
use open_dax.Groups.{is_used, group_add, decode, find_free}
use open_dax.Groups.Adding.{AddedTo, group_add-AddedTo, group_add-replaces}

-- Two bytes of tag 5, from byte 1 on.
abbrev handle_bytes : Block
handle_bytes =
    5 ∷ 0 ∷ 0 ∷ 0 ∷ 1 ∷ 0 ∷ 0 ∷ 0 ∷ 0 ∷ 2 ∷ 0 ∷ 0 ∷ 0 ∷ 2 ∷ 0 ∷ 0 ∷ 0 ∷ 3 ∷ 0 ∷ 0 ∷ 0 ∷ []

abbrev two_bytes : Handle
two_bytes = record { index = pos 5; byte = 1; bit = 0; count = 2; size = 2; type = dax_byte }

-- A module with two groups in use, of which it knows one: what is left after deleting a group of
-- three, and adding it again.
abbrev old_group : ℕ → Group
old_group n = record { flags = 1; size = 0; count = n; members = some [] }

abbrev client : List Group → ℕ → Module
client gs n = record {
  id = 1;
  name = [];
  fd = pos 4;
  tagindex = 0;
  timeout = 0;
  event_count = pos 0;
  tag_groups = gs;
  groups_size = n;
}

decode_told : decode handle_bytes 0 1 0 ≡ ret (two_bytes ∷ [])
unfolding decode
decode_told = refl

one_full : find_free 0 1 (old_group 0 ∷ old_group 0 ∷ []) ≡ none
unfolding find_free
one_full = refl

group_add-AddedTo_example :
    AddedTo (client [] 0) handle_bytes 1 (group_add (λ n. 7) handle_bytes 1 (client [] 0))
group_add-AddedTo_example =
    group_add-AddedTo (λ n. 7) (client [] 0) handle_bytes 1 (omega arith) refl

group_add-replaces_example :
    (m' : Module) × (group_add (λ n. 7) handle_bytes 1 (client (old_group 0 ∷ old_group 0 ∷ []) 1)
      ≡ ok 1 m')
    × (get_elem? m'.tag_groups 1
        ≡ some (record { flags = 1; size = 0; count = 1; members = some (two_bytes ∷ []) }))
group_add-replaces_example =
    group_add-replaces (λ n. 7) (client (old_group 0 ∷ old_group 0 ∷ []) 1) handle_bytes 1
      (two_bytes ∷ []) (omega arith) (omega arith) (omega arith) one_full (omega arith) decode_told

-- Two tags, and a group of two bytes of the first.
abbrev two_tags : Server
two_tags = record one_tag { db = tag_ab ∷ tag_ab ∷ [] }

abbrev first_bytes : Handle
first_bytes = record { index = pos 0; byte = 1; bit = 0; count = 2; size = 2; type = dax_byte }

abbrev reader : Module
reader =
    client (record { flags = 1; size = 0; count = 1; members = some (first_bytes ∷ []) } ∷ []) 1

group_write-SameAt_example :
    SameAt 1 two_tags (group_write no_floats reader 0 (8 ∷ 9 ∷ []) two_tags)
group_write-SameAt_example =
    group_write-SameAt 1 no_floats reader 0 (8 ∷ 9 ∷ []) two_tags only_first
  where
    only_first : (k : ℕ) (h : Handle) → get_elem? (first_bytes ∷ []) k ≡ some h → h.index ≢ pos 1
    only_first zero h at e = cc
    only_first (suc k) h at e = cc

abbrev three_groups : Module
three_groups = client (old_group 0 ∷ old_group 1 ∷ old_group 2 ∷ []) 3

groups_cleanup-half_example :
    (cleanup_loop 3 0 three_groups ≡ ok tt (after 2 three_groups))
    × (groups_cleanup three_groups ≡ ok tt (client [] 0))
groups_cleanup-half_example = groups_cleanup-half three_groups refl (omega arith) in_use
  where
    used : (g h : Group) → is_used g ≡ true → some g ≡ some h → is_used h ≡ true
    used g h u e = let same : g ≡ h = cc in ap is_used (sym same) ∙ u

    in_use : (i : ℕ) (g : Group) → get_elem? three_groups.tag_groups i ≡ some g → is_used g ≡ true
    in_use zero g e = used (old_group 0) g refl e
    in_use (suc zero) g e = used (old_group 1) g refl e
    in_use (suc (suc zero)) g e = used (old_group 2) g refl e
    in_use (suc (suc (suc i))) g e = cc
