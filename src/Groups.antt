-- ===== src/Groups.antt =====
-- The tag groups of a module: src/server/groups.c. A group is an entry of an array that the module
-- grows; the place of an entry is the group's number.
pub mod Laws
pub mod Members
pub mod Spared
pub mod Cleanup
pub mod Halved
pub mod Decoding
pub mod Adding
use open_dax.Base.{
  ℕ, zero, suc, ◌+◌, ◌-◌, ◌*◌, ◌%◌, ◌^◌, Bool, true, false, ◌==◌, ltb, leb, if◌then◌else◌, List, [],
  ◌∷◌, ◌++◌, Option, none, some, length, get_elem?, set, take, drop, replicate, Error, Outcome, ok,
  err, fault, Result, ret, fail, crash, and_then, or_crash,
}
use open_dax.Base.Int.{ℤ, pos, signed}
use open_dax.Base.Bits.{test_bit, set_bit}
use open_dax.Memory.{Block, slice, little_endian, byte_at}
use open_dax.Server.{Handle, Group, Module}

abbrev pub tag_group_start_count : ℕ
tag_group_start_count = 16

abbrev pub tag_group_max_count : ℕ
tag_group_max_count = 4096

abbrev pub tag_group_max_members : ℕ
tag_group_max_members = 150

abbrev pub msg_tag_group_data_size : ℕ
msg_tag_group_data_size = 4084

-- GRP_FLAG_NOT_EMPTY is bit 0.
abbrev pub is_used : Group → Bool
is_used g = test_bit g.flags 0

-- `_init_group`, on an entry that `malloc` or `realloc` gave; `count` keeps what was there.
unfoldable pub init_group : ℕ → Group
init_group count = record { flags = 0; size = 0; count = count; members = none }

unfoldable pub init_groups : (ℕ → ℕ) → ℕ → ℕ → List Group
unfolding init_group
init_groups unset n zero = []
init_groups unset n (suc k) = init_group (unset n) ∷ init_groups unset (n + 1) k

-- The first of `k` entries from place `n` on that is not in use.
unfoldable pub find_free : ℕ → ℕ → List Group → Option ℕ
find_free n zero gs = none
find_free n (suc k) [] = none
find_free n (suc k) (g ∷ gs) = if is_used g then find_free (n + 1) k gs else some n

-- The first allocation of the array.
unfoldable pub started : (ℕ → ℕ) → Module → Module
unfolding init_groups
started unset m =
    if m.groups_size == 0
    then record m {
      tag_groups = init_groups unset 0 tag_group_start_count;
      groups_size = tag_group_start_count;
    }
    else m

-- The array doubled: the entries from the old size on are new.
unfoldable pub grown : (ℕ → ℕ) → Module → Module
unfolding init_groups
grown unset m = record m {
  tag_groups = take m.groups_size m.tag_groups ++ init_groups unset m.groups_size m.groups_size;
  groups_size = m.groups_size * 2;
}

-- The place that `_group_add` chooses, and the module with it. A search that has left the array is
-- not defined; an array of 2 ^ 31 groups does not occur.
unfoldable pub choose : (ℕ → ℕ) → Module → Option ℕ → Outcome Module ℕ
unfolding grown
choose unset m (some n) = ok n m
choose unset m none =
    if ltb (length m.tag_groups) m.groups_size
    then fault
    else if ltb tag_group_max_count (m.groups_size * 2)
    then err Error.too_big m
    else ok m.groups_size (grown unset m)

-- `_group_add`
unfoldable pub add_place : (ℕ → ℕ) → Module → Outcome Module ℕ
unfolding started find_free choose
add_place unset m =
    let m' = started unset m in choose unset m' (find_free 0 m'.groups_size m'.tag_groups)

-- The handle in 21 bytes of a message.
unfoldable pub field : ℕ → ℕ → Block → Result ℕ
unfolding slice little_endian
field offset size block =
    and_then (or_crash (slice offset size block)) (λ bytes. ret (little_endian bytes))

unfoldable pub handle_at : Block → ℕ → Result Handle
unfolding field
handle_at block offset = and_then (field offset 4 block) (λ index.
    and_then (field (offset + 4) 4 block) (λ byte. and_then (byte_at block (offset + 8)) (λ bit.
      and_then (field (offset + 9) 4 block) (λ count.
        and_then (field (offset + 13) 4 block) (λ size.
          and_then (field (offset + 17) 4 block) (λ type. ret (record {
            index = signed 32 index;
            byte = byte;
            bit = bit;
            count = count;
            size = size;
            type = type;
          })))))))

-- The loop of `group_add`: `k` handles from place `n` of the message on, with the sum of the sizes
-- before them. The sum is one of 32 bits.
unfoldable pub decode : Block → ℕ → ℕ → ℕ → Result (List Handle)
unfolding handle_at
decode block n zero total = ret []
decode block n (suc k) total = and_then (handle_at block (21 * n)) (λ h.
    let sum = (total + h.size) % 2 ^ 32 in
    if ltb msg_tag_group_data_size sum
    then fail Error.too_big
    else and_then (decode block (n + 1) k sum) (λ hs. ret (h ∷ hs)))

unfoldable pub set_members : Module → ℕ → Group → Module
set_members m n g = record m { tag_groups = set m.tag_groups n g }

-- The end of `group_add`: the members of the group at place `n`, or no members for an error.
unfoldable pub fill : Module → ℕ → ℕ → Option Group → Result (List Handle) → Outcome Module ℕ
unfolding set_members set_bit
fill m n count none r = fault
fill m n count (some g) crash = fault
fill m n count (some g) (fail e) = err e (set_members m n (record g { members = none }))
fill m n count (some g) (ret hs) =
    ok n
      (set_members m n (record g { members = some hs; flags = set_bit g.flags 0; count = count }))

unfoldable pub add_filled : Block → ℕ → Outcome Module ℕ → Outcome Module ℕ
unfolding fill decode
add_filled block count (ok n m) = fill m n count (get_elem? m.tag_groups n) (decode block 0 count 0)
add_filled block count (err e m) = err e m
add_filled block count fault = fault

-- `group_add`; `unset` is the `count` of an entry that was not set.
unfoldable pub group_add : (ℕ → ℕ) → Block → ℕ → Module → Outcome Module ℕ
unfolding add_place add_filled
group_add unset block count m =
    if ltb tag_group_max_members count
    then err Error.arg m
    else add_filled block count (add_place unset m)

-- `group_del`, at the entry. The freed members are gone. The size of the array, of 32 bits, is one
-- less.
unfoldable pub del_at : Module → ℕ → Option Group → Outcome Module (Unit {0})
del_at m n none = fault
del_at m n (some g) =
    if is_used g
    then ok tt (record m {
      tag_groups = set m.tag_groups n (record g { flags = 0; count = 0; members = none });
      groups_size = (m.groups_size + (2 ^ 32 - 1)) % 2 ^ 32;
    })
    else err Error.notfound m

unfoldable pub group_del : ℕ → Module → Outcome Module (Unit {0})
unfolding del_at
group_del n m = del_at m n (get_elem? m.tag_groups n)
