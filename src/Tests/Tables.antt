-- ===== src/Tests/Tables.antt =====
-- The theorems on the name index, the queues and the datatypes at small values.
use open_dax.Base.{
  Result, ℕ, zero, suc, ◌≡◌, ◌≢◌, ◌≤◌, ◌<◌, ◌%◌, ◌+◌, refl, sym, ◌∙◌, subst, List, [], ◌∷◌, none,
  some, length, get_elem?, if◌then◌else◌, fault, Error, ret, arith, true, false, Bool, not, ◌/◌,
  fail,
}
use open_dax.Base.Int.{pos}
use open_dax.Text.{codes, strcmp, same_nocase, strtol_u32}
use open_dax.Types.{
  typesize, TagType, dax_dint, dax_bool, is_base, is_custom, cdt_to_index, cdt_to_type,
}
use open_dax.Cdt.{custom_size, Datatype, type_size, type_size_fuel, checktype, cdt_create}
use open_dax.Cdt.Size.{AllBelow, IsStratified, type_size-fuel}
use open_dax.Cdt.Total.{NoEmptyTypes, type_size-total, type_size-empty_member}
use open_dax.Cdt.Table.{cdt_create-IsStratified}
use open_dax.NameIndex.{Entry, get_by_name, add_index, del_index}
use open_dax.NameIndex.Sorted.{IsSorted, assoc, same_name}
use open_dax.NameIndex.Laws.{Holds, get_by_name-assoc, add_index-Holds, del_index-Holds}
use open_dax.TagQueue.{area, unset, TagQueue, new_queue, write_queue, read_queue}
use open_dax.TagQueue.Inv.{Inv, new_queue-Inv}
use open_dax.TagQueue.Fifo.{
  Appended, Reads, contents, write_queue-Appended, read_queue-Reads, write_queue-full,
}

abbrev three_names : List Entry
three_names =
    record { name = codes "a"; tag_idx = 4 }
    ∷ record { name = codes "ab"; tag_idx = 0 }
    ∷ record { name = codes "c"; tag_idx = 7 }
    ∷ []

three_names-IsSorted : IsSorted three_names
unfolding strcmp
three_names-IsSorted = ((refl, (refl, tt)), ((refl, tt), (tt, tt)))

get_by_name-assoc_example : get_by_name (codes "c") three_names ≡ assoc (codes "c") three_names
get_by_name-assoc_example = get_by_name-assoc (codes "c") three_names three_names-IsSorted

lacks_b : get_by_name (codes "b") three_names ≡ none
unfolding get_by_name strcmp
lacks_b = refl

add_index-Holds_example :
    Holds
      (λ k. if same_name k (codes "b") then some 9 else get_by_name k three_names)
      (add_index (codes "b") 9 three_names)
add_index-Holds_example = add_index-Holds (codes "b") 9 three_names three_names-IsSorted lacks_b

has_ab : get_by_name (codes "ab") three_names ≡ some 0
unfolding get_by_name strcmp
has_ab = refl

del_index-Holds_example :
    Holds
      (λ k. if same_name k (codes "ab") then none else get_by_name k three_names)
      (del_index (codes "ab") three_names)
del_index-Holds_example = del_index-Holds (codes "ab") 0 three_names three_names-IsSorted has_ab

-- A queue of entries of two bytes.
abbrev fresh_queue : TagQueue
fresh_queue = new_queue 3 2 2

fresh_queue-room : fresh_queue.qcount < fresh_queue.qsize
unfolding new_queue
fresh_queue-room = omega arith

fresh_queue-size : length {A = ℕ} (7 ∷ 8 ∷ []) ≡ fresh_queue.size
unfolding new_queue
fresh_queue-size = refl

write_queue-Appended_example :
    Appended fresh_queue
      (new_queue-Inv 3 2 2)
      fresh_queue-room
      (7 ∷ 8 ∷ [])
      (write_queue fresh_queue (pos 0) (7 ∷ 8 ∷ []))
write_queue-Appended_example =
    write_queue-Appended fresh_queue (new_queue-Inv 3 2 2) fresh_queue-room (7 ∷ 8 ∷ [])
      fresh_queue-size

-- A queue that has one place, and is full.
abbrev full_queue : TagQueue
full_queue = record {
  type = 3;
  count = 2;
  size = 2;
  qsize = 1;
  qcount = 1;
  qread = 0;
  queue = area 0 ∷ [];
  areas = (5 ∷ 6 ∷ []) ∷ [];
}

full_queue-Inv : Inv full_queue
full_queue-Inv = record {
  whole = refl;
  nonempty = omega arith;
  read_in = omega arith;
  count_in = omega arith;
  no_unset = no_unset;
  used = used;
  apart = apart;
  allocated = allocated;
}
  where
    no_unset : (i : ℕ) → get_elem? full_queue.queue i ≢ some unset
    no_unset zero = λ e. cc
    no_unset (suc i) = λ e. cc

    used : (k : ℕ) → k < 1 → (a : ℕ) × (get_elem? full_queue.queue ((0 + k) % 1) ≡ some (area a))
    used zero h = (0, refl)
    used (suc k) h = absurd (omega arith)

    apart :
        (i j a : ℕ)
        → get_elem? full_queue.queue i ≡ some (area a)
        → get_elem? full_queue.queue j ≡ some (area a)
        → i ≡ j
    apart zero zero a h h' = refl
    apart zero (suc j) a h h' = cc
    apart (suc i) j a h h' = cc

    allocated : (i a : ℕ) → get_elem? full_queue.queue i ≡ some (area a) → a < 1
    allocated zero a h = let e : some (area 0) ≡ some (area a) = h in ground arith
    allocated (suc i) a h = cc

read_queue-Reads_example :
    Reads full_queue full_queue-Inv (contents full_queue) (read_queue full_queue)
read_queue-Reads_example = read_queue-Reads full_queue full_queue-Inv

write_queue-full_example : write_queue full_queue (pos 0) (7 ∷ 8 ∷ []) ≡ fault
write_queue-full_example = write_queue-full full_queue full_queue-Inv (7 ∷ 8 ∷ []) refl refl

-- A compound type of a DINT and three BOOLs.
abbrev pair : List Datatype
pair =
    record {
      name = codes "Pair";
      flags = 0;
      refcount = 0;
      members =
          record { name = codes "x"; type = dax_dint; count = 1 }
          ∷ record { name = codes "y"; type = dax_bool; count = 3 }
          ∷ [];
    }
    ∷ []

pair-IsStratified : IsStratified pair
unfolding checktype is_base
pair-IsStratified zero d at =
    subst (λ o. elim o [ none ↦ Unit {0} | some d ↦ AllBelow pair 0 d.members ]) at
      ((refl, λ c. cc), ((refl, λ c. cc), tt))
pair-IsStratified (suc i) d at = cc

type_size-fuel_example : type_size_fuel 1 pair (cdt_to_type 0) ≡ type_size pair (cdt_to_type 0)
type_size-fuel_example =
    type_size-fuel pair 1 (cdt_to_type 0) pair-IsStratified (omega arith) (omega arith)

pair-size : type_size pair (cdt_to_type 0) ≡ ret 5
unfolding type_size type_size_fuel is_base
pair-size = refl

-- What `type_size` gives at any word for the first entry.
pair-sized :
    (t : TagType) (valid : Bool) (n : ℕ)
    → is_custom t ≡ true
    → n ≡ 0
    → (if not valid
        then fail Error.notfound
        else if is_custom t
        then custom_size (type_size_fuel 1 pair) (get_elem? pair n)
        else ret (typesize t / 8))
      ≢ ret 0
unfolding custom_size type_size_fuel is_base
pair-sized t false n c z e = cc
pair-sized t true zero c z e =
    let five : ◌≡◌ {A = Result ℕ} (ret 5) (ret 0) =
      sym (λ i.
        if c i
        then custom_size (type_size_fuel 1 pair) (get_elem? pair 0)
        else ret (typesize t / 8))
      ∙ e in
    ground arith
pair-sized t true (suc n) c z e = absurd (omega arith)

pair-NoEmptyTypes : NoEmptyTypes pair
unfolding type_size type_size_fuel
pair-NoEmptyTypes t c h e = pair-sized t (checktype pair t) (cdt_to_index t) c (omega arith) e

pair-checktype : checktype pair (cdt_to_type 0) ≡ true
unfolding checktype is_base
pair-checktype = refl

type_size-total_example : (s : ℕ) × (type_size pair (cdt_to_type 0) ≡ ret s)
type_size-total_example =
    type_size-total pair (cdt_to_type 0) pair-IsStratified pair-NoEmptyTypes pair-checktype
      (omega arith)

-- A type without members, and a type with a member of that type.
abbrev with_empty : List Datatype
with_empty =
    record { name = codes "E"; flags = 0; refcount = 0; members = [] }
    ∷ record {
      name = codes "F";
      flags = 0;
      refcount = 0;
      members = record { name = codes "e"; type = cdt_to_type 0; count = 1 } ∷ [];
    }
    ∷ []

abbrev outer : Datatype
outer = record {
  name = codes "F";
  flags = 0;
  refcount = 0;
  members = record { name = codes "e"; type = cdt_to_type 0; count = 1 } ∷ [];
}

with_empty-IsStratified : IsStratified with_empty
unfolding checktype is_base
with_empty-IsStratified zero d at =
    subst (λ o. elim o [ none ↦ Unit {0} | some d ↦ AllBelow with_empty 0 d.members ]) at tt
with_empty-IsStratified (suc zero) d at =
    subst (λ o. elim o [ none ↦ Unit {0} | some d ↦ AllBelow with_empty 1 d.members ]) at
      ((refl, λ c. omega arith), tt)
with_empty-IsStratified (suc (suc i)) d at = cc

empty-size : type_size with_empty (cdt_to_type 0) ≡ ret 0
unfolding type_size type_size_fuel is_base
empty-size = refl

type_size-empty_member_example : type_size with_empty (cdt_to_type 1) ≢ ret 8
type_size-empty_member_example =
    type_size-empty_member with_empty (cdt_to_type 1) outer 0
      (record { name = codes "e"; type = cdt_to_type 0; count = 1 }) 8 with_empty-IsStratified refl
      refl refl refl empty-size

-- The definition that makes the table `pair`.
pair-created : cdt_create [] (codes "Pair:x,DINT,1:y,BOOL,3") ≡ ret (cdt_to_type 0, pair)
unfolding cdt_create same_nocase strtol_u32
pair-created = refl

none-IsStratified : IsStratified []
none-IsStratified i d at = cc

cdt_create-IsStratified_example : IsStratified pair × (length pair ≤ length {A = Datatype} [] + 1)
cdt_create-IsStratified_example =
    cdt_create-IsStratified [] pair (codes "Pair:x,DINT,1:y,BOOL,3") (cdt_to_type 0) (omega arith)
      none-IsStratified pair-created
