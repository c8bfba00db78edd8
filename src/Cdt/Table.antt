-- ===== src/Cdt/Table.antt =====
-- `cdt_create` of src/server/tagbase.c keeps the table of datatypes stratified.
use open_dax.Base.{
  ℕ, zero, suc, ◌+◌, ◌≤◌, ◌<◌, ◌^◌, ◌≡◌, sym, ap, ◌∙◌, inl, inr, true, false, List, [], ◌∷◌, ◌++◌,
  some, arith, length, length-append, get_elem?, get_elem?-append_left, get_elem?-append_right,
  lt-of_get_elem?, Bool-cases, Option-cases, Result, ret, fail, crash, and_then-ret, or_fail,
  or_fail-ret, check, Error, subst,
}
use native.Mathlib.Decide.{dec_lt}
use open_dax.Text.{CString, strtok, same_nocase, strtol_u32}
use open_dax.Types.{TagType, is_custom, cdt_to_index, cdt_to_type, is_base}
use open_dax.Cdt.{
  Member, Datatype, checktype, validate_name, base_names, find_base, find_custom, cdt_get_type,
  append_member, cdt_append, append_all, serialize_datatype, create_known, create_new,
  cdt_create_named, cdt_create,
}
use open_dax.Cdt.Size.{AllBelow, IsStratified}

-- A valid type that is no compound type.
abbrev IsPlain : List Datatype → TagType → Type 0
IsPlain dts t = (checktype dts t ≡ true) × (is_custom t ≡ false)

abbrev AllPlain : List Datatype → List (CString × TagType) → Type 0
AllPlain dts [] = Unit {0}
AllPlain dts ((n, t) ∷ rest) = IsPlain dts t × AllPlain dts rest

find_base-IsPlain :
    (dts : List Datatype) (name : CString) (l : List (CString × TagType)) (t : TagType)
    → AllPlain dts l
    → find_base name l ≡ some t
    → IsPlain dts t
unfolding find_base
find_base-IsPlain dts name [] t all e = cc
find_base-IsPlain dts name ((n, u) ∷ rest) t all e = elim (Bool-cases (same_nocase name n)) [
  | inl hit ↦ subst (IsPlain dts) (ground arith) all.0
  | inr miss ↦ find_base-IsPlain dts name rest t all.1 (ground arith)
]

base_names-AllPlain : (dts : List Datatype) → AllPlain dts base_names
unfolding checktype is_base
base_names-AllPlain dts = ground arith

find_custom-place :
    (name : CString) (n : ℕ) (ds : List Datatype) (t : TagType)
    → find_custom name n ds ≡ some t
    → (k : ℕ) × (t ≡ cdt_to_type k) × (n ≤ k) × (k < n + length ds)
unfolding find_custom
find_custom-place name n [] t e = cc
find_custom-place name n (d ∷ ds) t e = elim (Bool-cases (same_nocase name d.name)) [
  | inl hit ↦ (n, ground arith, omega arith, omega arith)
  | inr miss ↦
      let (k, eq, le, lt) = find_custom-place name (suc n) ds t (ground arith) in
      (k, eq, omega arith, omega arith)
]

cdt_to_type-small : (k : ℕ) → k < 2 ^ 30 → cdt_to_type k ≡ k + 2 ^ 31
cdt_to_type-small k h = ground arith

custom-checktype :
    (dts : List Datatype) (k : ℕ)
    → k < length dts
    → length dts ≤ 2 ^ 30
    → (checktype dts (cdt_to_type k) ≡ true) × (cdt_to_index (cdt_to_type k) ≡ k)
unfolding checktype
custom-checktype dts k h small = rw (cdt_to_type-small k (omega arith)) (ground arith, omega arith)

-- A type that `cdt_get_type` finds is valid, and a compound one has its place in the table.
cdt_get_type-valid :
    (dts : List Datatype) (name : CString) (t : TagType)
    → length dts ≤ 2 ^ 30
    → cdt_get_type dts name ≡ some t
    → (checktype dts t ≡ true) × (is_custom t ≡ true → cdt_to_index t < length dts)
unfolding cdt_get_type
cdt_get_type-valid dts name t small e = elim (Option-cases (find_base name base_names)) [
  | inl none_ ↦
      let (k, eq, _, lt) = find_custom-place name 0 dts t (ground arith) in
      let valid = custom-checktype dts k (omega arith) small in
      (ground (arith, valid), λ _. ground (arith, valid))
  | inr (u, found) ↦
      let plain =
        find_base-IsPlain dts name base_names t (base_names-AllPlain dts) (ground arith) in
      (plain.0, λ c. absurd (ground arith))
]

AllBelow-append :
    (dts : List Datatype) (i : ℕ) (ms ns : List Member)
    → AllBelow dts i ms
    → AllBelow dts i ns
    → AllBelow dts i (ms ++ ns)
AllBelow-append dts i [] ns p q = q
AllBelow-append dts i (m ∷ ms) ns p q = (p.0, AllBelow-append dts i ms ns p.1 q)

module _ (dts : List Datatype) (small : length dts ≤ 2 ^ 30) where
  append_member-AllBelow :
      (ms ms' : List Member) (name typestr countstr : CString)
      → AllBelow dts (length dts) ms
      → append_member dts ms name typestr countstr ≡ ret ms'
      → AllBelow dts (length dts) ms'
  unfolding append_member
  append_member-AllBelow ms ms' name typestr countstr below e =
      let (_, _, e₁) = and_then-ret (check (validate_name name)) _ ms' e in
      let (t, found, e₂) = and_then-ret (or_fail (cdt_get_type dts typestr) Error.arg) _ ms' e₁ in
      let valid = cdt_get_type-valid dts typestr t small (or_fail-ret _ _ t found) in
      subst (AllBelow dts (length dts)) (ground arith) (
        AllBelow-append dts (length dts) ms
          (record { name = name; type = t; count = strtol_u32 countstr } ∷ []) below (valid, tt))

  cdt_append-AllBelow :
      (ms ms' : List Member) (str : CString)
      → AllBelow dts (length dts) ms
      → cdt_append dts ms str ≡ ret ms'
      → AllBelow dts (length dts) ms'
  unfolding cdt_append
  cdt_append-AllBelow ms ms' str below e =
      let ((name, s₁), _, e₁) = and_then-ret (or_fail (strtok b',' str) Error.arg) _ ms' e in
      let ((typestr, s₂), _, e₂) = and_then-ret (or_fail (strtok b',' s₁) Error.arg) _ ms' e₁ in
      let ((countstr, s₃), _, e₃) = and_then-ret (or_fail (strtok b',' s₂) Error.arg) _ ms' e₂ in
      append_member-AllBelow ms ms' name typestr countstr below e₃

  append_all-AllBelow :
      (fuel : ℕ) (ms ms' : List Member) (str : CString)
      → AllBelow dts (length dts) ms
      → append_all fuel dts ms str ≡ ret ms'
      → AllBelow dts (length dts) ms'
  unfolding append_all
  append_all-AllBelow zero ms ms' str below e = cc
  append_all-AllBelow (suc fuel) ms ms' str below e = elim (Option-cases (strtok b':' str)) [
    | inl done ↦ subst (AllBelow dts (length dts)) (ground arith) below
    | inr ((member, rest), more) ↦
        let (next, appended, e₁) =
          and_then-ret (cdt_append dts ms member) (λ found. append_all fuel dts found rest) ms'
            (ground arith) in
        append_all-AllBelow fuel next ms' rest (cdt_append-AllBelow ms next member below appended)
          e₁
  ]

checktype_mono :
    (dts more : List Datatype) (t : TagType)
    → checktype dts t ≡ true
    → checktype (dts ++ more) t ≡ true
unfolding checktype
checktype_mono dts more t h = ground (arith, length-append dts more)

AllBelow-mono :
    (dts more : List Datatype) (i : ℕ) (ms : List Member)
    → AllBelow dts i ms
    → AllBelow (dts ++ more) i ms
AllBelow-mono dts more i [] h = tt
AllBelow-mono dts more i (m ∷ ms) h =
    ((checktype_mono dts more m.type h.0.0, h.0.1), AllBelow-mono dts more i ms h.1)

IsStratified-snoc :
    (dts : List Datatype) (d : Datatype)
    → IsStratified dts
    → AllBelow dts (length dts) d.members
    → IsStratified (dts ++ (d ∷ []))
IsStratified-snoc dts d w below i x at = elim (dec_lt i (length dts)) [
  | yes p ↦
      AllBelow-mono dts (d ∷ []) i x.members (w i x (sym (get_elem?-append_left dts _ i p) ∙ at))
  | no p ↦
      let inside = lt-of_get_elem? (dts ++ (d ∷ [])) i x at in
      let last : i ≡ length dts = omega (arith, length-append dts (d ∷ [])) in
      let same : some d ≡ some x =
        sym (get_elem?-append_right dts (d ∷ []) 0)
        ∙ ap (get_elem? (dts ++ (d ∷ []))) (omega arith)
        ∙ at in
      AllBelow-mono dts (d ∷ []) i x.members (
        subst (λ j. AllBelow dts j x.members) (sym last)
          (subst (λ y. AllBelow dts (length dts) y.members) (let eq : d ≡ x = cc in eq) below))
]

create_known-table :
    (dts dts' : List Datatype) (str : CString) (known type : TagType) (serial : Result CString)
    → create_known dts str known serial ≡ ret (type, dts')
    → dts ≡ dts'
unfolding create_known
create_known-table dts dts' str known type (ret serial) e = ground arith
create_known-table dts dts' str known type (fail code) e = cc
create_known-table dts dts' str known type crash e = cc

create_new-IsStratified :
    (dts dts' : List Datatype) (name rest : CString) (type : TagType)
    → length dts ≤ 2 ^ 30
    → IsStratified dts
    → create_new dts name rest ≡ ret (type, dts')
    → IsStratified dts' × (length dts' ≤ length dts + 1)
unfolding create_new
create_new-IsStratified dts dts' name rest type small w e =
    let (members, built, e₁) =
      and_then-ret (append_all (suc (length rest)) dts [] rest) _ (type, dts') e in
    let entry : Datatype = record { name = name; flags = 0; refcount = 0; members = members } in
    let grown : dts ++ (entry ∷ []) ≡ dts' = cc in
    let below = append_all-AllBelow dts small (suc (length rest)) [] members rest tt built in
    (
      subst IsStratified grown (IsStratified-snoc dts entry w below),
      subst (λ l. length l ≤ length dts + 1) grown (omega (arith, length-append dts (entry ∷ []))),
    )

-- `cdt_create` adds at most one entry, and only entries whose members are valid and of earlier
-- compound types, so that the table stays stratified: while it has at most 2 ^ 30 entries.
pub cdt_create-IsStratified :
    (dts dts' : List Datatype) (str : CString) (type : TagType)
    → length dts ≤ 2 ^ 30
    → IsStratified dts
    → cdt_create dts str ≡ ret (type, dts')
    → IsStratified dts' × (length dts' ≤ length dts + 1)
unfolding cdt_create
cdt_create-IsStratified dts dts' str type small w e = elim (Option-cases (strtok b':' str)) [
  | inl blank ↦ absurd (ground arith)
  | inr ((name, rest), token) ↦
      let named : cdt_create_named dts str name rest ≡ ret (type, dts') = ground arith in
      let (_, _, e₁) = and_then-ret (check (validate_name name)) _ (type, dts') named in
      elim (Option-cases (cdt_get_type dts name)) [
        | inl new ↦ create_new-IsStratified dts dts' name rest type small w (ground arith)
        | inr (known, found) ↦
            let same =
              create_known-table dts dts' str known type (serialize_datatype dts known)
                (ground arith) in
            (subst IsStratified same w, subst (λ l. length l ≤ length dts + 1) same (omega arith))
      ]
]
