-- ===== src/Modules/Ring.antt =====
-- The ring of modules of src/server/module.c as a set with repetitions: the order, and which module
-- is the current one, are forgotten.
use mathlib.Core.List.Perm
use mathlib.Core.List.{Perm, perm_append_comm, append_assoc}
use mathlib.Core.Quot.{sound}
use mathlib.Mathlib.Data.Multiset.Defs.{Multiset, of_list}
use open_dax.Base.{
  ℕ, ◌≡◌, ◌≢◌, refl, ap, sym, ◌∙◌, subst, true, List, [], ◌∷◌, ◌++◌, Option, none, some, ==-self,
  Bool-cases, inl, inr, ok, ◌>>◌, >>=-of,
}
use open_dax.Base.Int.{ℤ, pos, equal_ℤ, equal_ℤ→eq, equal_ℤ-self}
use open_dax.Text.{CString}
use open_dax.Server.{Module, Server}
use open_dax.Server.Find.{turn_to, turned, module_find_fd}
use open_dax.Modules.{
  joined_by, module_add, change_module, check_module_tag_exclusion, module_register, register_new,
  module_unregister,
}
use open_dax.Event.{Floats}
use open_dax.Tagbase.{Unset}

-- The modules that are registered.
abbrev pub registered : Server → Multiset Module
registered s = of_list s.modules

-- No module has the descriptor.
abbrev pub NoneHas : ℤ → List Module → Type 0
NoneHas fd [] = Unit
NoneHas fd (m ∷ ms) = (m.fd ≢ fd) × NoneHas fd ms

-- What a search in the ring comes to, where `ms` is left to look through.
abbrev Turned : ℤ → List Module → List Module → Option (Module × List Module) → Type 0
Turned fd all ms none = NoneHas fd ms
Turned fd all ms (some found) =
    (found.0.fd ≡ fd) × ((rest : List Module) × (found.1 ≡ found.0 ∷ rest)) × Perm found.1 all

Turned-behind :
    (fd : ℤ) (all : List Module) (m : Module) (ms : List Module) (o : Option (Module × List Module))
    → m.fd ≢ fd
    → Turned fd all ms o
    → Turned fd all (m ∷ ms) o
Turned-behind fd all m ms none h t = (h, t)
Turned-behind fd all m ms (some found) h t = t

turn_to-Turned :
    (fd : ℤ) (passed ms all : List Module)
    → Perm (passed ++ ms) all
    → Turned fd all ms (turn_to fd passed ms)
unfolding turn_to
turn_to-Turned fd passed [] all p = tt
turn_to-Turned fd passed (m ∷ ms) all p = elim (Bool-cases (equal_ℤ m.fd fd)) [
  | inl e ↦
      rw e (
        equal_ℤ→eq m.fd fd e,
        (ms ++ passed, refl),
        Perm.trans (perm_append_comm (m ∷ ms) passed) p,
      )
  | inr e ↦ rw e (
      Turned-behind fd all m ms (turn_to fd (passed ++ (m ∷ [])) ms)
        (λ q. let b : equal_ℤ m.fd fd ≡ true = ap (λ x. equal_ℤ x fd) q ∙ equal_ℤ-self fd in cc)
        (turn_to-Turned fd (passed ++ (m ∷ [])) ms all
          (subst (λ l. Perm l all) (sym (append_assoc passed (m ∷ []) ms)) p)))
]

-- What a search tells: no module has the descriptor, or this one has it and is then the current one.
abbrev pub Answer : ℤ → Server → Server → Option Module → Type 0
Answer fd s s' none = NoneHas fd s.modules × (s' ≡ s)
Answer fd s s' (some m) =
    (m.fd ≡ fd)
    × ((rest : List Module) × (s' ≡ record s { modules = m ∷ rest }))
    × (registered s' ≡ registered s)

-- `module_find_fd` always returns: with no module where none has the descriptor, and the server as it
-- was; or with a module that has it, which is the current one from then on, while the same modules are
-- registered and nothing else changes.
pub module_find_fd-Answer :
    (fd : ℤ) (s : Server)
    → (o : Option Module) × (s' : Server) × (module_find_fd fd s ≡ ok o s') × Answer fd s s' o
unfolding module_find_fd turned
module_find_fd-Answer fd s =
    go (turn_to fd [] s.modules) (turn_to-Turned fd [] s.modules s.modules (Perm.refl s.modules))
  where
    go :
        (o : Option (Module × List Module))
        → Turned fd s.modules s.modules o
        → (m : Option Module) × (s' : Server) × (turned s o ≡ ok m s') × Answer fd s s' m
    go none t = (none, s, refl, (t, refl))
    go (some found) (has, (rest, is), p) = (
      some found.0,
      record s { modules = found.1 },
      refl,
      (has, (rest, ap (λ l. record s { modules = l }) is), sound p),
    )

-- A new module is in front of the ring, with the others as they are registered.
joined_by-front :
    (m : Module) (ms : List Module)
    → (rest : List Module) × (joined_by m ms ≡ m ∷ rest) × Perm rest ms
joined_by-front m [] = ([], refl, Perm.refl [])
joined_by-front m (c ∷ ms) = (ms ++ (c ∷ []), refl, perm_append_comm ms (c ∷ []))

-- The module that `module_register` makes.
abbrev pub new_module : ℕ → CString → ℕ → ℤ → Module
new_module id name timeout fd = record {
  id = id;
  name = name;
  fd = fd;
  tagindex = 0;
  timeout = timeout;
  event_count = pos 0;
  tag_groups = [];
  groups_size = 0;
}

turn_to-none : (fd : ℤ) (passed ms : List Module) → NoneHas fd ms → turn_to fd passed ms ≡ none
unfolding turn_to
turn_to-none fd passed [] h = refl
turn_to-none fd passed (m ∷ ms) h = elim (Bool-cases (equal_ℤ m.fd fd)) [
  | inl e ↦ absurd (h.0 (equal_ℤ→eq m.fd fd e))
  | inr e ↦ rw e (turn_to-none fd (passed ++ (m ∷ [])) ms h.1)
]

find-none : (fd : ℤ) (s : Server) → NoneHas fd s.modules → module_find_fd fd s ≡ ok none s
unfolding module_find_fd turned
find-none fd s h = ap (turned s) (turn_to-none fd [] s.modules h)

-- A module without a tag of its own, on a descriptor that no module has: `module_register` returns
-- its address, it is the current module, it is registered beside those that were, and nothing else of
-- the server changes. Its `tagindex` is 0.
pub module_register-excluded :
    (u : Unset) (floats : Floats) (id : ℕ) (exclude : Option CString) (name : CString) (timeout : ℕ)
    (fd : ℤ) (s : Server)
    → NoneHas fd s.modules
    → check_module_tag_exclusion exclude name ≡ true
    → (rest : List Module) × (module_register u floats id exclude name timeout fd s
        ≡ ok id (record s { modules = new_module id name timeout fd ∷ rest }))
      × (of_list (new_module id name timeout fd ∷ rest)
          ≡ of_list (new_module id name timeout fd ∷ s.modules))
unfolding module_register register_new module_add change_module
module_register-excluded u floats id exclude name timeout fd s h e =
    let (rest, f, p) = joined_by-front (new_module id name 0 (pos 0)) s.modules in
    (
      rest,
      >>=-of (module_find_fd fd)
            (λ test.
              elim test [ none ↦ ok tt | some m ↦ module_unregister u floats m.fd ]
              >> register_new u floats id exclude name timeout fd)
            s s none (find-none fd s h)
          ∙ rw f (rw (==-self id) (rw e refl)),
      sound (Perm.cons (new_module id name timeout fd) p),
    )
