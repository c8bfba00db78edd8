-- ===== src/Server/Find.antt =====
-- `module_find_fd` of src/server/module.c. It turns the ring of modules to the one that it finds.
use open_dax.Base.{List, [], ◌∷◌, ◌++◌, Option, none, some, if◌then◌else◌, Outcome, ok}
use open_dax.Base.Int.{ℤ, equal_ℤ}
use open_dax.Server.{Module, Server, M}

-- The module with that descriptor, and the ring from it on; `passed` are those before.
unfoldable pub turn_to : ℤ → List Module → List Module → Option (Module × List Module)
turn_to fd passed [] = none
turn_to fd passed (m ∷ ms) =
    if equal_ℤ m.fd fd then some (m, m ∷ (ms ++ passed)) else turn_to fd (passed ++ (m ∷ [])) ms

unfoldable pub turned : Server → Option (Module × List Module) → Outcome Server (Option Module)
turned s none = ok none s
turned s (some (m, ring)) = ok (some m) (record s { modules = ring })

-- `module_find_fd`
unfoldable pub module_find_fd : ℤ → M (Option Module)
unfolding turn_to turned
module_find_fd fd s = turned s (turn_to fd [] s.modules)
