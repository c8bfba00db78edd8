-- ===== src/Tests/Registering.antt =====
-- The theorems on the ring of modules at a server with one module.
use mathlib.Mathlib.Data.Multiset.Defs.{of_list}
use open_dax.Base.{◌≡◌, refl, true, List, ◌∷◌, Option, some, ok}
use open_dax.Base.Int.{pos}
use open_dax.Text.{CString, codes, strcmp, until, strtok}
use open_dax.Server.{Module, Server}
use open_dax.Server.Find.{module_find_fd}
use open_dax.Modules.{tokens, is_listed, check_module_tag_exclusion, module_register}
use open_dax.Modules.Ring.{Answer, module_find_fd-Answer, new_module, module_register-excluded}
use open_dax.Tests.Samples.{one_tag, no_floats, zeros}

abbrev two_names : CString
two_names = codes " daxc log"

log_excluded : check_module_tag_exclusion (some two_names) (codes "log") ≡ true
unfolding check_module_tag_exclusion tokens is_listed strcmp strtok until
log_excluded = refl

module_find_fd-Answer_example :
    (o : Option Module) × (s' : Server) × (module_find_fd (pos 5) one_tag ≡ ok o s')
    × Answer (pos 5) one_tag s' o
module_find_fd-Answer_example = module_find_fd-Answer (pos 5) one_tag

module_register-excluded_example :
    (rest : List Module) × (module_register zeros no_floats 4
        (some two_names)
        (codes "log")
        30
        (pos 8)
        one_tag
      ≡ ok 4 (record one_tag { modules = new_module 4 (codes "log") 30 (pos 8) ∷ rest }))
    × (of_list (new_module 4 (codes "log") 30 (pos 8) ∷ rest)
        ≡ of_list (new_module 4 (codes "log") 30 (pos 8) ∷ one_tag.modules))
module_register-excluded_example =
    module_register-excluded zeros no_floats 4 (some two_names) (codes "log") 30 (pos 8) one_tag
      (λ e. cc, tt) log_excluded
