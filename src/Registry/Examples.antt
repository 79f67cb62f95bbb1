-- ===== src/Registry/Examples.antt =====
-- The theorem on the registry at concrete registrations.
use proofload_sh.Prelude.{Option, some, List, [], ◌∷◌, String}
use proofload_sh.Registry.{register_all}
use proofload_sh.Registry.Names.{Registered, register_all-Registered}

-- Drivers that are their names.
abbrev name_of : String → String
name_of d = d

abbrev three_drivers : List (Option String)
three_drivers = some "redis" ∷ some "kafka" ∷ some "postgresql" ∷ []

register_all-Registered_example :
    Registered name_of three_drivers (register_all name_of three_drivers [])
register_all-Registered_example = register_all-Registered name_of three_drivers
