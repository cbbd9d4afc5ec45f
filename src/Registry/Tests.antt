-- ===== src/Registry/Tests.antt =====
-- Sessions and instances for `SessionRegistry` of internal/control/server.go.
use load_wave.Prelude.{◌≡◌, refl, List, [], ◌∷◌}
use load_wave.Registry.{Pointer, new_registry, add}
use load_wave.Registry.Guard.{Change, adding, removing}

abbrev old : Pointer
old = record { id = "a"; serial = 1 }

abbrev fresh : Pointer
fresh = record { id = "a"; serial = 2 }

abbrev other : Pointer
other = record { id = "b"; serial = 3 }

-- The old session's goroutine unwinds after the new session was added.
abbrev race : List Change
race = removing old ∷ adding other ∷ []

displaced_is_closed : ((add fresh (add old new_registry).0).0).closed ≡ 1 ∷ []
unfolding add
displaced_is_closed = refl
