-- ===== src/Registry.antt =====
-- The sessions that a supervisor knows, `SessionRegistry` of internal/control/server.go. A pointer to a
-- session is its id with a serial number, which differs for different pointers. A method holds the
-- lock throughout, but for `Add`, which closes the previous session after it.
mod Guard
mod Tests
use Prim.Native.String.{String}
use load_wave.Prelude.{
  ℕ, Bool, true, false, Option, none, some, List, [], ◌∷◌, length, if◌then◌else◌, ◌==◌,
}
use load_wave.Prelude.Assoc.{string_eq, find, put, erase}

-- `*Session`
pub record Pointer : Type 0 where
  pub id : String
  pub serial : ℕ

-- The registered sessions, and the serial numbers of those that were closed.
pub record Registry : Type 0 where
  pub sessions : List (String × Pointer)
  pub closed : List ℕ

-- `NewSessionRegistry`
abbrev pub new_registry : Registry
new_registry = record { sessions = []; closed = [] }

abbrev close : Option Pointer → List ℕ → List ℕ
close none closed = closed
close (some p) closed = p.serial ∷ closed

-- `SessionRegistry.Add`: the registry and the previous session.
unfoldable pub add : Pointer → Registry → Registry × Option Pointer
add s r =
    let previous = find s.id r.sessions in
    (record { sessions = put s.id s r.sessions; closed = close previous r.closed }, previous)

abbrev pub removed : Pointer → Registry → Option Pointer → Registry × Bool
removed s r none = (r, false)
removed s r (some current) =
    if current.serial == s.serial
    then (record r { sessions = erase s.id r.sessions }, true)
    else (r, false)

-- `SessionRegistry.Remove`
unfoldable pub remove : Pointer → Registry → Registry × Bool
remove s r = removed s r (find s.id r.sessions)

-- `SessionRegistry.Get`
unfoldable pub get : String → Registry → Option Pointer
get id r = find id r.sessions
