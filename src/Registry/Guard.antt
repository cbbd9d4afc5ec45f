-- ===== src/Registry/Guard.antt =====
-- Which sessions the registry of internal/control/server.go keeps.
use text.Mathlib.Text.{◌==◌ as str_eq}
use text.Mathlib.TextEquality.{eq_iff}
use load_wave.Prelude.{
  ◌≡◌, Bool, true, false, not, ◌&&◌, some, inl, inr, Option-cases, List, [], ◌∷◌, ◌==◌, arith,
}
use load_wave.Prelude.Assoc.{string_eq, find, find-put, find-erase}
use load_wave.Registry.{Pointer, Registry, add, remove, get}

pub data Change : Type 0 where
  adding removing : Pointer → Change

unfoldable pub changes : List Change → Registry → Registry
changes [] r = r
changes (adding s ∷ cs) r = changes cs (add s r).0
changes (removing s ∷ cs) r = changes cs (remove s r).0

-- No session with the id of `s` is added, and `s` itself is not removed.
abbrev pub spares : Pointer → List Change → Bool
spares s [] = true
spares s (adding t ∷ cs) = not (str_eq t.id s.id) && spares s cs
spares s (removing t ∷ cs) = not (t.serial == s.serial) && spares s cs

get-remove :
    (s t : Pointer) (r : Registry)
    → get s.id r ≡ some s
    → (t.serial == s.serial) ≡ false
    → get s.id (remove t r).0 ≡ some s
unfolding get remove
get-remove s t r h d = elim (Option-cases (find t.id r.sessions)) [
  | inl n ↦ ground (arith, h)
  | inr (c, e) ↦ ground (arith, h, e, d, find-erase t.id s.id r.sessions, eq_iff t.id s.id)
]

get-add :
    (s t : Pointer) (r : Registry) → str_eq t.id s.id ≡ false → get s.id (add t r).0 ≡ get s.id r
unfolding get add
get-add s t r d = ground (arith, d, find-put t.id s.id t r.sessions)

get-spared :
    (cs : List Change) (s : Pointer) (r : Registry)
    → get s.id r ≡ some s
    → spares s cs ≡ true
    → get s.id (changes cs r) ≡ some s
unfolding changes
get-spared [] s r h p = h
get-spared (adding t ∷ cs) s r h p =
    ground (arith, h, p, get-add s t r, get-spared cs s (add t r).0)
get-spared (removing t ∷ cs) s r h p =
    ground (arith, h, p, get-remove s t r, get-spared cs s (remove t r).0)

get_added : (s : Pointer) (r : Registry) → get s.id (add s r).0 ≡ some s
unfolding get add
get_added s r = ground (arith, find-put s.id s.id s r.sessions, eq_iff s.id s.id)

-- A session that was added stays the registered one of its id through any sequence of changes that
-- adds no session of that id and does not remove the session itself: the removal of an older session
-- with the same id does not evict it.
pub get-changes :
    (cs : List Change) (s : Pointer) (r : Registry)
    → spares s cs ≡ true
    → get s.id (changes cs (add s r).0) ≡ some s
get-changes cs s r p = get-spared cs s (add s r).0 (get_added s r) p
