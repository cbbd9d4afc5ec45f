-- ===== src/Coordinator/Cluster/Racing.antt =====
-- Handlers that overlap: between the two halves of `OnLeave`, the agent joins again.
use Prim.Native.String.{String}
use text.Mathlib.TextEquality.{eq_iff}
use load_wave.Prelude.{ℕ, ◌≡◌, refl, ap, ◌∙◌, true, none, some, List, arith, ◌==◌}
use load_wave.Prelude.Assoc.{string_eq, find, put, erase, find-put, find-erase}
use load_wave.Coordinator.Cluster.{
  Heartbeat, Cluster, on_join, remove_session, hide_agent, beaten_at, on_heartbeat,
}
use load_wave.Registry.{Pointer, remove, add}

find-put_here :
    {A : Type 0} (k j : String) (v : A) (m : List (String × A))
    → k ≡ j
    → find j (put k v m) ≡ some v
find-put_here k j v m e = find-put k j v m ∙ rw ((eq_iff k j).1 e) refl

find-erase_here :
    {A : Type 0} (k j : String) (m : List (String × A)) → k ≡ j → find j (erase k m) ≡ none
find-erase_here k j m e = find-erase k j m ∙ rw ((eq_iff k j).1 e) refl

same_serial : (n : ℕ) → (n == n) ≡ true
same_serial n = ground arith

module _ {D : Type 0} where
  -- `OnLeave` of the session `s`, with `OnJoin` of `t` between its halves.
  abbrev pub overlapped : Pointer → Pointer → D → D → ℕ → Cluster D → Cluster D
  overlapped s t none_used hello now c =
      hide_agent s (on_join none_used t hello now (remove_session s c).0)

  -- If an agent joins again while the end of its session is handled, after the session was taken from the
  -- registry and before the agent is deleted, then its new session is registered and the agent is not
  -- shown, nor does a heartbeat of the new session show it.
  pub on_leave-overlapped :
      (s t : Pointer) (none_used hello : D) (now : ℕ) (b : Heartbeat D) (c : Cluster D)
      → s.id ≡ t.id
      → find s.id c.sessions.sessions ≡ some s
      → ((remove_session s c).1 ≡ true)
        × (find t.id (overlapped s t none_used hello now c).sessions.sessions ≡ some t)
        × (find t.id (overlapped s t none_used hello now c).agents ≡ none)
        × (find t.id (on_heartbeat t b (overlapped s t none_used hello now c)).agents ≡ none)
  unfolding on_join add on_heartbeat remove
  on_leave-overlapped s t none_used hello now b c same registered =
      let c' = overlapped s t none_used hello now c in
      let gone : find t.id c'.agents ≡ none = find-erase_here s.id t.id _ same in
      let heard : find t.id (beaten_at t b c' none).agents ≡ none = gone in
      (
        rw (registered, same_serial s.serial) refl,
        find-put_here t.id t.id t _ refl,
        gone,
        ap (λ o. find t.id (beaten_at t b c' o).agents) gone ∙ heard,
      )
