-- ===== src/Coordinator/Cluster/Tests.antt =====
-- Runs and instances for the agents that the coordinator shows.
use load_wave.Prelude.{ℕ, refl, List, [], ◌∷◌}
use load_wave.Prelude.Assoc.{string_eq}
use load_wave.Coordinator.Cluster.Coherent.{
  Step, join_step, leave_step, heartbeat_step, IsCoherent, steps, no_agents, steps-shown,
}
use load_wave.Registry.{Pointer, add}
use load_wave.Coordinator.Cluster.{Cluster, Heartbeat, on_join, on_heartbeat, remove_session}
use load_wave.Coordinator.Cluster.Racing.{overlapped, on_leave-overlapped}
use load_wave.Prelude.Assoc.{string_eq, find}
use load_wave.Prelude.{◌≡◌, true, some, none}

abbrev first_session : Pointer
first_session = record { id = "a"; serial = 1 }

abbrev second_session : Pointer
second_session = record { id = "a"; serial = 2 }

abbrev beat : Heartbeat ℕ
beat = record { seen = 30; active_vus = 5; healthy_workers = 1; usage = 3; workers = [] }

abbrev reconnects : List (Step ℕ)
reconnects =
    join_step 0 first_session 7 10
    ∷ join_step 0 second_session 8 20
    ∷ leave_step first_session
    ∷ heartbeat_step second_session
        (record { seen = 30; active_vus = 5; healthy_workers = 1; usage = 3; workers = [] })
    ∷ []

reconnects_shown : IsCoherent (steps reconnects no_agents)
reconnects_shown = steps-shown reconnects no_agents (λ id. refl)

abbrev connected : Cluster ℕ
connected = on_join 0 first_session 7 10 no_agents

on_leave-overlapped_example :
    ((remove_session first_session connected).1 ≡ true)
    × (find "a" (overlapped first_session second_session 0 8 20 connected).sessions.sessions
        ≡ some second_session)
    × (find "a" (overlapped first_session second_session 0 8 20 connected).agents ≡ none)
    × (find "a"
          (on_heartbeat second_session beat
            (overlapped first_session second_session 0 8 20 connected)).agents
        ≡ none)
unfolding on_join add
on_leave-overlapped_example =
    on_leave-overlapped first_session second_session 0 8 20 beat connected refl refl
