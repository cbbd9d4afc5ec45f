-- ===== src/Coordinator/Cluster/Coherent.antt =====
-- The agents are those that have a session.
use Prim.Native.String.{String}
use text.Mathlib.Text.{◌==◌ as str_eq}
use text.Mathlib.TextEquality.{eq_iff}
use load_wave.Prelude.{
  ℕ, ◌≡◌, ◌≢◌, refl, sym, ap, ◌∙◌, Bool, true, false, Option, none, some, List, [], ◌∷◌,
  if◌then◌else◌, arith, inl, inr, Bool-cases, Option-cases, ◌==◌,
}
use load_wave.Prelude.Assoc.{string_eq, find, put, find-put, find-erase}
use load_wave.Coordinator.Cluster.{
  AgentInfo, Heartbeat, Cluster, joined, on_join, left, on_leave, beaten, on_heartbeat,
}
use load_wave.Registry.{Pointer, add, remove, removed, new_registry}

abbrev pub is_there {ℓ} : {A : Type ℓ} → Option A → Bool
is_there none = false
is_there (some a) = true

-- The events of the cluster.
pub data Step (D : Type 0) : Type 0 where
  join_step : D → Pointer → D → ℕ → Step D
  leave_step : Pointer → Step D
  heartbeat_step : Pointer → Heartbeat D → Step D

found :
    {A : Type 0} (k j : String) (v : A) (m : List (String × A))
    → k ≡ j
    → find j (put k v m) ≡ some v
found k j v m e = find-put k j v m ∙ rw ((eq_iff k j).1 e) refl

serials_differ : (m n : ℕ) → m ≢ n → (m == n) ≡ false
serials_differ m n h = ground arith

module _ {D : Type 0} where
  -- An id has a record exactly when it has a session.
  abbrev pub IsCoherent : Cluster D → Type 0
  IsCoherent c =
      (id : String) → is_there (find id c.agents) ≡ is_there (find id c.sessions.sessions)

  on_join-IsCoherent :
      (none_used : D) (s : Pointer) (hello : D) (now : ℕ) (c : Cluster D)
      → IsCoherent c
      → IsCoherent (on_join none_used s hello now c)
  unfolding on_join add
  on_join-IsCoherent none_used s hello now c h id =
      rw
        (
          find-put s.id id (joined none_used s hello now) c.agents,
          find-put s.id id s c.sessions.sessions,
        )
        (elim (str_eq s.id id)
          as (λ b.
            is_there (if b then some (joined none_used s hello now) else find id c.agents)
            ≡ is_there (if b then some s else find id c.sessions.sessions)) [
              | true ↦ refl
              | false ↦ h id
            ])

  -- What `Remove` leaves of the sessions, by its answer.
  left-IsCoherent :
      (s : Pointer) (c : Cluster D) (o : Option Pointer)
      → IsCoherent c
      → IsCoherent (left s c (removed s c.sessions o))
  left-IsCoherent s c none h = h
  left-IsCoherent s c (some p) h = elim (Bool-cases (p.serial == s.serial)) [
    | inr e ↦ rw e h
    | inl e ↦ rw e (λ id.
        rw (find-erase s.id id c.agents, find-erase s.id id c.sessions.sessions)
          (elim (str_eq s.id id)
            as (λ b.
              is_there (if b then none else find id c.agents)
              ≡ is_there (if b then none else find id c.sessions.sessions)) [
                | true ↦ refl
                | false ↦ h id
              ]))
  ]

  on_leave-IsCoherent : (s : Pointer) (c : Cluster D) → IsCoherent c → IsCoherent (on_leave s c)
  unfolding on_leave remove
  on_leave-IsCoherent s c h = left-IsCoherent s c (find s.id c.sessions.sessions) h

  kept :
      (k id : String) (c : Cluster D) (info other : AgentInfo D)
      → find k c.agents ≡ some info
      → is_there (find id c.agents) ≡ is_there (find id c.sessions.sessions)
      → is_there (if str_eq k id then some other else find id c.agents)
        ≡ is_there (find id c.sessions.sessions)
  kept k id c info other e h = elim (Bool-cases (str_eq k id)) [
    | inl same ↦
        rw same (sym (ap is_there (ap (λ x. find x c.agents) (sym ((eq_iff k id).0 same)) ∙ e)) ∙ h)
    | inr differs ↦ rw differs h
  ]

  on_heartbeat-IsCoherent :
      (s : Pointer) (b : Heartbeat D) (c : Cluster D)
      → IsCoherent c
      → IsCoherent (on_heartbeat s b c)
  unfolding on_heartbeat
  on_heartbeat-IsCoherent s b c h = elim (Option-cases (find s.id c.agents)) [
    | inl e ↦ rw (e, on_heartbeat) h
    | inr (info, e) ↦
        rw (e, on_heartbeat)
          (λ id.
            ap is_there (find-put s.id id (beaten b info) c.agents)
            ∙ kept s.id id c info (beaten b info) e (h id))
  ]

  abbrev pub step : Step D → Cluster D → Cluster D
  step (join_step none_used s hello now) c = on_join none_used s hello now c
  step (leave_step s) c = on_leave s c
  step (heartbeat_step s b) c = on_heartbeat s b c

  unfoldable pub steps : List (Step D) → Cluster D → Cluster D
  steps [] c = c
  steps (s ∷ ss) c = steps ss (step s c)

  step-IsCoherent : (s : Step D) (c : Cluster D) → IsCoherent c → IsCoherent (step s c)
  step-IsCoherent (join_step none_used s hello now) c h =
      on_join-IsCoherent none_used s hello now c h
  step-IsCoherent (leave_step s) c h = on_leave-IsCoherent s c h
  step-IsCoherent (heartbeat_step s b) c h = on_heartbeat-IsCoherent s b c h

  abbrev pub no_agents : Cluster D
  no_agents = record { sessions = new_registry; agents = [] }

  -- Whatever joins, leaves and reports, in whatever order, sessions displaced by a reconnection included, an
  -- agent is shown exactly while its id has a registered session, if no two of the handlers overlap.
  pub steps-shown : (ss : List (Step D)) (c : Cluster D) → IsCoherent c → IsCoherent (steps ss c)
  unfolding steps
  steps-shown [] c h = h
  steps-shown (s ∷ ss) c h = steps-shown ss (step s c) (step-IsCoherent s c h)

  still_there :
      (s t : Pointer) (c : Cluster D)
      → (t.serial == s.serial) ≡ false
      → find s.id (left s c (removed s c.sessions (some t))).agents ≡ find s.id c.agents
  still_there s t c h = rw h refl

  -- An agent that reconnects is still shown when the end of its first session is seen after the second has
  -- joined.
  pub on_leave-displaced :
      (c : Cluster D) (s t : Pointer) (none_used hello : D) (now : ℕ)
      → t.id ≡ s.id
      → t.serial ≢ s.serial
      → find s.id (on_leave s (on_join none_used t hello now c)).agents
        ≡ some (joined none_used t hello now)
  unfolding on_leave on_join add remove
  on_leave-displaced c s t none_used hello now e f =
      let c' = on_join none_used t hello now c in
      ap (λ o. find s.id (left s c' (removed s c'.sessions o)).agents)
        (found t.id s.id t c.sessions.sessions e)
      ∙ still_there s t c' (serials_differ t.serial s.serial f)
      ∙ found t.id s.id (joined none_used t hello now) c.agents e
