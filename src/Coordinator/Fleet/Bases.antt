-- ===== src/Coordinator/Fleet/Bases.antt =====
-- The id bases that `dispatch` and `rebalance` of internal/coordinator/coordinator.go hand out.
use Prim.Native.String.{String}
use text.Mathlib.TextEquality.{eq_iff}
use load_wave.Prelude.{
  sym, ℕ, zero, suc, ◌+◌, ◌<◌, ◌≤◌, ◌≡◌, ap, ◌∙◌, false, Bool, inl, inr, Option-cases, Option, some,
  none, List, [], ◌∷◌, map, length, get_elem?, arith, ℤ, pos, ◌+ℤ◌,
}
use load_wave.Prelude.Assoc.{string_eq, find}
use load_wave.Idspace.{agent_base, worker_base}
use load_wave.Idspace.Blocks.{ids_disjoint, max_agents, max_workers}
use load_wave.Apportion.{largest}
use load_wave.Coordinator.Fleet.{
  Session, Load, Order, base_of, Dispatched, sort_sessions, place, comes_before, weight_of,
  shared_iterations, dispatch_from, dispatch, rebalance_from, rebalance, known_to, note_quota,
  start_order,
}
use load_wave.Coordinator.Fleet.Quotas.{
  Matches-largest, bases_from, dispatch_from-some, length-sort_sessions,
}
use load_wave.Coordinator.Phase.{is_terminal}
use load_wave.Coordinator.Run.{Run, Participant, set_participants}
use load_wave.Coordinator.Thresholds.{Floats}

-- The id base of the message that starts the run on an agent.
abbrev pub base_for : String → List (String × Order) → Option ℤ
base_for id orders = elim (find id orders) [ none ↦ none | some o ↦ base_of o ]

bases_from_elem :
    (i k : ℕ) (ss : List Session) (b : ℤ)
    → get_elem? (bases_from i ss) k ≡ some (some b)
    → (k < length ss) × (b ≡ agent_base (pos (i + k)))
bases_from_elem i k [] b h = cc
bases_from_elem i zero (s ∷ ss) b h = (omega arith, ground (arith, h))
bases_from_elem i (suc k) (s ∷ ss) b h = ground (arith, bases_from_elem (suc i) k ss b h)

dispatch-bases :
    (send : String → Order → Option String) (load : Load) (peak : ℤ) (ss : List Session)
    (quotas : List (String × ℤ)) (d : Dispatched)
    → dispatch send load peak ss quotas ≡ some d
    → map (λ m. base_of m.1) d.orders ≡ bases_from 0 (sort_sessions ss)
unfolding dispatch
dispatch-bases send load peak ss quotas d h =
    let sorted = sort_sessions ss in
    let (d', e, m, f) =
      dispatch_from-some send (length sorted) 0 load sorted _ _ _ quotas
        (Matches-largest peak sorted) (Matches-largest (pos load.max_iterations_per_second) sorted)
        (Matches-largest (shared_iterations load) sorted) in
    let same : d ≡ d' = cc in rw same f

module _ (send : String → Order → Option String) (load : Load) (peak : ℤ) (ss : List Session)
    (quotas : List (String × ℤ)) (d : Dispatched)
    (h : dispatch send load peak ss quotas ≡ some d) where
  abbrev bases : List (Option ℤ)
  bases = map (λ m. base_of m.1) d.orders

  base_at :
      (k : ℕ) (b : ℤ)
      → get_elem? bases k ≡ some (some b)
      → (k < length ss) × (b ≡ agent_base (pos k))
  base_at k b g =
      let (l, e) =
        bases_from_elem 0 k (sort_sessions ss) b
          (rw (sym (dispatch-bases send load peak ss quotas d h)) g) in
      (omega (arith, l, length-sort_sessions ss), e ∙ ap (λ x. agent_base (pos x)) (omega arith))

  -- A run that is started gives every agent a block of ids of its own: two virtual user ids, each the
  -- base of a worker of the agent that a message goes to plus an offset below 100000, are equal only
  -- if the messages are the same, with fewer agents than fill `int64`.
  pub dispatch_disjoint :
      (j k w v x y : ℕ) (b c : ℤ)
      → length ss ≤ max_agents
      → get_elem? bases j ≡ some (some b)
      → get_elem? bases k ≡ some (some c)
      → w < max_workers
      → v < max_workers
      → x < 100000
      → y < 100000
      → worker_base b (pos w) +ℤ pos x ≡ worker_base c (pos v) +ℤ pos y
      → j ≡ k
  dispatch_disjoint j k w v x y b c n gj gk lw lv lx ly same =
      let (lj, ej) = base_at j b gj in
      let (lk, ek) = base_at k c gk in
      (ids_disjoint j k w v x y (omega arith) (omega arith) lw lv lx ly
        (ground (arith, ej, ek, same))).0

dispatch_from-first :
    (send : String → Order → Option String) (count i : ℕ) (load : Load) (s : Session)
    (ss : List Session) (vs rs ns : List ℤ) (quotas : List (String × ℤ)) (d : Dispatched)
    → dispatch_from send count i load (s ∷ ss) vs rs ns quotas ≡ some d
    → base_for s.id d.orders ≡ some (agent_base (pos i))
unfolding dispatch_from
dispatch_from-first send count i load s ss (v ∷ vs) (r ∷ rs) (n ∷ ns) quotas d h =
    elim (Option-cases (
      dispatch_from send count (suc i) load ss vs rs ns
        (note_quota (send s.id (start_order count i load v r n)) s.id v quotas))) [
          | inl none_left ↦ ground (arith, h)
          | inr (e, some_left) ↦ ground (arith, h, eq_iff s.id s.id)
        ]
dispatch_from-first send count i load s ss [] rs ns quotas d h = cc
dispatch_from-first send count i load s ss (v ∷ vs) [] ns quotas d h = cc
dispatch_from-first send count i load s ss (v ∷ vs) (r ∷ rs) [] quotas d h = cc

rebalance_from-first :
    (send : String → Order → Option String) (known : String → Bool) (count i : ℕ) (ramp : ℤ)
    (s : Session) (ss : List Session) (vs rs : List ℤ) (ps : List Participant)
    (os : List (String × Order))
    → known s.id ≡ false
    → rebalance_from send known count i ramp (s ∷ ss) vs rs ≡ some (ps, os)
    → base_for s.id os ≡ some (agent_base (pos i))
unfolding rebalance_from
rebalance_from-first send known count i ramp s ss (v ∷ vs) (r ∷ rs) ps os k h =
    elim (Option-cases (rebalance_from send known count (suc i) ramp ss vs rs)) [
      | inl none_left ↦ ground (arith, h)
      | inr (e, some_left) ↦ ground (arith, h, k, eq_iff s.id s.id)
    ]
rebalance_from-first send known count i ramp s ss [] rs ps os k h = cc
rebalance_from-first send known count i ramp s ss (v ∷ vs) [] ps os k h = cc

module _ (send : String → Order → Option String) (F : Floats) (load : Load) where
  -- What `rebalance` of an active run does with at least one healthy agent.
  pub rebalance-some :
      (ss : List Session) (r after : Run F) (os : List (String × Order))
      → is_terminal r.phase ≡ false
      → 0 < length ss
      → rebalance send F load ss r ≡ some (os, after)
      → (ps : List Participant) × (rebalance_from send
            (known_to r.participants)
            (length (sort_sessions ss))
            0
            r.scale_ramp
            (sort_sessions ss)
            (largest r.peak_vus (map weight_of (sort_sessions ss)))
            (largest (pos load.max_iterations_per_second) (map weight_of (sort_sessions ss)))
          ≡ some (ps, os))
        × (after ≡ set_participants F ps (record r { scale_ramp = pos 0 }))
  unfolding rebalance
  rebalance-some ss r after os active l h =
      elim (Option-cases (
        rebalance_from send (known_to r.participants) (length (sort_sessions ss)) 0 r.scale_ramp
          (sort_sessions ss) (largest r.peak_vus (map weight_of (sort_sessions ss)))
          (largest (pos load.max_iterations_per_second) (map weight_of (sort_sessions ss))))) [
            | inl none_left ↦ ground (arith, h, active, l)
            | inr ((ps, ms), e) ↦
                let messages : ms ≡ os = ground (arith, h, active, l, e) in
                let left : set_participants F ps (record r { scale_ramp = pos 0 }) ≡ after =
                  ground (arith, h, active, l, e) in
                (ps, ground (arith, e, messages), sym left)
          ]

  -- An agent that is no participant of an active run and joins the agents that the run was started
  -- on, without coming after the first of them in the order of ids, is given by the rebalancing the
  -- block of ids that this first agent was given at the start, that of index 0.
  pub rebalance_collides :
      (peak : ℤ) (s n : Session) (rest ss : List Session) (quotas : List (String × ℤ))
      (r after : Run F) (d : Dispatched) (os : List (String × Order))
      → sort_sessions ss ≡ s ∷ rest
      → comes_before s n ≡ false
      → is_terminal r.phase ≡ false
      → find n.id r.participants ≡ none
      → dispatch send load peak ss quotas ≡ some d
      → rebalance send F load (n ∷ ss) r ≡ some (os, after)
      → (base_for n.id os ≡ some (agent_base (pos 0))) × (base_for n.id os ≡ base_for s.id d.orders)
  unfolding dispatch sort_sessions place
  rebalance_collides peak s n rest ss quotas r after d os sorted first active fresh hd hr =
      let (ps, e, a) = rebalance-some (n ∷ ss) r after os active (omega arith) hr in
      let order : sort_sessions (n ∷ ss) ≡ n ∷ s ∷ rest = ground (arith, sorted, first) in
      let unknown : known_to r.participants n.id ≡ false = ground (arith, fresh) in
      let joined =
        rebalance_from-first send (known_to r.participants) _ 0 r.scale_ramp n (s ∷ rest) _ _ ps os
          unknown (rw order at e) in
      (
        joined,
        joined ∙ sym (dispatch_from-first send _ 0 load s rest _ _ _ quotas d (rw sorted at hd)),
      )
