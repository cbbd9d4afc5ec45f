-- ===== src/Coordinator/Fleet/Resets.antt =====
-- What `rebalance` of internal/coordinator/coordinator.go does to the phases of the participants.
use Prim.Native.String.{String}
use text.Mathlib.Text.{◌==◌ as str_eq}
use text.Mathlib.TextEquality.{eq_iff}
use load_wave.Prelude.{
  length-map, ◌&&◌, ℕ, suc, ◌<◌, ◌≡◌, refl, true, false, Bool, inl, inr, Option-cases, Option, some,
  none, List, [], ◌∷◌, map, length, arith, ℤ,
}
use load_wave.Coordinator.Fleet.{Session, Load, Order, sort_sessions, rebalance_from, rebalance}
use load_wave.Coordinator.Fleet.Quotas.{length-sort_sessions}
use load_wave.Coordinator.Fleet.Bases.{rebalance-some}
use load_wave.Coordinator.Phase.{is_terminal, phase_running, phase_completed, phase_failed}
use load_wave.Coordinator.Run.{Run, Participant, set_participants, put_participant, by_agent}
use load_wave.Coordinator.Thresholds.{Floats, Threshold, SeriesSummary}
use load_wave.Coordinator.Completion.{Texts, count_failures, completion, check_completion}

-- Every participant is running.
abbrev all_running : List Participant → Bool
all_running [] = true
all_running (p ∷ ps) = str_eq p.phase phase_running && all_running ps

abbrev entries_running : List (String × Participant) → Bool
entries_running m = all_running (map (λ e. e.1) m)

put_running :
    (F : Floats) (k : String) (p : Participant) (m : List (String × Participant))
    → str_eq p.phase phase_running ≡ true
    → entries_running m ≡ true
    → entries_running (put_participant F k p m) ≡ true
put_running F k p [] h a = ground (arith, h)
put_running F k p ((j, q) ∷ m) h a = ground (arith, put_running F k p m)

length-put_participant :
    (F : Floats) (k : String) (p : Participant) (m : List (String × Participant))
    → 0 < length (put_participant F k p m)
length-put_participant F k p [] = omega arith
length-put_participant F k p ((j, q) ∷ m) = ground arith

by_agent-running :
    (F : Floats) (m : List (String × Participant)) (ps : List Participant)
    → all_running ps ≡ true
    → entries_running m ≡ true
    → entries_running (by_agent F m ps) ≡ true
by_agent-running F m [] h a = a
by_agent-running F m (p ∷ ps) h a =
    by_agent-running F (put_participant F p.agent_id p m) ps (ground (arith, h))
      (put_running F p.agent_id p m (ground (arith, h)) a)

length-by_agent :
    (F : Floats) (m : List (String × Participant)) (ps : List Participant)
    → 0 < length m
    → 0 < length (by_agent F m ps)
length-by_agent F m [] h = h
length-by_agent F m (p ∷ ps) h =
    length-by_agent F (put_participant F p.agent_id p m) ps
      (length-put_participant F p.agent_id p m)

by_agent-some : (F : Floats) (ps : List Participant) → 0 < length ps → 0 < length (by_agent F [] ps)
by_agent-some F [] h = elim h [ ]
by_agent-some F (p ∷ ps) h = length-by_agent F ((p.agent_id, p) ∷ []) ps (omega arith)

rebalance_from-running :
    (send : String → Order → Option String) (known : String → Bool) (count i : ℕ) (ramp : ℤ)
    (ss : List Session) (vs rs : List ℤ) (ps : List Participant) (os : List (String × Order))
    → rebalance_from send known count i ramp ss vs rs ≡ some (ps, os)
    → (all_running ps ≡ true) × (length ps ≡ length ss)
unfolding rebalance_from
rebalance_from-running send known count i ramp [] vs rs ps os h = ground (arith, h)
rebalance_from-running send known count i ramp (s ∷ ss) (v ∷ vs) (r ∷ rs) ps os h =
    elim (Option-cases (rebalance_from send known count (suc i) ramp ss vs rs)) [
      | inl none_left ↦ ground (arith, h)
      | inr ((qs, ms), some_left) ↦ ground (
        arith,
        h,
        some_left,
        rebalance_from-running send known count (suc i) ramp ss vs rs qs ms some_left,
      )
    ]
rebalance_from-running send known count i ramp (s ∷ ss) [] rs ps os h = cc
rebalance_from-running send known count i ramp (s ∷ ss) (v ∷ vs) [] ps os h = cc

still_running :
    (s : String)
    → str_eq s phase_running ≡ true
    → (str_eq s phase_completed ≡ false) × (str_eq s phase_failed ≡ false)
still_running s h = rw ((eq_iff s phase_running).0 h) (refl, refl)

count-running :
    (n : ℕ) (ps : List Participant)
    → 0 < length ps
    → all_running ps ≡ true
    → count_failures n ps ≡ none
unfolding count_failures
count-running n [] h a = elim h [ ]
count-running n (p ∷ ps) h a = ground (arith, a, still_running p.phase)

completion-running :
    (F : Floats) (texts : Texts F) (ps : List Participant)
    → 0 < length ps
    → all_running ps ≡ true
    → completion F texts ps ≡ none
unfolding completion
completion-running F texts ps h a = ground (arith, count-running 0 ps h a)

-- After rebalancing an active run with a healthy agent every participant counts as running, also one
-- that had reported that it completed or failed: the next check of completion leaves the run as it
-- is, at whatever time it comes and whatever the thresholds say.
pub rebalance_reopens :
    (send : String → Order → Option String) (F : Floats) (texts : Texts F)
    (aggregate : String → Option (SeriesSummary F)) (thresholds : List (Threshold F)) (load : Load)
    (ss : List Session) (r after : Run F) (os : List (String × Order)) (now : ℕ)
    → is_terminal r.phase ≡ false
    → 0 < length ss
    → rebalance send F load ss r ≡ some (os, after)
    → check_completion F texts aggregate thresholds now after ≡ after
unfolding check_completion set_participants
rebalance_reopens send F texts aggregate thresholds load ss r after os now active h e =
    let (ps, back, left) = rebalance-some send F load ss r after os active h e in
    let (working, l) =
      rebalance_from-running send _ _ 0 r.scale_ramp (sort_sessions ss) _ _ ps os back in
    let parts = by_agent F [] ps in
    let stays =
      completion-running F texts (map (λ e. e.1) parts)
        (omega (
          arith,
          length-map parts (λ e. e.1),
          by_agent-some F ps (omega (arith, l, h, length-sort_sessions ss)),
        ))
        (by_agent-running F [] ps working refl) in
    rw left (ground (arith, stays))
