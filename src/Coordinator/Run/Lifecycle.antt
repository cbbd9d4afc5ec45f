-- ===== src/Coordinator/Run/Lifecycle.antt =====
-- The phases and times of a run, over any sequence of the methods of internal/coordinator/run.go.
use Prim.Native.String.{String}
use load_wave.Prelude.{ℕ, ◌≡◌, ◌≢◌, refl, ◌∙◌, true, false, none, some, List, [], ◌∷◌, ℤ, arith}
use load_wave.Coordinator.Phase.{Phase, is_terminal}
use load_wave.Coordinator.Thresholds.{Floats}
use load_wave.Coordinator.Run.{
  Run, new_run, set_phase, add_event, set_participants, update_participant, set_thresholds,
  set_scale, Operation, set_phase_op, add_event_op, set_participants_op, update_participant_op,
  set_thresholds_op, set_scale_op, step, steps,
}

-- What `phase`, the times and the reasons say of one another.
pub record IsCoherent (F : Floats) (r : Run F) : Type 0 where
  pub running_started : r.phase ≡ Phase.running → r.started_at ≢ none
  pub stopping_noted : r.phase ≡ Phase.stopping → r.stopping_at ≢ none
  pub ended : is_terminal r.phase ≡ true → r.ended_at ≢ none
  pub not_ended :
      is_terminal r.phase ≡ false → (r.ended_at ≡ none) × (r.stop_why ≡ "") × (r.failure ≡ "")
  pub failed_why : r.phase ≡ Phase.failed → r.failure ≡ r.stop_why
  pub others_why : r.phase ≢ Phase.failed → r.failure ≡ ""

module _ (F : Floats) where
  -- A new run is coherent.
  pub new_run-IsCoherent : (now : ℕ) (peak : ℤ) → IsCoherent F (new_run F now peak)
  unfolding new_run
  new_run-IsCoherent now peak = ground arith

  set_phase-IsCoherent :
      (now : ℕ) (p : Phase) (reason : String) (r : Run F)
      → IsCoherent F r
      → IsCoherent F (set_phase F now p reason r).0
  unfolding set_phase
  set_phase-IsCoherent now p reason r h = ground arith

  -- What a coherent run speaks of, unchanged.
  abbrev SameLife : Run F → Run F → Type 0
  SameLife r s =
      (s.phase ≡ r.phase)
      × (s.started_at ≡ r.started_at)
      × (s.stopping_at ≡ r.stopping_at)
      × (s.ended_at ≡ r.ended_at)
      × (s.stop_why ≡ r.stop_why)
      × (s.failure ≡ r.failure)

  step-IsCoherent : (o : Operation F) (r : Run F) → IsCoherent F r → IsCoherent F (step F o r)
  unfolding step add_event set_participants update_participant set_thresholds set_scale
  step-IsCoherent (set_phase_op now p reason) r h = set_phase-IsCoherent now p reason r h
  step-IsCoherent (add_event_op now e) r h = record {
    running_started = h.running_started;
    stopping_noted = h.stopping_noted;
    ended = h.ended;
    not_ended = h.not_ended;
    failed_why = h.failed_why;
    others_why = h.others_why;
  }
  step-IsCoherent (set_participants_op parts) r h = record {
    running_started = h.running_started;
    stopping_noted = h.stopping_noted;
    ended = h.ended;
    not_ended = h.not_ended;
    failed_why = h.failed_why;
    others_why = h.others_why;
  }
  step-IsCoherent (update_participant_op id p message) r h = record {
    running_started = h.running_started;
    stopping_noted = h.stopping_noted;
    ended = h.ended;
    not_ended = h.not_ended;
    failed_why = h.failed_why;
    others_why = h.others_why;
  }
  step-IsCoherent (set_thresholds_op results) r h = record {
    running_started = h.running_started;
    stopping_noted = h.stopping_noted;
    ended = h.ended;
    not_ended = h.not_ended;
    failed_why = h.failed_why;
    others_why = h.others_why;
  }
  step-IsCoherent (set_scale_op peak ramp) r h = record {
    running_started = h.running_started;
    stopping_noted = h.stopping_noted;
    ended = h.ended;
    not_ended = h.not_ended;
    failed_why = h.failed_why;
    others_why = h.others_why;
  }

  -- Any sequence of methods keeps a coherent run coherent: it has an end time exactly if its phase
  -- is terminal, a reason and a failure text only then, and the failure text exactly if it failed.
  pub steps-IsCoherent :
      (os : List (Operation F)) (r : Run F) → IsCoherent F r → IsCoherent F (steps F os r)
  unfolding steps
  steps-IsCoherent [] r h = h
  steps-IsCoherent (o ∷ os) r h = steps-IsCoherent os (step F o r) (step-IsCoherent o r h)

  terminal_step :
      (o : Operation F) (r : Run F) → is_terminal r.phase ≡ true → SameLife r (step F o r)
  unfolding step set_phase add_event set_participants update_participant set_thresholds set_scale
  terminal_step (set_phase_op now p reason) r h =
      (ground arith, ground arith, ground arith, ground arith, ground arith, ground arith)
  terminal_step (add_event_op now e) r h = (refl, refl, refl, refl, refl, refl)
  terminal_step (set_participants_op parts) r h = (refl, refl, refl, refl, refl, refl)
  terminal_step (update_participant_op id p message) r h = (refl, refl, refl, refl, refl, refl)
  terminal_step (set_thresholds_op results) r h = (refl, refl, refl, refl, refl, refl)
  terminal_step (set_scale_op peak ramp) r h = (refl, refl, refl, refl, refl, refl)

  -- Once its phase is terminal, no sequence of methods changes a run's phase, its times, its stop
  -- reason or its failure.
  pub terminal_final :
      (os : List (Operation F)) (r : Run F)
      → is_terminal r.phase ≡ true
      → ((steps F os r).phase ≡ r.phase)
        × ((steps F os r).started_at ≡ r.started_at)
        × ((steps F os r).stopping_at ≡ r.stopping_at)
        × ((steps F os r).ended_at ≡ r.ended_at)
        × ((steps F os r).stop_why ≡ r.stop_why)
        × ((steps F os r).failure ≡ r.failure)
  unfolding steps
  terminal_final [] r h = (refl, refl, refl, refl, refl, refl)
  terminal_final (o ∷ os) r h =
      let (p, a, b, c, d, e) = terminal_step o r h in
      let (p', a', b', c', d', e') = terminal_final os (step F o r) (rw p h) in
      (p' ∙ p, a' ∙ a, b' ∙ b, c' ∙ c, d' ∙ d, e' ∙ e)

  written_once_step :
      (o : Operation F) (r : Run F) (t : ℕ)
      → (r.started_at ≡ some t → (step F o r).started_at ≡ some t)
        × (r.stopping_at ≡ some t → (step F o r).stopping_at ≡ some t)
  unfolding step set_phase add_event set_participants update_participant set_thresholds set_scale
  written_once_step (set_phase_op now p reason) r t = (λ e. ground arith, λ e. ground arith)
  written_once_step (add_event_op now e) r t = (λ e. e, λ e. e)
  written_once_step (set_participants_op parts) r t = (λ e. e, λ e. e)
  written_once_step (update_participant_op id p message) r t = (λ e. e, λ e. e)
  written_once_step (set_thresholds_op results) r t = (λ e. e, λ e. e)
  written_once_step (set_scale_op peak ramp) r t = (λ e. e, λ e. e)

  -- The moments at which a run started running and began to stop are written once: no later method
  -- changes them.
  pub written_once :
      (os : List (Operation F)) (r : Run F) (t : ℕ)
      → (r.started_at ≡ some t → (steps F os r).started_at ≡ some t)
        × (r.stopping_at ≡ some t → (steps F os r).stopping_at ≡ some t)
  unfolding steps
  written_once [] r t = (λ e. e, λ e. e)
  written_once (o ∷ os) r t = (
    λ e. (written_once os (step F o r) t).0 ((written_once_step o r t).0 e),
    λ e. (written_once os (step F o r) t).1 ((written_once_step o r t).1 e),
  )
