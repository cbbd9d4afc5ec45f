-- ===== src/Coordinator/Run/Breach.antt =====
-- The breach flag of a run, over any sequence of the methods of internal/coordinator/run.go.
use load_wave.Prelude.{◌≡◌, refl, Bool, true, false, ◌||◌, List, [], ◌∷◌, arith, if◌then◌else◌}
use load_wave.Coordinator.Thresholds.{Floats, any_breached}
use load_wave.Coordinator.Run.{
  Run, set_phase, add_event, set_participants, update_participant, set_thresholds, set_scale,
  Operation, set_phase_op, set_thresholds_op, step, steps,
}

module _ (F : Floats) where
  -- Some evaluation among the methods had a result that was evaluated and failed.
  abbrev pub breach_among : List (Operation F) → Bool
  breach_among [] = false
  breach_among (set_thresholds_op results ∷ os) =
      if any_breached F results then true else breach_among os
  breach_among (_ ∷ os) = breach_among os

  breached-step :
      (o : Operation F) (r : Run F) → (step F o r).breached ≡ r.breached || breach_among (o ∷ [])
  unfolding step set_phase add_event set_participants update_participant set_thresholds set_scale
  breached-step (set_phase_op now p reason) r = ground arith
  breached-step (set_thresholds_op results) r = ground arith
  breached-step _ r = ground arith

  breach_among-cons :
      (o : Operation F) (os : List (Operation F))
      → breach_among (o ∷ os) ≡ breach_among (o ∷ []) || breach_among os
  breach_among-cons (set_thresholds_op results) os = ground arith
  breach_among-cons _ os = refl

  -- The breach flag latches: after any sequence of methods it is set exactly if it was set before or
  -- some evaluation among them had a result that was evaluated and failed.
  pub breached-steps :
      (os : List (Operation F)) (r : Run F)
      → (steps F os r).breached ≡ r.breached || breach_among os
  unfolding steps
  breached-steps [] r = ground arith
  breached-steps (o ∷ os) r =
      ground (arith, breached-step o r, breach_among-cons o os, breached-steps os (step F o r))
