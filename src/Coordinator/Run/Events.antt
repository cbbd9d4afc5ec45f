-- ===== src/Coordinator/Run/Events.antt =====
-- The event log of a run, over any sequence of the methods of internal/coordinator/run.go.
use load_wave.Prelude.{
  keep_last, keep_last-append, ℕ, ◌-◌, ◌≤◌, ◌≡◌, refl, ◌∙◌, List, [], ◌∷◌, ◌++◌, length,
  length-drop, drop, arith, if◌then◌else◌, ltb, Bool-cases, inl, inr,
}
use mathlib.Core.List.{append_assoc, append-nil}
use Prim.Native.String.{String}
use load_wave.Coordinator.Phase.{Phase}
use load_wave.Coordinator.Thresholds.{Floats}
use load_wave.Coordinator.Run.{
  Run, Event, timed, max_run_events, set_phase, add_event, set_participants, update_participant,
  set_thresholds, set_scale, Operation, set_phase_op, add_event_op, set_participants_op,
  update_participant_op, set_thresholds_op, set_scale_op, step, steps,
}

module _ (F : Floats) where
  -- The events that a sequence of methods adds, in order, each with its time.
  abbrev pub recorded : List (Operation F) → List Event
  recorded [] = []
  recorded (add_event_op now e ∷ os) = timed F now e ∷ recorded os
  recorded (_ ∷ os) = recorded os

  trim_is_keep_last :
      (es : List Event)
      → (if ltb max_run_events (length es) then drop (length es - max_run_events) es else es)
        ≡ keep_last max_run_events es
  trim_is_keep_last es = elim (Bool-cases (ltb max_run_events (length es))) [
    | inl e ↦ rw e
    | inr e ↦ let none_over : length es - max_run_events ≡ 0 = ground arith in rw (e, none_over)
  ]

  keep_whole :
      (es : List Event) → length es ≤ max_run_events → es ≡ keep_last max_run_events (es ++ [])
  keep_whole es h =
      let none_over : length es - max_run_events ≡ 0 = omega arith in rw (append-nil, none_over)

  events-set_phase :
      (now : ℕ) (p : Phase) (reason : String) (r : Run F)
      → (set_phase F now p reason r).0.events ≡ r.events
  unfolding set_phase
  events-set_phase now p reason r = ground arith

  events-step :
      (o : Operation F) (r : Run F)
      → length r.events ≤ max_run_events
      → (step F o r).events ≡ keep_last max_run_events (r.events ++ recorded (o ∷ []))
  unfolding step add_event set_participants update_participant set_thresholds set_scale
  events-step (set_phase_op now p reason) r h =
      events-set_phase now p reason r ∙ keep_whole r.events h
  events-step (add_event_op now e) r h = trim_is_keep_last (r.events ++ timed F now e ∷ [])
  events-step (set_participants_op parts) r h = keep_whole r.events h
  events-step (update_participant_op id p message) r h = keep_whole r.events h
  events-step (set_thresholds_op results) r h = keep_whole r.events h
  events-step (set_scale_op peak ramp) r h = keep_whole r.events h

  recorded-cons :
      (o : Operation F) (os : List (Operation F))
      → recorded (o ∷ os) ≡ recorded (o ∷ []) ++ recorded os
  recorded-cons (add_event_op now e) os = refl
  recorded-cons _ os = refl

  length-keep_last : (n : ℕ) (es : List Event) → length (keep_last n es) ≤ n
  length-keep_last n es = omega (arith, length-drop (length es - n) es)

  -- From a log within its bound, the log after any sequence of methods holds the last 500 of the
  -- events that were there followed by those that the methods added, in order.
  pub events-steps :
      (os : List (Operation F)) (r : Run F)
      → length r.events ≤ max_run_events
      → (steps F os r).events ≡ keep_last max_run_events (r.events ++ recorded os)
  unfolding steps
  events-steps [] r h = keep_whole r.events h
  events-steps (o ∷ os) r h =
      let e = events-step o r h in
      events-steps os (step F o r)
        (rw e (length-keep_last max_run_events (r.events ++ recorded (o ∷ []))))
      ∙ rw (e, recorded-cons o os, ← append_assoc)
          (keep_last-append max_run_events (r.events ++ recorded (o ∷ [])) (recorded os))
