-- ===== src/Coordinator/Completion/Endings.antt =====
-- That `tick` of internal/coordinator/coordinator.go keeps the life of a run in order.
pub mod Deadline
use Prim.Native.String.{String}
use load_wave.Prelude.{
  ℕ, zero, suc, ◌+◌, ◌-◌, ◌≤◌, ◌<◌, ◌≡◌, ◌≢◌, refl, sym, ◌∙◌, ap, ◌⊎◌, inl, inr, Bool, true, false,
  Option, none, some, List, [], ◌∷◌, ◌++◌, map, length, All, arith, if◌then◌else◌, Bool-cases, ◌==◌,
  Option-cases, ℤ, pos, ◌+ℤ◌, int64_end, wrap_pos, wrap,
}
use load_wave.Coordinator.Phase.{Phase, is_terminal}
use load_wave.Coordinator.Thresholds.{
  Floats, Threshold, ThresholdResult, SeriesSummary, evaluate_thresholds, abort_requested,
}
use load_wave.Coordinator.Run.{
  Run, Participant, Operation, set_phase_op, add_event_op, set_thresholds_op, step, steps,
  set_phase, add_event, set_thresholds, stopping_for, grace_budget,
}
use load_wave.Coordinator.Run.Lifecycle.{IsCoherent, steps-IsCoherent, written_once, terminal_final}
use load_wave.Coordinator.Completion.{
  Texts, completion, finish, check_completion, check_stop_timeout, stop_run, tick,
  stop_timeout_margin, noted, finish_if, stopped_or_same, abort_if, check_ends,
}
use load_wave.Coordinator.Completion.Verdict.{IsDone, completion_iff}

module _ (F : Floats) where
  -- `s` is what some sequence of the run's methods makes of `r`.
  record Follows (r s : Run F) : Type 0 where
    by : List (Operation F)
    same : s ≡ steps F by r

  Follows-refl : (r : Run F) → Follows r r
  unfolding steps
  Follows-refl r = record { by = []; same = refl }

  steps-append :
      (os ps : List (Operation F)) (r : Run F) → steps F (os ++ ps) r ≡ steps F ps (steps F os r)
  unfolding steps
  steps-append [] ps r = refl
  steps-append (o ∷ os) ps r = steps-append os ps (step F o r)

  Follows-trans : (r s u : Run F) → Follows r s → Follows s u → Follows r u
  Follows-trans r s u p q = record {
    by = p.by ++ q.by;
    same = q.same ∙ ap (steps F q.by) p.same ∙ sym (steps-append p.by q.by r);
  }

  Follows-set_phase :
      (now : ℕ) (p : Phase) (reason : String) (r : Run F) → Follows r (set_phase F now p reason r).0
  unfolding steps step
  Follows-set_phase now p reason r = record { by = set_phase_op now p reason ∷ []; same = refl }

  Follows-add_event : (now : ℕ) (e : _) (r : Run F) → Follows r (add_event F now e r)
  unfolding steps step
  Follows-add_event now e r = record { by = add_event_op now e ∷ []; same = refl }

  Follows-set_thresholds :
      (results : List (ThresholdResult F)) (r : Run F) → Follows r (set_thresholds F results r)
  unfolding steps step
  Follows-set_thresholds results r = record { by = set_thresholds_op results ∷ []; same = refl }

  Follows-terminal :
      (r s : Run F) → Follows r s → is_terminal r.phase ≡ true → is_terminal s.phase ≡ true
  Follows-terminal r s p h = rw (p.same, (terminal_final F p.by r h).0) h

  Follows-stopping :
      (r s : Run F) (t : ℕ) → Follows r s → r.stopping_at ≡ some t → s.stopping_at ≡ some t
  Follows-stopping r s t p h = rw p.same ((written_once F p.by r t).1 h)

module _ (F : Floats) (texts : Texts F) where
  module _ (aggregate : String → Option (SeriesSummary F)) (thresholds : List (Threshold F)) where
    Follows-noted :
        (now : ℕ) (p : Phase) (reason : String) (x : Run F × Bool)
        → Follows F x.0 (noted F texts now p reason x)
    Follows-noted now p reason (r, true) = Follows-add_event F now _ r
    Follows-noted now p reason (r, false) = Follows-refl F r

    Follows-finish :
        (now : ℕ) (p : Phase) (reason : String) (r : Run F)
        → Follows F r (finish F texts aggregate thresholds now p reason r)
    unfolding finish
    Follows-finish now p reason r =
        let results = evaluate_thresholds F aggregate thresholds in
        let checked = set_thresholds F results r in
        Follows-trans F r checked _ (Follows-set_thresholds F results r) (
          Follows-trans F checked (set_phase F now p reason checked).0 _
            (Follows-set_phase F now p reason checked)
            (Follows-noted now p reason (set_phase F now p reason checked)))

    Follows-finish_if :
        (now : ℕ) (o : Option (Phase × String)) (r : Run F)
        → Follows F r (finish_if F texts aggregate thresholds now o r)
    Follows-finish_if now none r = Follows-refl F r
    Follows-finish_if now (some (p, reason)) r = Follows-finish now p reason r

    Follows-check_completion :
        (now : ℕ) (r : Run F) → Follows F r (check_completion F texts aggregate thresholds now r)
    unfolding check_completion
    Follows-check_completion now r = Follows-finish_if now _ r

    Follows-if :
        (b : Bool) (r s u : Run F)
        → Follows F r s
        → Follows F r u
        → Follows F r (if b then s else u)
    Follows-if true r s u p q = p
    Follows-if false r s u p q = q

    Follows-check_stop_timeout :
        (grace : ℤ) (now : ℕ) (r : Run F)
        → Follows F r (check_stop_timeout F texts aggregate thresholds grace now r)
    unfolding check_stop_timeout
    Follows-check_stop_timeout grace now r =
        Follows-if _ r r _ (Follows-refl F r)
          (Follows-if _ r r _ (Follows-refl F r) (Follows-finish now _ _ r))

    Follows-stopped :
        (now : ℕ) (reason : String) (r : Run F)
        → Follows F r (
            stopped_or_same F texts aggregate thresholds r
              (stop_run F texts aggregate thresholds now reason r))
    unfolding stop_run
    Follows-stopped now reason r = elim (Bool-cases (is_terminal r.phase)) [
      | inl e ↦ rw e (Follows-refl F r)
      | inr e ↦ rw e (
          Follows-trans F r (set_phase F now Phase.stopping _ r).0 _
            (Follows-set_phase F now Phase.stopping _ r) (Follows-add_event F now _ _))
    ]

    Follows-abort_if :
        (now : ℕ) (o : Option (ThresholdResult F)) (r : Run F)
        → Follows F r (abort_if F texts aggregate thresholds now o r)
    Follows-abort_if now none r = Follows-refl F r
    Follows-abort_if now (some b) r = Follows-if (is_terminal r.phase) r r _ (Follows-refl F r) (
        Follows-trans F r (add_event F now _ r) _ (Follows-add_event F now _ r)
          (Follows-stopped now (Texts.breach texts b) _))

    Follows-check_ends :
        (grace : ℤ) (now : ℕ) (r : Run F)
        → Follows F r (check_ends F texts aggregate thresholds grace now r)
    Follows-check_ends grace now r = Follows-if (is_terminal r.phase) r r _ (Follows-refl F r) (
        Follows-trans F r (check_completion F texts aggregate thresholds now r) _
          (Follows-check_completion now r) (Follows-check_stop_timeout grace now _))

    abbrev before_ends : ℕ → Run F → Run F
    before_ends now r =
        let results = evaluate_thresholds F aggregate thresholds in
        abort_if F texts aggregate thresholds now (abort_requested F results)
          (set_thresholds F results r)

    Follows-before_ends : (now : ℕ) (r : Run F) → Follows F r (before_ends now r)
    Follows-before_ends now r =
        let results = evaluate_thresholds F aggregate thresholds in
        Follows-trans F r (set_thresholds F results r) _ (Follows-set_thresholds F results r)
          (Follows-abort_if now (abort_requested F results) _)

    Follows-tick :
        (grace : ℤ) (now : ℕ) (r : Run F)
        → Follows F r (tick F texts aggregate thresholds grace now r)
    unfolding tick
    Follows-tick grace now r =
        Follows-trans F r (before_ends now r) _ (Follows-before_ends now r)
          (Follows-check_ends grace now (before_ends now r))

    -- A tick keeps a coherent run coherent, and leaves a terminal phase, its end time and its reasons as
    -- they are.
    pub tick-IsCoherent :
        (grace : ℤ) (now : ℕ) (r : Run F)
        → IsCoherent F r
        → IsCoherent F (tick F texts aggregate thresholds grace now r)
          × (is_terminal r.phase ≡ true
              → ((tick F texts aggregate thresholds grace now r).phase ≡ r.phase)
                × ((tick F texts aggregate thresholds grace now r).ended_at ≡ r.ended_at)
                × ((tick F texts aggregate thresholds grace now r).stop_why ≡ r.stop_why)
                × ((tick F texts aggregate thresholds grace now r).failure ≡ r.failure))
    tick-IsCoherent grace now r h =
        let f = Follows-tick grace now r in
        (
          rw f.same (steps-IsCoherent F f.by r h),
          λ t.
              let (p, a, b, c, d, e) = terminal_final F f.by r t in
              (rw f.same p, rw f.same c, rw f.same d, rw f.same e),
        )

    noted_phase :
        (now : ℕ) (p : Phase) (reason : String) (x : Run F × Bool)
        → (noted F texts now p reason x).phase ≡ x.0.phase
    unfolding add_event
    noted_phase now p reason (r, true) = refl
    noted_phase now p reason (r, false) = refl

    set_phase_terminal :
        (now : ℕ) (p : Phase) (reason : String) (r : Run F)
        → is_terminal p ≡ true
        → is_terminal (set_phase F now p reason r).0.phase ≡ true
    unfolding set_phase
    set_phase_terminal now p reason r h = ground arith

    finish_terminal :
        (now : ℕ) (p : Phase) (reason : String) (r : Run F)
        → is_terminal p ≡ true
        → is_terminal (finish F texts aggregate thresholds now p reason r).phase ≡ true
    unfolding finish
    finish_terminal now p reason r h =
        rw (noted_phase now p reason (set_phase F now p reason _))
          (set_phase_terminal now p reason _ h)
