-- ===== src/Coordinator/Completion.antt =====
-- How the coordinator ends a run, internal/coordinator/coordinator.go: `StopRun`, `finish`,
-- `checkCompletion`, `checkStopTimeout` and what `tick` does to the active run. The store's
-- aggregates and the texts that `fmt` renders with numbers in them are parameters. One moment `now`
-- stands for the clock readings of one call, and publishing and logging are left out.
mod Verdict
mod Endings
mod Tests
use Prim.Native.String.{String, ◌++◌ as ◌⧺◌}
use text.Mathlib.Text.{◌==◌ as str_eq}
use load_wave.Prelude.{
  ℕ, zero, suc, ◌+◌, Bool, true, false, not, ◌&&◌, ◌||◌, Option, none, some, List, [], ◌∷◌, map,
  length, if◌then◌else◌, ltb, ◌==◌, ℤ, pos, ◌+ℤ◌, ltb_ℤ, wrap,
}
use load_wave.Coordinator.Phase.{Phase, is_terminal, phase_name, phase_completed, phase_failed}
use load_wave.Coordinator.Thresholds.{
  Floats, Threshold, ThresholdResult, SeriesSummary, evaluate_thresholds, abort_requested,
}
use load_wave.Coordinator.Run.{
  Run, Event, Participant, set_phase, add_event, set_thresholds, stopping_for, grace_budget,
}

-- The texts with numbers in them.
pub record Texts (F : Floats) : Type 0 where
  pub partial_failure : ℕ → ℕ → String
  pub stop_timeout : ℤ → String
  pub breach : ThresholdResult F → String

-- `stopTimeoutMargin`, in nanoseconds
abbrev pub stop_timeout_margin : ℤ
stop_timeout_margin = pos 20000000000

abbrev pub event_at : ℕ → String → String → String → Event
event_at now level source message = record {
  time = some now;
  level = level;
  source = source;
  message = message;
  fields = [];
}

-- The loop of `checkCompletion`: the failures so far, or `none` if an agent is still working.
unfoldable pub count_failures : ℕ → List Participant → Option ℕ
count_failures n [] = some n
count_failures n (p ∷ ps) =
    let next = count_failures n ps in
    let failed = count_failures (suc n) ps in
    if str_eq p.phase phase_completed
    then next
    else if str_eq p.phase phase_failed
    then failed
    else none

module _ (F : Floats) (texts : Texts F) where
  abbrev outcome : ℕ → Option ℕ → Option (Phase × String)
  outcome total none = none
  outcome total (some failures) =
      if failures == total
      then some (Phase.failed, "every agent reported a failure")
      else some (
        Phase.completed,
        (if ltb 0 failures
            then Texts.partial_failure texts failures total
            else "all agents finished"),
      )

  -- The ending that the participants' phases call for.
  unfoldable pub completion : List Participant → Option (Phase × String)
  completion parts =
      if length parts == 0 then none else outcome (length parts) (count_failures 0 parts)

  abbrev level_of : Phase → Bool → String
  level_of Phase.completed breached = if breached then "warn" else "info"
  level_of _ breached = "warn"

  abbrev noted : ℕ → Phase → String → Run F × Bool → Run F
  noted now p reason (r, ended) =
      if ended
      then add_event F now
          (event_at now (level_of p r.breached) "coordinator"
            ("run " ⧺ phase_name p ⧺ ": " ⧺ reason))
          r
      else r

  module _ (aggregate : String → Option (SeriesSummary F)) (thresholds : List (Threshold F)) where
    unfoldable pub finish : ℕ → Phase → String → Run F → Run F
    finish now p reason r =
        noted now p reason (
          set_phase F now p reason
            (set_thresholds F (evaluate_thresholds F aggregate thresholds) r))

    abbrev finish_if : ℕ → Option (Phase × String) → Run F → Run F
    finish_if now none r = r
    finish_if now (some (p, reason)) r = finish now p reason r

    unfoldable pub check_completion : ℕ → Run F → Run F
    check_completion now r = finish_if now (completion (map (λ e. e.1) r.participants)) r

    -- `grace` is the plan's graceful stop.
    unfoldable pub check_stop_timeout : ℤ → ℕ → Run F → Run F
    check_stop_timeout grace now r =
        let stopping = stopping_for F now r in
        let limit = wrap (grace_budget grace +ℤ stop_timeout_margin) in
        if stopping == 0
        then r
        else if ltb_ℤ (pos stopping) limit
        then r
        else finish now Phase.aborted (Texts.stop_timeout texts limit) r

    abbrev default_reason : String → String
    default_reason reason = if str_eq reason "" then "stopped by operator" else reason

    -- `StopRun` on a run that was found; `none` is its error for a finished one.
    unfoldable pub stop_run : ℕ → String → Run F → Option (Run F)
    stop_run now reason r =
        if is_terminal r.phase
        then none
        else some (
            add_event F now
              (event_at now "info" "coordinator" ("stopping: " ⧺ default_reason reason))
              (set_phase F now Phase.stopping (default_reason reason) r).0)

    abbrev stopped_or_same : Run F → Option (Run F) → Run F
    stopped_or_same r none = r
    stopped_or_same r (some s) = s

    abbrev abort_if : ℕ → Option (ThresholdResult F) → Run F → Run F
    abort_if now none r = r
    abort_if now (some b) r =
        if is_terminal r.phase
        then r
        else let warned =
            add_event F now (event_at now "error" "threshold" (Texts.breach texts b)) r in
          stopped_or_same warned (stop_run now (Texts.breach texts b) warned)

    abbrev check_ends : ℤ → ℕ → Run F → Run F
    check_ends grace now r =
        if is_terminal r.phase then r else check_stop_timeout grace now (check_completion now r)

    -- What `tick` does to the active run, in its order.
    unfoldable pub tick : ℤ → ℕ → Run F → Run F
    tick grace now r =
        let results = evaluate_thresholds F aggregate thresholds in
        check_ends grace now (abort_if now (abort_requested F results) (set_thresholds F results r))
