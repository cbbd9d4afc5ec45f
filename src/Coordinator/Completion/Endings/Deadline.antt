-- ===== src/Coordinator/Completion/Endings/Deadline.antt =====
-- That `tick` of internal/coordinator/coordinator.go ends a run whose agents are done, or whose time
-- to stop is over.
use Prim.Native.String.{String}
use load_wave.Prelude.{
  ℕ, ◌+◌, ◌-◌, ◌≤◌, ◌<◌, ◌≡◌, ◌≢◌, refl, inl, inr, true, Option, none, some, List, [], map, All,
  arith, Bool-cases, ℤ, pos, int64_end, wrap_pos, wrap,
}
use load_wave.Coordinator.Phase.{Phase, is_terminal}
use load_wave.Coordinator.Thresholds.{Floats, Threshold, SeriesSummary}
use load_wave.Coordinator.Run.{Run, Participant, stopping_for, grace_budget}
use load_wave.Coordinator.Completion.{
  Texts, check_completion, check_stop_timeout, tick, finish_if, check_ends,
}
use load_wave.Coordinator.Completion.Verdict.{IsDone, Ending, completion_iff}
use load_wave.Coordinator.Completion.Endings.{
  Follows-stopping, finish_terminal, before_ends, Follows-before_ends, Follows-check_completion,
}

module _ (F : Floats) (texts : Texts F) where
  module _ (aggregate : String → Option (SeriesSummary F)) (thresholds : List (Threshold F)) where
    stop_timeout_terminal :
        (grace : ℤ) (g now t : ℕ) (r : Run F)
        → grace_budget grace ≡ pos g
        → g + 20000000000 < int64_end
        → g + 20000000000 ≤ now - t
        → r.stopping_at ≡ some t
        → is_terminal (check_stop_timeout F texts aggregate thresholds grace now r).phase ≡ true
    unfolding check_stop_timeout stopping_for
    stop_timeout_terminal grace g now t r e k h s =
        rw (s, e)
          (ground (
            arith,
            wrap_pos (g + 20000000000),
            finish_terminal F texts aggregate thresholds now Phase.aborted
                (Texts.stop_timeout texts (wrap (pos (g + 20000000000)))) r,
          ))

    ends_of :
        (grace : ℤ) (now : ℕ) (s : Run F)
        → is_terminal
            (check_stop_timeout F texts aggregate thresholds grace now
              (check_completion F texts aggregate thresholds now s)).phase
          ≡ true
        → is_terminal (check_ends F texts aggregate thresholds grace now s).phase ≡ true
    ends_of grace now s h = elim (Bool-cases (is_terminal s.phase)) [
      | inl e ↦ rw e e
      | inr e ↦ rw e h
    ]

    -- A run that was asked to stop at `t`, in whatever phase its agents are, is over after a tick at
    -- least the grace budget and 20 seconds later, whatever the thresholds say.
    pub tick_stop_timeout :
        (grace : ℤ) (g now t : ℕ) (r : Run F)
        → grace_budget grace ≡ pos g
        → g + 20000000000 < int64_end
        → g + 20000000000 ≤ now - t
        → r.stopping_at ≡ some t
        → is_terminal (tick F texts aggregate thresholds grace now r).phase ≡ true
    unfolding tick
    tick_stop_timeout grace g now t r e k h s =
        let stopped =
          Follows-stopping F r (before_ends F texts aggregate thresholds now r) t
            (Follows-before_ends F texts aggregate thresholds now r) s in
        ends_of grace now (before_ends F texts aggregate thresholds now r) (
          stop_timeout_terminal grace g now t _ e k h (
            Follows-stopping F _ _ t (Follows-check_completion F texts aggregate thresholds now _)
              stopped))

    finish_if_terminal :
        (now : ℕ) (o : Option (Phase × String)) (r : Run F)
        → o ≢ none
        → ((p : Phase) (reason : String) → o ≡ some (p, reason) → is_terminal p ≡ true)
        → is_terminal (finish_if F texts aggregate thresholds now o r).phase ≡ true
    finish_if_terminal now none r n h = absurd (n refl)
    finish_if_terminal now (some (p, reason)) r n h =
        finish_terminal F texts aggregate thresholds now p reason r (h p reason refl)

    Ending-terminal :
        (p : Phase) (ps : List Participant) → Ending F texts p ps → is_terminal p ≡ true
    Ending-terminal p ps (inl (e, _)) = rw e
    Ending-terminal p ps (inr (e, _)) = rw e

    -- A run that has participants, each of which has completed or failed, is over after the check
    -- for completion.
    pub check_completion_terminal :
        (now : ℕ) (r : Run F)
        → map (λ e. e.1) r.participants ≢ []
        → All IsDone (map (λ e. e.1) r.participants)
        → is_terminal (check_completion F texts aggregate thresholds now r).phase ≡ true
    unfolding check_completion
    check_completion_terminal now r n h =
        let (sound, complete) = completion_iff F texts (map (λ e. e.1) r.participants) in
        finish_if_terminal now _ r (complete n h)
          (λ p reason e. Ending-terminal p _ (sound p reason e).2)
