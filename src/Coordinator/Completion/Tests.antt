-- ===== src/Coordinator/Completion/Tests.antt =====
-- Runs and instances for the endings of internal/coordinator/coordinator.go.
use Prim.Native.String.{String}
use load_wave.Prelude.{
  ℕ, ◌≡◌, ◌≢◌, refl, arith, inl, inr, true, false, Option, none, some, [], ◌∷◌, pos,
}
use load_wave.Coordinator.Phase.{Phase, is_terminal}
use load_wave.Coordinator.Thresholds.{Floats, SeriesSummary}
use load_wave.Coordinator.Run.{Run, Participant, grace_budget}
use load_wave.Coordinator.Completion.{Texts, completion, count_failures, tick}
use load_wave.Coordinator.Completion.Verdict.{completion_iff}
use load_wave.Coordinator.Completion.Endings.Deadline.{tick_stop_timeout}

abbrev bare : Floats
bare = record {
  Float = ℕ;
  zero_float = 0;
  of_uint64 = λ n. n;
  is_nan = λ _. false;
  lt_float = λ _ _. false;
  le_float = λ _ _. true;
  format_g = λ _. "";
}

abbrev texts : Texts bare
texts = record {
  partial_failure = λ n m. "partly";
  stop_timeout = λ d. "too late";
  breach = λ r. "breached";
}

abbrev nothing : String → Option (SeriesSummary bare)
nothing m = none

abbrev agent : String → String → Participant
agent id phase = record {
  agent_id = id;
  vu_quota = pos 1;
  rate_quota = pos 0;
  shard_index = 0;
  phase = phase;
  message = "";
  dispatched = true;
}

abbrev stuck : Run bare
stuck = record {
  phase = Phase.stopping;
  created_at = some 1;
  start_at = none;
  started_at = some 2;
  stopping_at = some 3;
  ended_at = none;
  stop_why = "";
  failure = "";
  peak_vus = pos 3;
  scale_ramp = pos 0;
  participants = ("a", agent "a" "running") ∷ [];
  events = [];
  thresholds = [];
  breached = false;
}

abbrev done : Run bare
done = record stuck { participants = ("a", agent "a" "failed") ∷ ("b", agent "b" "completed") ∷ [] }

one_failure :
    completion bare texts (agent "a" "failed" ∷ agent "b" "completed" ∷ [])
    ≡ some (Phase.completed, "partly")
unfolding completion count_failures
one_failure = refl

completion_iff_example :
    completion bare texts (agent "a" "failed" ∷ agent "b" "completed" ∷ []) ≢ none
completion_iff_example =
    (completion_iff bare texts (agent "a" "failed" ∷ agent "b" "completed" ∷ [])).1 (λ e. cc)
      (inr refl, (inl refl, tt))

tick_stop_timeout_example :
    is_terminal (tick bare texts nothing [] (pos 0) 50000000003 stuck).phase ≡ true
unfolding grace_budget
tick_stop_timeout_example =
    tick_stop_timeout bare texts nothing [] (pos 0) 30000000000 50000000003 3 stuck refl
      (omega arith) (omega arith) refl
