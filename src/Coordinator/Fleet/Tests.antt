-- ===== src/Coordinator/Fleet/Tests.antt =====
-- Fleets and instances for `dispatch` and `rebalance` of internal/coordinator/coordinator.go.
use Prim.Native.String.{String}
use load_wave.Prelude.{
  length, ℕ, ◌≡◌, refl, arith, true, false, Option, some, none, List, [], ◌∷◌, map, sum, pos, wrap,
}
use load_wave.Prelude.Assoc.{string_eq}
use load_wave.Idspace.{agent_base, worker_base}
use load_wave.Apportion.{
  total_weight, floors, share_out, largest, sort, insert, less, hand_out, bump,
}
use load_wave.Coordinator.Phase.{Phase}
use load_wave.Coordinator.Thresholds.{Floats, SeriesSummary}
use load_wave.Coordinator.Run.{Run, Participant, set_participants}
use load_wave.Coordinator.Completion.{Texts, check_completion}
use load_wave.Coordinator.Fleet.{
  Session, Load, Order, start_run, set_quota, Dispatched, dispatch, dispatch_from, rebalance,
  rebalance_from, sort_sessions, place,
}
use load_wave.Coordinator.Fleet.Quotas.{vus_of, dispatch_total}
use load_wave.Coordinator.Fleet.Bases.{base_for, dispatch_disjoint, rebalance_collides}
use load_wave.Coordinator.Fleet.Resets.{rebalance_reopens}

abbrev bare : Floats
bare = record {
  Float = ℕ;
  zero_float = 0;
  of_uint64 = λ n. n;
  is_nan = λ _. false;
  lt_float = λ _ _. false;
  le_float = λ _ _. true;
  format_g = λ _. "";
}

abbrev texts : Texts bare
texts = record {
  partial_failure = λ n m. "partly";
  stop_timeout = λ d. "too late";
  breach = λ r. "breached";
}

abbrev nothing : String → Option (SeriesSummary bare)
nothing m = none

abbrev reaches : String → Order → Option String
reaches id order = none

abbrev alpha : Session
alpha = record { id = "alpha"; max_vus = 100 }

abbrev beta : Session
beta = record { id = "beta"; max_vus = 200 }

abbrev gamma : Session
gamma = record { id = "gamma"; max_vus = 0 }

abbrev load : Load
load = record { max_iterations_per_second = 0; iterations = 0 }

abbrev member : String → String → Participant
member id phase = record {
  agent_id = id;
  vu_quota = pos 10;
  rate_quota = pos 0;
  shard_index = 0;
  phase = phase;
  message = "";
  dispatched = true;
}

abbrev going : Run bare
going = record {
  phase = Phase.running;
  created_at = some 1;
  start_at = none;
  started_at = some 2;
  stopping_at = none;
  ended_at = none;
  stop_why = "";
  failure = "";
  peak_vus = pos 10;
  scale_ramp = pos 0;
  participants = ("beta", member "beta" "completed") ∷ ("gamma", member "gamma" "failed") ∷ [];
  events = [];
  thresholds = [];
  breached = false;
}

abbrev started : Dispatched
started = record {
  parts =
      record {
        agent_id = "beta";
        vu_quota = pos 10;
        rate_quota = pos 0;
        shard_index = 0;
        phase = "pending";
        message = "";
        dispatched = true;
      }
      ∷ record {
        agent_id = "gamma";
        vu_quota = pos 0;
        rate_quota = pos 0;
        shard_index = 1;
        phase = "pending";
        message = "";
        dispatched = true;
      }
      ∷ [];
  orders =
      ("beta", start_run 10 0 0 2 (pos 0) 0) ∷ ("gamma", start_run 0 0 1 2 (pos 10000000) 0) ∷ [];
  quotas = ("beta", pos 10) ∷ [];
}

dispatch_runs :
    dispatch reaches load (pos 10) (gamma ∷ beta ∷ []) (("beta", pos 0) ∷ []) ≡ some started
unfolding dispatch dispatch_from sort_sessions place largest total_weight floors share_out hand_out
    bump sort insert less agent_base wrap
dispatch_runs = refl

abbrev joined : List (String × Order)
joined =
    ("alpha", start_run 3 0 0 3 (pos 0) 0)
    ∷ ("beta", set_quota 7 0 (pos 0))
    ∷ ("gamma", set_quota 0 0 (pos 0))
    ∷ []

abbrev restarted : String → ℕ → ℕ → Participant
restarted id i vus = record {
  agent_id = id;
  vu_quota = pos vus;
  rate_quota = pos 0;
  shard_index = i;
  phase = "running";
  message = "";
  dispatched = true;
}

abbrev rejoined : Run bare
rejoined = record going {
  participants =
      ("alpha", restarted "alpha" 0 3)
      ∷ ("beta", restarted "beta" 1 7)
      ∷ ("gamma", restarted "gamma" 2 0)
      ∷ [];
}

rebalance_runs :
    rebalance reaches bare load (alpha ∷ gamma ∷ beta ∷ []) going ≡ some (joined, rejoined)
unfolding rebalance rebalance_from set_participants sort_sessions place largest total_weight floors
    share_out hand_out bump sort insert less agent_base wrap
rebalance_runs = refl

dispatch_total_example :
    (d : Dispatched) × (dispatch reaches load (pos 10) (gamma ∷ beta ∷ []) (("beta", pos 0) ∷ [])
      ≡ some d)
    × (length d.orders ≡ 2)
    × (sum (map vus_of d.orders) ≡ 10)
dispatch_total_example =
    dispatch_total reaches load 10 (gamma ∷ beta ∷ []) (("beta", pos 0) ∷ []) (omega arith)
      (omega arith) (omega arith) (omega arith)

dispatch_disjoint_example : ◌≡◌ {A = ℕ} 1 1
unfolding worker_base wrap
dispatch_disjoint_example =
    dispatch_disjoint reaches load (pos 10) (gamma ∷ beta ∷ []) (("beta", pos 0) ∷ []) started
      dispatch_runs 1 1 2 2 5 5 (pos 10000000) (pos 10000000) (omega arith) refl refl (omega arith)
      (omega arith) (omega arith) (omega arith) refl

rebalance_collides_example :
    (base_for "alpha" joined ≡ some (agent_base (pos 0)))
    × (base_for "alpha" joined ≡ base_for "beta" started.orders)
unfolding sort_sessions place
rebalance_collides_example =
    rebalance_collides reaches bare load (pos 10) beta alpha (gamma ∷ []) (gamma ∷ beta ∷ [])
      (("beta", pos 0) ∷ []) going rejoined started joined refl refl refl refl dispatch_runs
      rebalance_runs

rebalance_reopens_example : check_completion bare texts nothing [] 9 rejoined ≡ rejoined
rebalance_reopens_example =
    rebalance_reopens reaches bare texts nothing [] load (alpha ∷ gamma ∷ beta ∷ []) going rejoined
      joined 9 refl (omega arith) rebalance_runs
