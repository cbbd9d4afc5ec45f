-- ===== src/Scenario/Load/Tests.antt =====
-- Loads and instances for internal/scenario/config.go.
use load_wave.Prelude.{◌≡◌, refl, true, [], ◌∷◌, ℤ, pos, negsuc}
use load_wave.Engine.Executor.{LoadProfile, constant_vus, new_executor}
use load_wave.Scenario.Load.{
  LoadConfig, refused, flat_ramp, check_stages, check_constant, check_ramping, validate_load,
  as_uint_32, plan_load,
}
use load_wave.Scenario.Load.Accepted.{is_refused, new_executor-validated}

-- A hundred iterations of one user, with a duration below 0.
abbrev backwards : ℤ → LoadConfig
backwards vus = record {
  executor = "constant-vus";
  vus = vus;
  duration = negsuc 4;
  stages = [];
  max_iteration_rate = pos 0;
  iterations = 100;
  graceful_stop = pos 0;
}

abbrev planned : LoadProfile
planned = record {
  executor = constant_vus;
  vus = 1;
  duration = negsuc 4;
  iterations = 100;
  stages = [];
}

flat_runs :
    validate_load (record (backwards (pos 0)) {
      executor = "ramping-vus";
      stages = record { duration = pos 5; target = pos 0 } ∷ [];
    })
    ≡ refused flat_ramp
unfolding validate_load check_ramping check_stages
flat_runs = refl

new_executor-validated_example : is_refused (new_executor planned) ≡ true
unfolding validate_load check_constant plan_load as_uint_32
new_executor-validated_example =
    new_executor-validated (backwards (pos 0)) (backwards (pos 1)) planned refl refl
