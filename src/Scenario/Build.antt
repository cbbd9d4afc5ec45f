-- ===== src/Scenario/Build.antt =====
-- How a configuration's scenarios get into the registry of a run, `BuildScenarios` of
-- internal/scenario/declarative.go. A registered scenario is Go code of the binary or a compiled list of steps.
pub mod Shadowing
pub mod Validated
use load_wave.Prelude.{
  ℕ, suc, ◌+◌, Bool, true, false, ◌&&◌, not, Option, none, some, List, [], ◌∷◌, if◌then◌else◌, ◌==◌,
  ℤ, pos, length,
}
use load_wave.Scenario.Compile.{Step, CompileError, Result, ok, err, compile_step}
use load_wave.Scenario.Step.{StepConfig, Library, is_empty}
use load_wave.Sdk.Names.{derive_request_name}
use load_wave.Sdk.Scenarios.{Scenario, RegisterError, lookup, register}
use load_wave.Text.{Text, codes}

pub record ScenarioConfig (J : Type 0) : Type 0 where
  pub name : Text
  pub weight : ℤ
  pub description : Text
  pub vars : List (Text × Text)
  pub steps : List (StepConfig J)

-- The Go type `declarative`.
pub record Declarative (J : Type 0) : Type 0 where
  pub name : Text
  pub vars : List (Text × Text)
  pub steps : List (Step J)

pub data Runner (R J : Type 0) : Type 0 where
  compiled_in : R → Runner R J
  declarative : Declarative J → Runner R J

pub data BuildError : Type 0 where
  not_registered collides : Text → BuildError
  bad_step : Text → ℕ → CompileError → BuildError
  bad_scenario : RegisterError → BuildError
  bad_base_url : BuildError
  bad_default : CompileError → BuildError

-- The steps compiled, or the first that fails with its position.
pub data Steps (J : Type 0) : Type 0 where
  compiled : List (Step J) → Steps J
  fails_at : ℕ → CompileError → Steps J

abbrev pub with_step : {J : Type 0} → ℕ → Result (Step J) → Steps J → Steps J
with_step j (err e) rest = fails_at j e
with_step j (ok s) (compiled ss) = compiled (s ∷ ss)
with_step j (ok s) (fails_at k e) = fails_at k e

unfoldable pub compile_steps : {J : Type 0} → Library → ℕ → List (StepConfig J) → Steps J
compile_steps lib j [] = compiled []
compile_steps lib j (cfg ∷ cfgs) =
    with_step (j + 1) (compile_step lib cfg) (compile_steps lib (suc j) cfgs)

abbrev pub has_steps : {J : Type 0} → List (StepConfig J) → Bool
has_steps [] = false
has_steps (s ∷ ss) = true

abbrev path_or_root : Text → Text
path_or_root [] = codes "/"
path_or_root (c ∷ cs) = c ∷ cs

abbrev pub none_configured : {J : Type 0} → List (ScenarioConfig J) → Bool
none_configured [] = true
none_configured (c ∷ cs) = false

abbrev get_step : {J : Type 0} → Text → StepConfig J
get_step path = record {
  name = derive_request_name (codes "GET") path;
  method = [];
  url = [];
  get = path;
  post = [];
  put = [];
  patch = [];
  delete = [];
  head = [];
  headers = [];
  query = [];
  json = none;
  form = [];
  body = [];
  expect = pos 200 ∷ [];
  capture = [];
  think = [];
  timeout = pos 0;
  between_requests = [];
}

-- The scenarios of a registry by their names.
abbrev pub Held : (R J : Type 0) → Type 0
Held R J = List (Text × Scenario (Runner R J))

-- A registry, and the error that ended the work on it; `none` is no error.
abbrev pub Built : (R J : Type 0) → Type 0
Built R J = Held R J × Option BuildError

module _ {R J : Type 0} where
  -- The scenario that a configuration defines.
  abbrev pub scenario_of : ScenarioConfig J → List (Step J) → Scenario (Runner R J)
  scenario_of cfg steps = record {
    name = cfg.name;
    weight = cfg.weight;
    description = cfg.description;
    run = some (declarative (record { name = cfg.name; vars = cfg.vars; steps = steps }));
  }

  abbrev pub reported : Held R J × Option RegisterError → Built R J
  reported (r, none) = (r, none)
  reported (r, some e) = (r, some (bad_scenario e))

  abbrev pub referred : ScenarioConfig J → Held R J → Option (Scenario (Runner R J)) → Built R J
  referred cfg r none = (r, some (not_registered cfg.name))
  referred cfg r (some s) = (r, none)

  abbrev pub continued : Held R J → Option BuildError → Built R J → Built R J
  continued r none rest = rest
  continued r (some e) rest = (r, some e)

  abbrev pub default_scenario : List (Step J) → Scenario (Runner R J)
  default_scenario steps = record {
    name = codes "default";
    weight = pos 0;
    description = codes "Synthesised from --url: a single GET.";
    run = some (declarative (record { name = codes "default"; vars = []; steps = steps }));
  }

  abbrev pub register_get : Held R J → Result (Step J) → Built R J
  register_get r (err e) = (r, some (bad_default e))
  register_get r (ok s) = reported (register r (default_scenario (s ∷ [])))

module _ {R J : Type 0} (lib : Library) where
  abbrev pub define : ScenarioConfig J → Held R J → Steps J → Built R J
  define cfg r (fails_at j e) = (r, some (bad_step cfg.name j e))
  define cfg r (compiled steps) = reported (register r (scenario_of cfg steps))

  abbrev pub defined : ScenarioConfig J → Held R J → Option (Scenario (Runner R J)) → Built R J
  defined cfg r (some s) = (r, some (collides cfg.name))
  defined cfg r none = define cfg r (compile_steps lib 0 cfg.steps)

  -- One turn of the loop.
  unfoldable pub build_scenario : ScenarioConfig J → Held R J → Built R J
  build_scenario cfg r =
      if has_steps cfg.steps
      then defined cfg r (lookup r cfg.name)
      else referred cfg r (lookup r cfg.name)

  -- The loop.
  unfoldable pub build_each : List (ScenarioConfig J) → Held R J → Built R J
  build_each [] r = (r, none)
  build_each (cfg ∷ cfgs) r =
      let turn = build_scenario cfg r in continued turn.0 turn.1 (build_each cfgs turn.0)

  -- `registerDefaultScenario`
  unfoldable pub register_default_scenario : Text → Held R J → Built R J
  register_default_scenario base_url r = elim (lib.url_path base_url) [
    | none ↦ (r, some bad_base_url)
    | some path ↦ register_get r (compile_step lib (get_step (path_or_root path)))
  ]

  -- `BuildScenarios`, for a configuration's base URL and scenarios.
  unfoldable pub build_scenarios : Text → List (ScenarioConfig J) → Held R J → Built R J
  build_scenarios base_url cfgs r =
      if none_configured cfgs && length r == 0 && not (is_empty base_url)
      then register_default_scenario base_url r
      else build_each cfgs r
