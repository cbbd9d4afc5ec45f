-- ===== src/Scenario/Build/Validated.antt =====
-- What the validation of a scenario, `validate` of internal/scenario/declarative.go, leaves to go wrong when it
-- is built.
use load_wave.Prelude.{
  ℕ, suc, ◌+◌, ◌≡◌, refl, Bool, true, false, Option, none, some, List, [], ◌∷◌, if◌then◌else◌, pos,
  ltb_ℤ,
}
use load_wave.Scenario.Build.{ScenarioConfig, Steps, compiled, fails_at, with_step, compile_steps}
use load_wave.Scenario.Compile.Accepted.{OnlyTemplates, compile_step-OnlyTemplates}
use load_wave.Scenario.Compile.{Step, Result, ok, err, compile_step}
use load_wave.Scenario.Step.{StepConfig, StepRefusal, Library, is_empty, validate_step}

pub data ScenarioRefusal : Type 0 where
  no_name negative_weight : ScenarioRefusal
  refused_step : ℕ → StepRefusal → ScenarioRefusal

unguarded :
    (b : Bool) (e : ScenarioRefusal) (rest : Option ScenarioRefusal)
    → (if b then some e else rest) ≡ none
    → rest ≡ none
unguarded true e rest h = absurd (cc h)
unguarded false e rest h = h

abbrev first_refusal : ℕ → Option StepRefusal → Option ScenarioRefusal → Option ScenarioRefusal
first_refusal i none rest = rest
first_refusal i (some e) rest = some (refused_step i e)

first_refusal-none :
    (i : ℕ) (o : Option StepRefusal) (rest : Option ScenarioRefusal)
    → first_refusal i o rest ≡ none
    → (o ≡ none) × (rest ≡ none)
first_refusal-none i none rest h = (refl, h)
first_refusal-none i (some e) rest h = absurd (cc h)

module _ {J : Type 0} (lib : Library) where
  -- The loop over the steps.
  unfoldable pub validate_steps : ℕ → List (StepConfig J) → Option ScenarioRefusal
  validate_steps i [] = none
  validate_steps i (s ∷ ss) =
      first_refusal (i + 1) (validate_step lib s) (validate_steps (suc i) ss)

  -- `validate` of a scenario; `none` is no error.
  unfoldable pub validate_scenario : ScenarioConfig J → Option ScenarioRefusal
  validate_scenario cfg =
      if is_empty cfg.name
      then some no_name
      else if ltb_ℤ cfg.weight (pos 0)
      then some negative_weight
      else validate_steps 0 cfg.steps

  abbrev pub AllTemplates : Steps J → Type 0
  AllTemplates (compiled ss) = Unit
  AllTemplates (fails_at j e) = OnlyTemplates {A = Step J} (err e)

  with_step-AllTemplates :
      (j : ℕ) (o : Result (Step J)) (rest : Steps J)
      → OnlyTemplates o
      → AllTemplates rest
      → AllTemplates (with_step j o rest)
  with_step-AllTemplates j (err e) rest h k = h
  with_step-AllTemplates j (ok s) (compiled ss) h k = tt
  with_step-AllTemplates j (ok s) (fails_at i e) h k = k

  compile_steps-AllTemplates :
      (i j : ℕ) (ss : List (StepConfig J))
      → validate_steps i ss ≡ none
      → AllTemplates (compile_steps lib j ss)
  unfolding validate_steps compile_steps
  compile_steps-AllTemplates i j [] h = tt
  compile_steps-AllTemplates i j (s ∷ ss) h =
      let (first, rest) = first_refusal-none (i + 1) (validate_step lib s) _ h in
      with_step-AllTemplates (j + 1) (compile_step lib s) _ (compile_step-OnlyTemplates lib s first)
        (compile_steps-AllTemplates (suc i) (suc j) ss rest)

  -- The steps of a scenario that `validate` accepts are compiled, unless a template of one of them is not
  -- parsed: they fail with no other error.
  pub validate_scenario-AllTemplates :
      (cfg : ScenarioConfig J)
      → validate_scenario cfg ≡ none
      → AllTemplates (compile_steps lib 0 cfg.steps)
  unfolding validate_scenario
  validate_scenario-AllTemplates cfg h = compile_steps-AllTemplates 0 0 cfg.steps (
      unguarded (ltb_ℤ cfg.weight (pos 0)) negative_weight _
        (unguarded (is_empty cfg.name) no_name _ h))
