-- ===== src/Scenario/Running/Steps.antt =====
-- The iteration itself, `run` and `runStep` of internal/scenario/declarative.go.
use load_wave.Prelude.{
  ℕ, Bool, false, ◌||◌, Option, none, some, List, [], ◌∷◌, if◌then◌else◌, ℤ, eqb_ℤ,
}
use load_wave.Scenario.Build.{Declarative}
use load_wave.Scenario.Compile.{Step, Action, think, request, Request}
use load_wave.Scenario.Path.{CapturePath}
use load_wave.Scenario.Path.Document.{Json, Encoding, CaptureError, Result, ok, err, extract}
use load_wave.Scenario.Running.{
  HttpRequest, Exchange, response, failure, Client, StepError, panics, no_exchange,
  unexpected_status, not_captured, step_request,
}
use load_wave.Scenario.Template.Vars.{Vars, Sources, new_vars, set}
use load_wave.Text.{Text}

-- `slices.Contains`
abbrev pub contains : List ℤ → ℤ → Bool
contains [] x = false
contains (y ∷ ys) x = eqb_ℤ y x || contains ys x

abbrev capture_in :
    Vars → Text → Result CaptureError Text → Vars × Option StepError → Vars × Option StepError
capture_in vars name (ok value) rest = rest
capture_in vars name (err e) rest = (vars, some (not_captured name e))

abbrev value_or : Vars → Text → Result CaptureError Text → Vars
value_or vars name (ok value) = set vars name value
value_or vars name (err e) = vars

-- The loop over the captures.
unfoldable pub run_captures :
    {F : Type 0}
    → Encoding F
    → Text
    → Text
    → Vars
    → List (Text × CapturePath)
    → Vars × Option StepError
run_captures encoding step body vars [] = (vars, none)
run_captures encoding step body vars ((name, p) ∷ rest) =
    let value = extract encoding p body in
    let next = run_captures encoding step body (value_or vars name value) rest in
    capture_in vars step value next

-- What a step leaves: the state of the virtual user, the variables and the turn of the next rendering, and
-- the error that ends the iteration.
pub record Ran (S : Type 0) : Type 0 where
  pub state : S
  pub vars : Vars
  pub turn : ℕ
  pub error : Option StepError

module _ {F S : Type 0} (encoding : Encoding F) (client : Client F S) where
  abbrev with_captures : S → ℕ → Vars × Option StepError → Ran S
  with_captures state k (vars, error) = record {
    state = state;
    vars = vars;
    turn = k;
    error = error;
  }

  abbrev pub captured_from : S → ℕ → Vars → Text → List (Text × CapturePath) → Text → Ran S
  captured_from state k vars name capture body =
      with_captures state k (run_captures encoding name body vars capture)

  abbrev ended : S → ℕ → Vars → StepError → Ran S
  ended state k vars e = record { state = state; vars = vars; turn = k; error = some e }

  -- The status is checked, and the check recorded, when the step lists what it expects.
  abbrev pub expected : S → ℕ → Vars → Text → Request (Json F) → List ℤ → ℤ → Text → Ran S
  expected state k vars name s [] status body = captured_from state k vars name s.capture body
  expected state k vars name s (x ∷ xs) status body =
      let fine = contains (x ∷ xs) status in
      let checked = client.check state name fine in
      if fine
      then captured_from checked k vars name s.capture body
      else ended checked k vars (unexpected_status name)

  abbrev pub exchanged : ℕ → Vars → Text → Request (Json F) → Exchange × S → Ran S
  exchanged k vars name s (failure, state) = ended state k vars (no_exchange name)
  exchanged k vars name s (response status body, state) =
      expected state k vars name s s.expect status body

  abbrev requested : S → Vars → ℕ → Text → Request (Json F) → Option (HttpRequest F × ℕ) → Ran S
  requested state vars k name s none = ended state k vars panics
  requested state vars k name s (some (r, k')) = exchanged k' vars name s (client.exchange state r)

  unfoldable pub run_step : S → Vars → ℕ → Text → Request (Json F) → Ran S
  run_step state vars k name s =
      requested state vars k name s (step_request client.canonical_key vars name s k)

  -- One turn of the loop of `run`.
  unfoldable pub run_action : S → Vars → ℕ → Text → Action (Json F) → Ran S
  run_action state vars k name (think low high) = record {
    state = client.think_between state low high;
    vars = vars;
    turn = k;
    error = none;
  }
  run_action state vars k name (request s) = run_step state vars k name s

  abbrev pub go_on : Ran S → Ran S → Option StepError → Ran S
  go_on now later none = later
  go_on now later (some e) = now

  unfoldable pub run_steps : S → Vars → ℕ → List (Step (Json F)) → Ran S
  run_steps state vars k [] = record { state = state; vars = vars; turn = k; error = none }
  run_steps state vars k (s ∷ ss) =
      let now = run_action state vars k s.name s.action in
      go_on now (run_steps now.state now.vars now.turn ss) now.error

  -- `run`, for what the virtual user answers of itself.
  unfoldable pub run : Sources → S → Declarative (Json F) → Ran S
  run vu state d = run_steps state (new_vars (some vu) d.vars) 0 d.steps
