-- ===== src/Scenario/Step.antt =====
-- The steps of a declarative scenario, `StepConfig` of internal/scenario/declarative.go: their methods,
-- their pauses and the validation. A map is the list of its entries in the order in which it is ranged
-- over, which Go leaves open.
pub mod Think
use load_wave.Prelude.{
  ℕ, suc, ◌+◌, Bool, true, false, ◌&&◌, ◌||◌, not, Option, none, some, List, [], ◌∷◌, if◌then◌else◌,
  ltb, leb, ◌==◌, ℤ, pos, ltb_ℤ,
}
use load_wave.Scenario.Path.{CapturePath, ParsedPath, path, parse_path}
use load_wave.Sdk.Pause.{Pause, ParsedPause, pause, parse_pause}
use load_wave.Text.{Text, codes, trim, split_last}

-- `J` is the type of a JSON body.
pub record StepConfig (J : Type 0) : Type 0 where
  pub name : Text
  pub method : Text
  pub url : Text
  pub get : Text
  pub post : Text
  pub put : Text
  pub patch : Text
  pub delete : Text
  pub head : Text
  pub headers : List (Text × Text)
  pub query : List (Text × Text)
  pub json : Option J
  pub form : List (Text × Text)
  pub body : Text
  pub expect : List ℤ
  pub capture : List (Text × Text)
  pub think : Text
  pub timeout : ℤ
  pub between_requests : Text

-- Why a step is refused.
pub data StepRefusal : Type 0 where
  invalid_think negative_think descending_think think_with_request : StepRefusal
  many_shorthands shorthand_and_url no_url many_bodies : StepRefusal
  bad_capture : Text → ParsedPath → StepRefusal
  bad_pause : ParsedPause → StepRefusal

abbrev pub is_empty : Text → Bool
is_empty [] = true
is_empty (c ∷ cs) = false

-- What the steps use of Go's libraries: `time.ParseDuration`, of which `none` is an error,
-- `strings.ToUpper`, and the path of a URL that `url.Parse` reads.
pub record Library : Type 0 where
  pub parse_duration : Text → Option ℤ
  pub to_upper : Text → Text
  pub url_path : Text → Option Text

pub data Resolved : Type 0 where
  resolved : (method target : Text) → Resolved
  refused : StepRefusal → Resolved

-- What `parseThink` returns.
pub data ParsedThink : Type 0 where
  between : (low high : ℤ) → ParsedThink
  descending unreadable negative : ParsedThink

abbrev pub fixed_think : Option ℤ → ParsedThink
fixed_think none = unreadable
fixed_think (some d) = if ltb_ℤ d (pos 0) then negative else between d d

abbrev pub think_in : Option (ℤ × ℤ) → Option ℤ → ParsedThink
think_in none whole = fixed_think whole
think_in (some (low, high)) whole =
    if ltb_ℤ low (pos 0)
    then descending
    else if ltb_ℤ high low
    then descending
    else between low high

abbrev pub both_read : Option ℤ → Option ℤ → Option (ℤ × ℤ)
both_read none high = none
both_read (some low) none = none
both_read (some low) (some high) = some (low, high)

-- The bounds around the last `-`, if that is behind the first character and both are read.
unfoldable pub think_range : (Text → Option ℤ) → Text → Option (ℤ × ℤ)
think_range parse_duration spec = elim (split_last 45 spec) [
  | none ↦ none
  | some (before, after) ↦
      if is_empty before
      then none
      else both_read (parse_duration (trim before)) (parse_duration (trim after))
]

unfoldable pub parse_think : Library → Text → ParsedThink
parse_think lib spec =
    think_in (think_range lib.parse_duration (trim spec)) (lib.parse_duration (trim spec))

unfoldable pub shorthands : {J : Type 0} → StepConfig J → List (Text × Text)
shorthands s =
    (codes "GET", s.get)
    ∷ (codes "POST", s.post)
    ∷ (codes "PUT", s.put)
    ∷ (codes "PATCH", s.patch)
    ∷ (codes "DELETE", s.delete)
    ∷ (codes "HEAD", s.head)
    ∷ []

-- The loop of `resolve`: the shorthands found, and the method and URL of the last of them.
unfoldable pub choose : ℕ → Text → Text → List (Text × Text) → ℕ × Text × Text
choose found method target [] = (found, method, target)
choose found method target ((m, []) ∷ rest) = choose found method target rest
choose found method target ((m, c ∷ cs) ∷ rest) = choose (suc found) m (c ∷ cs) rest

abbrev chosen : Text → ℕ × Text × Text → Resolved
chosen url (found, method, target) =
    if ltb 1 found
    then refused many_shorthands
    else if found == 1 && not (is_empty url)
    then refused shorthand_and_url
    else if found == 0 && is_empty method
    then resolved (codes "GET") target
    else resolved method target

unfoldable pub resolve : {J : Type 0} → Library → StepConfig J → Resolved
resolve lib s = chosen s.url (choose 0 (lib.to_upper s.method) s.url (shorthands s))

abbrev any_set : List (Text × Text) → Bool
any_set [] = false
any_set ((m, url) ∷ rest) = not (is_empty url) || any_set rest

unfoldable pub has_shorthand : {J : Type 0} → StepConfig J → Bool
has_shorthand s = any_set (shorthands s)

abbrev one_if : Bool → ℕ
one_if true = 1
one_if false = 0

abbrev is_set {ℓ} : {A : Type ℓ} → Option A → Bool
is_set none = false
is_set (some a) = true

abbrev has_entries : List (Text × Text) → Bool
has_entries [] = false
has_entries (e ∷ es) = true

unfoldable pub bodies : {J : Type 0} → StepConfig J → ℕ
bodies s = one_if (is_set s.json) + one_if (has_entries s.form) + one_if (not (is_empty s.body))

abbrev pub captured : Text → ParsedPath → Option StepRefusal → Option StepRefusal
captured name (path p) rest = rest
captured name failure rest = some (bad_capture name failure)

-- The loop over the captures; `none` is no error.
unfoldable pub check_captures : List (Text × Text) → Option StepRefusal
check_captures [] = none
check_captures ((name, expr) ∷ rest) = captured name (parse_path expr) (check_captures rest)

abbrev pub paced : ParsedPause → Option StepRefusal
paced (pause p) = none
paced failure = some (bad_pause failure)

abbrev pub check_pause : Library → Text → Option StepRefusal
check_pause lib [] = none
check_pause lib (c ∷ cs) = paced (parse_pause lib.parse_duration (c ∷ cs))

abbrev pub or_else : Option StepRefusal → Option StepRefusal → Option StepRefusal
or_else none next = next
or_else (some e) next = some e

abbrev pub check_request : {J : Type 0} → Library → StepConfig J → Resolved → Option StepRefusal
check_request lib s (refused e) = some e
check_request lib s (resolved method target) =
    if is_empty target
    then some no_url
    else if ltb 1 (bodies s)
    then some many_bodies
    else or_else (check_captures s.capture) (check_pause lib s.between_requests)

abbrev pub think_refusal : ParsedThink → Option StepRefusal
think_refusal (between low high) = none
think_refusal descending = some descending_think
think_refusal unreadable = some invalid_think
think_refusal negative = some negative_think

abbrev with_request : {J : Type 0} → StepConfig J → Option StepRefusal
with_request s =
    if not (is_empty s.url) || not (is_empty s.method) || has_shorthand s
    then some think_with_request
    else none

-- `validate` of a step; `none` is no error.
unfoldable pub validate_step : {J : Type 0} → Library → StepConfig J → Option StepRefusal
validate_step lib s =
    if is_empty s.think
    then check_request lib s (resolve lib s)
    else or_else (think_refusal (parse_think lib s.think)) (with_request s)
