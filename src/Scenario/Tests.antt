-- ===== src/Scenario/Tests.antt =====
-- The theorems about scenario files at concrete inputs, and runs of the definitions.
use load_wave.Prelude.{
  ◌++◌, ℕ, ◌≡◌, ◌≢◌, refl, true, false, Option, none, some, [], ◌∷◌, length, ℤ, pos,
}
use load_wave.Scenario.Build.Validated.{
  validate_scenario, validate_steps, AllTemplates, validate_scenario-AllTemplates,
}
use load_wave.Scenario.Build.Shadowing.{Keeps, build_scenarios-Keeps}
use load_wave.Scenario.Build.{ScenarioConfig, compiled_in, Held, build_scenarios, compile_steps}
use load_wave.Scenario.Path.Document.{
  Json, text, object, no_members, member, Encoding, no_field, err, at_segment, extract, walk, apply,
  stringify,
}
use load_wave.Scenario.Path.Segments.{split_path-brackets}
use load_wave.Scenario.Path.Walking.{FailsAt, extract-FailsAt}
use load_wave.Scenario.Path.{
  field, index, CapturePath, path, parse_path, steps_of, split_path, nonempty, replace_brackets,
  trim_prefix, atoi,
}
use load_wave.Scenario.Running.Steps.{run_captures}
use load_wave.Scenario.Running.Captures.{Answers, run_captures-Answers}
use load_wave.Scenario.Step.Think.{of_pause, parse_think-of_pause}
use load_wave.Scenario.Step.{
  StepConfig, Library, parse_think, validate_step, resolve, choose, shorthands, bodies,
  check_captures, has_shorthand,
}
use load_wave.Scenario.Template.RoundTrip.{parse_template-total, parse_template-string}
use load_wave.Scenario.Template.Vars.{Vars, set}
use load_wave.Scenario.Template.{Template, parsed, out_of_fuel, parse_template, parse_rest, string}
use load_wave.Sdk.Pause.{parse_pause, new_pause, range_of}
use load_wave.Text.{
  Text, codes, trim, trim_right, trim_left, is_space, split_open, split_at, split_all, split_last,
}

-- A scheme in which a text is a duration of as many nanoseconds as it has characters.
abbrev counting : Text → Option ℤ
counting [] = none
counting (c ∷ cs) = some (pos (length (c ∷ cs)))

abbrev library : Library
library = record { parse_duration = counting; to_upper = λ s. s; url_path = λ s. some s }

abbrev user_template : Template
user_template = record {
  literals = codes "/users/" ∷ codes "/posts" ∷ [];
  names = codes "id" ∷ [];
  static = false;
}

parses_spaced : parse_template (codes "/users/${ id }/posts") ≡ parsed user_template
unfolding parse_template split_open parse_rest split_at trim trim_right trim_left is_space
parses_spaced = refl

parse_template-string_example :
    (written : Text) × (string user_template ≡ some written)
    × (parse_template written ≡ parsed user_template)
parse_template-string_example =
    parse_template-string (codes "/users/${ id }/posts") {t = user_template} parses_spaced

parse_template-total_example : parse_template (codes "a${b}c${d") ≢ out_of_fuel
parse_template-total_example = parse_template-total (codes "a${b}c${d")

split_path-brackets_example :
    (split_path (codes "items" ++ (91 ∷ ((48 ∷ []) ++ (93 ∷ 46 ∷ codes "sku"))))
      ≡ split_path (codes "items") ++ ((48 ∷ []) ∷ split_path (codes "sku")))
    × (split_path (codes "items" ++ (46 ∷ ((48 ∷ []) ++ (46 ∷ codes "sku"))))
        ≡ split_path (codes "items") ++ ((48 ∷ []) ∷ split_path (codes "sku")))
    × (split_path (codes "items" ++ (91 ∷ ((48 ∷ []) ++ (93 ∷ []))))
        ≡ split_path (codes "items") ++ ((48 ∷ []) ∷ []))
split_path-brackets_example =
    split_path-brackets (codes "items") (48 ∷ []) (codes "sku") (λ h. cc h) ((refl, refl, refl), tt)

-- A key that is a number names an index, also where the document has an object.
number_is_index :
    parse_path (codes "prices.2024")
    ≡ path
        (record { steps = field (codes "prices") ∷ index 2024 ∷ []; source = codes "prices.2024" })
unfolding parse_path trim trim_right trim_left is_space steps_of split_path nonempty split_all
    replace_brackets trim_prefix atoi
number_is_index = refl

abbrev document : Json ℕ
document = object (member (codes "id") (text (codes "7")) no_members)

abbrev encoding : Encoding ℕ
encoding = record {
  unmarshal = λ s. some document;
  marshal = λ d. none;
  to_int64 = λ n. pos n;
  of_int64 = λ z. 0;
  same = λ m n. true;
  format_float = λ n. [];
}

abbrev token_path : CapturePath
token_path = record { steps = field (codes "token") ∷ []; source = codes "token" }

no_token : extract encoding token_path (codes "{}") ≡ err (at_segment 1 (no_field (codes "token")))
unfolding extract walk apply
no_token = refl

extract-FailsAt_example :
    (codes "{}" ≢ [])
    × (doc : Json ℕ) × (some document ≡ some doc)
    × FailsAt token_path.steps doc 1 (no_field (codes "token"))
extract-FailsAt_example =
    (extract-FailsAt encoding token_path (codes "{}") 1 (no_field (codes "token"))).0 no_token

abbrev id_path : CapturePath
id_path = record { steps = field (codes "id") ∷ []; source = codes "id" }

abbrev before_capture : Vars
before_capture = record { values = []; vu = none }

abbrev after_capture : Vars
after_capture = record { values = (codes "user", codes "7") ∷ []; vu = none }

captures_user :
    run_captures encoding (codes "read") (codes "{}") before_capture ((codes "user", id_path) ∷ [])
    ≡ (after_capture, none)
unfolding run_captures extract walk apply stringify set
captures_user = refl

run_captures-Answers_example :
    Answers encoding
      (codes "read")
      (codes "{}")
      before_capture
      after_capture
      0
      (codes "user")
      (some id_path)
run_captures-Answers_example =
    run_captures-Answers encoding (codes "read") (codes "{}") ((codes "user", id_path) ∷ [])
      before_capture {vars' = after_capture} 0 (codes "user") (refl, tt) captures_user

parse_think-of_pause_example :
    parse_think library (codes "1-22") ≡ of_pause (parse_pause counting (codes "1-22"))
parse_think-of_pause_example = parse_think-of_pause library (codes "1-22") refl

abbrev get_step : Text → StepConfig (Json ℕ)
get_step target = record {
  name = [];
  method = [];
  url = [];
  get = target;
  post = [];
  put = [];
  patch = [];
  delete = [];
  head = [];
  headers = [];
  query = [];
  json = none;
  form = [];
  body = [];
  expect = pos 200 ∷ [];
  capture = (codes "id", codes "data.id") ∷ [];
  think = [];
  timeout = pos 0;
  between_requests = codes "11-222";
}

accepts_step : validate_step library (get_step (codes "/users/${id}/42")) ≡ none
unfolding validate_step resolve choose shorthands bodies check_captures parse_path trim trim_right
    trim_left is_space steps_of split_path nonempty split_all replace_brackets trim_prefix atoi
    has_shorthand parse_think new_pause parse_pause range_of split_last
accepts_step = refl

abbrev shop : ScenarioConfig (Json ℕ)
shop = record {
  name = codes "shop";
  weight = pos 2;
  description = [];
  vars = [];
  steps = get_step (codes "/users/${id}/42") ∷ get_step (codes "/users/${id") ∷ [];
}

-- A step with a bad template is accepted all the same, and only fails when it is compiled.
accepts_bad_template : validate_step library (get_step (codes "/users/${id")) ≡ none
unfolding validate_step resolve choose shorthands bodies check_captures parse_path trim trim_right
    trim_left is_space steps_of split_path nonempty split_all replace_brackets trim_prefix atoi
    has_shorthand parse_think new_pause parse_pause range_of split_last
accepts_bad_template = refl

accepts_scenario : validate_scenario library shop ≡ none
unfolding validate_scenario validate_steps validate_step resolve choose shorthands bodies
    check_captures parse_path trim trim_right trim_left is_space steps_of split_path nonempty
    split_all replace_brackets trim_prefix atoi has_shorthand parse_think new_pause parse_pause
    range_of split_last
accepts_scenario = refl

validate_scenario-AllTemplates_example : AllTemplates library (compile_steps library 0 shop.steps)
validate_scenario-AllTemplates_example =
    validate_scenario-AllTemplates library shop accepts_scenario

abbrev held : Held ℕ (Json ℕ)
held =
    (
      codes "checkout",
      record {
        name = codes "checkout";
        weight = pos 1;
        description = [];
        run = some (compiled_in 0);
      },
    )
    ∷ []

abbrev browse : ScenarioConfig (Json ℕ)
browse = record {
  name = codes "browse";
  weight = pos 1;
  description = [];
  vars = [];
  steps = get_step (codes "/") ∷ [];
}

build_scenarios-Keeps_example :
    Keeps held (build_scenarios {R = ℕ} library [] (browse ∷ browse ∷ []) held).0
build_scenarios-Keeps_example = build_scenarios-Keeps library [] (browse ∷ browse ∷ []) held
