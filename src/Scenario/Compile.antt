-- ===== src/Scenario/Compile.antt =====
-- The steps that a scenario runs, `compileStep` and `BuildScenarios` of internal/scenario/declarative.go.
pub mod Accepted
use load_wave.Prelude.{
  ℕ, Bool, true, false, Option, none, some, List, [], ◌∷◌, if◌then◌else◌, ℤ, pos,
}
use load_wave.Prelude.Assoc.{put}
use load_wave.Scenario.Path.{CapturePath, ParsedPath, path, parse_path}
use load_wave.Scenario.Step.{
  StepConfig, StepRefusal, invalid_think, bad_capture, bad_pause, is_empty, Library, Resolved,
  resolved, refused, ParsedThink, between, parse_think, resolve, think_refusal,
}
use load_wave.Scenario.Template.{Template, Parsing, parsed, parse_template, string}
use load_wave.Sdk.Names.{derive_request_name}
use load_wave.Sdk.Pause.{Pause, ParsedPause, pause, parse_pause}
use load_wave.Text.{Text, codes, text_eq, split_at}

-- The Go type `step`. A think step has no request.
pub record Request (J : Type 0) : Type 0 where
  pub method : Text
  pub url : Template
  pub headers : List (Text × Template)
  pub query : List (Text × Template)
  pub body : Option Template
  pub json_doc : Option J
  pub form : List (Text × Template)
  pub expect : List ℤ
  pub capture : List (Text × CapturePath)
  pub timeout : ℤ
  pub pace : Option Pause

pub data Action (J : Type 0) : Type 0 where
  think : (think_min think_max : ℤ) → Action J
  request : Request J → Action J

pub record Step (J : Type 0) : Type 0 where
  pub name : Text
  pub action : Action J

-- The templates of a step, by where they stand; the entries of a map by their keys too.
pub data Place : Type 0 where
  in_url in_body : Place
  in_headers in_query in_form : Text → Place

-- Why a step is not compiled: a refusal that `validate` also knows, a template that is not parsed, or a
-- panic of `String`.
pub data CompileError : Type 0 where
  step_refused : StepRefusal → CompileError
  bad_template : Place → Parsing → CompileError
  panics : CompileError

pub data Result {ℓ} (A : Type ℓ) : Type ℓ where
  ok : A → Result A
  err : CompileError → Result A

infixl 5 ◌>>=◌
abbrev pub ◌>>=◌ {ℓ κ} : {A : Type ℓ} {B : Type κ} → Result A → (A → Result B) → Result B
ok a >>= f = f a
err e >>= f = err e

abbrev pub from_parsing : Place → Parsing → Result Template
from_parsing place (parsed t) = ok t
from_parsing place failure = err (bad_template place failure)

abbrev pub template_at : Place → Text → Result Template
template_at place s = from_parsing place (parse_template s)

-- `compileTemplateMap`
unfoldable pub compile_template_map :
    (Text → Place) → List (Text × Text) → Result (List (Text × Template))
compile_template_map place [] = ok []
compile_template_map place ((k, v) ∷ rest) = do
  t ← template_at (place k) v
  ts ← compile_template_map place rest
  ok ((k, t) ∷ ts)

abbrev pub compile_body : Text → Result (Option Template)
compile_body [] = ok none
compile_body (c ∷ cs) = do t ← template_at in_body (c ∷ cs); ok (some t)

abbrev pub capture_of : Text → ParsedPath → Result CapturePath
capture_of name (path p) = ok p
capture_of name failure = err (step_refused (bad_capture name failure))

-- The loop over the captures.
unfoldable pub compile_capture : List (Text × Text) → Result (List (Text × CapturePath))
compile_capture [] = ok []
compile_capture ((name, expr) ∷ rest) = do
  p ← capture_of name (parse_path expr)
  ps ← compile_capture rest
  ok ((name, p) ∷ ps)

abbrev pub pace_of : ParsedPause → Result (Option Pause)
pace_of (pause p) = ok (some p)
pace_of failure = err (step_refused (bad_pause failure))

abbrev pub compile_pace : Library → Text → Result (Option Pause)
compile_pace lib [] = ok none
compile_pace lib (c ∷ cs) = pace_of (parse_pause lib.parse_duration (c ∷ cs))

abbrev before_query : Text → Text
before_query raw = elim (split_at 63 raw) [ none ↦ raw | some (before, after) ↦ before ]

-- `templatePath`
unfoldable pub template_path : Library → Text → Text
template_path lib raw = elim (lib.url_path raw) [
  | none ↦ before_query raw
  | some [] ↦ before_query raw
  | some (c ∷ cs) ↦ c ∷ cs
]

abbrev pub written : Option Text → Result Text
written none = err panics
written (some s) = ok s

abbrev pub step_name : Library → Text → Text → Template → Result Text
step_name lib (c ∷ cs) method url = ok (c ∷ cs)
step_name lib [] method url = do
  raw ← written (string url)
  ok (derive_request_name method (template_path lib raw))

abbrev pub think_step : {J : Type 0} → Text → ParsedThink → Result (Step J)
think_step name (between low high) = ok (record { name = name; action = think low high })
think_step name failure = elim (think_refusal failure) [
  | none ↦ err (step_refused invalid_think)
  | some e ↦ err (step_refused e)
]

abbrev pub request_step : {J : Type 0} → Library → StepConfig J → Text → Text → Result (Step J)
request_step lib cfg method target = do
  url ← template_at in_url target
  headers ← compile_template_map in_headers cfg.headers
  query ← compile_template_map in_query cfg.query
  form ← compile_template_map in_form cfg.form
  body ← compile_body cfg.body
  capture ← compile_capture cfg.capture
  pace ← compile_pace lib cfg.between_requests
  name ← step_name lib cfg.name method url
  ok (record {
    name = name;
    action = request (record {
      method = method;
      url = url;
      headers = headers;
      query = query;
      body = body;
      json_doc = cfg.json;
      form = form;
      expect = cfg.expect;
      capture = capture;
      timeout = cfg.timeout;
      pace = pace;
    });
  })

abbrev pub resolved_step : {J : Type 0} → Library → StepConfig J → Resolved → Result (Step J)
resolved_step lib cfg (refused e) = err (step_refused e)
resolved_step lib cfg (resolved method target) = request_step lib cfg method target

-- `compileStep`
unfoldable pub compile_step : {J : Type 0} → Library → StepConfig J → Result (Step J)
compile_step lib cfg =
    if is_empty cfg.think
    then resolved_step lib cfg (resolve lib cfg)
    else think_step cfg.name (parse_think lib cfg.think)
