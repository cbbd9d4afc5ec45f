-- ===== src/Scenario/Compile/Accepted.antt =====
-- What is left to go wrong when a step that `validate` accepts is compiled.
use load_wave.Prelude.{◌≡◌, refl, Option, none, some, List, [], ◌∷◌, inl, inr, Bool-cases, ltb}
use load_wave.Scenario.Path.{
  ParsedPath, path, empty_path, empty_segment, negative_index, resolves_to_nothing, parse_path,
}
use load_wave.Scenario.Step.{
  StepConfig, StepRefusal, is_empty, Library, Resolved, resolved, refused, ParsedThink, between,
  descending, unreadable, negative, parse_think, resolve, think_refusal, check_captures, captured,
  check_pause, paced, check_request, or_else, bodies, validate_step,
}
use load_wave.Scenario.Template.{
  Template, Parsing, parsed, unterminated, empty_placeholder, out_of_fuel, parse_template,
}
use load_wave.Scenario.Template.RoundTrip.{parse_template-string}
use load_wave.Sdk.Pause.{
  ParsedPause, pause, empty_pause, not_ascending, invalid_pause, negative_pause, parse_pause,
}
use load_wave.Text.{Text}
use load_wave.Scenario.Compile.{
  Place, in_url, in_body, step_refused, bad_template, panics, Result, ok, err, ◌>>=◌, from_parsing,
  template_at, compile_template_map, compile_body, capture_of, compile_capture, pace_of,
  compile_pace, step_name, think_step, request_step, resolved_step, compile_step,
}

-- A step, or a template that is not parsed.
abbrev pub OnlyTemplates {ℓ} : {A : Type ℓ} → Result A → Type 0
OnlyTemplates (ok a) = Unit
OnlyTemplates (err (bad_template place p)) = Unit
OnlyTemplates (err (step_refused e)) = ⊥
OnlyTemplates (err panics) = ⊥

bind-OnlyTemplates :
    {A B : Type 0} (m : Result A) (f : A → Result B)
    → OnlyTemplates m
    → ((a : A) → m ≡ ok a → OnlyTemplates (f a))
    → OnlyTemplates (m >>= f)
bind-OnlyTemplates (ok a) f h k = k a refl
bind-OnlyTemplates (err (bad_template place p)) f h k = tt
bind-OnlyTemplates (err (step_refused e)) f h k = h
bind-OnlyTemplates (err panics) f h k = h

from_parsing-OnlyTemplates : (place : Place) (p : Parsing) → OnlyTemplates (from_parsing place p)
from_parsing-OnlyTemplates place (parsed t) = tt
from_parsing-OnlyTemplates place unterminated = tt
from_parsing-OnlyTemplates place empty_placeholder = tt
from_parsing-OnlyTemplates place out_of_fuel = tt

from_parsing-parsed :
    (place : Place) (p : Parsing) {t : Template} → from_parsing place p ≡ ok t → p ≡ parsed t
from_parsing-parsed place (parsed t) h = cc h
from_parsing-parsed place unterminated h = cc
from_parsing-parsed place empty_placeholder h = cc
from_parsing-parsed place out_of_fuel h = cc

compile_template_map-OnlyTemplates :
    (place : Text → Place) (m : List (Text × Text)) → OnlyTemplates (compile_template_map place m)
unfolding compile_template_map
compile_template_map-OnlyTemplates place [] = tt
compile_template_map-OnlyTemplates place ((k, v) ∷ rest) =
    bind-OnlyTemplates (template_at (place k) v) _
      (from_parsing-OnlyTemplates (place k) (parse_template v))
      (λ t _.
        bind-OnlyTemplates (compile_template_map place rest) _
          (compile_template_map-OnlyTemplates place rest) (λ ts _. tt))

compile_body-OnlyTemplates : (s : Text) → OnlyTemplates (compile_body s)
compile_body-OnlyTemplates [] = tt
compile_body-OnlyTemplates (c ∷ cs) =
    bind-OnlyTemplates (template_at in_body (c ∷ cs)) _
      (from_parsing-OnlyTemplates in_body (parse_template (c ∷ cs))) (λ t _. tt)

capture_of-OnlyTemplates :
    (name : Text) (p : ParsedPath) (rest : Option StepRefusal)
    → captured name p rest ≡ none
    → OnlyTemplates (capture_of name p) × (rest ≡ none)
capture_of-OnlyTemplates name (path p) rest h = (tt, h)
capture_of-OnlyTemplates name empty_path rest h = cc
capture_of-OnlyTemplates name empty_segment rest h = cc
capture_of-OnlyTemplates name negative_index rest h = cc
capture_of-OnlyTemplates name resolves_to_nothing rest h = cc

compile_capture-OnlyTemplates :
    (m : List (Text × Text)) → check_captures m ≡ none → OnlyTemplates (compile_capture m)
unfolding compile_capture check_captures
compile_capture-OnlyTemplates [] h = tt
compile_capture-OnlyTemplates ((name, expr) ∷ rest) h =
    let (now, later) = capture_of-OnlyTemplates name (parse_path expr) (check_captures rest) h in
    bind-OnlyTemplates (capture_of name (parse_path expr)) _ now (λ p _.
      bind-OnlyTemplates (compile_capture rest) _ (compile_capture-OnlyTemplates rest later)
        (λ ps _. tt))

pace_of-OnlyTemplates : (p : ParsedPause) → paced p ≡ none → OnlyTemplates (pace_of p)
pace_of-OnlyTemplates (pause p) h = tt
pace_of-OnlyTemplates empty_pause h = cc
pace_of-OnlyTemplates not_ascending h = cc
pace_of-OnlyTemplates invalid_pause h = cc
pace_of-OnlyTemplates negative_pause h = cc

compile_pace-OnlyTemplates :
    (lib : Library) (s : Text) → check_pause lib s ≡ none → OnlyTemplates (compile_pace lib s)
compile_pace-OnlyTemplates lib [] h = tt
compile_pace-OnlyTemplates lib (c ∷ cs) h =
    pace_of-OnlyTemplates (parse_pause lib.parse_duration (c ∷ cs)) h

-- A name is derived from the text of the URL, which a template that was parsed has.
step_name-OnlyTemplates :
    (lib : Library) (name method target : Text) (url : Template)
    → template_at in_url target ≡ ok url
    → OnlyTemplates (step_name lib name method url)
step_name-OnlyTemplates lib (c ∷ cs) method target url h = tt
step_name-OnlyTemplates lib [] method target url h =
    let (text, e, _) =
      parse_template-string target (from_parsing-parsed in_url (parse_template target) h) in
    rw e tt

request_step-OnlyTemplates :
    {J : Type 0} (lib : Library) (cfg : StepConfig J) (method target : Text)
    → check_captures cfg.capture ≡ none
    → check_pause lib cfg.between_requests ≡ none
    → OnlyTemplates (request_step lib cfg method target)
request_step-OnlyTemplates lib cfg method target h k =
    bind-OnlyTemplates (template_at in_url target) _
      (from_parsing-OnlyTemplates in_url (parse_template target))
      (λ url e.
        bind-OnlyTemplates (compile_template_map _ cfg.headers) _
          (compile_template_map-OnlyTemplates _ cfg.headers)
          (λ _ _.
            bind-OnlyTemplates (compile_template_map _ cfg.query) _
              (compile_template_map-OnlyTemplates _ cfg.query)
              (λ _ _.
                bind-OnlyTemplates (compile_template_map _ cfg.form) _
                  (compile_template_map-OnlyTemplates _ cfg.form)
                  (λ _ _.
                    bind-OnlyTemplates (compile_body cfg.body) _
                      (compile_body-OnlyTemplates cfg.body)
                      (λ _ _.
                        bind-OnlyTemplates (compile_capture cfg.capture) _
                          (compile_capture-OnlyTemplates cfg.capture h)
                          (λ _ _.
                            bind-OnlyTemplates (compile_pace lib cfg.between_requests) _
                              (compile_pace-OnlyTemplates lib cfg.between_requests k)
                              (λ _ _.
                                bind-OnlyTemplates (step_name lib cfg.name method url) _
                                  (step_name-OnlyTemplates lib cfg.name method target url e)
                                  (λ _ _. tt))))))))

or_else-none : (a b : Option StepRefusal) → or_else a b ≡ none → (a ≡ none) × (b ≡ none)
or_else-none none b h = (refl, h)
or_else-none (some e) b h = cc

resolved_step-OnlyTemplates :
    {J : Type 0} (lib : Library) (cfg : StepConfig J) (r : Resolved)
    → check_request lib cfg r ≡ none
    → OnlyTemplates (resolved_step lib cfg r)
resolved_step-OnlyTemplates lib cfg (refused e) h = absurd (cc h)
resolved_step-OnlyTemplates lib cfg (resolved method target) h =
    elim (Bool-cases (is_empty target)) [
      | inl e ↦ absurd (cc (rw e at h))
      | inr e ↦ elim (Bool-cases (ltb 1 (bodies cfg))) [
        | inl f ↦ absurd (cc (rw (e, f) at h))
        | inr f ↦
            let (a, b) =
              or_else-none (check_captures cfg.capture) (check_pause lib cfg.between_requests)
                (rw (e, f) at h) in
            request_step-OnlyTemplates lib cfg method target a b
      ]
    ]

think_step-OnlyTemplates :
    (J : Type 0) (name : Text) (p : ParsedThink)
    → think_refusal p ≡ none
    → OnlyTemplates (think_step {J = J} name p)
think_step-OnlyTemplates J name (between low high) h = tt
think_step-OnlyTemplates J name descending h = cc
think_step-OnlyTemplates J name unreadable h = cc
think_step-OnlyTemplates J name negative h = cc

-- A step that `validate` accepts is compiled, unless one of its templates is not parsed: `compileStep`
-- fails with no other error, and it does not panic.
pub compile_step-OnlyTemplates :
    {J : Type 0} (lib : Library) (cfg : StepConfig J)
    → validate_step lib cfg ≡ none
    → OnlyTemplates (compile_step lib cfg)
unfolding compile_step validate_step
compile_step-OnlyTemplates {J} lib cfg h = elim (Bool-cases (is_empty cfg.think)) [
  | inl e ↦
      rw (e, compile_step)
        (resolved_step-OnlyTemplates lib cfg (resolve lib cfg) (rw (e, validate_step) at h))
  | inr e ↦
      rw (e, compile_step)
        (think_step-OnlyTemplates J cfg.name (parse_think lib cfg.think)
          (or_else-none _ _ (rw (e, validate_step) at h)).0)
]
