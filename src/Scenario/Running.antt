-- ===== src/Scenario/Running.antt =====
-- How a virtual user runs a declarative scenario, `run`, `runStep` and `renderJSON` of
-- internal/scenario/declarative.go. What the steps use of the virtual user is an interface on a state `S`:
-- its requests, its checks and its pauses.
pub mod Steps
pub mod Captures
pub mod Plain
use load_wave.Prelude.{
  ℕ, suc, ◌+◌, Bool, true, false, ◌||◌, Option, none, some, List, [], ◌∷◌, if◌then◌else◌, ℤ, eqb_ℤ,
  length,
}
use load_wave.Prelude.Assoc.{put}
use load_wave.Scenario.Compile.{Step, Action, think, request, Request}
use load_wave.Scenario.Path.{CapturePath}
use load_wave.Scenario.Path.Document.{
  Json, null, boolean, float, text, array, object, Items, no_items, item, Members, no_members,
  member, Encoding, CaptureError, Result, ok, err, extract,
}
use load_wave.Scenario.Template.{Template, Parsing, parsed, parse_template, render}
use load_wave.Scenario.Template.Vars.{Vars, Sources, new_vars, get, set}
use load_wave.Sdk.Pause.{Pause}
use load_wave.Text.{Text, text_eq, split_open}

-- The Go type `loadwave.Request`, as a step fills it in.
pub record HttpRequest (F : Type 0) : Type 0 where
  pub method : Text
  pub url : Text
  pub name : Text
  pub timeout : ℤ
  pub expect_status : List ℤ
  pub between_requests : Option Pause
  pub header : List (Text × Text)
  pub query : List (Text × Text)
  pub form : List (Text × Text)
  pub body : Option Text
  pub json : Option (Json F)

-- A response, or the error of the client.
pub data Exchange : Type 0 where
  response : (status : ℤ) (body : Text) → Exchange
  failure : Exchange

pub record Client (F S : Type 0) : Type 0 where
  pub exchange : S → HttpRequest F → Exchange × S
  pub check : S → Text → Bool → S
  pub think_between : S → ℤ → ℤ → S
  pub canonical_key : Text → Text

-- What ends an iteration early; `panics` is an index out of range in a template.
pub data StepError : Type 0 where
  panics : StepError
  no_exchange unexpected_status : Text → StepError
  not_captured : Text → CaptureError → StepError

-- What is rendered at a turn of `Get`, with the next turn; `none` is a panic.
abbrev pub Rendering {ℓ} : Type ℓ → Type ℓ
Rendering A = ℕ → Option (A × ℕ)

abbrev pub then_render {ℓ κ} :
    {A : Type ℓ} {B : Type κ} → Option (A × ℕ) → (A → Rendering B) → Option (B × ℕ)
then_render none f = none
then_render (some (a, k)) f = f a k

infixl 5 ◌>>=◌
abbrev pub ◌>>=◌ {ℓ κ} : {A : Type ℓ} {B : Type κ} → Rendering A → (A → Rendering B) → Rendering B
m >>= f = λ k. then_render (m k) f

abbrev pub pure {ℓ} : {A : Type ℓ} → A → Rendering A
pure a = λ k. some (a, k)

abbrev at_turn : ℕ → Template → Option Text → Option (Text × ℕ)
at_turn k t none = none
at_turn k t (some s) = some (s, k + length t.names)

abbrev pub rendered : Vars → Template → Rendering Text
rendered vars t k = at_turn k t (render (get vars) k t)

abbrev rendered_parsing : Vars → Text → Parsing → Rendering Text
rendered_parsing vars s (parsed t) = rendered vars t
rendered_parsing vars s unparsed = pure s

-- A string of a JSON body.
unfoldable pub render_text : Vars → Text → Rendering Text
render_text vars s = elim (split_open s) [
  | none ↦ pure s
  | some _ ↦ rendered_parsing vars s (parse_template s)
]

-- The loops over the headers, the query and the form.
unfoldable pub render_map :
    (Text → Text)
    → Vars
    → List (Text × Text)
    → List (Text × Template)
    → Rendering (List (Text × Text))
render_map key vars done [] = pure done
render_map key vars done ((k, t) ∷ rest) =
    rendered vars t >>= λ v. render_map key vars (put (key k) v done) rest

abbrev unchanged : Text → Text
unchanged k = k

abbrev render_body : Vars → Option Template → Rendering (Option Text)
render_body vars none = pure none
render_body vars (some t) = rendered vars t >>= λ s. pure (some s)

module _ {F : Type 0} where
  unfoldable mutual
    pub render_json : Vars → Json F → Rendering (Json F)
    render_json vars null = pure null
    render_json vars (boolean b) = pure (boolean b)
    render_json vars (float x) = pure (float x)
    render_json vars (text s) = render_text vars s >>= λ t. pure (text t)
    render_json vars (array xs) = render_items vars xs >>= λ ys. pure (array ys)
    render_json vars (object ms) = render_members vars ms >>= λ ns. pure (object ns)

    pub render_items : Vars → Items F → Rendering (Items F)
    render_items vars no_items = pure no_items
    render_items vars (item x xs) =
        render_json vars x >>= λ y. render_items vars xs >>= λ ys. pure (item y ys)

    pub render_members : Vars → Members F → Rendering (Members F)
    render_members vars no_members = pure no_members
    render_members vars (member k x ms) =
        render_json vars x >>= λ y. render_members vars ms >>= λ ns. pure (member k y ns)

  abbrev render_doc : Vars → Option (Json F) → Rendering (Option (Json F))
  render_doc vars none = pure none
  render_doc vars (some doc) = render_json vars doc >>= λ d. pure (some d)

  -- The request that `runStep` makes.
  unfoldable pub step_request :
      (Text → Text) → Vars → Text → Request (Json F) → Rendering (HttpRequest F)
  step_request canonical vars name s = rendered vars s.url >>= λ url.
      render_map canonical vars [] s.headers >>= λ header.
      render_map unchanged vars [] s.query >>= λ query.
      render_map unchanged vars [] s.form >>= λ form. render_body vars s.body >>= λ body.
      render_doc vars s.json_doc >>= λ json. pure (record {
        method = s.method;
        url = url;
        name = name;
        timeout = s.timeout;
        expect_status = s.expect;
        between_requests = s.pace;
        header = header;
        query = query;
        form = form;
        body = body;
        json = json;
      })
