-- ===== src/Scenario/Running/Plain.antt =====
-- A JSON body with no placeholder is sent as it stands.
use load_wave.Prelude.{ℕ, ◌≡◌, refl, none, some}
use load_wave.Scenario.Path.Document.{
  Json, null, boolean, float, text, array, object, Items, no_items, item, Members, no_members,
  member,
}
use load_wave.Scenario.Running.{render_text, render_json, render_items, render_members}
use load_wave.Scenario.Template.Vars.{Vars}
use load_wave.Text.{Text, split_open}

module _ {F : Type 0} where
  -- No string of the document holds `${`; the keys are not looked at.
  unfoldable mutual
    pub IsPlain : Json F → Type 0
    IsPlain null = Unit
    IsPlain (boolean b) = Unit
    IsPlain (float x) = Unit
    IsPlain (text s) = split_open s ≡ none
    IsPlain (array xs) = AllPlain xs
    IsPlain (object ms) = EachPlain ms

    pub AllPlain : Items F → Type 0
    AllPlain no_items = Unit
    AllPlain (item x xs) = IsPlain x × AllPlain xs

    pub EachPlain : Members F → Type 0
    EachPlain no_members = Unit
    EachPlain (member k x ms) = IsPlain x × EachPlain ms

render_text-plain :
    (vars : Vars) (s : Text) (k : ℕ) → split_open s ≡ none → render_text vars s k ≡ some (s, k)
unfolding render_text
render_text-plain vars s k h = rw (h, render_text) refl

module _ {F : Type 0} (vars : Vars) where
  mutual
    unfolding render_json IsPlain

    -- `renderJSON` leaves a document with no `${` in its strings as it is, whatever the variables are, and
    -- asks for none of them.
    pub render_json-plain :
        (doc : Json F) (k : ℕ) → IsPlain doc → render_json vars doc k ≡ some (doc, k)
    render_json-plain null k h = refl
    render_json-plain (boolean b) k h = refl
    render_json-plain (float x) k h = refl
    render_json-plain (text s) k h = rw (render_text-plain vars s k h) refl
    render_json-plain (array xs) k h = rw (render_items-plain xs k h) refl
    render_json-plain (object ms) k h = rw (render_members-plain ms k h) refl

    render_items-plain :
        (xs : Items F) (k : ℕ) → AllPlain xs → render_items vars xs k ≡ some (xs, k)
    render_items-plain no_items k h = refl
    render_items-plain (item x xs) k (h, t) =
        rw (render_json-plain x k h) (rw (render_items-plain xs k t) refl)

    render_members-plain :
        (ms : Members F) (k : ℕ) → EachPlain ms → render_members vars ms k ≡ some (ms, k)
    render_members-plain no_members k h = refl
    render_members-plain (member key x ms) k (h, t) =
        rw (render_json-plain x k h) (rw (render_members-plain ms k t) refl)
