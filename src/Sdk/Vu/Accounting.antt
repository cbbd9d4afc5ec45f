-- ===== src/Sdk/Vu/Accounting.antt =====
-- What an iteration reports of itself, whatever the scenario does in it.
use load_wave.Prelude.{
  ◌≡◌, refl, Bool, true, false, ◌||◌, List, [], ◌∷◌, if◌then◌else◌, ℤ, pos, leb_ℤ, ◌+ℤ◌,
}
use load_wave.Sdk.Floats.{Floats}
use load_wave.Sdk.Vu.{Vu, tag, fail, think}
use load_wave.Text.{Text}

-- What a scenario does with its virtual user in an iteration.
pub data Action : Type 0 where
  tags : (key value : Text) → Action
  checks : (name : Text) → Bool → Action
  fails : Bool → Action
  thinks : (d waited : ℤ) → Action

module _ {T V : Type 0} (floats : Floats V) (with_tag : T → Text → Text → T) where
  abbrev pub act : Action → Vu T → Vu T
  act (tags key value) vu = tag with_tag key value vu
  act (checks name ok) vu = vu
  act (fails err) vu = (fail floats err vu).0
  act (thinks d waited) vu = think d waited vu

  unfoldable pub act_all : List Action → Vu T → Vu T
  act_all [] vu = vu
  act_all (a ∷ actions) vu = act_all actions (act a vu)

-- The time thought, added to what was thought before, and whether an error was reported.
unfoldable pub thought : ℤ → List Action → ℤ
thought t [] = t
thought t (thinks d waited ∷ actions) =
    let more = thought (t +ℤ waited) actions in
    let same = thought t actions in if leb_ℤ d (pos 0) then same else more
thought t (_ ∷ actions) = thought t actions

unfoldable pub any_fails : List Action → Bool
any_fails [] = false
any_fails (fails err ∷ actions) = err || any_fails actions
any_fails (_ ∷ actions) = any_fails actions

or_assoc : (a b c : Bool) → (a || b) || c ≡ a || (b || c)
or_assoc true b c = refl
or_assoc false b c = refl

module _ {T V : Type 0} (floats : Floats V) (with_tag : T → Text → Text → T) where
  record Accounts (vu vu' : Vu T) (actions : List Action) : Type 0 where
    base : vu'.base_tag ≡ vu.base_tag
    time : vu'.think_time ≡ thought vu.think_time actions
    errors : vu'.failed ≡ vu.failed || any_fails actions
