-- ===== src/Sdk/Scenarios.antt =====
-- Scenarios and their registry, `Scenario` and `Registry` of pkg/loadwave/scenario.go. The functions of a
-- scenario are one value of a type `R`, and `none` stands for a scenario with no `Run`; the mutex is not
-- modelled.
use load_wave.Prelude.{
  ℕ, ◌≡◌, refl, Bool, true, false, ◌&&◌, ◌||◌, not, Option, none, some, List, [], ◌∷◌,
  if◌then◌else◌, leb, ◌==◌, ℤ, pos, ltb_ℤ, leb_ℤ, length, inl, inr, Option-cases,
}
use load_wave.Prelude.Assoc.{find, put, find-put}
use load_wave.Text.{Text, same_text, text_eq}

pub record Scenario (R : Type 0) : Type 0 where
  pub name : Text
  pub weight : ℤ
  pub description : Text
  pub run : Option R

-- Why `Register` refuses a scenario.
pub data RegisterError : Type 0 where
  bad_name no_run negative_weight already_registered : RegisterError

abbrev alphanumeric : ℕ → Bool
alphanumeric c = (leb 97 c && leb c 122) || (leb 65 c && leb c 90) || (leb 48 c && leb c 57)

abbrev name_character : ℕ → Bool
name_character c = alphanumeric c || c == 95 || c == 46 || c == 45

abbrev every : (ℕ → Bool) → Text → Bool
every p [] = true
every p (c ∷ cs) = p c && every p cs

-- `scenarioNamePattern`
unfoldable pub matches_name : Text → Bool
matches_name [] = false
matches_name (c ∷ cs) = alphanumeric c && every name_character cs && leb (length cs) 63

module _ {R : Type 0} where
  -- `Validate`; `none` is no error.
  unfoldable pub validate : Scenario R → Option RegisterError
  validate s = if not (matches_name s.name) then some bad_name else elim s.run [
    | none ↦ some no_run
    | some r ↦ if ltb_ℤ s.weight (pos 0) then some negative_weight else none
  ]

  unfoldable pub effective_weight : Scenario R → ℤ
  effective_weight s = if leb_ℤ s.weight (pos 0) then pos 1 else s.weight

  unfoldable pub lookup : List (Text × Scenario R) → Text → Option (Scenario R)
  lookup r name = find name r

  abbrev entered :
      List (Text × Scenario R)
      → Scenario R
      → Option (Scenario R)
      → List (Text × Scenario R) × Option RegisterError
  entered r s none = (put s.name s r, none)
  entered r s (some old) = (r, some already_registered)

  abbrev validated :
      List (Text × Scenario R)
      → Scenario R
      → Option RegisterError
      → List (Text × Scenario R) × Option RegisterError
  validated r s none = entered r s (find s.name r)
  validated r s (some e) = (r, some e)

  -- `Register`, with the registry after it.
  unfoldable pub register :
      List (Text × Scenario R) → Scenario R → List (Text × Scenario R) × Option RegisterError
  register r s = validated r s (validate s)

  -- What `Register` does to one name.
  abbrev pub Registers :
      List (Text × Scenario R)
      → Scenario R
      → Text
      → List (Text × Scenario R) × Option RegisterError
      → Type 0
  Registers r s name (r', none) =
      (lookup r s.name ≡ none)
      × (validate s ≡ none)
      × (lookup r' name ≡ (if same_text s.name name then some s else lookup r name))
  Registers r s name (r', some e) = r' ≡ r

  -- `Register` refuses a scenario and leaves the registry as it was, or it enters one that `Validate`
  -- accepts under a name that was free: that name then has the scenario, and every other name has what it
  -- had.
  pub register-Registers :
      (r : List (Text × Scenario R)) (s : Scenario R) (name : Text)
      → Registers r s name (register r s)
  unfolding register lookup
  register-Registers r s name = elim (Option-cases (validate s)) [
    | inr (e, h) ↦ rw (h, register) refl
    | inl h ↦ elim (Option-cases (find s.name r)) [
      | inr (old, f) ↦ rw (h, register) (rw f refl)
      | inl f ↦ rw (h, register) (rw f (f, h, find-put s.name name s r))
    ]
  ]
