-- ===== src/Scenario/Running/Captures.antt =====
-- What the captures of a step leave in the variables.
use mathlib.Core.Path.{subst}
use load_wave.Prelude.{
  ℕ, ◌≡◌, refl, sym, ap, ◌∙◌, false, Option, none, some, List, [], ◌∷◌, inl, inr, Bool-cases, ◌⊎◌,
}
use load_wave.Prelude.Assoc.{find}
use load_wave.Scenario.Path.{CapturePath}
use load_wave.Scenario.Path.Document.{Encoding, CaptureError, Result, ok, err, extract}
use load_wave.Scenario.Running.Steps.{run_captures}
use load_wave.Scenario.Template.Vars.{Vars, get, set, get-set}
use load_wave.Text.{Text, same_text, same_text_iff, text_eq}

-- The keys of a map differ.
abbrev pub IsMap {ℓ} : {A : Type ℓ} → List (Text × A) → Type ℓ
IsMap [] = Unit
IsMap ((k, a) ∷ m) = (find k m ≡ none) × IsMap m

Result-cases :
    {A : Type 0} (r : Result CaptureError A)
    → ((a : A) × (r ≡ ok a)) ⊎ ((e : CaptureError) × (r ≡ err e))
Result-cases (ok a) = inl (a, refl)
Result-cases (err e) = inr (e, refl)

module _ {F : Type 0} (encoding : Encoding F) (step body : Text) where
  run_captures-ok :
      (vars : Vars) (name : Text) (p : CapturePath) (rest : List (Text × CapturePath))
      {vars' : Vars}
      → run_captures encoding step body vars ((name, p) ∷ rest) ≡ (vars', none)
      → (value : Text) × (extract encoding p body ≡ ok value)
        × (run_captures encoding step body (set vars name value) rest ≡ (vars', none))
  unfolding run_captures
  run_captures-ok vars name p rest h = elim (Result-cases (extract encoding p body)) [
    | inl (value, e) ↦ (value, e, rw e at h)
    | inr (e', e) ↦ absurd (cc (rw e at h))
  ]

  -- What the name is answered with after the captures.
  abbrev pub Answers : Vars → Vars → ℕ → Text → Option CapturePath → Type 0
  Answers vars vars' k name none = get vars' k name ≡ get vars k name
  Answers vars vars' k name (some p) = extract encoding p body ≡ ok (get vars' k name)

  Answers-set :
      (vars vars' : Vars) (k : ℕ) (n name value : Text) (o : Option CapturePath)
      → same_text n name ≡ false
      → Answers (set vars n value) vars' k name o
      → Answers vars vars' k name o
  Answers-set vars vars' k n name value none e h = h ∙ get-set vars n value name k ∙ rw e refl
  Answers-set vars vars' k n name value (some p) e h = h

  -- After the captures of a step have succeeded, each name that it captures is answered with what its path
  -- extracts from the body of the response, and every other name as before; the names that it captures are
  -- the keys of a map.
  pub run_captures-Answers :
      (caps : List (Text × CapturePath)) (vars : Vars) {vars' : Vars} (k : ℕ) (name : Text)
      → IsMap caps
      → run_captures encoding step body vars caps ≡ (vars', none)
      → Answers vars vars' k name (find name caps)
  run_captures-Answers [] vars k name h e =
      ap (λ v. get v k name) (unfold run_captures in ap (λ x. x.0) (sym e))
  run_captures-Answers ((n, p) ∷ rest) vars {vars'} k name (fresh, h) e =
      let (value, f, later) = run_captures-ok vars n p rest e in
      let ih = run_captures-Answers rest (set vars n value) k name h later in
      elim (Bool-cases (same_text n name)) [
        | inl same ↦
            let q : name ≡ n = sym ((same_text_iff n name).0 same) in
            let w : get vars' k name ≡ get (set vars n value) k name =
              subst (Answers (set vars n value) vars' k name) (ap (λ x. find x rest) q ∙ fresh)
                ih in
            rw same (f ∙ ap ok (sym (w ∙ get-set vars n value name k ∙ rw same refl)))
        | inr other ↦ rw other (Answers-set vars vars' k n name value (find name rest) other ih)
      ]
