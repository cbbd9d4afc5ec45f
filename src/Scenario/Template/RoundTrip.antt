-- ===== src/Scenario/Template/RoundTrip.antt =====
-- `ParseTemplate` and `String` of internal/scenario/template.go, as inverses of each other.
use load_wave.Prelude.{
  ℕ, zero, suc, ◌≡◌, ◌≢◌, ◌⊎◌, ◌↔◌, refl, sym, ap, ◌∙◌, true, false, none, some, List, [], ◌∷◌, inl,
  inr, arith, Option-cases, length,
}
use load_wave.Text.{Text, trim, split_at, split_open}
use load_wave.Text.Cuts.{split_open-append}
use load_wave.Scenario.Template.Parsed.{
  IsParts, IsLoop, with_part-parsed, parse_rest-turn, parse_rest-IsLoop, parse_rest-interleave,
  parse_rest-length, parse_rest-total, interleave-placeholder, parse_rest-unterminated,
}
use load_wave.Scenario.Template.{
  Template, parsed, out_of_fuel, parse_rest, parse_template, interleave, placeholder, string,
}

-- `ParseTemplate` returns on every text, whatever it holds: its loop ends.
pub parse_template-total : (s : Text) → parse_template s ≢ out_of_fuel
unfolding parse_template
parse_template-total s = elim (Option-cases (split_open s)) [
  | inl e ↦ rw (e, parse_template) (λ h. cc h)
  | inr (p, e) ↦ rw (e, parse_template) (parse_rest-total (suc (length s)) s (omega arith))
]

abbrev plain : Text → Template
plain literal = record { literals = literal ∷ []; names = []; static = true }

-- One text with no placeholder, or the parts of a loop, with a placeholder at least.
abbrev IsMade : Template → Type 0
IsMade t =
    ((literal : Text) × (split_open literal ≡ none) × (t ≡ plain literal))
    ⊎ (IsLoop t × (t.names ≢ []))

parse_rest-names :
    (fuel : ℕ) (s : Text) {t : Template} {l behind : Text}
    → split_open s ≡ some (l, behind)
    → parse_rest fuel s ≡ parsed t
    → t.names ≢ []
parse_rest-names zero s e h = unfold parse_rest in cc
parse_rest-names (suc fuel) s {t} {l} {behind} e h = elim (Option-cases (split_at 125 behind)) [
  | inl f ↦ absurd (cc (sym (parse_rest-unterminated fuel s e f) ∙ h))
  | inr ((inside, after), f) ↦
      let k = sym (parse_rest-turn fuel s e f) ∙ h in
      let (u, now, full, whole) = with_part-parsed l (trim inside) (parse_rest fuel after) k in
      rw whole (λ q. cc q)
]

parse_template-plain : (s : Text) → split_open s ≡ none → parse_template s ≡ parsed (plain s)
unfolding parse_template
parse_template-plain s e = rw (e, parse_template) refl

parse_template-loop :
    (s : Text) {p : Text × Text}
    → split_open s ≡ some p
    → parse_template s ≡ parse_rest (suc (length s)) s
unfolding parse_template
parse_template-loop s e = rw (e, parse_template) refl

IsParts-length : (ns ls : List Text) → IsParts ns ls → length ls ≡ suc (length ns)
IsParts-length [] [] h = absurd h
IsParts-length [] (l ∷ []) h = refl
IsParts-length [] (l ∷ (_ ∷ _)) h = absurd h
IsParts-length (n ∷ ns) [] h = absurd h
IsParts-length (n ∷ ns) (l ∷ ls) h = ap suc (IsParts-length ns ls h.2)

parse_template-IsMade : (s : Text) {t : Template} → parse_template s ≡ parsed t → IsMade t
parse_template-IsMade s {t} h = elim (Option-cases (split_open s)) [
  | inl e ↦ inl (s, e, cc (sym (parse_template-plain s e) ∙ h))
  | inr (p, e) ↦
      let k = sym (parse_template-loop s e) ∙ h in
      inr (parse_rest-IsLoop (suc (length s)) s k, parse_rest-names (suc (length s)) s e k)
]

-- A template that `ParseTemplate` makes has one literal more than names, and is static exactly when it
-- has no names.
pub parse_template-lengths :
    (s : Text) {t : Template}
    → parse_template s ≡ parsed t
    → (length t.literals ≡ suc (length t.names)) × ((t.static ≡ true) ↔ (t.names ≡ []))
parse_template-lengths s {t} h = elim (parse_template-IsMade s h) [
  | inl (literal, e, whole) ↦ rw whole (refl, ((λ _. refl), λ _. refl))
  | inr ((parts, loop), full) ↦
      (IsParts-length t.names t.literals parts, ((λ q. cc (sym loop ∙ q)), λ q. absurd (full q)))
]

-- The parts of a loop, written out and parsed again.
parse_template-interleave :
    (ns ls : List Text)
    → IsParts ns ls
    → ns ≢ []
    → parse_template (interleave placeholder 0 ls ns)
      ≡ parsed (record { literals = ls; names = ns; static = false })
parse_template-interleave [] ls h q = absurd (q refl)
parse_template-interleave (n ∷ ns) [] h q = absurd h
parse_template-interleave (n ∷ ns) (l ∷ ls) h q =
    parse_template-loop _
      (ap split_open (interleave-placeholder 0 l n ls ns) ∙ split_open-append l _ h.0)
    ∙ parse_rest-interleave _ 0 (n ∷ ns) (l ∷ ls) h
        (omega (arith, parse_rest-length 0 (n ∷ ns) (l ∷ ls) h))

-- A template that `ParseTemplate` makes can be written out, and what `String` writes is parsed as the
-- same template.
pub parse_template-string :
    (s : Text) {t : Template}
    → parse_template s ≡ parsed t
    → (text : Text) × (string t ≡ some text) × (parse_template text ≡ parsed t)
unfolding string
parse_template-string s {t} h = elim (parse_template-IsMade s h) [
  | inl (literal, e, whole) ↦
      (literal, rw whole refl, parse_template-plain literal e ∙ ap parsed (sym whole))
  | inr ((parts, loop), full) ↦ (
    interleave placeholder 0 t.literals t.names,
    rw loop refl,
    parse_template-interleave t.names t.literals parts full
        ∙ ap (λ b. parsed (record t { static = b })) (sym loop),
  )
]
