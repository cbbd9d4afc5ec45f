-- ===== src/Scenario/Path/Splitting.antt =====
-- The paths that `ParsePath` of internal/scenario/jsonpath.go makes.
use mathlib.Core.Path.{subst}
use load_wave.Prelude.{
  ℕ, zero, suc, ◌≡◌, ◌≢◌, ◌⊎◌, refl, sym, ◌∙◌, Option, none, some, List, [], ◌∷◌, inl, inr, arith,
  Option-cases, Bool-cases, All, ◌==◌, pos, negsuc, ◌<◌, int64_end,
}
use load_wave.Text.{Text, trim}
use load_wave.Scenario.Path.{
  PathStep, field, index, CapturePath, ParsedPath, path, empty_path, empty_segment, negative_index,
  resolves_to_nothing, nonempty, split_path, atoi, number, in_range, in_range_negated, with_step,
  with_segment, steps_of, not_nothing, trimmed_path, parse_path,
}

list_cases : {A : Type 0} (xs : List A) → (xs ≡ []) ⊎ ((y : A) × (ys : List A) × (xs ≡ y ∷ ys))
list_cases [] = inl refl
list_cases (y ∷ ys) = inr (y, ys, refl)

nonempty-All : (parts : List Text) → All (λ s. s ≢ []) (nonempty parts)
unfolding nonempty
nonempty-All [] = tt
nonempty-All ([] ∷ parts) = nonempty-All parts
nonempty-All ((c ∷ cs) ∷ parts) = ((λ h. cc h), nonempty-All parts)

-- What a text is to `with_segment`: a name, an index, or a negative number.
data Segment (s : Text) (rest : ParsedPath) : Type 0 where
  is_field : atoi s ≡ none → with_segment s rest ≡ with_step (field s) rest → Segment s rest
  is_index :
      (n : ℕ)
      → atoi s ≡ some (pos n)
      → with_segment s rest ≡ with_step (index n) rest
      → Segment s rest
  is_negative :
      (n : ℕ) → atoi s ≡ some (negsuc n) → with_segment s rest ≡ negative_index → Segment s rest

part_alone : (s : Text) (rest : ParsedPath) → s ≢ [] → Segment s rest
part_alone [] rest h = absurd (h refl)
part_alone (c ∷ cs) rest h = elim (Option-cases (atoi (c ∷ cs))) [
  | inl e ↦ is_field e (rw (e, with_segment) refl)
  | inr (pos n, e) ↦ is_index n e (rw (e, with_segment) refl)
  | inr (negsuc n, e) ↦ is_negative n e (rw (e, with_segment) refl)
]

with_step-segment :
    (step : PathStep) (p : ParsedPath) → p ≢ empty_segment → with_step step p ≢ empty_segment
with_step-segment step (path p) h = λ e. cc e
with_step-segment step empty_path h = λ e. cc e
with_step-segment step empty_segment h = h
with_step-segment step negative_index h = λ e. cc e
with_step-segment step resolves_to_nothing h = λ e. cc e

steps_of-segment :
    (source : Text) (segments : List Text)
    → All (λ s. s ≢ []) segments
    → steps_of source segments ≢ empty_segment
unfolding steps_of
steps_of-segment source [] h = λ e. cc e
steps_of-segment source (s ∷ segments) h =
    let later = steps_of-segment source segments h.1 in
    elim (part_alone s (steps_of source segments) h.0) [
      | is_field e f ↦ rw f (with_step-segment (field s) _ later)
      | is_index n e f ↦ rw f (with_step-segment (index n) _ later)
      | is_negative n e f ↦ rw f (λ q. cc q)
    ]

not_nothing-segment : (p : ParsedPath) → p ≢ empty_segment → not_nothing p ≢ empty_segment
not_nothing-segment (path p) h =
    elim p.steps
      as (λ x.
        elim x as (λ _. ParsedPath) [ [] ↦ resolves_to_nothing | _ ∷ _ ↦ path p ] ≢ empty_segment) [
          | [] ↦ λ e. cc e
          | _ ∷ _ ↦ λ e. cc e
        ]
not_nothing-segment empty_path h = λ e. cc e
not_nothing-segment empty_segment h = h
not_nothing-segment negative_index h = λ e. cc e
not_nothing-segment resolves_to_nothing h = λ e. cc e

-- `ParsePath` never reports an empty segment: `splitPath` has left the empty ones out.
pub parse_path-segment : (expr : Text) → parse_path expr ≢ empty_segment
unfolding parse_path split_path
parse_path-segment expr =
    elim (trim expr)
      as (λ t.
        elim t as (λ _. ParsedPath) [
          | [] ↦ empty_path
          | _ ∷ _ ↦ not_nothing (steps_of expr (split_path (trimmed_path expr)))
        ]
        ≢ empty_segment) [
          | [] ↦ λ e. cc e
          | _ ∷ _ ↦ not_nothing-segment _ (steps_of-segment expr _ (nonempty-All _))
        ]

-- A field is a name that is no number, and not empty.
abbrev pub IsStep : PathStep → Type 0
IsStep (field f) = (f ≢ []) × (atoi f ≡ none)
IsStep (index n) = n < int64_end

pub record IsPath (source : Text) (p : CapturePath) : Type 0 where
  pub kept : p.source ≡ source
  pub steps_are : All IsStep p.steps

abbrev IsParsed : Text → ParsedPath → Type 0
IsParsed source (path p) = IsPath source p
IsParsed source failure = Unit

with_step-IsParsed :
    (source : Text) (step : PathStep) (p : ParsedPath)
    → IsStep step
    → IsParsed source p
    → IsParsed source (with_step step p)
with_step-IsParsed source step (path p) h k = record { kept = k.kept; steps_are = (h, k.steps_are) }
with_step-IsParsed source step _ h k = tt

in_range-lt : (o : Option ℕ) {n : ℕ} → in_range o ≡ some (pos n) → n < int64_end
in_range-lt none h = cc
in_range-lt (some m) h = ground arith

in_range_negated-lt : (o : Option ℕ) {n : ℕ} → in_range_negated o ≡ some (pos n) → n < int64_end
in_range_negated-lt none h = cc
in_range_negated-lt (some zero) h = ground arith
in_range_negated-lt (some (suc m)) h = ground arith

atoi-lt : (s : Text) {n : ℕ} → atoi s ≡ some (pos n) → n < int64_end
unfolding atoi
atoi-lt [] h = cc
atoi-lt (c ∷ cs) h = elim (Bool-cases (c == 45)) [
  | inl e ↦ in_range_negated-lt (number cs) (rw e at h)
  | inr e ↦ elim (Bool-cases (c == 43)) [
    | inl f ↦ in_range-lt (number cs) (rw (e, f) at h)
    | inr f ↦ in_range-lt (number (c ∷ cs)) (rw (e, f) at h)
  ]
]

steps_of-IsParsed :
    (source : Text) (segments : List Text)
    → All (λ s. s ≢ []) segments
    → IsParsed source (steps_of source segments)
unfolding steps_of
steps_of-IsParsed source [] h = record { kept = refl; steps_are = tt }
steps_of-IsParsed source (s ∷ segments) h =
    let later = steps_of-IsParsed source segments h.1 in
    elim (part_alone s (steps_of source segments) h.0) [
      | is_field e f ↦ rw f (with_step-IsParsed source (field s) _ (h.0, e) later)
      | is_index n e f ↦ rw f (with_step-IsParsed source (index n) _ (atoi-lt s e) later)
      | is_negative n e f ↦ rw f tt
    ]

abbrev IsWhole : Text → ParsedPath → Type 0
IsWhole source (path p) = IsPath source p × (p.steps ≢ [])
IsWhole source failure = Unit

not_nothing-IsWhole :
    (source : Text) (p : ParsedPath) → IsParsed source p → IsWhole source (not_nothing p)
not_nothing-IsWhole source (path p) h = elim (list_cases p.steps) [
  | inl e ↦ rw (e, not_nothing) tt
  | inr (x, xs, e) ↦ rw (e, not_nothing) (h, λ q. cc (sym e ∙ q))
]
not_nothing-IsWhole source empty_path h = tt
not_nothing-IsWhole source empty_segment h = tt
not_nothing-IsWhole source negative_index h = tt
not_nothing-IsWhole source resolves_to_nothing h = tt

-- A path that `ParsePath` makes keeps its expression and has a step at least; each of its fields is a
-- name that is not empty and that `Atoi` does not read, and each of its indexes is an `int`.
pub parse_path-IsPath :
    (expr : Text) {p : CapturePath} → parse_path expr ≡ path p → IsPath expr p × (p.steps ≢ [])
unfolding parse_path split_path
parse_path-IsPath expr {p} h =
    subst (IsWhole expr) h
      (elim (trim expr)
        as (λ t. IsWhole expr (elim t as (λ _. ParsedPath) [
          | [] ↦ empty_path
          | _ ∷ _ ↦ not_nothing (steps_of expr (split_path (trimmed_path expr)))
        ])) [
          | [] ↦ tt
          | _ ∷ _ ↦ not_nothing-IsWhole expr _ (steps_of-IsParsed expr _ (nonempty-All _))
        ])
