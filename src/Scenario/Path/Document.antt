-- ===== src/Scenario/Path/Document.antt =====
-- What a path captures from a document, `Extract`, `apply`, `stringify` and `jsonKind` of
-- internal/scenario/jsonpath.go. The floating-point numbers are a parameter, with what `encoding/json`
-- and `strconv` do with them.
use load_wave.Prelude.{
  ℕ, zero, suc, ◌+◌, Bool, true, false, Option, none, some, List, [], ◌∷◌, if◌then◌else◌, ℤ,
}
use load_wave.Text.{Text, codes, same_text, format_int}
use load_wave.Scenario.Path.{PathStep, field, index, CapturePath}

module _ (F : Type 0) where
  mutual
    -- What `json.Unmarshal` makes of a document.
    pub data Json : Type 0 where
      null : Json
      boolean : Bool → Json
      float : F → Json
      text : Text → Json
      array : Items → Json
      object : Members → Json

    pub data Items : Type 0 where
      no_items : Items
      item : Json → Items → Items

    -- The entries of a `map[string]any`, whose keys differ.
    pub data Members : Type 0 where
      no_members : Members
      member : Text → Json → Members → Members

  -- The operations of `encoding/json` and `strconv`, and the conversions between `float64` and `int64`;
  -- `none` is an error.
  pub record Encoding : Type 0 where
    pub unmarshal : Text → Option Json
    pub marshal : Json → Option Text
    pub to_int64 : F → ℤ
    pub of_int64 : ℤ → F
    pub same : F → F → Bool
    pub format_float : F → Text

-- The errors of `apply`.
pub data StepError : Type 0 where
  expected_array : Text → StepError
  out_of_range : ℕ → ℕ → StepError
  expected_object : Text → StepError
  no_field : Text → StepError

-- The errors of `Extract`; a step has the number of its segment.
pub data CaptureError : Type 0 where
  body_empty not_json cannot_render : CaptureError
  at_segment : ℕ → StepError → CaptureError

pub data Result {ℓ} (E : Type 0) (A : Type ℓ) : Type ℓ where
  ok : A → Result E A
  err : E → Result E A

abbrev pub marshalled : Option Text → Result CaptureError Text
marshalled none = err cannot_render
marshalled (some s) = ok s

module _ {F : Type 0} where
  unfoldable pub json_kind : Json F → Text
  json_kind null = codes "null"
  json_kind (boolean b) = codes "a boolean"
  json_kind (float x) = codes "a number"
  json_kind (text s) = codes "a string"
  json_kind (array xs) = codes "an array"
  json_kind (object ms) = codes "an object"

  abbrev pub count : Items F → ℕ
  count no_items = 0
  count (item x xs) = suc (count xs)

  abbrev pub nth : Items F → ℕ → Option (Json F)
  nth no_items i = none
  nth (item x xs) zero = some x
  nth (item x xs) (suc i) = nth xs i

  abbrev pub value_of : Text → Members F → Option (Json F)
  value_of k no_members = none
  value_of k (member j v ms) = let rest = value_of k ms in if same_text j k then some v else rest

  abbrev pub or_fail : Option (Json F) → StepError → Result StepError (Json F)
  or_fail none e = err e
  or_fail (some v) e = ok v

  unfoldable pub apply : PathStep → Json F → Result StepError (Json F)
  apply (index i) (array xs) = or_fail (nth xs i) (out_of_range i (count xs))
  apply (index i) node = err (expected_array (json_kind node))
  apply (field f) (object ms) = or_fail (value_of f ms) (no_field f)
  apply (field f) node = err (expected_object (json_kind node))

  -- The loop of `Extract`, from the step that has the number `i`.
  unfoldable pub walk : ℕ → List PathStep → Json F → Result CaptureError (Json F)
  walk i [] current = ok current
  walk i (step ∷ steps) current = elim (apply step current) [
    | ok next ↦ walk (suc i) steps next
    | err e ↦ err (at_segment (i + 1) e)
  ]

  module _ (encoding : Encoding F) where
    unfoldable pub stringify : Json F → Result CaptureError Text
    stringify null = ok []
    stringify (text s) = ok s
    stringify (boolean true) = ok (codes "true")
    stringify (boolean false) = ok (codes "false")
    stringify (float x) = ok (
        if encoding.same x (encoding.of_int64 (encoding.to_int64 x))
        then format_int (encoding.to_int64 x)
        else encoding.format_float x)
    stringify (array xs) = marshalled (encoding.marshal (array xs))
    stringify (object ms) = marshalled (encoding.marshal (object ms))

    abbrev pub rendered : Result CaptureError (Json F) → Result CaptureError Text
    rendered (ok current) = stringify current
    rendered (err e) = err e

    abbrev pub extract_from : Option (Json F) → CapturePath → Result CaptureError Text
    extract_from none p = err not_json
    extract_from (some doc) p = rendered (walk 0 p.steps doc)

    unfoldable pub extract : CapturePath → Text → Result CaptureError Text
    extract p [] = err body_empty
    extract p (c ∷ cs) = extract_from (encoding.unmarshal (c ∷ cs)) p
