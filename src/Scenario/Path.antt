-- ===== src/Scenario/Path.antt =====
-- Capture expressions, `Path` of internal/scenario/jsonpath.go.
pub mod Segments
pub mod Splitting
pub mod Document
pub mod Leading
pub mod Walking
use load_wave.Prelude.{
  ℕ, zero, suc, ◌+◌, ◌-◌, ◌*◌, Bool, true, false, ◌&&◌, Option, none, some, List, [], ◌∷◌, ◌++◌,
  if◌then◌else◌, ltb, leb, ◌==◌, ℤ, pos, negsuc, eqb_ℤ, int64_end,
}
use load_wave.Text.{Text, codes, trim, split_all}

-- A step is a field name or an array index; `ParsePath` makes all steps, and refuses a negative index.
pub data PathStep : Type 0 where
  field : Text → PathStep
  index : ℕ → PathStep

pub record CapturePath : Type 0 where
  pub steps : List PathStep
  pub source : Text

-- What `ParsePath` returns.
pub data ParsedPath : Type 0 where
  path : CapturePath → ParsedPath
  empty_path empty_segment negative_index resolves_to_nothing : ParsedPath

abbrev cut_prefix : Text → Text → Option Text
cut_prefix [] s = some s
cut_prefix (p ∷ ps) [] = none
cut_prefix (p ∷ ps) (c ∷ cs) = let rest = cut_prefix ps cs in if p == c then rest else none

-- `strings.TrimPrefix`
unfoldable pub trim_prefix : Text → Text → Text
trim_prefix p s = elim (cut_prefix p s) [ none ↦ s | some rest ↦ rest ]

-- The replacer of `[` by a dot and of `]` by nothing.
unfoldable pub replace_brackets : Text → Text
replace_brackets [] = []
replace_brackets (c ∷ cs) =
    let rest = replace_brackets cs in
    if c == 91 then 46 ∷ rest else if c == 93 then rest else c ∷ rest

-- The loop that leaves out the empty parts.
unfoldable pub nonempty : List Text → List Text
nonempty [] = []
nonempty ([] ∷ parts) = nonempty parts
nonempty ((c ∷ cs) ∷ parts) = (c ∷ cs) ∷ nonempty parts

unfoldable pub split_path : Text → List Text
split_path expr = nonempty (split_all 46 (replace_brackets expr))

abbrev number_from : ℕ → Text → Option ℕ
number_from n [] = some n
number_from n (c ∷ cs) =
    let rest = number_from (n * 10 + (c - 48)) cs in if leb 48 c && leb c 57 then rest else none

abbrev pub number : Text → Option ℕ
number [] = none
number (c ∷ cs) = number_from 0 (c ∷ cs)

abbrev pub in_range : Option ℕ → Option ℤ
in_range none = none
in_range (some n) = if ltb n int64_end then some (pos n) else none

abbrev pub in_range_negated : Option ℕ → Option ℤ
in_range_negated none = none
in_range_negated (some zero) = some (pos 0)
in_range_negated (some (suc n)) = if ltb n int64_end then some (negsuc n) else none

-- `strconv.Atoi` on a 64-bit platform; `none` is its error.
unfoldable pub atoi : Text → Option ℤ
atoi [] = none
atoi (c ∷ cs) =
    if c == 45
    then in_range_negated (number cs)
    else if c == 43
    then in_range (number cs)
    else in_range (number (c ∷ cs))

-- What one turn of the loop of `ParsePath` does with the steps of the later turns.
abbrev pub with_step : PathStep → ParsedPath → ParsedPath
with_step step (path p) = path (record p { steps = step ∷ p.steps })
with_step step failure = failure

abbrev pub with_segment : Text → ParsedPath → ParsedPath
with_segment [] rest = empty_segment
with_segment (c ∷ cs) rest = elim (atoi (c ∷ cs)) [
  | none ↦ with_step (field (c ∷ cs)) rest
  | some (pos n) ↦ with_step (index n) rest
  | some (negsuc n) ↦ negative_index
]

-- The loop over the segments.
unfoldable pub steps_of : Text → List Text → ParsedPath
steps_of source [] = path (record { steps = []; source = source })
steps_of source (segment ∷ segments) = with_segment segment (steps_of source segments)

abbrev pub not_nothing : ParsedPath → ParsedPath
not_nothing (path p) = elim p.steps [ [] ↦ resolves_to_nothing | _ ∷ _ ↦ path p ]
not_nothing failure = failure

abbrev pub trimmed_path : Text → Text
trimmed_path s =
    trim_prefix (codes ".") (trim_prefix (codes "$") (trim_prefix (codes "$.") (trim s)))

unfoldable pub parse_path : Text → ParsedPath
parse_path expr = elim (trim expr) [
  | [] ↦ empty_path
  | _ ∷ _ ↦ not_nothing (steps_of expr (split_path (trimmed_path expr)))
]
