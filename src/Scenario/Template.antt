-- ===== src/Scenario/Template.antt =====
-- Texts with `${name}` placeholders, `Template` of internal/scenario/template.go.
mod Parsed
pub mod RoundTrip
pub mod Vars
use load_wave.Prelude.{
  ℕ, zero, suc, Bool, true, false, Option, none, some, List, [], ◌∷◌, ◌++◌, if◌then◌else◌, length,
  get_elem?,
}
use load_wave.Text.{Text, trim, split_at, split_open}

pub record Template : Type 0 where
  pub literals : List Text
  pub names : List Text
  pub static : Bool

-- What `ParseTemplate` returns; the last is for a loop that takes more turns than the fuel.
pub data Parsing : Type 0 where
  parsed : Template → Parsing
  unterminated empty_placeholder out_of_fuel : Parsing

abbrev pub with_part : Text → Text → Parsing → Parsing
with_part literal [] rest = empty_placeholder
with_part literal (c ∷ cs) (parsed t) =
    parsed (record t { literals = literal ∷ t.literals; names = (c ∷ cs) ∷ t.names })
with_part literal (c ∷ cs) rest = rest

-- The loop. What it appends to `literals` and `names` stands in front of what its next turns append.
-- `${` holds no `}`, so that the search for `}` starts behind it.
unfoldable pub parse_rest : ℕ → Text → Parsing
parse_rest zero rest = out_of_fuel
parse_rest (suc fuel) rest = elim (split_open rest) [
  | none ↦ parsed (record { literals = rest ∷ []; names = []; static = false })
  | some (literal, behind) ↦ elim (split_at 125 behind) [
    | none ↦ unterminated
    | some (inside, after) ↦ with_part literal (trim inside) (parse_rest fuel after)
  ]
]

unfoldable pub parse_template : Text → Parsing
parse_template s = elim (split_open s) [
  | none ↦ parsed (record { literals = s ∷ []; names = []; static = true })
  | some _ ↦ parse_rest (suc (length s)) s
]

abbrev made : Parsing → Option Template
made (parsed t) = some t
made failure = none

-- `MustParseTemplate`; `none` is its panic.
unfoldable pub must_parse_template : Text → Option Template
must_parse_template s = made (parse_template s)

-- The loop of `Render` and of `String`, with what is written for the `k`-th name and its turn.
unfoldable pub interleave : (ℕ → Text → Text) → ℕ → List Text → List Text → Text
interleave write k [] names = []
interleave write k (literal ∷ literals) [] = literal ++ interleave write (suc k) literals []
interleave write k (literal ∷ literals) (name ∷ names) =
    literal ++ (write k name ++ interleave write (suc k) literals names)

-- `Render`, with what `vars.Get` answers at each turn, and the turn of its first call; `none` is an index
-- out of range.
unfoldable pub render : (ℕ → Text → Text) → ℕ → Template → Option Text
render get k t =
    if t.static then get_elem? t.literals 0 else some (interleave get k t.literals t.names)

abbrev pub placeholder : ℕ → Text → Text
placeholder k name = 36 ∷ 123 ∷ (name ++ (125 ∷ []))

-- `String`; `none` is an index out of range.
unfoldable pub string : Template → Option Text
string t =
    if t.static then get_elem? t.literals 0 else some (interleave placeholder 0 t.literals t.names)
