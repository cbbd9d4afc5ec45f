-- ===== src/Text.antt =====
-- Texts as lists of code points, with what internal/scenario and pkg/loadwave use of Go's
-- `strings` and `strconv`.
pub mod Cuts
pub mod Parts
use Prim.Native.Char.{code}
use Prim.Native.String.{String}
use load_wave.Prelude.{
  ℕ, zero, suc, ◌+◌, ◌/◌, ◌%◌, ◌≡◌, refl, ◌↔◌, Bool, true, false, ◌&&◌, ◌||◌, Option, none, some,
  List, [], ◌∷◌, ◌++◌, arith, if◌then◌else◌, ltb, leb, ◌==◌, ==_iff, ℤ, pos, negsuc,
}
use load_wave.Prelude.Assoc.{Eq}

abbrev pub Text : Type 0
Text = List ℕ

-- The code points of a text in the source.
abbrev pub codes : String → Text
codes String.[] = []
codes (String.◌∷◌ c s) = code c ∷ codes s

abbrev pub same_text : Text → Text → Bool
same_text [] [] = true
same_text (x ∷ xs) (y ∷ ys) = x == y && same_text xs ys
same_text _ _ = false

pub same_text_iff : (a b : Text) → (same_text a b ≡ true) ↔ (a ≡ b)
same_text_iff (x ∷ a) (y ∷ b) = ground (arith, same_text_iff a b)
same_text_iff _ _ = ground arith

instance abbrev pub text_eq : Eq Text
text_eq = record { beq = same_text; beq_iff = same_text_iff }

-- `unicode.IsSpace`
unfoldable pub is_space : ℕ → Bool
is_space c =
    (leb 9 c && leb c 13)
    || c == 32
    || c == 133
    || c == 160
    || c == 5760
    || (leb 8192 c && leb c 8202)
    || c == 8232
    || c == 8233
    || c == 8239
    || c == 8287
    || c == 12288

unfoldable pub trim_left : Text → Text
trim_left [] = []
trim_left (c ∷ cs) = let rest = trim_left cs in if is_space c then rest else c ∷ cs

abbrev keep : ℕ → Text → Text
keep c [] = if is_space c then [] else c ∷ []
keep c (d ∷ ds) = c ∷ d ∷ ds

unfoldable pub trim_right : Text → Text
trim_right [] = []
trim_right (c ∷ cs) = keep c (trim_right cs)

-- `strings.TrimSpace`
unfoldable pub trim : Text → Text
trim s = trim_right (trim_left s)

abbrev begun : ℕ → Option (Text × Text) → Option (Text × Text)
begun c none = none
begun c (some (before, after)) = some (c ∷ before, after)

-- The text before the first `mark`, and the text behind it.
unfoldable pub split_at : ℕ → Text → Option (Text × Text)
split_at mark [] = none
split_at mark (c ∷ cs) =
    let rest = begun c (split_at mark cs) in if c == mark then some ([], cs) else rest

-- `$` and `{`
abbrev pub opens : ℕ → Text → Bool
opens c [] = false
opens c (d ∷ ds) = c == 36 && d == 123

abbrev pub tail : Text → Text
tail [] = []
tail (c ∷ cs) = cs

-- The text before the first `${`, and the text behind it.
unfoldable pub split_open : Text → Option (Text × Text)
split_open [] = none
split_open (c ∷ cs) =
    let rest = begun c (split_open cs) in if opens c cs then some ([], tail cs) else rest

abbrev pub onto : ℕ → List Text → List Text
onto c [] = (c ∷ []) ∷ []
onto c (part ∷ parts) = (c ∷ part) ∷ parts

-- `strings.Split` at each `mark`.
unfoldable pub split_all : ℕ → Text → List Text
split_all mark [] = [] ∷ []
split_all mark (c ∷ cs) =
    let rest = split_all mark cs in let same = onto c rest in if c == mark then [] ∷ rest else same

abbrev pub ended : ℕ → Text → Option (Text × Text) → Option (Text × Text)
ended c cs none = some ([], cs)
ended c cs (some (before, after)) = some (c ∷ before, after)

-- The text before the last `mark`, and the text behind it.
unfoldable pub split_last : ℕ → Text → Option (Text × Text)
split_last mark [] = none
split_last mark (c ∷ cs) =
    let rest = split_last mark cs in
    let kept = begun c rest in let last = ended c cs rest in if c == mark then last else kept

-- The decimal digits of a number that has at most as many as the fuel.
unfoldable pub digits : ℕ → ℕ → Text
digits zero n = []
digits (suc fuel) n =
    let high = digits fuel (n / 10) in
    if ltb n 10 then (48 + n) ∷ [] else high ++ ((48 + n % 10) ∷ [])

-- `strconv.FormatUint` of a 64-bit number, in base 10.
unfoldable pub format_uint : ℕ → Text
format_uint n = digits 20 n

-- `strconv.FormatInt` of a 64-bit number, in base 10.
unfoldable pub format_int : ℤ → Text
format_int (pos n) = digits 20 n
format_int (negsuc n) = 45 ∷ digits 20 (suc n)
