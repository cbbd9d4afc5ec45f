-- ===== src/Sdk/Names.antt =====
-- The names under which requests are reported, `DeriveRequestName` of pkg/loadwave/http.go.
pub mod Collapsing
use load_wave.Prelude.{
  ℕ, suc, ◌+◌, Bool, true, false, ◌&&◌, ◌||◌, List, [], ◌∷◌, ◌++◌, map, if◌then◌else◌, ltb, leb,
  ◌==◌,
}
use load_wave.Text.{Text, codes, same_text, split_all}

-- The bytes of a code point in UTF-8, and of a text: Go's `len`.
abbrev pub bytes_of : ℕ → ℕ
bytes_of c = if ltb c 128 then 1 else if ltb c 2048 then 2 else if ltb c 65536 then 3 else 4

unfoldable pub byte_length : Text → ℕ
byte_length [] = 0
byte_length (c ∷ cs) = bytes_of c + byte_length cs

pub record Counts : Type 0 where
  pub digits : ℕ
  pub hex_digits : ℕ
  pub dashes : ℕ

abbrev counted : ℕ → Counts → Counts
counted r n =
    if leb 48 r && leb r 57
    then record n { digits = n.digits + 1; hex_digits = n.hex_digits + 1 }
    else if (leb 97 r && leb r 102) || (leb 65 r && leb r 70)
    then record n { hex_digits = n.hex_digits + 1 }
    else if r == 45
    then record n { dashes = n.dashes + 1 }
    else n

-- The loop over the runes.
unfoldable pub count_runes : Counts → Text → Counts
count_runes n [] = n
count_runes n (r ∷ rs) = count_runes (counted r n) rs

abbrev verdict : Counts → ℕ → Bool
verdict n length =
    if n.digits == length
    then true
    else if n.hex_digits == length && leb 12 length
    then true
    else if n.dashes == 4 && length == 36 && n.hex_digits + n.dashes == length
    then true
    else ltb 0 n.digits && leb 16 length

unfoldable pub looks_like_identifier : Text → Bool
looks_like_identifier [] = false
looks_like_identifier (c ∷ cs) =
    verdict (count_runes (record { digits = 0; hex_digits = 0; dashes = 0 }) (c ∷ cs))
      (byte_length (c ∷ cs))

-- `strings.Join(segments, "/")`
unfoldable pub join : List Text → Text
join [] = []
join (s ∷ []) = s
join (s ∷ t ∷ ts) = s ++ (47 ∷ join (t ∷ ts))

unfoldable pub masked : Text → Text
masked segment = if looks_like_identifier segment then codes "*" else segment

unfoldable pub derive_request_name : Text → Text → Text
derive_request_name method path =
    if same_text path [] || same_text path (codes "/")
    then method ++ codes " /"
    else method ++ (32 ∷ join (map masked (split_all 47 path)))
