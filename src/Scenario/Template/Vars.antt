-- ===== src/Scenario/Template/Vars.antt =====
-- The variables of an iteration, `Vars` and `newUUIDv4` of internal/scenario/template.go. A value that
-- the source draws anew at each call, from a clock or a random source, is a function of the turn.
use load_wave.Prelude.{
  ℕ, zero, suc, ◌+◌, ◌/◌, ◌%◌, ◌≡◌, refl, true, false, Option, none, some, List, [], ◌∷◌, ◌++◌,
  if◌then◌else◌, ltb, length, ℤ, arith, ◌==◌, ◌⊎◌, inl, get_elem?,
}
use load_wave.Prelude.Assoc.{find, put, find-put}
use load_wave.Text.{Text, codes, same_text, text_eq, format_int, format_uint}

-- What a virtual user and the clock answer; `time.Now` is given in its two formats, and `none` stands
-- for an error of `rand.Read`.
pub record Sources : Type 0 where
  pub id : ℤ
  pub iteration : ℤ
  pub shard_index : ℕ
  pub shard_count : ℕ
  pub rand : ℕ → ℤ
  pub random_bytes : ℕ → Option (ℕ → ℕ)
  pub timestamp : ℕ → Text
  pub unix_milli : ℕ → ℤ

pub record Vars : Type 0 where
  pub values : List (Text × Text)
  pub vu : Option Sources

-- The loop of `NewVars` over the declarations.
abbrev declare : List (Text × Text) → List (Text × Text) → List (Text × Text)
declare values [] = values
declare values ((k, v) ∷ declared) = declare (put k v values) declared

unfoldable pub new_vars : Option Sources → List (Text × Text) → Vars
new_vars vu declared = record { values = declare [] declared; vu = vu }

unfoldable pub set : Vars → Text → Text → Vars
set v name value = record v { values = put name value v.values }

-- One digit of `hex.Encode`.
abbrev hex_digit : ℕ → ℕ
hex_digit n = if ltb n 10 then 48 + n else 87 + n

unfoldable pub hex_encode : Text → Text
hex_encode [] = []
hex_encode (b ∷ bs) = hex_digit (b / 16) ∷ hex_digit (b % 16) ∷ hex_encode bs

-- The bytes of `b[first:last]` for an array `b`, from `first` on.
unfoldable pub slice : (ℕ → ℕ) → ℕ → ℕ → Text
slice b first zero = []
slice b first (suc n) = b first ∷ slice b (suc first) n

-- The array with the version and the variant put into its bytes 6 and 8.
abbrev stamped : (ℕ → ℕ) → ℕ → ℕ
stamped b i = if i == 6 then b 6 % 16 + 64 else if i == 8 then b 8 % 64 + 128 else b i

abbrev hyphenated : (ℕ → ℕ) → Text
hyphenated b =
    hex_encode (slice b 0 4)
    ++ (45
        ∷ (hex_encode (slice b 4 2)
            ++ (45
                ∷ (hex_encode (slice b 6 2)
                    ++ (45 ∷ (hex_encode (slice b 8 2) ++ (45 ∷ hex_encode (slice b 10 6))))))))

-- `newUUIDv4`, for the bytes that `rand.Read` fills, or its error.
unfoldable pub new_uuid_v4 : Option (ℕ → ℕ) → Text
new_uuid_v4 none = codes "00000000-0000-4000-8000-000000000000"
new_uuid_v4 (some b) = hyphenated (stamped b)

-- The switch of `Get`.
unfoldable pub built_in : Sources → ℕ → Text → Text
built_in s k name =
    if same_text name (codes "__vu")
    then format_int s.id
    else if same_text name (codes "__iteration")
    then format_int s.iteration
    else if same_text name (codes "__shard")
    then format_uint s.shard_index
    else if same_text name (codes "__shards")
    then format_uint s.shard_count
    else if same_text name (codes "__random")
    then format_int (s.rand k)
    else if same_text name (codes "__uuid")
    then new_uuid_v4 (s.random_bytes k)
    else if same_text name (codes "__timestamp")
    then s.timestamp k
    else if same_text name (codes "__unixMilli")
    then format_int (s.unix_milli k)
    else []

abbrev unset : Option Sources → ℕ → Text → Text
unset none k name = []
unset (some s) k name = built_in s k name

-- `Get` at the turn `k`.
unfoldable pub get : Vars → ℕ → Text → Text
get v k name = elim (find name v.values) [ none ↦ unset v.vu k name | some value ↦ value ]

-- A value that `Set` records is what `Get` answers under its name, whatever the built-in names are; every
-- other name is answered as before.
pub get-set :
    (v : Vars) (name value other : Text) (k : ℕ)
    → get (set v name value) k other ≡ (if same_text name other then value else get v k other)
unfolding get set
get-set v name value other k =
    rw (find-put name other value v.values, get)
      (elim (same_text name other)
        as (λ b.
          elim (if b then some value else find other v.values) as (λ _. Text) [
            | none ↦ unset v.vu k other
            | some w ↦ w
          ]
          ≡ (if b then value else get v k other)) [ true ↦ refl | false ↦ refl ])

abbrev Holds : Text → ℕ → ℕ → Type 0
Holds u i c = get_elem? u i ≡ some c

-- 36 characters, hyphens in their places, the version 4, and a variant of the bits 10.
pub record IsUuid (u : Text) : Type 0 where
  pub full : length u ≡ 36
  pub hyphens : Holds u 8 45 × Holds u 13 45 × Holds u 18 45 × Holds u 23 45
  pub version : Holds u 14 52
  pub variant : Holds u 19 56 ⊎ Holds u 19 57 ⊎ Holds u 19 97 ⊎ Holds u 19 98

variant_digit :
    (n : ℕ)
    → ((n % 64 + 128) / 16 ≡ 8)
      ⊎ ((n % 64 + 128) / 16 ≡ 9)
      ⊎ ((n % 64 + 128) / 16 ≡ 10)
      ⊎ ((n % 64 + 128) / 16 ≡ 11)
variant_digit n = omega arith

-- `newUUIDv4` writes 36 characters with hyphens in their places, of version 4 and of the variant whose
-- bits are 10, whatever the random bytes are and also where `rand.Read` fails.
pub new_uuid_v4-IsUuid : (o : Option (ℕ → ℕ)) → IsUuid (new_uuid_v4 o)
unfolding new_uuid_v4 hex_encode slice
new_uuid_v4-IsUuid none = record {
  full = refl;
  hyphens = (refl, refl, refl, refl);
  version = refl;
  variant = inl refl;
}
new_uuid_v4-IsUuid (some b) = record {
  full = refl;
  hyphens = (refl, refl, refl, refl);
  version = ground arith;
  variant = ground (arith, variant_digit (b 8));
}
