-- ===== src/Metrics/Failures.antt =====
-- The tables of failures, internal/metrics/failures.go: one on each node, which records and is
-- drained, and one for the run, which ingests what the nodes drained. A method holds the table's
-- lock throughout, so each is one step. Times are numbers, with 0 for Go's zero time.
pub mod Counting
mod Kinds
mod Ingesting
mod Tests
use Prim.Native.String.{String}
use text.Mathlib.Text.{◌==◌ as str_eq}
use text.Mathlib.TextEquality.{eq_iff}
use load_wave.Prelude.{
  ℕ, ◌+◌, ◌%◌, ◌↔◌, ◌≡◌, Bool, true, false, ◌&&◌, Option, none, some, List, [], ◌∷◌, map, length,
  arith, if◌then◌else◌, ltb, leb, ℤ, pos, pos_part, is_pos, eqb_ℤ, eqb_ℤ_iff, wrap_32, word,
}
use load_wave.Prelude.Assoc.{Eq, find, put}

-- `loadwave.Failure` of pkg/loadwave/failure.go
pub record Failure : Type 0 where
  pub name : String
  pub method : String
  pub status : ℤ
  pub error_class : String
  pub message : String

pub record FailureKey : Type 0 where
  pub name : String
  pub method : String
  pub status : ℤ
  pub error_class : String

abbrev pub key_beq : FailureKey → FailureKey → Bool
key_beq a b =
    str_eq a.name b.name
    && str_eq a.method b.method
    && eqb_ℤ a.status b.status
    && str_eq a.error_class b.error_class

pub key_beq_iff : (a b : FailureKey) → (key_beq a b ≡ true) ↔ (a ≡ b)
key_beq_iff a b = ground (
  arith,
  eq_iff a.name b.name,
  eq_iff a.method b.method,
  eqb_ℤ_iff a.status b.status,
  eq_iff a.error_class b.error_class,
)

instance abbrev pub failure_key_eq : Eq FailureKey
failure_key_eq = record { beq = key_beq; beq_iff = key_beq_iff }

-- The key of an entry is the key that the map holds it by.
pub record FailureEntry : Type 0 where
  pub message : String
  pub count : ℕ
  pub last_seen : ℕ

-- `failureTable`, and `failureStore` too, which has the same fields.
pub record FailureTable : Type 0 where
  pub entries : List (FailureKey × FailureEntry)
  pub limit : ℕ
  pub dropped : ℕ

-- `DefaultMaxFailureKinds`
abbrev pub default_max_failure_kinds : ℕ
default_max_failure_kinds = 100

-- `newFailureTable` and `newFailureStore`
unfoldable pub new_table : ℤ → FailureTable
new_table limit = record {
  entries = [];
  limit = if is_pos limit then pos_part limit else default_max_failure_kinds;
  dropped = 0;
}

abbrev pub key_of : Failure → FailureKey
key_of f = record {
  name = f.name;
  method = f.method;
  status = wrap_32 f.status;
  error_class = f.error_class;
}

-- The entry of a kind that is first seen, and of one that is seen again.
abbrev pub first_entry : Failure → ℕ → FailureEntry
first_entry f now = record { message = f.message; count = 1; last_seen = now }

abbrev pub counted_again : ℕ → FailureEntry → FailureEntry
counted_again now e = record e { count = (e.count + 1) % word; last_seen = now }

abbrev recorded : Failure → ℕ → FailureTable → Option FailureEntry → FailureTable
recorded f now t (some entry) = record t {
  entries = put (key_of f) (counted_again now entry) t.entries;
}
recorded f now t none =
    if leb t.limit (length t.entries)
    then record t { dropped = (t.dropped + 1) % word }
    else record t { entries = put (key_of f) (first_entry f now) t.entries }

-- `failureTable.record`
unfoldable pub record_failure : Failure → ℕ → FailureTable → FailureTable
record_failure f now t = recorded f now t (find (key_of f) t.entries)

unfoldable pub record_all : List (Failure × ℕ) → FailureTable → FailureTable
record_all [] t = t
record_all ((f, now) ∷ fs) t = record_all fs (record_failure f now t)

-- `FailureSample` of proto/loadwave/v1/metrics.proto
pub record FailureSample : Type 0 where
  pub key : FailureKey
  pub message : String
  pub count : ℕ
  pub last_seen : ℕ

abbrev sample_of : FailureKey × FailureEntry → FailureSample
sample_of (k, e) = record { key = k; message = e.message; count = e.count; last_seen = e.last_seen }

-- `failureTable.drain`
unfoldable pub drain : FailureTable → List FailureSample × FailureTable
drain t = (map sample_of t.entries, record t { entries = [] })

abbrev pub fresh_entry : FailureEntry
fresh_entry = record { message = ""; count = 0; last_seen = 0 }

abbrev pub add_sample : FailureSample → FailureEntry → FailureEntry
add_sample s e = record {
  message = if str_eq e.message "" then s.message else e.message;
  count = (e.count + s.count) % word;
  last_seen = if ltb e.last_seen s.last_seen then s.last_seen else e.last_seen;
}

abbrev ingested : FailureSample → FailureTable → Option FailureEntry → FailureTable
ingested s t (some e) = record t { entries = put s.key (add_sample s e) t.entries }
ingested s t none =
    if leb t.limit (length t.entries)
    then record t { dropped = (t.dropped + 1) % word }
    else record t { entries = put s.key (add_sample s fresh_entry) t.entries }

-- The body of the loop of `failureStore.ingest`.
unfoldable pub ingest_sample : FailureSample → FailureTable → FailureTable
ingest_sample s t = ingested s t (find s.key t.entries)

-- `failureStore.ingest`
unfoldable pub ingest : List FailureSample → FailureTable → FailureTable
unfolding ingest_sample
ingest [] t = t
ingest (s ∷ ss) t = ingest ss (ingest_sample s t)
