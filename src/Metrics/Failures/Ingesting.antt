-- ===== src/Metrics/Failures/Ingesting.antt =====
-- What `failureStore.ingest` of internal/metrics/failures.go keeps.
use Prim.Native.String.{String}
use text.Mathlib.Text.{◌==◌ as str_eq}
use load_wave.Metrics.Failures.{
  failure_key_eq, FailureKey, FailureEntry, FailureTable, FailureSample, add_sample, fresh_entry,
  key_beq, key_beq_iff, ingest, ingest_sample,
}
use load_wave.Metrics.Failures.Counting.{IsBounded}
use load_wave.Prelude.{
  ℕ, zero, suc, replicate, ◌+◌, ◌≤◌, ◌<◌, ◌%◌, ◌≡◌, ◌&&◌, Bool-cases, false, none, some,
  Option-cases, inl, inr, List, [], ◌∷◌, length, arith, if◌then◌else◌, word, ltb,
}
use load_wave.Prelude.Assoc.{find, find-put, length-put_new, length-put_old}

-- The sum of the counts of a kind's samples.
unfoldable pub sampled : FailureKey → List FailureSample → ℕ
sampled k [] = 0
sampled k (s ∷ ss) = let rest = sampled k ss in if key_beq s.key k then s.count + rest else rest

-- The latest time of a kind's samples and a given time.
unfoldable pub latest : FailureKey → List FailureSample → ℕ → ℕ
latest k [] before = before
latest k (s ∷ ss) before =
    latest k ss (if key_beq s.key k && ltb before s.last_seen then s.last_seen else before)

-- The given message, or the first of a kind's samples that is not empty.
unfoldable pub first_message : FailureKey → List FailureSample → String → String
first_message k [] message = message
first_message k (s ∷ ss) message =
    first_message k ss (if key_beq s.key k && str_eq message "" then s.message else message)

find-ingest_same :
    (s : FailureSample) (t : FailureTable) (e : FailureEntry)
    → find s.key t.entries ≡ some e
    → find s.key (ingest_sample s t).entries ≡ some (add_sample s e)
unfolding ingest_sample
find-ingest_same s t e h =
    ground (arith, find-put s.key s.key (add_sample s e) t.entries, key_beq_iff s.key s.key)

find-ingest_other :
    (s : FailureSample) (t : FailureTable) (k : FailureKey)
    → key_beq s.key k ≡ false
    → find k (ingest_sample s t).entries ≡ find k t.entries
unfolding ingest_sample
find-ingest_other s t k h = elim (Option-cases (find s.key t.entries)) [
  | inl n ↦ ground (arith, find-put s.key k (add_sample s fresh_entry) t.entries)
  | inr (e, g) ↦ ground (arith, find-put s.key k (add_sample s e) t.entries)
]

ingest_sample-IsBounded :
    (s : FailureSample) (t : FailureTable) → IsBounded t → IsBounded (ingest_sample s t)
unfolding ingest_sample IsBounded
ingest_sample-IsBounded s t h = elim (Option-cases (find s.key t.entries)) [
  | inl n ↦ ground (arith, length-put_new s.key (add_sample s fresh_entry) t.entries n)
  | inr (e, g) ↦ ground (arith, length-put_old s.key (add_sample s e) e t.entries g)
]

-- A run's table keeps to its cap whatever the nodes report.
pub ingest-IsBounded :
    (ss : List FailureSample) (t : FailureTable) → IsBounded t → IsBounded (ingest ss t)
unfolding ingest
ingest-IsBounded [] t h = h
ingest-IsBounded (s ∷ ss) t h =
    ingest-IsBounded ss (ingest_sample s t) (ingest_sample-IsBounded s t h)

-- A kind that the run's table tracks has, after a batch of samples, the counts of its samples added
-- to its count, the latest of the times, and its message, or the first of the samples' messages that
-- is not empty if it had none, if the sum fits 64 bits.
pub ingest_tracked :
    (ss : List FailureSample) (t : FailureTable) (k : FailureKey) (e : FailureEntry)
    → find k t.entries ≡ some e
    → e.count + sampled k ss < word
    → find k (ingest ss t).entries
      ≡ some record {
        message = first_message k ss e.message;
        count = e.count + sampled k ss;
        last_seen = latest k ss e.last_seen;
      }
unfolding ingest sampled latest first_message
ingest_tracked [] t k e h l = ground arith
ingest_tracked (s ∷ ss) t k e h l = elim (Bool-cases (key_beq s.key k)) [
  | inl b ↦ ground (
    arith,
    key_beq_iff s.key k,
    find-ingest_same s t e,
    ingest_tracked ss (ingest_sample s t) k (add_sample s e),
  )
  | inr b ↦ ground (arith, find-ingest_other s t k, ingest_tracked ss (ingest_sample s t) k e)
]

ingest_sample-full :
    (s : FailureSample) (t : FailureTable)
    → t.limit ≤ length t.entries
    → find s.key t.entries ≡ none
    → ingest_sample s t ≡ record t { dropped = (t.dropped + 1) % word }
unfolding ingest_sample
ingest_sample-full s t h n = ground arith

-- The count of dropped kinds counts samples and not kinds: when the run's table is full, n samples of
-- one and the same kind that it does not track add n to the count, if the sum fits 64 bits.
pub ingest_dropped :
    (n : ℕ) (s : FailureSample) (t : FailureTable)
    → t.limit ≤ length t.entries
    → find s.key t.entries ≡ none
    → t.dropped + n < word
    → (ingest (replicate n s) t).dropped ≡ t.dropped + n
unfolding ingest
ingest_dropped zero s t h f l = omega arith
ingest_dropped (suc n) s t h f l = ground (
  arith,
  ingest_sample-full s t h f,
  ingest_dropped n s (record t { dropped = (t.dropped + 1) % word }) h f,
)
