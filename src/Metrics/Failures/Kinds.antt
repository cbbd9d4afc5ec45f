-- ===== src/Metrics/Failures/Kinds.antt =====
-- Which kinds of failure a node's table of internal/metrics/failures.go tracks, and how exactly.
use load_wave.Metrics.Failures.{
  failure_key_eq, Failure, FailureKey, FailureEntry, FailureTable, key_beq, key_beq_iff, key_of,
  first_entry, counted_again, record_failure, record_all,
}
use load_wave.Prelude.{
  ℕ, ◌+◌, ◌≤◌, ◌<◌, ◌≡◌, Bool-cases, false, none, some, Option-cases, inl, inr, List, [], ◌∷◌,
  length, arith, if◌then◌else◌, word, leb,
}
use load_wave.Prelude.Assoc.{find, find-put, length-put_old}

-- How many of the failures have a key.
unfoldable pub occurrences : FailureKey → List (Failure × ℕ) → ℕ
occurrences k [] = 0
occurrences k ((f, now) ∷ fs) =
    let rest = occurrences k fs in if key_beq (key_of f) k then rest + 1 else rest

-- The time of the last failure with a key, or the given time.
unfoldable pub last_time : FailureKey → List (Failure × ℕ) → ℕ → ℕ
last_time k [] before = before
last_time k ((f, now) ∷ fs) before = last_time k fs (if key_beq (key_of f) k then now else before)

find-record_same :
    (f : Failure) (now : ℕ) (t : FailureTable) (e : FailureEntry)
    → find (key_of f) t.entries ≡ some e
    → find (key_of f) (record_failure f now t).entries ≡ some (counted_again now e)
unfolding record_failure
find-record_same f now t e h = ground (
  arith,
  find-put (key_of f) (key_of f) (counted_again now e) t.entries,
  key_beq_iff (key_of f) (key_of f),
)

find-record_new :
    (f : Failure) (now : ℕ) (t : FailureTable)
    → length t.entries < t.limit
    → find (key_of f) t.entries ≡ none
    → find (key_of f) (record_failure f now t).entries ≡ some (first_entry f now)
unfolding record_failure
find-record_new f now t l n = ground (
  arith,
  find-put (key_of f) (key_of f) (first_entry f now) t.entries,
  key_beq_iff (key_of f) (key_of f),
)

find-record_other :
    (f : Failure) (now : ℕ) (t : FailureTable) (k : FailureKey)
    → key_beq (key_of f) k ≡ false
    → find k (record_failure f now t).entries ≡ find k t.entries
unfolding record_failure
find-record_other f now t k h = elim (Option-cases (find (key_of f) t.entries)) [
  | inl n ↦ ground (arith, find-put (key_of f) k (first_entry f now) t.entries)
  | inr (e, s) ↦ ground (arith, find-put (key_of f) k (counted_again now e) t.entries)
]

find-record_full :
    (f : Failure) (now : ℕ) (t : FailureTable) (k : FailureKey)
    → t.limit ≤ length t.entries
    → find k t.entries ≡ none
    → (find k (record_failure f now t).entries ≡ none)
      × ((record_failure f now t).limit ≤ length (record_failure f now t).entries)
unfolding record_failure
find-record_full f now t k h n = elim (Option-cases (find (key_of f) t.entries)) [
  | inl m ↦ ground arith
  | inr (e, s) ↦ ground (
    arith,
    find-put (key_of f) k (counted_again now e) t.entries,
    key_beq_iff (key_of f) k,
    length-put_old (key_of f) (counted_again now e) e t.entries s,
  )
]

-- A table at its cap takes no new kind.
find-record_all_full :
    (fs : List (Failure × ℕ)) (t : FailureTable) (k : FailureKey)
    → t.limit ≤ length t.entries
    → find k t.entries ≡ none
    → find k (record_all fs t).entries ≡ none
unfolding record_all
find-record_all_full [] t k h n = n
find-record_all_full ((f, now) ∷ fs) t k h n =
    let (m, l) = find-record_full f now t k h n in
    find-record_all_full fs (record_failure f now t) k l m

-- A kind that a table tracks keeps its first message, has every occurrence added to its count and
-- the time of its last failure, if the sum fits 64 bits.
pub record_all_tracked :
    (fs : List (Failure × ℕ)) (t : FailureTable) (k : FailureKey) (e : FailureEntry)
    → find k t.entries ≡ some e
    → e.count + occurrences k fs < word
    → find k (record_all fs t).entries
      ≡ some record {
        message = e.message;
        count = e.count + occurrences k fs;
        last_seen = last_time k fs e.last_seen;
      }
unfolding record_all occurrences last_time
record_all_tracked [] t k e h l = ground arith
record_all_tracked ((f, now) ∷ fs) t k e h l = elim (Bool-cases (key_beq (key_of f) k)) [
  | inl b ↦ ground (
    arith,
    key_beq_iff (key_of f) k,
    find-record_same f now t e,
    record_all_tracked fs (record_failure f now t) k (counted_again now e),
  )
  | inr b ↦
      ground
        (arith, find-record_other f now t k, record_all_tracked fs (record_failure f now t) k e)
]

-- From a table that does not hold a kind, every kind that it holds after any failures has the exact
-- number of the failures of that kind as its count, if that number fits 64 bits: a kind that came
-- when the table was full is not in it, even in part.
pub record_all_exact :
    (fs : List (Failure × ℕ)) (t : FailureTable) (k : FailureKey) (e : FailureEntry)
    → find k t.entries ≡ none
    → occurrences k fs < word
    → find k (record_all fs t).entries ≡ some e
    → e.count ≡ occurrences k fs
unfolding record_all occurrences
record_all_exact [] t k e n l s = cc
record_all_exact ((f, now) ∷ fs) t k e n l s = elim (Bool-cases (key_beq (key_of f) k)) [
  | inl b ↦ elim (Bool-cases (leb t.limit (length t.entries))) [
    | inl full ↦
        let (m, le) = find-record_full f now t k (ground arith) n in
        ground (arith, find-record_all_full fs (record_failure f now t) k le m)
    | inr room ↦ ground (
      arith,
      key_beq_iff (key_of f) k,
      find-record_new f now t,
      record_all_tracked fs (record_failure f now t) k (first_entry f now),
    )
  ]
  | inr b ↦
      ground (arith, find-record_other f now t k, record_all_exact fs (record_failure f now t) k e)
]
