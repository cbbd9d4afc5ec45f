-- ===== src/Metrics/Failures/Counting.antt =====
-- What `failureTable.record` and `failureTable.drain` of internal/metrics/failures.go keep.
use load_wave.Metrics.Failures.{
  failure_key_eq, Failure, FailureKey, FailureEntry, FailureTable, key_of, new_table, FailureSample,
  sample_of, first_entry, counted_again, record_failure, drain,
}
use load_wave.Prelude.{
  ◌++◌, ℕ, ◌+◌, ◌≤◌, ◌<◌, ◌≡◌, refl, some, Option-cases, inl, inr, List, [], ◌++◌, ◌∷◌, length, map,
  arith, word, ℤ, pos, negsuc,
}
use load_wave.Prelude.Assoc.{
  find, length-put_new, length-put_old, total, total-put_new, total-put_old,
}

abbrev pub count_of : FailureEntry → ℕ
count_of e = e.count

-- Every occurrence that the table knows of.
unfoldable pub tally : FailureTable → ℕ
tally t = total count_of t.entries + t.dropped

-- A table at its cap or below, with a cap above 0.
unfoldable pub IsBounded : FailureTable → Type 0
IsBounded t = (length t.entries ≤ t.limit) × (0 < t.limit)

find-total-le :
    (k : FailureKey) (m : List (FailureKey × FailureEntry)) (e : FailureEntry)
    → find k m ≡ some e
    → e.count ≤ total count_of m
find-total-le k [] e h = cc
find-total-le k ((j, u) ∷ m) e h = ground (arith, find-total-le k m e)

record_failure-IsBounded :
    (f : Failure) (now : ℕ) (t : FailureTable) → IsBounded t → IsBounded (record_failure f now t)
unfolding record_failure IsBounded
record_failure-IsBounded f now t (le, po) = elim (Option-cases (find (key_of f) t.entries)) [
  | inl n ↦ ground (arith, length-put_new (key_of f) (first_entry f now) t.entries n)
  | inr (e, s) ↦ ground (arith, length-put_old (key_of f) (counted_again now e) e t.entries s)
]

record_failure-tally :
    (f : Failure) (now : ℕ) (t : FailureTable)
    → tally t + 1 < word
    → tally (record_failure f now t) ≡ tally t + 1
unfolding record_failure tally
record_failure-tally f now t h = elim (Option-cases (find (key_of f) t.entries)) [
  | inl n ↦ ground (arith, total-put_new count_of (key_of f) (first_entry f now) t.entries n)
  | inr (e, s) ↦ ground (
    arith,
    total-put_old count_of (key_of f) (counted_again now e) e t.entries s,
    find-total-le (key_of f) t.entries e s,
  )
]

new_table-IsBounded : (limit : ℤ) → IsBounded (new_table limit)
unfolding new_table IsBounded
new_table-IsBounded (pos n) = ground arith
new_table-IsBounded (negsuc n) = ground arith

-- What the users of a node's table do to it.
pub data Use : Type 0 where
  record_use : Failure → ℕ → Use
  drain_use : Use

-- The samples that the drains return, and the table that is left.
unfoldable pub uses : List Use → FailureTable → List FailureSample × FailureTable
uses [] t = ([], t)
uses (record_use f now ∷ us) t = uses us (record_failure f now t)
uses (drain_use ∷ us) t =
    let (now, rest) = drain t in let (later, last) = uses us rest in (now ++ later, last)

abbrev pub records_among : List Use → ℕ
records_among [] = 0
records_among (record_use f now ∷ us) = 1 + records_among us
records_among (drain_use ∷ us) = records_among us

abbrev pub reported : List FailureSample → ℕ
reported [] = 0
reported (s ∷ ss) = s.count + reported ss

uses-drain :
    (us : List Use) (t : FailureTable)
    → uses (drain_use ∷ us) t ≡ ((drain t).0 ++ (uses us (drain t).1).0, (uses us (drain t).1).1)
unfolding uses
uses-drain us t = refl

drain-IsBounded : (t : FailureTable) → IsBounded t → IsBounded (drain t).1
unfolding drain IsBounded
drain-IsBounded t h = ground arith

IsBounded-uses : (us : List Use) (t : FailureTable) → IsBounded t → IsBounded (uses us t).1
unfolding uses
IsBounded-uses [] t h = h
IsBounded-uses (record_use f now ∷ us) t h =
    IsBounded-uses us (record_failure f now t) (record_failure-IsBounded f now t h)
IsBounded-uses (drain_use ∷ us) t h = IsBounded-uses us (drain t).1 (drain-IsBounded t h)

-- Any sequence of records and drains, from the start of a node's table, leaves no more kinds of
-- failure in it than its cap, and the cap is above 0 whatever limit the table was made with.
pub uses-IsBounded : (us : List Use) (limit : ℤ) → IsBounded (uses us (new_table limit)).1
uses-IsBounded us limit = IsBounded-uses us (new_table limit) (new_table-IsBounded limit)

reported-map :
    (m : List (FailureKey × FailureEntry)) → reported (map sample_of m) ≡ total count_of m
reported-map [] = refl
reported-map ((k, e) ∷ m) = ground (arith, reported-map m)

reported-append : (xs ys : List FailureSample) → reported (xs ++ ys) ≡ reported xs + reported ys
reported-append [] ys = omega arith
reported-append (x ∷ xs) ys = ground (arith, reported-append xs ys)

drain-tally : (t : FailureTable) → reported (drain t).0 + tally (drain t).1 ≡ tally t
unfolding drain tally
drain-tally t = ground (arith, reported-map t.entries)

-- No failure is lost: after any sequence of records and drains of a node's table, the counts in the
-- samples that the drains returned, the counts still in the table and the count of dropped failures
-- add up to what the table held at first and the number of records, if that number fits 64 bits.
pub uses-tally :
    (us : List Use) (t : FailureTable)
    → tally t + records_among us < word
    → reported (uses us t).0 + tally (uses us t).1 ≡ tally t + records_among us
unfolding uses
uses-tally [] t h = ground arith
uses-tally (record_use f now ∷ us) t h =
    ground (arith, record_failure-tally f now t, uses-tally us (record_failure f now t))
uses-tally (drain_use ∷ us) t h = ground (
  arith,
  drain-tally t,
  reported-append (drain t).0 (uses us (drain t).1).0,
  uses-tally us (drain t).1,
)
