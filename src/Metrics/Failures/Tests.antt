-- ===== src/Metrics/Failures/Tests.antt =====
-- Failures and instances for internal/metrics/failures.go.
use load_wave.Prelude.{wrap_32, ◌+◌, ◌≡◌, refl, arith, some, List, [], ◌∷◌, pos}
use load_wave.Prelude.Assoc.{find}
use load_wave.Metrics.Failures.{
  failure_key_eq, Failure, FailureTable, FailureSample, key_of, new_table, record_failure,
  record_all, ingest,
}
use load_wave.Metrics.Failures.Counting.{
  IsBounded, Use, record_use, drain_use, uses, records_among, reported, tally, uses-tally,
}
use load_wave.Metrics.Failures.Kinds.{occurrences, last_time, record_all_tracked}
use load_wave.Metrics.Failures.Ingesting.{ingest-IsBounded}

abbrev not_found : Failure
not_found = record {
  name = "/item";
  method = "GET";
  status = pos 404;
  error_class = "";
  message = "no item";
}

abbrev timed_out : Failure
timed_out = record {
  name = "/cart";
  method = "PUT";
  status = pos 0;
  error_class = "timeout";
  message = "slow";
}

-- A table of one kind is full with `not_found`.
abbrev full : FailureTable
full = record {
  entries = (key_of not_found, record { message = ""; count = 2; last_seen = 5 }) ∷ [];
  limit = 1;
  dropped = 0;
}

abbrev sample : FailureSample
sample = record { key = key_of not_found; message = "gone"; count = 3; last_seen = 9 }

abbrev other_sample : FailureSample
other_sample = record { key = key_of timed_out; message = "slow"; count = 4; last_seen = 9 }

record_twice :
    record_all ((not_found, 1) ∷ (not_found, 2) ∷ (timed_out, 3) ∷ []) (new_table (pos 1))
    ≡ record {
      entries = (key_of not_found, record { message = "no item"; count = 2; last_seen = 2 }) ∷ [];
      limit = 1;
      dropped = 1;
    }
unfolding record_all record_failure new_table wrap_32
record_twice = refl

abbrev some_uses : List Use
some_uses =
    record_use not_found 1 ∷ drain_use ∷ record_use timed_out 2 ∷ record_use not_found 3 ∷ []

uses-tally_example :
    reported (uses some_uses full).0 + tally (uses some_uses full).1
    ≡ tally full + records_among some_uses
unfolding tally
uses-tally_example = uses-tally some_uses full (omega arith)

record_all_tracked_example :
    find (key_of not_found) (record_all ((timed_out, 6) ∷ (not_found, 7) ∷ []) full).entries
    ≡ some record { message = ""; count = 3; last_seen = 7 }
unfolding occurrences last_time wrap_32
record_all_tracked_example =
    record_all_tracked ((timed_out, 6) ∷ (not_found, 7) ∷ []) full (key_of not_found)
      (record { message = ""; count = 2; last_seen = 5 }) refl (omega arith)

ingest-IsBounded_example : IsBounded (ingest (other_sample ∷ sample ∷ []) full)
unfolding IsBounded
ingest-IsBounded_example =
    ingest-IsBounded (other_sample ∷ sample ∷ []) full (omega arith, omega arith)
