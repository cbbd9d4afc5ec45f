-- ===== src/Metrics/Store/Tests.antt =====
-- Stores and instances for internal/metrics/store.go.
use load_wave.Prelude.{
  ◌/◌, ℕ, ◌≡◌, refl, Option, none, some, [], ◌∷◌, length, ℤ, pos, quot, ◌*ℤ◌, arith,
}
use load_wave.Prelude.Assoc.{string_eq, find}
use load_wave.Labels.{Pairs, Labels}
use load_wave.Metrics.Failures.{new_table}
use load_wave.Metrics.Aggregate.{AggMap, key_of, counter, Aggregate, new_aggregate, no_series}
use load_wave.Metrics.Aggregate.Tests.{millis, login}
use load_wave.Metrics.Delta.{SeriesDelta, trend_kind}
use load_wave.Metrics.Bucket.{new_bucket}
use load_wave.Metrics.Ring.{new_ring}
use load_wave.Metrics.Ring.Refine.{new_ring-IsRing}
use load_wave.Metrics.Store.{index_eq, StoreConfig, Store, bucket_for}
use load_wave.Metrics.Store.Closing.{close_stale}
use load_wave.Metrics.Store.Summary.{Ratios}
use load_wave.Metrics.Store.Late.{close_stale_lem, bucket_for_reopens}

abbrev seconds : StoreConfig
seconds = record {
  resolution = pos 1000;
  window = pos 2000;
  late_grace = pos 3000;
  max_series = pos 10;
  max_charted_endpoints = pos 10;
  max_failure_kinds = pos 10;
}

-- Two open buckets, of which the nodes have reported nothing later.
abbrev stalled : Store millis
stalled = record {
  config = seconds;
  cumulative = no_series millis;
  opened = (pos 6, new_bucket millis (pos 6000)) ∷ (pos 5, new_bucket millis (pos 5000)) ∷ [];
  ring = new_ring 2 (new_bucket millis (pos 0));
  started = some (pos 5000);
  last_seen = some (pos 6000);
  dropped_series = 0;
  dropped_late = 0;
  dropped_endpoints = 0;
  node_dropped = [];
  failures = new_table (pos 10);
}

abbrev truncated : ℤ → ℤ → ℤ
truncated t d = quot t d *ℤ d

close_stale_lem_example : find (pos 5) (close_stale millis (pos 9000) stalled).opened ≡ none
close_stale_lem_example =
    (close_stale_lem millis (pos 9000) stalled
        (new_ring-IsRing 2 (new_bucket millis (pos 0)) (omega arith))).1
      (pos 5)

bucket_for_reopens_example :
    bucket_for millis truncated (pos 5) (pos 5500) (close_stale millis (pos 9000) stalled)
    ≡ some (new_bucket millis (pos 5000))
bucket_for_reopens_example =
    bucket_for_reopens millis truncated (pos 9000) (pos 5500) stalled refl refl

abbrev labelled : Labels
labelled = record {
  pairs = ("name", "/login") ∷ ("scenario", "browse") ∷ ("status", "200") ∷ [];
  hash = 1;
}

abbrev three : Aggregate millis
three = record (new_aggregate millis "" login counter) { count = 3 }

abbrev delta : Option ℕ → SeriesDelta millis
delta histogram = record {
  metric = "http_req_duration";
  kind = trend_kind;
  tags = ("name", "/login") ∷ [];
  count = 2;
  total = 30;
  least = 10;
  greatest = 20;
  non_zero = 0;
  histogram = histogram;
}

abbrev pair_count : Pairs → ℕ
pair_count ps = length ps

abbrev quotients : Ratios millis
quotients = record { of_count = λ n. n; over = λ a b. a / b }

-- Two series of one metric, and one of another.
abbrev counted : AggMap millis
counted = record {
  entries =
      (
        key_of "http_reqs" login,
        record three { metric = "http_reqs" } ∷ record three { metric = "vus"; count = 4 } ∷ [],
      )
      ∷ (
        key_of "http_reqs" labelled,
        record three { metric = "http_reqs"; count = 5; total = 10 } ∷ [],
      )
      ∷ [];
  size = 3;
}
