-- ===== src/Metrics/Aggregate/Tests.antt =====
-- Series and instances for internal/metrics/aggregate.go.
use load_wave.Prelude.{if◌then◌else◌, none, ℕ, ◌+◌, ◌≡◌, refl, some, [], ◌∷◌, ltb, ◌==◌}
use load_wave.Labels.{Labels, equal_labels}
use load_wave.Metrics.Aggregate.{
  Measures, counter, trend, Aggregate, new_aggregate, AggMap, no_series, find_series, ensure_series,
}
use load_wave.Metrics.Aggregate.Series.{find-series}

-- Numbers of milliseconds for floats, the number of values for a histogram.
abbrev pub millis : Measures
millis = record {
  Float = ℕ;
  Hist = ℕ;
  zero_float = 0;
  plus_inf = 1000000;
  minus_inf = 0;
  plus = λ a b. a + b;
  lt_float = ltb;
  is_zero = λ a. a == 0;
  is_plus_inf = λ a. a == 1000000;
  is_minus_inf = λ a. a == 0;
  new_hist = 0;
  record_value = λ v h. h + 1;
  merge_hist = λ g h. g + h;
  reset_hist = λ h. 0;
  hist_count = λ h. h;
  Snapshot = ℕ;
  encode = λ h. h;
  decode = λ n. if ltb n 1000 then some n else none;
}

-- Two label sets with one hash.
abbrev pub login : Labels
login = record { pairs = ("name", "/login") ∷ []; hash = 7 }

abbrev pub home : Labels
home = record { pairs = ("name", "/") ∷ []; hash = 7 }

abbrev collided : AggMap millis
collided = ensure_series millis "http_reqs" home counter (no_series millis)

collided_runs :
    find_series millis "http_reqs" login (ensure_series millis "http_reqs" login trend collided)
    ≡ some (new_aggregate millis "http_reqs" login trend)
unfolding find_series ensure_series equal_labels new_aggregate
collided_runs = refl

keeps_labels : (x : Aggregate millis) → (record x { total = 5 }).labels ≡ x.labels
keeps_labels x = refl

find-series_example :
    find_series millis "http_reqs" home (ensure_series millis "http_reqs" login trend collided)
    ≡ some (new_aggregate millis "http_reqs" home counter)
unfolding find_series ensure_series equal_labels new_aggregate
find-series_example =
    (find-series millis (λ x. record x { total = 5 }) "http_reqs" "http_reqs" login home trend
      collided keeps_labels).0
