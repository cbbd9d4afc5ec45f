-- ===== src/Metrics/Recorder.antt =====
-- What a node records and sends, internal/metrics/recorder.go. The shards' locks make each method one
-- step: `record` holds the lock of its shard, and what it does under it touches nothing that another
-- shard's `record` does but the set of series, which has a lock of its own.
mod Pow2
mod Steps
mod Flushing
mod Tally
mod Tests
use Prim.Native.Nat.{bit_and, bit_xor}
use Prim.Native.String.{String}
use load_wave.Prelude.{
  ℕ, zero, suc, ◌+◌, ◌-◌, ◌*◌, ◌/◌, ◌%◌, Bool, true, false, Option, none, some, List, [], ◌∷◌, ◌++◌,
  length, get_elem?, if◌then◌else◌, ltb, leb, ◌==◌, ℤ, pos, pos_part, leb_ℤ, ltb_ℤ, wrap, word,
}
use load_wave.Metrics.RecorderConfig.{RecorderConfig, apply_defaults}
use load_wave.Metrics.Delta.{SeriesDelta, encode_delta}
use load_wave.Labels.{Labels, Pairs, map_of_pairs}
use load_wave.Metrics.Failures.{
  FailureTable, FailureSample, Failure, new_table, record_failure, drain,
}
use load_wave.Metrics.Aggregate.{
  SeriesKey, key_beq, key_of, Measures, Kind, counter, gauge, rate, trend, is_trend, is_gauge,
  Aggregate, observe, merge_from, min_of, max_of, AggMap, no_series, find_series, ensure_series,
  change_series, reset_all,
}

pub record Recorder (M : Measures) : Type 0 where
  pub shards : List (AggMap M)
  pub mask : ℕ
  pub trend_mask : ℕ
  pub max_series : ℕ
  pub distinct : List SeriesKey
  pub rr : ℕ
  pub dropped : ℕ
  pub merged : AggMap M
  pub failures : FailureTable

abbrev pub has_key : SeriesKey → List SeriesKey → Bool
has_key key [] = false
has_key key (k ∷ ks) = if key_beq k key then true else has_key key ks

-- `admit`: whether a series fits, and the set of series after it.
unfoldable pub admit : SeriesKey → ℕ → List SeriesKey → Bool × List SeriesKey
admit key max_series distinct =
    if has_key key distinct
    then (true, distinct)
    else if leb max_series (length distinct)
    then (false, distinct)
    else (true, key ∷ distinct)

abbrev pub set_at {ℓ} : {A : Type ℓ} → ℕ → A → List A → List A
set_at i x [] = []
set_at zero x (y ∷ ys) = x ∷ ys
set_at (suc i) x (y ∷ ys) = y ∷ set_at i x ys

abbrev xor_shift : ℕ → ℕ
xor_shift x = bit_xor x (x / 8589934592)

-- `mixHash`
unfoldable pub mix_hash : ℕ → ℕ
mix_hash x =
    xor_shift (xor_shift (xor_shift x * 18397679294719823053 % word) * 14181476777654086739 % word)

module _ (M : Measures) where
  -- `make` of the shards.
  abbrev pub empty_shards : ℕ → List (AggMap M)
  empty_shards zero = []
  empty_shards (suc n) = no_series M ∷ empty_shards n

  abbrev of_config : RecorderConfig → Recorder M
  of_config c = record {
    shards = empty_shards (pos_part c.shards);
    mask = pos_part c.shards - 1;
    trend_mask = pos_part c.trend_shards - 1;
    max_series = pos_part c.max_series;
    distinct = [];
    rr = 0;
    dropped = 0;
    merged = no_series M;
    failures = new_table c.max_failure_kinds;
  }

  -- `NewRecorder`; with the defaults applied all numbers are above 0.
  unfoldable pub new_recorder : ℤ → RecorderConfig → Recorder M
  new_recorder processors config = of_config (apply_defaults processors config)

  abbrev pub observed_in :
      ℕ → AggMap M → String → Labels → Measures.Float M → Bool → Recorder M → Recorder M
  observed_in i s metric labels value truthy r = record r {
    shards = set_at i (change_series M metric labels (observe M value truthy) s) r.shards;
  }

  abbrev pub admitted :
      ℕ
      → AggMap M
      → Kind
      → String
      → Labels
      → Measures.Float M
      → Bool
      → Recorder M
      → Bool × List SeriesKey
      → Recorder M
  admitted i s kind metric labels value truthy r (true, distinct) =
      observed_in i (ensure_series M metric labels kind s) metric labels value truthy
        (record r { distinct = distinct })
  admitted i s kind metric labels value truthy r (false, distinct) = record r {
    dropped = (r.dropped + 1) % word;
  }

  abbrev pub recorded_in :
      ℕ
      → AggMap M
      → Kind
      → String
      → Labels
      → Measures.Float M
      → Bool
      → Recorder M
      → Option (Aggregate M)
      → Recorder M
  recorded_in i s kind metric labels value truthy r (some a) =
      observed_in i s metric labels value truthy r
  recorded_in i s kind metric labels value truthy r none =
      admitted i s kind metric labels value truthy r
        (admit (key_of metric labels) r.max_series r.distinct)

  abbrev pub shard_index : Kind → ℕ → Recorder M → ℕ
  shard_index kind hint r = bit_and hint (if is_trend kind then r.trend_mask else r.mask)

  -- `Recorder.record`; `none` is an index out of range.
  unfoldable pub record_value_in :
      Kind → String → Labels → Measures.Float M → Bool → ℕ → Recorder M → Option (Recorder M)
  record_value_in kind metric labels value truthy hint r =
      elim (get_elem? r.shards (shard_index kind hint r)) [
        | none ↦ none
        | some s ↦ some (
            recorded_in (shard_index kind hint r) s kind metric labels value truthy r
              (find_series M metric labels s))
      ]

  -- An observation, as `Count`, `Trend`, `Rate` and `Gauge` report it.
  pub data Observation : Type 0 where
    count trend_value gauge_value : String → Labels → Measures.Float M → Observation
    rate_value : String → Labels → Bool → Observation

  abbrev pub record_observation : Observation → ℕ → Recorder M → Option (Recorder M)
  record_observation (count metric labels delta) hint r =
      record_value_in counter metric labels delta false hint r
  record_observation (trend_value metric labels value) hint r =
      record_value_in trend metric labels value false hint r
  record_observation (rate_value metric labels truthy) hint r =
      record_value_in rate metric labels (Measures.zero_float M) truthy hint r
  record_observation (gauge_value metric labels value) hint r =
      record_value_in gauge metric labels value false hint r

  -- The methods of the view that `ForVU` returns, for the number of a virtual user as a uint64.
  unfoldable pub record_pinned : ℕ → Observation → Recorder M → Option (Recorder M)
  record_pinned vu o r = record_observation o (mix_hash vu) r

  -- The methods of the recorder itself.
  unfoldable pub record_shared : Observation → Recorder M → Option (Recorder M)
  record_shared o r = record_observation o ((r.rr + 1) % word) (record r { rr = (r.rr + 1) % word })

  -- `ReportFailure`
  unfoldable pub report_failure : Failure → ℕ → Recorder M → Recorder M
  report_failure f now r = record r { failures = record_failure f now r.failures }

  -- What `Flush` does with one aggregate of a shard.
  abbrev pub collect_one : Aggregate M → AggMap M → AggMap M
  collect_one a merged =
      if a.count == 0
      then merged
      else change_series M a.metric a.labels (merge_from M a)
          (ensure_series M a.metric a.labels a.kind merged)

  unfoldable pub collect_chain : List (Aggregate M) → AggMap M → AggMap M
  collect_chain [] merged = merged
  collect_chain (a ∷ chain) merged = collect_chain chain (collect_one a merged)

  unfoldable pub collect_entries : List (SeriesKey × List (Aggregate M)) → AggMap M → AggMap M
  collect_entries [] merged = merged
  collect_entries ((k, chain) ∷ es) merged = collect_entries es (collect_chain chain merged)

  unfoldable pub collect_shards : List (AggMap M) → AggMap M → AggMap M
  collect_shards [] merged = merged
  collect_shards (s ∷ shards) merged = collect_shards shards (collect_entries s.entries merged)

  abbrev pub reset_shards : List (AggMap M) → List (AggMap M)
  reset_shards [] = []
  reset_shards (s ∷ shards) = reset_all M s ∷ reset_shards shards

  unfoldable pub deltas_of_chain : List (Aggregate M) → List (SeriesDelta M)
  deltas_of_chain [] = []
  deltas_of_chain (a ∷ chain) =
      let rest = deltas_of_chain chain in if a.count == 0 then rest else encode_delta M a ∷ rest

  unfoldable pub deltas_of : List (SeriesKey × List (Aggregate M)) → List (SeriesDelta M)
  deltas_of [] = []
  deltas_of ((k, chain) ∷ es) = deltas_of_chain chain ++ deltas_of es

  -- `Flush`: the series, the count of dropped observations and the failures of the batch, and the
  -- recorder after it.
  pub record Batch : Type 0 where
    pub series : List (SeriesDelta M)
    pub dropped_samples : ℕ
    pub batch_failures : List FailureSample

  unfoldable pub flush : Recorder M → Batch × Recorder M
  flush r =
      let merged = collect_shards r.shards (reset_all M r.merged) in
      let (samples, failures) = drain r.failures in
      (
        record {
          series = deltas_of merged.entries;
          dropped_samples = r.dropped;
          batch_failures = samples;
        },
        record r { shards = reset_shards r.shards; merged = merged; failures = failures },
      )
