-- ===== src/Metrics/Store.antt =====
-- The metrics of a run, internal/metrics/store.go. Each method holds the store's lock throughout, so
-- each is one step. A time is a number of nanoseconds since 1970, `none` Go's zero time; maps are
-- visited in the order of their insertion. `time.Truncate` and the HDR histograms are parameters.
pub mod Closing
mod Summary
mod Late
mod Rollup
mod Tests
use Prim.Native.String.{String}
use load_wave.Prelude.{
  ℕ, zero, suc, ◌+◌, Bool, true, false, Option, none, some, List, [], ◌∷◌, if◌then◌else◌, ltb, ◌==◌,
  ℤ, pos, pos_part, ◌-ℤ◌, quot, leb_ℤ, ltb_ℤ, eqb_ℤ, eqb_ℤ_iff, word, ◌%◌, ◌++◌,
}
use load_wave.Prelude.Assoc.{Eq, string_eq, find, put, erase}
use load_wave.Labels.{Pairs, Labels, no_labels, labels_from_map}
use load_wave.Metrics.Failures.{FailureTable, FailureSample, new_table, ingest}
use load_wave.Metrics.Aggregate.{
  Measures, Kind, is_gauge, Aggregate, merge_from, AggMap, no_series, find_series, ensure_series,
  change_series,
}
use load_wave.Metrics.Delta.{SeriesDelta, decode_kind}
use load_wave.Metrics.Bucket.{
  Bucket, new_bucket, Point, PointKey, point_key_eq, merge_bucket, note_vus,
}
use load_wave.Metrics.Ring.{Ring, new_ring, push, retained}

instance abbrev pub index_eq : Eq ℤ
index_eq = record { beq = eqb_ℤ; beq_iff = eqb_ℤ_iff }

-- `StoreConfig`, less the histogram's configuration, which gives the parameters.
pub record StoreConfig : Type 0 where
  pub resolution : ℤ
  pub window : ℤ
  pub late_grace : ℤ
  pub max_series : ℤ
  pub max_charted_endpoints : ℤ
  pub max_failure_kinds : ℤ

abbrev or_default : ℤ → ℤ → ℤ
or_default n default = if leb_ℤ n (pos 0) then default else n

-- `StoreConfig.applyDefaults`
unfoldable pub apply_store_defaults : StoreConfig → StoreConfig
apply_store_defaults c = record {
  resolution = or_default c.resolution (pos 1000000000);
  window = or_default c.window (pos 3600000000000);
  late_grace = or_default c.late_grace (pos 3000000000);
  max_series = or_default c.max_series (pos 5000);
  max_charted_endpoints = or_default c.max_charted_endpoints (pos 40);
  max_failure_kinds = or_default c.max_failure_kinds (pos 100);
}

-- A batch that was rejected, and why.
pub data IngestError : Type 0 where
  no_bucket_start late_bucket : IngestError
  bad_histogram : String → IngestError

-- `bucketIndex` of a time, for a resolution.
abbrev pub index_of : ℤ → ℤ → ℤ
index_of resolution t = quot t resolution

-- The bookkeeping at the start of `Ingest`.
abbrev earlier : ℤ → Option ℤ → ℤ
earlier start none = start
earlier start (some t) = if ltb_ℤ start t then start else t

abbrev pub later : ℤ → Option ℤ → ℤ
later start none = start
later start (some t) = if ltb_ℤ t start then start else t

module _ (M : Measures) where
  -- `MetricBatch`
  pub record MetricBatch : Type 0 where
    pub node_id : String
    pub bucket_start : Option ℤ
    pub active_vus : ℕ
    pub dropped_samples : ℕ
    pub series : List (SeriesDelta M)
    pub failures : List FailureSample

  pub record Store : Type 0 where
    pub config : StoreConfig
    pub cumulative : AggMap M
    pub opened : List (ℤ × Bucket M)
    pub ring : Ring (Bucket M)
    pub started : Option ℤ
    pub last_seen : Option ℤ
    pub dropped_series : ℕ
    pub dropped_late : ℕ
    pub dropped_endpoints : ℕ
    pub node_dropped : List (String × ℕ)
    pub failures : FailureTable

  abbrev capacity_of : StoreConfig → ℕ
  capacity_of c = pos_part (quot c.window c.resolution)

  abbrev with_capacity : ℕ → StoreConfig → Store
  with_capacity capacity c = record {
    config = c;
    cumulative = no_series M;
    opened = [];
    ring = new_ring (if ltb capacity 1 then 1 else capacity) (new_bucket M (pos 0));
    started = none;
    last_seen = none;
    dropped_series = 0;
    dropped_late = 0;
    dropped_endpoints = 0;
    node_dropped = [];
    failures = new_table c.max_failure_kinds;
  }

  -- `NewStore`
  unfoldable pub new_store : StoreConfig → Store
  new_store c = with_capacity (capacity_of (apply_store_defaults c)) (apply_store_defaults c)

  abbrev is_known : Option (Aggregate M) → Bool
  is_known none = false
  is_known (some a) = true

  -- What `mergeCumulative` does with a series that it found or made.
  abbrev latest : Kind → Aggregate M → Aggregate M → Aggregate M
  latest kind incoming target =
      if is_gauge kind
      then record target { count = (target.count + 1) % word; last = incoming.last }
      else merge_from M incoming target

  -- `mergeCumulative`
  unfoldable pub merge_cumulative : String → Labels → Kind → Aggregate M → Store → Store
  merge_cumulative metric labels kind incoming s =
      if is_known (find_series M metric labels s.cumulative)
      then record s {
        cumulative = change_series M metric labels (latest kind incoming) s.cumulative;
      }
      else if leb_ℤ s.config.max_series (pos s.cumulative.size)
      then record s { dropped_series = (s.dropped_series + 1) % word }
      else record s {
        cumulative =
            change_series M metric labels (latest kind incoming)
              (ensure_series M metric labels kind s.cumulative);
      }

  abbrev incoming_of : SeriesDelta M → Option (Measures.Hist M) → Aggregate M
  incoming_of delta hist = record {
    metric = "";
    labels = no_labels;
    kind = decode_kind delta.kind;
    count = delta.count;
    total = delta.total;
    min_val = delta.least;
    max_val = delta.greatest;
    non_zero = delta.non_zero;
    last = delta.total;
    hist = hist;
  }

  abbrev pub decoded : Option (Measures.Snapshot M) → Option (Option (Measures.Hist M))
  decoded none = some none
  decoded (some snap) = elim (Measures.decode M snap) [ none ↦ none | some h ↦ some (some h) ]

  abbrev pub noted : MetricBatch → ℤ → Store → Store
  noted batch start s = record s {
    started = some (earlier start s.started);
    last_seen = some (later start s.last_seen);
    node_dropped =
        if batch.dropped_samples == 0
        then s.node_dropped
        else put batch.node_id batch.dropped_samples s.node_dropped;
  }

  -- `bucketFor`; `truncate` is `time.Truncate`.
  abbrev opened_or : (ℤ → ℤ → ℤ) → ℤ → ℤ → ℤ → Store → Option (Bucket M) → Option (Bucket M)
  opened_or truncate index start last s (some bucket) = some bucket
  opened_or truncate index start last s none =
      if ltb_ℤ index (index_of s.config.resolution (last -ℤ s.config.late_grace))
      then none
      else some (new_bucket M (truncate start s.config.resolution))

  unfoldable pub bucket_for : (ℤ → ℤ → ℤ) → ℤ → ℤ → Store → Option (Bucket M)
  bucket_for truncate index start s =
      opened_or truncate index start (later start s.last_seen) s (find index s.opened)

  module _ (hash_of : Pairs → ℕ) where
    abbrev pub add_series :
        SeriesDelta M → Option (Measures.Hist M) → Bucket M × Store → Bucket M × Store
    add_series delta hist (bucket, s) =
        let labels = labels_from_map hash_of delta.tags in
        let kind = decode_kind delta.kind in
        let incoming = incoming_of delta hist in
        let s' = merge_cumulative delta.metric labels kind incoming s in
        let (bucket', dropped) =
          merge_bucket M s.config.max_charted_endpoints delta.metric labels kind incoming hist
            bucket in
        (bucket', record s' { dropped_endpoints = (s'.dropped_endpoints + dropped) % word })

    -- The loop of `Ingest` over `ingestSeries`: what is left of the bucket and the store, and the
    -- error that ended it.
    unfoldable pub ingest_series :
        List (SeriesDelta M) → Bucket M × Store → (Bucket M × Store) × Option IngestError
    ingest_series [] p = (p, none)
    ingest_series (delta ∷ deltas) p = elim (decoded delta.histogram) [
      | none ↦ (p, some (bad_histogram delta.metric))
      | some hist ↦ ingest_series deltas (add_series delta hist p)
    ]

    abbrev filed :
        ℤ
        → List FailureSample
        → (Bucket M × Store) × Option IngestError
        → Store × Option IngestError
    filed index samples ((bucket, s), some e) =
        (record s { opened = put index bucket s.opened }, some e)
    filed index samples ((bucket, s), none) = (
      record s { opened = put index bucket s.opened; failures = ingest samples s.failures },
      none,
    )

    abbrev ingest_into : MetricBatch → ℤ → Store → Option (Bucket M) → Store × Option IngestError
    ingest_into batch index s none =
        (record s { dropped_late = (s.dropped_late + 1) % word }, some late_bucket)
    ingest_into batch index s (some bucket) =
        filed index batch.failures
          (ingest_series batch.series (note_vus M batch.node_id batch.active_vus bucket, s))

    abbrev ingest_at : (ℤ → ℤ → ℤ) → MetricBatch → ℤ → Store → Store × Option IngestError
    ingest_at truncate batch start s =
        let index = index_of s.config.resolution start in
        let s = noted batch start s in ingest_into batch index s (bucket_for truncate index start s)

    -- `Ingest`, for a batch that is there.
    unfoldable pub ingest_batch : (ℤ → ℤ → ℤ) → MetricBatch → Store → Store × Option IngestError
    ingest_batch truncate batch s = elim batch.bucket_start [
      | none ↦ (s, some no_bucket_start)
      | some start ↦ ingest_at truncate batch start s
    ]
