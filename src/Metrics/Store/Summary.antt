-- ===== src/Metrics/Store/Summary.antt =====
-- The whole-run figures of internal/metrics/store.go: `Aggregate`, which thresholds read, `Totals` and
-- `Stats`. Both sums visit the series in the order of the maps, and percentiles stand for the
-- histogram that they are read from.
pub mod Agree
use Prim.Native.String.{String}
use text.Mathlib.Text.{◌==◌ as str_eq}
use load_wave.Prelude.{
  ℕ, ◌+◌, ◌%◌, Bool, true, false, not, ◌&&◌, ◌||◌, Option, none, some, List, [], ◌∷◌, ◌++◌, length,
  if◌then◌else◌, ◌==◌, ltb, ℤ, word, map,
}
use load_wave.Prelude.Assoc.{string_eq, find, put}
use load_wave.Metrics.Aggregate.{
  Measures, Kind, is_gauge, Aggregate, min_of, max_of, SeriesKey, AggMap,
}
use load_wave.Metrics.Bucket.{plus_64}
use load_wave.Metrics.Store.{Store}

-- Conversion of counts to floats and their division, of which no law is assumed.
pub record Ratios (M : Measures) : Type 0 where
  pub of_count : ℕ → Measures.Float M
  pub over : Measures.Float M → Measures.Float M → Measures.Float M

module _ (M : Measures) (R : Ratios M) where
  -- `SeriesSummary`, less its tags, which neither sum sets
  pub record Total : Type 0 where
    pub metric : String
    pub kind : Option Kind
    pub count : ℕ
    pub total : Measures.Float M
    pub least : Measures.Float M
    pub greatest : Measures.Float M
    pub average : Measures.Float M
    pub rate : Measures.Float M
    pub percentiles : Option (Measures.Hist M)

  abbrev pub nothing_of : String → Total
  nothing_of metric = record {
    metric = metric;
    kind = none;
    count = 0;
    total = Measures.zero_float M;
    least = Measures.zero_float M;
    greatest = Measures.zero_float M;
    average = Measures.zero_float M;
    rate = Measures.zero_float M;
    percentiles = none;
  }

  -- `each`
  abbrev pub series_of : List (SeriesKey × List (Aggregate M)) → List (Aggregate M)
  series_of [] = []
  series_of ((k, chain) ∷ es) = chain ++ series_of es

  -- The division at the end of both.
  abbrev pub averaged : Total → Total
  averaged t = if t.count == 0 then t else record t {
    average = Ratios.over R t.total (Ratios.of_count R t.count);
    rate = Ratios.over R t.rate (Ratios.of_count R t.count);
  }

  -- What `Aggregate` adds of one series; the histograms are merged beside it.
  abbrev pub aggregate_one : Aggregate M → Total → Total
  aggregate_one a t = record t {
    kind = some a.kind;
    count = plus_64 t.count a.count;
    total = Measures.plus M t.total a.total;
    rate = Measures.plus M t.rate (Ratios.of_count R a.non_zero);
    least =
        if Measures.is_zero M t.least
          || (not (a.count == 0) && Measures.lt_float M (min_of M a) t.least)
        then min_of M a
        else t.least;
    greatest = if Measures.lt_float M t.greatest (max_of M a) then max_of M a else t.greatest;
  }

  abbrev pub or_nothing : String → Option Total → Total
  or_nothing metric none = nothing_of metric
  or_nothing metric (some t) = t

  -- The visit of `Aggregate`; `none` until a series of the metric is found.
  unfoldable pub aggregate_from : String → List (Aggregate M) → Option Total → Option Total
  aggregate_from metric [] t = t
  aggregate_from metric (a ∷ xs) t =
      aggregate_from metric xs
        (if str_eq a.metric metric then some (aggregate_one a (or_nothing metric t)) else t)

  abbrev merge_into : Measures.Hist M → Option (Measures.Hist M) → Measures.Hist M
  merge_into scratch none = scratch
  merge_into scratch (some h) = Measures.merge_hist M scratch h

  unfoldable pub scratch_from : String → List (Aggregate M) → Measures.Hist M → Measures.Hist M
  scratch_from metric [] scratch = scratch
  scratch_from metric (a ∷ xs) scratch =
      scratch_from metric xs (if str_eq a.metric metric then merge_into scratch a.hist else scratch)

  abbrev counted_hist : Measures.Hist M → Option (Measures.Hist M)
  counted_hist h = if Measures.hist_count M h == 0 then none else some h

  -- `Aggregate`, with the scratch histogram as it was before it is reset.
  unfoldable pub aggregate_of : String → Measures.Hist M → AggMap M → Option Total
  aggregate_of metric scratch m = elim (aggregate_from metric (series_of m.entries) none) [
    | none ↦ none
    | some t ↦ some (record (averaged t) {
      percentiles =
          counted_hist (scratch_from metric (series_of m.entries) (Measures.reset_hist M scratch));
    })
  ]

  -- What `Totals` adds of one series to the total of its metric.
  abbrev first_total : Aggregate M → Total
  first_total a = record (nothing_of a.metric) { kind = some a.kind; least = min_of M a }

  abbrev pub add_total : Aggregate M → Bool → Total → Total
  add_total a seen t = record t {
    count = plus_64 t.count a.count;
    total = Measures.plus M t.total (if is_gauge a.kind then a.last else a.total);
    rate = Measures.plus M t.rate (Ratios.of_count R a.non_zero);
    least =
        if not (a.count == 0) && (not seen || Measures.lt_float M (min_of M a) t.least)
        then min_of M a
        else t.least;
    greatest = if Measures.lt_float M t.greatest (max_of M a) then max_of M a else t.greatest;
  }

  abbrev pub total_one : Aggregate M → Option Total → Total
  total_one a none = add_total a false (first_total a)
  total_one a (some t) = add_total a true t

  unfoldable pub totals_from : List (Aggregate M) → List (String × Total) → List (String × Total)
  totals_from [] totals = totals
  totals_from (a ∷ xs) totals =
      totals_from xs (put a.metric (total_one a (find a.metric totals)) totals)

  abbrev merged_hist :
      String
      → Measures.Hist M
      → List (String × Measures.Hist M)
      → Option (Measures.Hist M)
      → List (String × Measures.Hist M)
  merged_hist metric h hists none = put metric (Measures.merge_hist M (Measures.new_hist M) h) hists
  merged_hist metric h hists (some g) = put metric (Measures.merge_hist M g h) hists

  abbrev with_hist :
      String
      → Option (Measures.Hist M)
      → List (String × Measures.Hist M)
      → List (String × Measures.Hist M)
  with_hist metric none hists = hists
  with_hist metric (some h) hists =
      if Measures.hist_count M h == 0 then hists else merged_hist metric h hists (find metric hists)

  unfoldable pub hists_from :
      List (Aggregate M) → List (String × Measures.Hist M) → List (String × Measures.Hist M)
  hists_from [] hists = hists
  hists_from (a ∷ xs) hists = hists_from xs (with_hist a.metric a.hist hists)

  abbrev with_percentiles : Option (Measures.Hist M) → Total → Total
  with_percentiles none t = t
  with_percentiles (some h) t =
      if Measures.hist_count M h == 0 then t else record t { percentiles = some h }

  abbrev pub closed_total : List (String × Measures.Hist M) → String → Total → Total
  closed_total hists metric t = with_percentiles (find metric hists) (averaged t)

  unfoldable pub close_totals :
      List (String × Measures.Hist M) → List (String × Total) → List (String × Total)
  close_totals hists [] = []
  close_totals hists ((metric, t) ∷ totals) =
      (metric, closed_total hists metric t) ∷ close_totals hists totals

  -- `Totals`
  unfoldable pub totals : AggMap M → List (String × Total)
  totals m =
      close_totals (hists_from (series_of m.entries) []) (totals_from (series_of m.entries) [])

-- `Stats`
pub record Stats : Type 0 where
  pub series : ℕ
  pub closed_buckets : ℕ
  pub open_buckets : ℕ
  pub dropped_series : ℕ
  pub dropped_late : ℕ
  pub dropped_by_node : ℕ
  pub dropped_endpoints : ℕ
  pub dropped_failures : ℕ
  pub started : Option ℤ
  pub last_seen : Option ℤ

abbrev dropped_of : List (String × ℕ) → ℕ
dropped_of [] = 0
dropped_of ((node, n) ∷ m) = n + dropped_of m

unfoldable pub stats : (M : Measures) → Store M → Stats
stats M s = record {
  series = s.cumulative.size;
  closed_buckets = s.ring.closed_n;
  open_buckets = length s.opened;
  dropped_series = s.dropped_series;
  dropped_late = s.dropped_late;
  dropped_by_node = dropped_of s.node_dropped % word;
  dropped_endpoints = s.dropped_endpoints;
  dropped_failures = s.failures.dropped;
  started = s.started;
  last_seen = s.last_seen;
}
