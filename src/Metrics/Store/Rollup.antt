-- ===== src/Metrics/Store/Rollup.antt =====
-- What a delta adds to a bucket, and what a batch with a bad histogram leaves, internal/metrics/store.go.
use Prim.Native.String.{String}
use text.Mathlib.Text.{◌==◌ as str_eq}
use text.Mathlib.TextEquality.{eq_iff}
use load_wave.Prelude.{
  ℕ, ◌≡◌, refl, ap, ◌∙◌, Option-cases, ◌&&◌, ◌||◌, Option, none, some, inl, inr, List, [], ◌∷◌,
  ◌++◌, if◌then◌else◌, ℤ, arith,
}
use load_wave.Prelude.Assoc.{string_eq, find, find-put}
use load_wave.Labels.{Pairs, Labels, get_label}
use load_wave.Metrics.Aggregate.{Measures, Kind, Aggregate}
use load_wave.Metrics.Delta.{SeriesDelta}
use load_wave.Metrics.Bucket.{
  PointKey, point_key_eq, point_key_beq_iff, plus_64, or_else, Point, Bucket, no_point,
  add_to_point, add_to_bucket, add_to_both, count_status, chart_name, add_endpoint_point,
  merge_bucket, label_scenario, label_name, label_status,
}
use load_wave.Metrics.Store.{Store, bad_histogram, decoded, add_series, ingest_series}

module _ (M : Measures) where
  abbrev pub point_count : PointKey → Bucket M → ℕ
  point_count key b = (or_else (no_point M) (find key b.points)).count

  add_to_point-count :
      (kind : Kind) (incoming : Aggregate M) (p : Point M)
      → (add_to_point M kind incoming p).count ≡ plus_64 p.count incoming.count
  unfolding add_to_point
  add_to_point-count kind incoming p = ground arith

  add_to_bucket-count :
      (k key : PointKey) (kind : Kind) (incoming : Aggregate M) (hist : Option (Measures.Hist M))
      (b : Bucket M)
      → point_count k (add_to_bucket M key kind incoming hist b) ≡ (
          if point_key_eq.beq key k
          then plus_64 (point_count k b) incoming.count
          else point_count k b)
  unfolding add_to_bucket
  add_to_bucket-count k key kind incoming hist b =
      let old = or_else (no_point M) (find key b.points) in
      ground (
        arith,
        point_key_beq_iff key k,
        find-put key k (add_to_point M kind incoming old) b.points,
        add_to_point-count kind incoming old,
      )

  count_status-points :
      (metric : String) (incoming : Aggregate M) (o : Option String) (b : Bucket M)
      → (count_status M metric incoming o b).points ≡ b.points
  count_status-points metric incoming none b = refl
  count_status-points metric incoming (some status) b = ground arith

  chart_name-points :
      (top : ℤ) (metric : String) (incoming : Aggregate M) (o : Option String) (b : Bucket M)
      → (chart_name M top metric incoming o b).0.points ≡ b.points
  unfolding add_endpoint_point
  chart_name-points top metric incoming none b = refl
  chart_name-points top metric incoming (some name) b =
      elim (Option-cases (find name b.endpoints)) [
        | inl n ↦ ground (arith, n)
        | inr (p, e) ↦ ground (arith, e)
      ]

  abbrev key_at : String → String → PointKey
  key_at metric scenario = record { metric = metric; scenario = scenario }

  add_to_both-count :
      (metric scenario : String) (kind : Kind) (incoming : Aggregate M)
      (hist : Option (Measures.Hist M)) (k : PointKey) (b : Bucket M)
      → point_count k (add_to_both M metric scenario kind incoming hist b) ≡ (
          if str_eq metric k.metric && (str_eq scenario k.scenario || str_eq "" k.scenario)
          then plus_64 (point_count k b) incoming.count
          else point_count k b)
  unfolding add_to_both
  add_to_both-count metric scenario kind incoming hist k b =
      let one = add_to_bucket M (key_at metric scenario) kind incoming hist b in
      ground (
        arith,
        eq_iff scenario "",
        eq_iff scenario k.scenario,
        eq_iff "" k.scenario,
        add_to_bucket-count k (key_at metric scenario) kind incoming hist b,
        add_to_bucket-count k (key_at metric "") kind incoming hist one,
      )

  -- A delta is counted once at its metric and scenario and once at the metric's rollup over all
  -- scenarios, whose scenario is empty, and once in all if it has no scenario of its own; no other
  -- point's count changes.
  pub merge_bucket-count :
      (top : ℤ) (metric : String) (labels : Labels) (kind : Kind) (incoming : Aggregate M)
      (hist : Option (Measures.Hist M)) (k : PointKey) (b : Bucket M)
      → point_count k (merge_bucket M top metric labels kind incoming hist b).0 ≡ (
          if str_eq metric k.metric
            && (str_eq (or_else "" (get_label label_scenario labels)) k.scenario
                || str_eq "" k.scenario)
          then plus_64 (point_count k b) incoming.count
          else point_count k b)
  unfolding merge_bucket
  merge_bucket-count top metric labels kind incoming hist k b =
      let scenario = or_else "" (get_label label_scenario labels) in
      let both = add_to_both M metric scenario kind incoming hist b in
      let status = get_label label_status labels in
      ap (λ points. (or_else (no_point M) (find k points)).count)
        (chart_name-points top metric incoming (get_label label_name labels)
            (count_status M metric incoming status both)
          ∙ count_status-points metric incoming status both)
      ∙ add_to_both-count metric scenario kind incoming hist k b

  -- When the histogram of a series cannot be decoded, after series that all could be, the loop of
  -- `Ingest` ends with an error that names its metric; what the series before it did to the bucket and
  -- the store stays, and those after it do nothing.
  pub ingest_series-prefix :
      (hash_of : Pairs → ℕ) (before : List (SeriesDelta M)) (bad : SeriesDelta M)
      (after : List (SeriesDelta M)) (p : Bucket M × Store M)
      → (ingest_series M hash_of before p).1 ≡ none
      → decoded M bad.histogram ≡ none
      → ingest_series M hash_of (before ++ (bad ∷ after)) p
        ≡ ((ingest_series M hash_of before p).0, some (bad_histogram bad.metric))
  unfolding ingest_series
  ingest_series-prefix hash_of [] bad after p fine broken = ground (arith, broken)
  ingest_series-prefix hash_of (d ∷ before) bad after p fine broken =
      elim (Option-cases (decoded M d.histogram)) [
        | inl n ↦ ground (arith, n, fine)
        | inr (hist, e) ↦ ground (
          arith,
          e,
          fine,
          ingest_series-prefix hash_of before bad after (add_series M hash_of d hist p),
        )
      ]
