-- ===== src/Metrics/Store/Summary/Agree.antt =====
-- `Totals` against `Aggregate`, internal/metrics/store.go.
use Prim.Native.String.{String}
use text.Mathlib.Text.{◌==◌ as str_eq}
use text.Mathlib.TextEquality.{eq_iff}
use load_wave.Prelude.{
  ℕ, ◌≡◌, refl, ap, ◌∙◌, sym, Bool, Bool-cases, Option-cases, true, false, not, ◌&&◌, Option, none,
  some, inl, inr, List, [], ◌∷◌, if◌then◌else◌, ◌==◌, arith,
}
use load_wave.Prelude.Assoc.{string_eq, find, put, find-put}
use load_wave.Metrics.Aggregate.{Measures, is_gauge, Aggregate, max_of, AggMap}
use load_wave.Metrics.Bucket.{plus_64}
use load_wave.Metrics.Store.Summary.{
  Ratios, Total, nothing_of, series_of, averaged, aggregate_one, or_nothing, aggregate_from,
  aggregate_of, total_one, totals_from, closed_total, close_totals, totals,
}

module _ (M : Measures) (R : Ratios M) where
  -- The figures that the two have in common: not the kind, the minimum and the percentiles.
  pub record Figures : Type 0 where
    pub count : ℕ
    pub total : Measures.Float M
    pub greatest : Measures.Float M
    pub average : Measures.Float M
    pub rate : Measures.Float M

  abbrev pub figures : Total M R → Figures
  figures t = record {
    count = t.count;
    total = t.total;
    greatest = t.greatest;
    average = t.average;
    rate = t.rate;
  }

  abbrev pub figures? : Option (Total M R) → Option Figures
  figures? none = none
  figures? (some t) = some (figures t)

  -- Whether no series of a metric is a gauge.
  abbrev pub no_gauge : String → List (Aggregate M) → Bool
  no_gauge metric [] = true
  no_gauge metric (a ∷ xs) = not (str_eq a.metric metric && is_gauge a.kind) && no_gauge metric xs

  -- One series more, for figures.
  abbrev one_more : Aggregate M → Figures → Figures
  one_more a f = record {
    count = plus_64 f.count a.count;
    total = Measures.plus M f.total a.total;
    greatest = if Measures.lt_float M f.greatest (max_of M a) then max_of M a else f.greatest;
    average = f.average;
    rate = Measures.plus M f.rate (Ratios.of_count R a.non_zero);
  }

  abbrev figures_or : String → Option Figures → Figures
  figures_or metric none = figures (nothing_of M R metric)
  figures_or metric (some f) = f

  aggregate-figures :
      (a : Aggregate M) (metric : String) (o : Option (Total M R))
      → figures (aggregate_one M R a (or_nothing M R metric o))
        ≡ one_more a (figures_or metric (figures? o))
  aggregate-figures a metric none = refl
  aggregate-figures a metric (some t) = refl

  total-figures :
      (a : Aggregate M) (metric : String) (o : Option (Total M R))
      → is_gauge a.kind ≡ false
      → figures (total_one M R a o) ≡ one_more a (figures_or metric (figures? o))
  total-figures a metric none h = rw h
  total-figures a metric (some t) h = rw h

  same-figures :
      (a : Aggregate M) (metric : String) (o q : Option (Total M R))
      → is_gauge a.kind ≡ false
      → figures? o ≡ figures? q
      → figures (aggregate_one M R a (or_nothing M R metric o)) ≡ figures (total_one M R a q)
  same-figures a metric o q h e =
      aggregate-figures a metric o
      ∙ (ap (λ f. one_more a (figures_or metric f)) e ∙ sym (total-figures a metric q h))

  from-figures :
      (metric : String) (xs : List (Aggregate M)) (o : Option (Total M R))
      (ts : List (String × Total M R))
      → no_gauge metric xs ≡ true
      → figures? o ≡ figures? (find metric ts)
      → figures? (aggregate_from M R metric xs o) ≡ figures? (find metric (totals_from M R xs ts))
  unfolding aggregate_from totals_from
  from-figures metric [] o ts h e = e
  from-figures metric (a ∷ xs) o ts h e =
      let o' =
        if str_eq a.metric metric
        then some (aggregate_one M R a (or_nothing M R metric o))
        else o in
      let ts' = put a.metric (total_one M R a (find a.metric ts)) ts in
      from-figures metric xs o' ts' (ground (arith, h))
        (elim (Bool-cases (str_eq a.metric metric)) [
          | inr other ↦
              ground
                (arith, other, e, find-put a.metric metric (total_one M R a (find a.metric ts)) ts)
          | inl same ↦
              let k : a.metric ≡ metric = (eq_iff a.metric metric).0 same in
              let put_here = find-put a.metric metric (total_one M R a (find a.metric ts)) ts in
              let e' : figures? o ≡ figures? (find a.metric ts) =
                e ∙ ap (λ n. figures? (find n ts)) (sym k) in
              let now = same-figures a metric o (find a.metric ts) (ground (arith, same, h)) e' in
              let here : find metric ts' ≡ some (total_one M R a (find a.metric ts)) =
                rw same at put_here in
              rw (same, here) (ap some now)
        ])

  abbrev averaged_figures : Figures → Figures
  averaged_figures f = if f.count == 0 then f else record f {
    average = Ratios.over R f.total (Ratios.of_count R f.count);
    rate = Ratios.over R f.rate (Ratios.of_count R f.count);
  }

  averaged-figures : (t : Total M R) → figures (averaged M R t) ≡ averaged_figures (figures t)
  averaged-figures t = elim (Bool-cases (t.count == 0)) [
    | inl empty ↦ rw empty
    | inr full ↦ rw full
  ]

  closed-figures :
      (hists : List (String × Measures.Hist M)) (metric : String) (t : Total M R)
      → figures (closed_total M R hists metric t) ≡ averaged_figures (figures t)
  closed-figures hists metric t = elim (Option-cases (find metric hists)) [
    | inl n ↦ rw n (averaged-figures t)
    | inr (g, e) ↦ elim (Bool-cases (Measures.hist_count M g == 0)) [
      | inl empty ↦ rw (e, empty) (averaged-figures t)
      | inr full ↦ rw (e, full) (averaged-figures t)
    ]
  ]

  abbrev averaged? : Option Figures → Option Figures
  averaged? none = none
  averaged? (some f) = some (averaged_figures f)

  find-close :
      (metric : String) (hists : List (String × Measures.Hist M)) (ts : List (String × Total M R))
      → figures? (find metric (close_totals M R hists ts)) ≡ averaged? (figures? (find metric ts))
  unfolding close_totals
  find-close metric hists [] = refl
  find-close metric hists ((j, t) ∷ ts) = elim (Bool-cases (str_eq j metric)) [
    | inl same ↦ rw same (ap some (closed-figures hists j t))
    | inr other ↦ rw other (find-close metric hists ts)
  ]

  aggregate_of-figures :
      (metric : String) (scratch : Measures.Hist M) (m : AggMap M)
      → figures? (aggregate_of M R metric scratch m)
        ≡ averaged? (figures? (aggregate_from M R metric (series_of M R m.entries) none))
  unfolding aggregate_of
  aggregate_of-figures metric scratch m =
      elim (Option-cases (aggregate_from M R metric (series_of M R m.entries) none)) [
        | inl n ↦ rw (n, aggregate_of)
        | inr (t, e) ↦ rw (e, aggregate_of) (ap some (averaged-figures t))
      ]

  -- For a metric without a gauge among its series, `Totals` has a figure exactly if `Aggregate` finds
  -- one, and the two agree on the count, the sum, the maximum, the average and the rate, if both visit
  -- the series in one order.
  pub totals-aggregate_of :
      (metric : String) (scratch : Measures.Hist M) (m : AggMap M)
      → no_gauge metric (series_of M R m.entries) ≡ true
      → figures? (find metric (totals M R m)) ≡ figures? (aggregate_of M R metric scratch m)
  unfolding totals
  totals-aggregate_of metric scratch m h =
      find-close metric _ (totals_from M R (series_of M R m.entries) [])
      ∙ (ap averaged? (sym (from-figures metric (series_of M R m.entries) none [] h refl))
          ∙ sym (aggregate_of-figures metric scratch m))
