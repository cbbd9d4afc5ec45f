-- ===== src/Coordinator/Thresholds/Verdicts.antt =====
-- What the verdicts of internal/coordinator/threshold.go say.
use Prim.Native.String.{String}
use mathlib.Core.List.{Memᴰ}
use load_wave.Prelude.{
  ℕ, ◌≡◌, ◌≢◌, ◌⊎◌, inl, inr, refl, sym, ap, true, false, ◌&&◌, Option, none, some, List, [], ◌∷◌,
  arith, Bool-cases, ◌==◌,
}
use load_wave.Coordinator.Thresholds.{
  Floats, Stat, Op, Threshold, ThresholdResult, SeriesSummary, percentiles_of, percentile,
  stat_value, compare, evaluate, is_breach, any_breached, abort_requested, observed, summarised,
}

module _ (F : Floats) where
  -- The store has observed the metric, and the summary carries the statistic.
  abbrev pub Measured :
      (String → Option (SeriesSummary F)) → Threshold F → SeriesSummary F → Floats.Float F → Type 0
  Measured aggregate t s v =
      (aggregate t.metric ≡ some s) × (s.count ≢ 0) × (stat_value F s t.stat ≡ some v)

  observed-some :
      (t : Threshold F) (o : Option (Floats.Float F))
      → (observed F t o).evaluated ≡ true
      → (v : Floats.Float F) × (o ≡ some v)
  observed-some t none e = cc
  observed-some t (some v) e = (v, refl)

  summarised-some :
      (t : Threshold F) (o : Option (SeriesSummary F))
      → (summarised F t o).evaluated ≡ true
      → (s : SeriesSummary F) × (v : Floats.Float F) × (o ≡ some s)
        × (s.count ≢ 0)
        × (stat_value F s t.stat ≡ some v)
  summarised-some t none e = cc
  summarised-some t (some s) e = elim (Bool-cases (s.count == 0)) [
    | inl z ↦ absurd (ground arith)
    | inr n ↦
        let (v, h) = observed-some t (stat_value F s t.stat) (rw n at e) in
        (s, v, refl, ground arith, h)
  ]

  -- A threshold is evaluated exactly when the metric was observed at least once and its summary
  -- has the statistic, and then the result carries that statistic, and has passed exactly when the
  -- comparison holds; otherwise it has not passed.
  pub evaluated_iff :
      (aggregate : String → Option (SeriesSummary F)) (t : Threshold F)
      → ((evaluate F aggregate t).evaluated ≡ true
          → (s : SeriesSummary F) × (v : Floats.Float F) × (aggregate t.metric ≡ some s)
            × (s.count ≢ 0)
            × (stat_value F s t.stat ≡ some v))
        × ((s : SeriesSummary F) (v : Floats.Float F)
            → aggregate t.metric ≡ some s
            → s.count ≢ 0
            → stat_value F s t.stat ≡ some v
            → ((evaluate F aggregate t).evaluated ≡ true)
              × ((evaluate F aggregate t).actual ≡ v)
              × ((evaluate F aggregate t).passed ≡ compare F v t.op t.value))
        × ((evaluate F aggregate t).evaluated ≡ false → (evaluate F aggregate t).passed ≡ false)
  unfolding evaluate
  evaluated_iff aggregate t = (
    summarised-some t (aggregate t.metric),
    λ s v e n h. (ground arith, ground arith, ground arith),
    λ e. ground arith,
  )

  -- A comparison that holds is between numbers: a statistic that is not a number fails every
  -- threshold.
  pub compare_nan :
      (v want : Floats.Float F) (op : Op) → F.is_nan v ≡ true → compare F v op want ≡ false
  unfolding compare
  compare_nan v want op h = rw h

  -- The store computes no percentile but the four that it reports.
  abbrev pub IsReported : SeriesSummary F → Type 0
  IsReported s =
      (s.percentiles ≡ []) ⊎ ((q : ℕ → Floats.Float F) × (s.percentiles ≡ percentiles_of F q))

  no_p999 : (s : SeriesSummary F) → IsReported s → stat_value F s Stat.p999 ≡ none
  unfolding stat_value percentile percentiles_of
  no_p999 s (inl e) = rw e
  no_p999 s (inr (q, e)) = rw e

  -- A threshold on the statistic p999 is never evaluated, whatever was observed, when every summary
  -- has the percentiles that the store reports.
  pub p999_unevaluated :
      (aggregate : String → Option (SeriesSummary F)) (t : Threshold F)
      → ((m : String) (s : SeriesSummary F) → aggregate m ≡ some s → IsReported s)
      → t.stat ≡ Stat.p999
      → ((evaluate F aggregate t).evaluated ≡ false)
        × (is_breach F (evaluate F aggregate t) ≡ false)
  p999_unevaluated aggregate t reported p =
      let not_evaluated : (evaluate F aggregate t).evaluated ≡ false =
        elim (Bool-cases ((evaluate F aggregate t).evaluated)) [
          | inl e ↦
              let (s, v, found, n, h) = (evaluated_iff aggregate t).0 e in
              cc (no_p999 s (reported t.metric s found), ap (stat_value F s) p)
          | inr e ↦ e
        ] in
      (not_evaluated, rw not_evaluated)

  abort_found :
      (rs : List (ThresholdResult F)) (r : ThresholdResult F)
      → abort_requested F rs ≡ some r
      → Memᴰ r rs × (is_breach F r ≡ true) × (r.abort_on_fail ≡ true) × (any_breached F rs ≡ true)
  unfolding any_breached abort_requested
  abort_found [] r e = cc
  abort_found (x ∷ rs) r e = elim (Bool-cases (is_breach F x && x.abort_on_fail)) [
    | inl b ↦
        let same : x ≡ r = cc (rw b at e) in
        (Memᴰ.head (sym same), ground arith, ground arith, ground arith)
    | inr b ↦
        let (m, p, q, some_breach) = abort_found rs r (rw b at e) in
        (Memᴰ.tail m, p, q, ground arith)
  ]

  abort_missed :
      (rs : List (ThresholdResult F)) (r : ThresholdResult F)
      → Memᴰ r rs
      → is_breach F r ≡ true
      → r.abort_on_fail ≡ true
      → abort_requested F rs ≢ none
  unfolding abort_requested
  abort_missed [] r m b a e = elim m [ ]
  abort_missed (x ∷ rs) r (Memᴰ.head same) b a e = ground (arith, same)
  abort_missed (x ∷ rs) r (Memᴰ.tail m) b a e = ground (arith, abort_missed rs r m b a)

  -- A requested abort comes from one of the results, which was evaluated, failed and asked for it,
  -- and then a breach is reported too; if some result was evaluated, failed and asked for it, an
  -- abort is requested.
  pub abort_requested_lem :
      (rs : List (ThresholdResult F))
      → ((r : ThresholdResult F)
          → abort_requested F rs ≡ some r
          → Memᴰ r rs
            × (is_breach F r ≡ true)
            × (r.abort_on_fail ≡ true)
            × (any_breached F rs ≡ true))
        × ((r : ThresholdResult F)
            → Memᴰ r rs
            → is_breach F r ≡ true
            → r.abort_on_fail ≡ true
            → abort_requested F rs ≢ none)
  abort_requested_lem rs = (abort_found rs, abort_missed rs)
