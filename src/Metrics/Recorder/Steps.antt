-- ===== src/Metrics/Recorder/Steps.antt =====
-- What one observation and one flush move, internal/metrics/recorder.go.
use Prim.Native.Nat.{◌/◌, min, bit_and, digits, bit_and-bitwise}
use Prim.Native.String.{String}
use load_wave.Prelude.{
  ℕ, zero, suc, ◌+◌, ◌%◌, ◌≤◌, ◌<◌, ◌≡◌, refl, Bool, true, false, Option, Option-cases, none, some,
  inl, inr, List, [], ◌∷◌, length, get_elem?, if◌then◌else◌, arith, word,
}
use load_wave.Labels.{Labels}
use load_wave.Metrics.Aggregate.{
  SeriesKey, Measures, Kind, is_trend, Aggregate, new_aggregate, observe, merge_from, key_of,
  AggMap, find_series, ensure_series, change_series,
}
use load_wave.Metrics.Aggregate.Series.{find-ensure}
use load_wave.Metrics.Aggregate.Counts.{
  map_count, map_count-ensure, map_count-change, find_series-le,
}
use load_wave.Metrics.Recorder.{
  Recorder, admit, shard_index, record_value_in, set_at, observed_in, admitted, recorded_in,
}

digits-le : (n a b : ℕ) → digits (λ b. zero) min n a b ≤ b
digits-le zero a b = omega arith
digits-le (suc n) zero b = omega arith
digits-le (suc n) (suc a) b = omega (arith, digits-le n (suc a / 2) (b / 2))

bit_and-le : (a b : ℕ) → bit_and a b ≤ b
bit_and-le a b = omega (arith, bit_and-bitwise a b, digits-le a a b)

module _ (M : Measures) where
  abbrev pub shard_count : List (AggMap M) → ℕ
  shard_count [] = 0
  shard_count (s ∷ shards) = map_count M s + shard_count shards

  shard_count-set_at :
      (i : ℕ) (s t : AggMap M) (shards : List (AggMap M))
      → get_elem? shards i ≡ some s
      → shard_count (set_at i t shards) + map_count M s ≡ shard_count shards + map_count M t
  shard_count-set_at i s t [] h = cc
  shard_count-set_at zero s t (u ∷ shards) h = ground (arith, h)
  shard_count-set_at (suc i) s t (u ∷ shards) h = ground (arith, h, shard_count-set_at i s t shards)

  shard_le :
      (i : ℕ) (s : AggMap M) (shards : List (AggMap M))
      → get_elem? shards i ≡ some s
      → map_count M s ≤ shard_count shards
  shard_le i s [] h = cc
  shard_le zero s (u ∷ shards) h = ground (arith, h)
  shard_le (suc i) s (u ∷ shards) h = ground (arith, h, shard_le i s shards)

  length-set_at :
      (i : ℕ) (t : AggMap M) (shards : List (AggMap M)) → length (set_at i t shards) ≡ length shards
  length-set_at i t [] = refl
  length-set_at zero t (u ∷ shards) = refl
  length-set_at (suc i) t (u ∷ shards) = ground (arith, length-set_at i t shards)

  get_elem?-in :
      (i : ℕ) (shards : List (AggMap M))
      → i < length shards
      → (s : AggMap M) × (get_elem? shards i ≡ some s)
  get_elem?-in i [] h = absurd (omega arith)
  get_elem?-in zero (u ∷ shards) h = (u, refl)
  get_elem?-in (suc i) (u ∷ shards) h = get_elem?-in i shards (omega arith)

  observe-count :
      (value : Measures.Float M) (truthy : Bool) (a : Aggregate M)
      → (observe M value truthy a).count ≡ (a.count + 1) % word
  unfolding observe
  observe-count value truthy a = ground arith

  merge_from-count :
      (a b : Aggregate M) → b.count + a.count < word → (merge_from M a b).count ≡ b.count + a.count
  unfolding merge_from
  merge_from-count a b h = ground arith

  -- An observation of a series that is there.
  map_count-observe :
      (metric : String) (labels : Labels) (value : Measures.Float M) (truthy : Bool)
      (a : Aggregate M) (m : AggMap M)
      → find_series M metric labels m ≡ some a
      → map_count M m + 1 < word
      → map_count M (change_series M metric labels (observe M value truthy) m) ≡ map_count M m + 1
  map_count-observe metric labels value truthy a m e h =
      map_count-change M metric labels (observe M value truthy) a 1 m e
        (omega (arith, observe-count value truthy a, find_series-le M metric labels a m e))

  -- A series that was asked for is there.
  pub ensured :
      (metric : String) (labels : Labels) (kind : Kind) (m : AggMap M)
      → (a : Aggregate M) × (find_series M metric labels (ensure_series M metric labels kind m)
          ≡ some a)
  ensured metric labels kind m = elim (Option-cases (find_series M metric labels m)) [
    | inl n ↦
        (new_aggregate M metric labels kind, ground (arith, n, find-ensure M metric labels kind m))
    | inr (a, e) ↦ (a, ground (arith, e, find-ensure M metric labels kind m))
  ]

  -- What a recorder has taken in since its last flush, and what it refused.
  abbrev pub held : Recorder M → ℕ
  held r = shard_count r.shards + r.dropped

  observed_in-held :
      (i : ℕ) (s t : AggMap M) (metric : String) (labels : Labels) (value : Measures.Float M)
      (truthy : Bool) (a : Aggregate M) (r : Recorder M)
      → get_elem? r.shards i ≡ some s
      → map_count M t ≡ map_count M s
      → find_series M metric labels t ≡ some a
      → held r + 1 < word
      → held (observed_in M i t metric labels value truthy r) ≡ held r + 1
  observed_in-held i s t metric labels value truthy a r g same e h = omega (
    arith,
    shard_le i s r.shards g,
    map_count-observe metric labels value truthy a t e (omega (arith, shard_le i s r.shards g)),
    shard_count-set_at i s (change_series M metric labels (observe M value truthy) t) r.shards g,
  )

  -- Every shard that a hint can choose is there, and the set of series is within its cap.
  unfoldable pub IsSized : Recorder M → Type 0
  IsSized r =
      (r.mask < length r.shards)
      × (r.trend_mask < length r.shards)
      × (length r.distinct ≤ r.max_series)

  observed_in-IsSized :
      (i : ℕ) (t : AggMap M) (metric : String) (labels : Labels) (value : Measures.Float M)
      (truthy : Bool) (r : Recorder M)
      → IsSized r
      → IsSized (observed_in M i t metric labels value truthy r)
  unfolding IsSized
  observed_in-IsSized i t metric labels value truthy r h = ground (
    arith,
    h,
    length-set_at i (change_series M metric labels (observe M value truthy) t) r.shards,
  )

  admit-length :
      (key : SeriesKey) (top : ℕ) (distinct : List SeriesKey)
      → length distinct ≤ top
      → length (admit key top distinct).1 ≤ top
  unfolding admit
  admit-length key top distinct h = ground arith

  admitted-held :
      (i : ℕ) (s : AggMap M) (kind : Kind) (metric : String) (labels : Labels)
      (value : Measures.Float M) (truthy : Bool) (r : Recorder M) (p : Bool × List SeriesKey)
      → get_elem? r.shards i ≡ some s
      → IsSized r
      → length p.1 ≤ r.max_series
      → held r + 1 < word
      → (held (admitted M i s kind metric labels value truthy r p) ≡ held r + 1)
        × IsSized (admitted M i s kind metric labels value truthy r p)
  unfolding IsSized
  admitted-held i s kind metric labels value truthy r (false, distinct) g sized fits h =
      (ground arith, sized)
  admitted-held i s kind metric labels value truthy r (true, distinct) g sized fits h =
      let (a, e) = ensured metric labels kind s in
      let s' = ensure_series M metric labels kind s in
      let r' = record r { distinct = distinct } in
      (
        observed_in-held i s s' metric labels value truthy a r' g
            (map_count-ensure M metric labels kind s) e h,
        observed_in-IsSized i s' metric labels value truthy r' (sized.0, sized.1, fits),
      )

  -- An observation is taken in or refused, and counted once.
  recorded_in-held :
      (i : ℕ) (s : AggMap M) (kind : Kind) (metric : String) (labels : Labels)
      (value : Measures.Float M) (truthy : Bool) (r : Recorder M) (o : Option (Aggregate M))
      → find_series M metric labels s ≡ o
      → get_elem? r.shards i ≡ some s
      → IsSized r
      → held r + 1 < word
      → (held (recorded_in M i s kind metric labels value truthy r o) ≡ held r + 1)
        × IsSized (recorded_in M i s kind metric labels value truthy r o)
  unfolding IsSized
  recorded_in-held i s kind metric labels value truthy r (some a) e g sized h = (
    observed_in-held i s s metric labels value truthy a r g refl e h,
    observed_in-IsSized i s metric labels value truthy r sized,
  )
  recorded_in-held i s kind metric labels value truthy r none e g sized h =
      admitted-held i s kind metric labels value truthy r
        (admit (key_of metric labels) r.max_series r.distinct) g sized
        (admit-length (key_of metric labels) r.max_series r.distinct sized.2) h

  -- Recording does not run out of the shards, and counts one observation as held.
  pub record_value_in-held :
      (kind : Kind) (metric : String) (labels : Labels) (value : Measures.Float M) (truthy : Bool)
      (hint : ℕ) (r : Recorder M)
      → IsSized r
      → held r + 1 < word
      → (r' : Recorder M) × (record_value_in M kind metric labels value truthy hint r ≡ some r')
        × (held r' ≡ held r + 1)
        × IsSized r'
  unfolding IsSized record_value_in
  record_value_in-held kind metric labels value truthy hint r sized h =
      let i = shard_index M kind hint r in
      let (s, g) =
        get_elem?-in i r.shards (
          ground
            (arith, sized, bit_and-le hint (if is_trend kind then r.trend_mask else r.mask))) in
      let o = find_series M metric labels s in
      let r' = recorded_in M i s kind metric labels value truthy r o in
      let (counted, sized') =
        recorded_in-held i s kind metric labels value truthy r o refl g sized h in
      (r', ground (arith, g), counted, sized')
