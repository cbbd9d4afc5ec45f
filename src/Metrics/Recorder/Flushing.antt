-- ===== src/Metrics/Recorder/Flushing.antt =====
-- What one flush moves, internal/metrics/recorder.go.
use load_wave.Prelude.{ℕ, ◌+◌, ◌<◌, ◌≡◌, refl, List, [], ◌∷◌, ◌++◌, length, arith, word}
use load_wave.Prelude.Assoc.{total}
use load_wave.Metrics.Aggregate.{
  series_key_eq, SeriesKey, Measures, Aggregate, merge_from, AggMap, ensure_series, reset_all,
}
use load_wave.Metrics.Aggregate.Counts.{
  chain_count, map_count, map_count-ensure, map_count-change, map_count-reset, find_series-le,
}
use load_wave.Metrics.Delta.{SeriesDelta, encode_delta}
use load_wave.Metrics.Recorder.{
  Recorder, collect_one, collect_chain, collect_entries, collect_shards, reset_shards,
  deltas_of_chain, deltas_of, flush,
}
use load_wave.Metrics.Recorder.Steps.{shard_count, ensured, held, IsSized}

module _ (M : Measures) where
  merge_from-count :
      (a b : Aggregate M) → b.count + a.count < word → (merge_from M a b).count ≡ b.count + a.count
  unfolding merge_from
  merge_from-count a b h = ground arith

  collect_one-count :
      (a : Aggregate M) (m : AggMap M)
      → map_count M m + a.count < word
      → map_count M (collect_one M a m) ≡ map_count M m + a.count
  collect_one-count a m h =
      let m' = ensure_series M a.metric a.labels a.kind m in
      let (b, e) = ensured M a.metric a.labels a.kind m in
      let same = map_count-ensure M a.metric a.labels a.kind m in
      let small = find_series-le M a.metric a.labels b m' e in
      let moved =
        map_count-change M a.metric a.labels (merge_from M a) b a.count m' e
          (merge_from-count a b (omega (arith, same, small))) in
      ground (arith, same, moved)

  collect_chain-count :
      (chain : List (Aggregate M)) (m : AggMap M)
      → map_count M m + chain_count M chain < word
      → map_count M (collect_chain M chain m) ≡ map_count M m + chain_count M chain
  unfolding collect_chain
  collect_chain-count [] m h = omega arith
  collect_chain-count (a ∷ chain) m h =
      let one = collect_one-count a m (omega arith) in
      omega (arith, one, collect_chain-count chain (collect_one M a m) (omega (arith, one)))

  collect_entries-count :
      (es : List (SeriesKey × List (Aggregate M))) (m : AggMap M)
      → map_count M m + total (chain_count M) es < word
      → map_count M (collect_entries M es m) ≡ map_count M m + total (chain_count M) es
  unfolding collect_entries
  collect_entries-count [] m h = omega arith
  collect_entries-count ((k, chain) ∷ es) m h =
      let one = collect_chain-count chain m (omega arith) in
      omega (arith, one, collect_entries-count es (collect_chain M chain m) (omega (arith, one)))

  collect_shards-count :
      (shards : List (AggMap M)) (m : AggMap M)
      → map_count M m + shard_count M shards < word
      → map_count M (collect_shards M shards m) ≡ map_count M m + shard_count M shards
  unfolding collect_shards map_count
  collect_shards-count [] m h = omega arith
  collect_shards-count (s ∷ shards) m h =
      let one = collect_entries-count s.entries m (omega arith) in
      omega (
        arith,
        one,
        collect_shards-count shards (collect_entries M s.entries m) (omega (arith, one)),
      )

  -- The observations that the series of a batch count.
  abbrev pub delta_count : List (SeriesDelta M) → ℕ
  delta_count [] = 0
  delta_count (d ∷ ds) = d.count + delta_count ds

  delta_count-append :
      (xs ys : List (SeriesDelta M)) → delta_count (xs ++ ys) ≡ delta_count xs + delta_count ys
  delta_count-append [] ys = omega arith
  delta_count-append (x ∷ xs) ys = omega (arith, delta_count-append xs ys)

  deltas_of_chain-count :
      (chain : List (Aggregate M)) → delta_count (deltas_of_chain M chain) ≡ chain_count M chain
  unfolding deltas_of_chain encode_delta
  deltas_of_chain-count [] = refl
  deltas_of_chain-count (a ∷ chain) = ground (arith, deltas_of_chain-count chain)

  deltas_of-count :
      (es : List (SeriesKey × List (Aggregate M)))
      → delta_count (deltas_of M es) ≡ total (chain_count M) es
  unfolding deltas_of
  deltas_of-count [] = refl
  deltas_of-count ((k, chain) ∷ es) = omega (
    arith,
    delta_count-append (deltas_of_chain M chain) (deltas_of M es),
    deltas_of_chain-count chain,
    deltas_of-count es,
  )

  shard_count-reset : (shards : List (AggMap M)) → shard_count M (reset_shards M shards) ≡ 0
  shard_count-reset [] = refl
  shard_count-reset (s ∷ shards) = omega (arith, map_count-reset M s, shard_count-reset shards)

  length-reset_shards : (shards : List (AggMap M)) → length (reset_shards M shards) ≡ length shards
  length-reset_shards [] = refl
  length-reset_shards (s ∷ shards) = omega (arith, length-reset_shards shards)

  -- A flush moves the observations of the shards to the batch, and drops none.
  pub flush-held :
      (r : Recorder M)
      → held M r < word
      → IsSized M r
      → (delta_count (flush M r).0.series ≡ shard_count M r.shards)
        × (held M (flush M r).1 ≡ r.dropped)
        × ((flush M r).0.dropped_samples ≡ r.dropped)
        × IsSized M (flush M r).1
  unfolding flush map_count IsSized
  flush-held r h sized =
      let merged = collect_shards M r.shards (reset_all M r.merged) in
      let counts =
        collect_shards-count r.shards (reset_all M r.merged)
          (omega (arith, map_count-reset M r.merged)) in
      (
        omega (arith, deltas_of-count merged.entries, counts, map_count-reset M r.merged),
        omega (arith, shard_count-reset r.shards),
        refl,
        ground (arith, sized, length-reset_shards r.shards),
      )
