-- ===== src/Metrics/Aggregate/Counts.antt =====
-- How many observations the maps of internal/metrics/aggregate.go count.
use Prim.Native.String.{String}
use load_wave.Prelude.{ℕ, ◌+◌, ◌≤◌, ◌≡◌, refl, Option-cases, some, inl, inr, List, [], ◌∷◌, arith}
use load_wave.Prelude.Assoc.{find, put, total, total-put_new, total-put_old}
use load_wave.Labels.{Labels}
use load_wave.Metrics.Aggregate.{
  series_key_eq, SeriesKey, key_of, Measures, Kind, Aggregate, new_aggregate, reset, AggMap,
  in_chain, chain_at, find_series, ensure_series, change_in_chain, change_series, map_chain,
  map_entries, reset_all,
}

module _ (M : Measures) where
  abbrev pub chain_count : List (Aggregate M) → ℕ
  chain_count [] = 0
  chain_count (a ∷ chain) = a.count + chain_count chain

  -- The observations of all series together.
  unfoldable pub map_count : AggMap M → ℕ
  map_count m = total chain_count m.entries

  chain_le :
      (key : SeriesKey) (es : List (SeriesKey × List (Aggregate M))) (chain : List (Aggregate M))
      → find key es ≡ some chain
      → chain_count chain ≤ total chain_count es
  chain_le key [] chain h = cc
  chain_le key ((k, c) ∷ es) chain h = ground (arith, chain_le key es chain)

  in_chain-le :
      (labels : Labels) (chain : List (Aggregate M)) (a : Aggregate M)
      → in_chain M labels chain ≡ some a
      → a.count ≤ chain_count chain
  in_chain-le labels [] a h = cc
  in_chain-le labels (x ∷ chain) a h = ground (arith, in_chain-le labels chain a)

  -- Putting another chain at a key moves the count by the difference.
  map_count-put :
      (key : SeriesKey) (chain : List (Aggregate M)) (m : AggMap M)
      → total chain_count (put key chain m.entries) + chain_count (chain_at M key m)
        ≡ map_count m + chain_count chain
  unfolding map_count
  map_count-put key chain m = elim (Option-cases (find key m.entries)) [
    | inl n ↦ ground (arith, n, total-put_new chain_count key chain m.entries n)
    | inr (old, e) ↦ ground (arith, e, total-put_old chain_count key chain old m.entries e)
  ]

  pub map_count-ensure :
      (metric : String) (labels : Labels) (kind : Kind) (m : AggMap M)
      → map_count (ensure_series M metric labels kind m) ≡ map_count m
  unfolding map_count ensure_series new_aggregate
  map_count-ensure metric labels kind m = elim (Option-cases (find_series M metric labels m)) [
    | inr (a, e) ↦ ground (arith, e)
    | inl n ↦ ground (
      arith,
      n,
      map_count-put (key_of metric labels)
          (new_aggregate M metric labels kind ∷ chain_at M (key_of metric labels) m) m,
    )
  ]

  chain_count-change :
      (labels : Labels) (f : Aggregate M → Aggregate M) (a : Aggregate M) (n : ℕ)
      (chain : List (Aggregate M))
      → in_chain M labels chain ≡ some a
      → (f a).count ≡ a.count + n
      → chain_count (change_in_chain M labels f chain) ≡ chain_count chain + n
  chain_count-change labels f a n [] h e = cc
  chain_count-change labels f a n (x ∷ chain) h e =
      ground (arith, h, e, chain_count-change labels f a n chain)

  -- A change of a series that is there, which adds to its count, adds as much to the whole.
  pub map_count-change :
      (metric : String) (labels : Labels) (f : Aggregate M → Aggregate M) (a : Aggregate M) (n : ℕ)
      (m : AggMap M)
      → find_series M metric labels m ≡ some a
      → (f a).count ≡ a.count + n
      → map_count (change_series M metric labels f m) ≡ map_count m + n
  unfolding map_count change_series find_series
  map_count-change metric labels f a n m h e =
      let chain = chain_at M (key_of metric labels) m in
      ground (
        arith,
        map_count-put (key_of metric labels) (change_in_chain M labels f chain) m,
        chain_count-change labels f a n chain h e,
      )

  pub find_series-le :
      (metric : String) (labels : Labels) (a : Aggregate M) (m : AggMap M)
      → find_series M metric labels m ≡ some a
      → a.count ≤ map_count m
  unfolding map_count find_series
  find_series-le metric labels a m h =
      let chain = chain_at M (key_of metric labels) m in
      elim (Option-cases (find (key_of metric labels) m.entries)) [
        | inl n ↦ ground (arith, h, n)
        | inr (c, e) ↦ ground (
          arith,
          h,
          e,
          in_chain-le labels chain a h,
          chain_le (key_of metric labels) m.entries c e,
        )
      ]

  chain_count-reset : (chain : List (Aggregate M)) → chain_count (map_chain M (reset M) chain) ≡ 0
  unfolding reset
  chain_count-reset [] = refl
  chain_count-reset (a ∷ chain) = ground (arith, chain_count-reset chain)

  total-reset :
      (es : List (SeriesKey × List (Aggregate M)))
      → total chain_count (map_entries M (reset M) es) ≡ 0
  total-reset [] = refl
  total-reset ((k, chain) ∷ es) = ground (arith, chain_count-reset chain, total-reset es)

  pub map_count-reset : (m : AggMap M) → map_count (reset_all M m) ≡ 0
  unfolding map_count reset_all
  map_count-reset m = total-reset m.entries
