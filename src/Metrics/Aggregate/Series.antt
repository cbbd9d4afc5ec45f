-- ===== src/Metrics/Aggregate/Series.antt =====
-- The hash chains of internal/metrics/aggregate.go against a map from metric and labels.
use Prim.Native.String.{String}
use text.Mathlib.Text.{◌==◌ as str_eq}
use text.Mathlib.TextEquality.{eq_iff}
use load_wave.Prelude.{
  ◌↔◌, ◌≡◌, refl, Bool, true, ◌&&◌, Option, Option-cases, none, some, inl, inr, List, [], ◌∷◌,
  if◌then◌else◌, arith,
}
use load_wave.Prelude.Assoc.{find-put}
use load_wave.Labels.{Pairs, Labels, equal_labels, same_pairs}
use load_wave.Metrics.Aggregate.{
  series_key_eq, key_of, Measures, Kind, Aggregate, new_aggregate, AggMap, in_chain, chain_at,
  find_series, ensure_series, change_in_chain, change_series,
}

same_pairs_iff : (ps qs : Pairs) → (same_pairs ps qs ≡ true) ↔ (ps ≡ qs)
same_pairs_iff [] [] = ground arith
same_pairs_iff [] (q ∷ qs) = ground arith
same_pairs_iff (p ∷ ps) [] = ground arith
same_pairs_iff ((j, v) ∷ ps) ((k, w) ∷ qs) =
    ground (arith, eq_iff j k, eq_iff v w, same_pairs_iff ps qs)

pub equal_labels_iff : (a b : Labels) → (equal_labels a b ≡ true) ↔ (a ≡ b)
unfolding equal_labels
equal_labels_iff a b = ground (arith, same_pairs_iff a.pairs b.pairs)

-- Whether two series are the same.
abbrev pub same_series : String → Labels → String → Labels → Bool
same_series j a k b = str_eq j k && equal_labels a b

module _ (M : Measures) where
  in_chain-change :
      (f : Aggregate M → Aggregate M) (a b : Labels) (chain : List (Aggregate M))
      → ((x : Aggregate M) → (f x).labels ≡ x.labels)
      → in_chain M b (change_in_chain M a f chain) ≡ (
          if equal_labels a b
          then elim (in_chain M b chain) [ none ↦ none | some x ↦ some (f x) ]
          else in_chain M b chain)
  in_chain-change f a b [] h = ground arith
  in_chain-change f a b (x ∷ chain) h = ground (
    arith,
    h x,
    equal_labels_iff a b,
    equal_labels_iff x.labels a,
    equal_labels_iff x.labels b,
    in_chain-change f a b chain h,
  )

  abbrev pub or_new : String → Labels → Kind → Option (Aggregate M) → Option (Aggregate M)
  or_new metric labels kind none = some (new_aggregate M metric labels kind)
  or_new metric labels kind (some x) = some x

  abbrev changed_by : (Aggregate M → Aggregate M) → Option (Aggregate M) → Option (Aggregate M)
  changed_by f none = none
  changed_by f (some x) = some (f x)

  -- The chains of series with colliding hashes behave as a map from metric and labels: asking for a
  -- series creates it if it is not there, and no series but this one is found differently afterwards;
  -- and a change of the series is seen at it and at no other one, if the change keeps its labels.
  pub find-series :
      (f : Aggregate M → Aggregate M) (j k : String) (a b : Labels) (kind : Kind) (m : AggMap M)
      → ((x : Aggregate M) → (f x).labels ≡ x.labels)
      → (find_series M k b (ensure_series M j a kind m) ≡ (
          if same_series j a k b
          then or_new j a kind (find_series M k b m)
          else find_series M k b m))
        × (find_series M k b (change_series M j a f m) ≡ (
            if same_series j a k b
            then changed_by f (find_series M k b m)
            else find_series M k b m))
  unfolding find_series ensure_series change_series new_aggregate
  find-series f j k a b kind m h = (
    elim (Option-cases (find_series M j a m)) [
      | inr (x, e) ↦ ground (arith, e, eq_iff j k, equal_labels_iff a b)
      | inl n ↦ ground (
        arith,
        n,
        eq_iff j k,
        equal_labels_iff a b,
        find-put (key_of j a) (key_of k b) (new_aggregate M j a kind ∷ chain_at M (key_of j a) m)
            m.entries,
      )
    ],
    ground (
      arith,
      eq_iff j k,
      equal_labels_iff a b,
      find-put (key_of j a) (key_of k b) (change_in_chain M a f (chain_at M (key_of j a) m))
          m.entries,
      in_chain-change f a b (chain_at M (key_of k b) m) h,
    ),
  )

  -- What asking for a series leaves at it.
  pub find-ensure :
      (metric : String) (labels : Labels) (kind : Kind) (m : AggMap M)
      → find_series M metric labels (ensure_series M metric labels kind m)
        ≡ or_new metric labels kind (find_series M metric labels m)
  find-ensure metric labels kind m = ground (
    arith,
    eq_iff metric metric,
    equal_labels_iff labels labels,
    (find-series (λ x. x) metric metric labels labels kind m (λ x. refl)).0,
  )
