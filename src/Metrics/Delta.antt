-- ===== src/Metrics/Delta.antt =====
-- The wire form of a series, `encodeDelta`, `encodeKind` and `DecodeKind` of
-- internal/metrics/recorder.go.
use Prim.Native.String.{String}
use load_wave.Prelude.{ℕ, ◌≡◌, refl, Option, none, some, [], if◌then◌else◌, ◌==◌}
use load_wave.Labels.{Pairs, map_of_pairs}
use load_wave.Metrics.Aggregate.{
  Measures, Kind, counter, gauge, rate, trend, is_gauge, Aggregate, min_of, max_of,
}

-- `MetricKind` of proto/loadwave/v1/plan.proto
pub data WireKind : Type 0 where
  unspecified_kind counter_kind gauge_kind trend_kind rate_kind unknown_kind : WireKind

-- `encodeKind`
unfoldable pub encode_kind : Kind → WireKind
encode_kind counter = counter_kind
encode_kind gauge = gauge_kind
encode_kind trend = trend_kind
encode_kind rate = rate_kind

-- `DecodeKind`
unfoldable pub decode_kind : WireKind → Kind
decode_kind counter_kind = counter
decode_kind gauge_kind = gauge
decode_kind trend_kind = trend
decode_kind rate_kind = rate
decode_kind _ = counter

pub decode-encode_kind : (k : Kind) → decode_kind (encode_kind k) ≡ k
unfolding encode_kind decode_kind
decode-encode_kind counter = refl
decode-encode_kind gauge = refl
decode-encode_kind trend = refl
decode-encode_kind rate = refl

-- `SeriesDelta` of proto/loadwave/v1/metrics.proto
pub record SeriesDelta (M : Measures) : Type 0 where
  pub metric : String
  pub kind : WireKind
  pub tags : Pairs
  pub count : ℕ
  pub total : Measures.Float M
  pub least : Measures.Float M
  pub greatest : Measures.Float M
  pub non_zero : ℕ
  pub histogram : Option (Measures.Snapshot M)

module _ (M : Measures) where
  abbrev counted : Option (Measures.Hist M) → Option (Measures.Snapshot M)
  counted none = none
  counted (some h) = if Measures.hist_count M h == 0 then none else some (Measures.encode M h)

  -- `encodeDelta`
  unfoldable pub encode_delta : Aggregate M → SeriesDelta M
  unfolding min_of max_of
  encode_delta a = record {
    metric = a.metric;
    kind = encode_kind a.kind;
    tags = map_of_pairs [] (a.labels).pairs;
    count = a.count;
    total = if is_gauge a.kind then a.last else a.total;
    least = min_of M a;
    greatest = max_of M a;
    non_zero = a.non_zero;
    histogram = counted a.hist;
  }
