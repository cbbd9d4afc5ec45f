-- ===== src/Metrics/Measured.antt =====
-- The parameter of internal/metrics/aggregate.go that a run's configuration gives, filled with the
-- histograms of internal/metrics/histogram.go.
use load_wave.Prelude.{◌≡◌, refl, Bool, Option, none, some, ℤ, pos_part}
use load_wave.Metrics.Histogram.{
  HistogramConfig, Hdr, Scaling, scale_value, Snapshot, DecodedHistogram, decoded, rejected,
  panicked, encode_histogram, decode_histogram,
}
use load_wave.Metrics.Histogram.Wire.{IsExact, decode-encode_histogram}
use load_wave.Metrics.Aggregate.{Measures}

-- What the aggregates use of the HDR library besides: `RecordValue`, `Merge` and `Reset`.
pub record Recording (H : Hdr) : Type 0 where
  pub record_value : ℤ → Hdr.Histogram H → Hdr.Histogram H
  pub merge : Hdr.Histogram H → Hdr.Histogram H → Hdr.Histogram H
  pub reset : Hdr.Histogram H → Hdr.Histogram H

-- `float64` as the aggregates use it.
pub record Floating (Float : Type 0) : Type 0 where
  pub zero_float : Float
  pub plus_inf : Float
  pub minus_inf : Float
  pub plus : Float → Float → Float
  pub lt_float : Float → Float → Bool
  pub is_zero : Float → Bool
  pub is_plus_inf : Float → Bool
  pub is_minus_inf : Float → Bool

module _ (H : Hdr) (R : Recording H) (S : Scaling) (F : Floating (Scaling.Float S)) where
  -- An error of the decoding, or a panic in it, is none.
  abbrev accepted : DecodedHistogram H → Option (Hdr.Histogram H)
  accepted (decoded h) = some h
  accepted (rejected e) = none
  accepted panicked = none

  unfoldable pub measures_of : HistogramConfig → Measures
  measures_of c = record {
    Float = Scaling.Float S;
    Hist = Hdr.Histogram H;
    zero_float = F.zero_float;
    plus_inf = F.plus_inf;
    minus_inf = F.minus_inf;
    plus = F.plus;
    lt_float = F.lt_float;
    is_zero = F.is_zero;
    is_plus_inf = F.is_plus_inf;
    is_minus_inf = F.is_minus_inf;
    new_hist = Hdr.new H c;
    record_value = λ v. λ h. R.record_value (scale_value S c v) h;
    merge_hist = R.merge;
    reset_hist = R.reset;
    hist_count = λ h. pos_part (Hdr.total_count H h);
    Snapshot = Snapshot;
    encode = encode_histogram H;
    decode = λ snap. accepted (decode_histogram H snap c);
  }

  -- With these measures a histogram that a node encodes is decoded by the coordinator, with its
  -- counts, if it has the run's configuration and what the encoding asks of it.
  pub decode-encode_measured :
      (c : HistogramConfig) (h : Hdr.Histogram H)
      → IsExact H c h
      → Hdr.layout H h ≡ c
      → accepted (decode_histogram H (encode_histogram H h) c)
        ≡ some (Hdr.import H c (Hdr.counts H h))
  decode-encode_measured c h x same = rw ((decode-encode_histogram H c h x).0 same) refl
