-- ===== src/Metrics/Histogram/Tests.antt =====
-- Histograms and instances for internal/metrics/histogram.go, with the lists of counts for the
-- library's histograms.
use load_wave.Prelude.{◌≢◌, ◌≡◌, refl, false, List, [], ◌∷◌, ℤ, pos, wrap_32, arith}
use load_wave.Metrics.Histogram.{
  HistogramConfig, Hdr, Scaling, counts_len, decoded, encode_histogram, decode_histogram, rejected,
  resolution_mismatch,
}
use load_wave.Metrics.Histogram.Wire.{IsExact, decode-encode_histogram}

abbrev narrow : HistogramConfig
narrow = record { lowest = pos 1; highest = pos 100; sig_figs = pos 2 }

abbrev listed : Hdr
listed = record {
  Histogram = List ℤ;
  new = λ c. pos 0 ∷ pos 0 ∷ pos 0 ∷ [];
  layout = λ h. narrow;
  counts = λ h. h;
  import = λ c h. h;
  total_count = λ h. pos 7;
}

abbrev observed : List ℤ
observed = pos 0 ∷ pos 0 ∷ pos 7 ∷ []

exact : IsExact listed narrow observed
unfolding wrap_32 counts_len
exact = record {
  sig_figs_fit = refl;
  as_many = refl;
  not_many = omega arith;
  are_counts = (tt, (tt, (tt, tt)));
}

decode-encode_histogram_example :
    (narrow ≡ narrow
      → decode_histogram listed (encode_histogram listed observed) narrow ≡ decoded observed)
    × (narrow ≢ narrow
        → decode_histogram listed (encode_histogram listed observed) narrow
          ≡ rejected resolution_mismatch)
decode-encode_histogram_example = decode-encode_histogram listed narrow observed exact

abbrev whole : Scaling
whole = record { Float = ℤ; is_nan = λ v. false; scaled = λ v. v }
