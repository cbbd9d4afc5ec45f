-- ===== src/Metrics/Histogram/Wire.antt =====
-- What a node sends of a histogram and the coordinator makes of it, internal/metrics/histogram.go.
use load_wave.Prelude.{
  ◌↔◌, ◌≤◌, ◌≡◌, ◌≢◌, refl, ◌∙◌, inl, inr, Bool-cases, true, All, length, if◌then◌else◌, leb_ℤ,
  eqb_ℤ_iff, wrap_32, arith,
}
use load_wave.Metrics.Rle.{max_decoded_counts}
use load_wave.Metrics.Rle.RoundTrip.{IsCount, decode-encode}
use load_wave.Metrics.Histogram.{
  HistogramConfig, Hdr, valid, validate, same_config, Scaling, scale_value, resolution_mismatch,
  decoded, rejected, encode_histogram, decode_histogram, counts_len,
}

same_config_iff : (a b : HistogramConfig) → (same_config a b ≡ true) ↔ (a ≡ b)
unfolding same_config
same_config_iff a b = ground (
  arith,
  eqb_ℤ_iff a.lowest b.lowest,
  eqb_ℤ_iff a.highest b.highest,
  eqb_ℤ_iff a.sig_figs b.sig_figs,
)

module _ (H : Hdr) where
  -- What the encoding asks of a histogram: a precision that fits `int32`, and as many counts as an empty
  -- one of the configuration has, at most 2 ^ 22 and none negative.
  pub record IsExact (c : HistogramConfig) (h : Hdr.Histogram H) : Type 0 where
    pub sig_figs_fit : wrap_32 (Hdr.layout H h).sig_figs ≡ (Hdr.layout H h).sig_figs
    pub as_many : length (Hdr.counts H h) ≡ counts_len H c
    pub not_many : length (Hdr.counts H h) ≤ max_decoded_counts
    pub are_counts : All IsCount (Hdr.counts H h)

  decoded_by :
      (c : HistogramConfig) (h : Hdr.Histogram H)
      → IsExact c h
      → decode_histogram H (encode_histogram H h) c ≡ (
          if same_config (Hdr.layout H h) c
          then decoded (Hdr.import H c (Hdr.counts H h))
          else rejected resolution_mismatch)
  unfolding decode_histogram encode_histogram
  decoded_by c h x =
      rw (x.sig_figs_fit, decode-encode (Hdr.counts H h) x.are_counts x.not_many)
        (ground (arith, x.as_many))

  -- What the coordinator decodes from what a node encoded, for a histogram with as many counts as the
  -- coordinator's configuration has, at most 2 ^ 22, none of them negative, and a precision that fits
  -- `int32`: the import of the exported counts if both have the same bounds and precision, and a rejection if
  -- they differ in any of them.
  pub decode-encode_histogram :
      (c : HistogramConfig) (h : Hdr.Histogram H)
      → IsExact c h
      → (Hdr.layout H h ≡ c
          → decode_histogram H (encode_histogram H h) c ≡ decoded (Hdr.import H c (Hdr.counts H h)))
        × (Hdr.layout H h ≢ c
            → decode_histogram H (encode_histogram H h) c ≡ rejected resolution_mismatch)
  decode-encode_histogram c h x = (
    λ e. decoded_by c h x ∙ rw ((same_config_iff (Hdr.layout H h) c).1 e) refl,
    λ n. elim (Bool-cases (same_config (Hdr.layout H h) c)) [
      | inl e ↦ absurd (n ((same_config_iff (Hdr.layout H h) c).0 e))
      | inr e ↦ decoded_by c h x ∙ rw e refl
    ],
  )

-- What `ScaleValue` gives under a valid configuration is in its range, for every value.
pub scale_value-range :
    (S : Scaling) (c : HistogramConfig) (v : Scaling.Float S)
    → validate c ≡ valid
    → (leb_ℤ c.lowest (scale_value S c v) ≡ true) × (leb_ℤ (scale_value S c v) c.highest ≡ true)
unfolding validate scale_value
scale_value-range S c v h = ground (arith, h)
