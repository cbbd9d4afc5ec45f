-- ===== src/Metrics/Histogram.antt =====
-- Histograms and their wire form, internal/metrics/histogram.go. The HDR library and floating point
-- numbers are parameters; the run-length encoding is the module Metrics/Rle.
pub mod Wire
mod Tests
use load_wave.Prelude.{
  ℕ, ◌<◌, ◌≡◌, Bool, true, false, ◌&&◌, not, List, [], ◌∷◌, length, if◌then◌else◌, ◌==◌, ltb, ℤ,
  pos, ltb_ℤ, leb_ℤ, eqb_ℤ, wrap_32,
}
use load_wave.Metrics.Rle.{Decoded, DecodeError, ok, err, panic, encode_rle, decode_rle}

-- `HistogramConfig`
pub record HistogramConfig : Type 0 where
  pub lowest : ℤ
  pub highest : ℤ
  pub sig_figs : ℤ

-- `HistogramSnapshot` of proto/loadwave/v1/metrics.proto
pub record Snapshot : Type 0 where
  pub lowest : ℤ
  pub highest : ℤ
  pub significant_figures : ℤ
  pub counts_rle : List ℤ
  pub total_count : ℤ

-- The library's histograms: `New`, `Export` (the layout and the counts), `Import` and `TotalCount`.
pub record Hdr : Type 1 where
  pub Histogram : Type 0
  pub new : HistogramConfig → Histogram
  pub layout : Histogram → HistogramConfig
  pub counts : Histogram → List ℤ
  pub import : HistogramConfig → List ℤ → Histogram
  pub total_count : Histogram → ℤ

pub data ConfigError : Type 0 where
  low_lowest low_highest sig_figs_range : ConfigError

pub data Check : Type 0 where
  valid : Check
  invalid : ConfigError → Check

-- `HistogramConfig.Validate`
unfoldable pub validate : HistogramConfig → Check
validate c =
    if ltb_ℤ c.lowest (pos 1)
    then invalid low_lowest
    else if leb_ℤ c.highest c.lowest
    then invalid low_highest
    else if ltb_ℤ c.sig_figs (pos 1)
    then invalid sig_figs_range
    else if ltb_ℤ (pos 5) c.sig_figs
    then invalid sig_figs_range
    else valid

-- `HistogramConfig.Equal`
unfoldable pub same_config : HistogramConfig → HistogramConfig → Bool
same_config a b =
    eqb_ℤ a.lowest b.lowest && (eqb_ℤ a.highest b.highest && eqb_ℤ a.sig_figs b.sig_figs)

-- What `ScaleValue` uses of `float64`: `int64(math.Round(v * HistogramScale))`.
pub record Scaling : Type 1 where
  pub Float : Type 0
  pub is_nan : Float → Bool
  pub scaled : Float → ℤ

unfoldable pub scale_value : (S : Scaling) → HistogramConfig → Scaling.Float S → ℤ
scale_value S c v =
    let n = Scaling.scaled S v in
    if Scaling.is_nan S v
    then c.lowest
    else if ltb_ℤ n c.lowest
    then c.lowest
    else if ltb_ℤ c.highest n
    then c.highest
    else n

pub data HistogramError : Type 0 where
  resolution_mismatch wrong_buckets : HistogramError
  bad_encoding : DecodeError → HistogramError

pub data DecodedHistogram (H : Hdr) : Type 0 where
  decoded : Hdr.Histogram H → DecodedHistogram H
  rejected : HistogramError → DecodedHistogram H
  panicked : DecodedHistogram H

module _ (H : Hdr) where
  -- `EncodeHistogram`
  unfoldable pub encode_histogram : Hdr.Histogram H → Snapshot
  encode_histogram h = record {
    lowest = (Hdr.layout H h).lowest;
    highest = (Hdr.layout H h).highest;
    significant_figures = wrap_32 (Hdr.layout H h).sig_figs;
    counts_rle = encode_rle (Hdr.counts H h);
    total_count = Hdr.total_count H h;
  }

  -- `CountsLen`, whose cache holds the value of the same call.
  unfoldable pub counts_len : HistogramConfig → ℕ
  counts_len c = length (Hdr.counts H (Hdr.new H c))

  abbrev pub install : HistogramConfig → Decoded (List ℤ) → DecodedHistogram H
  install c (err e) = rejected (bad_encoding e)
  install c panic = panicked
  install c (ok counts) =
      if length counts == counts_len c
      then decoded (Hdr.import H c counts)
      else rejected wrong_buckets

  -- `DecodeHistogram` of a snapshot that is there.
  unfoldable pub decode_histogram : Snapshot → HistogramConfig → DecodedHistogram H
  decode_histogram snap c =
      let got : HistogramConfig = record {
        lowest = snap.lowest;
        highest = snap.highest;
        sig_figs = snap.significant_figures;
      } in
      if same_config got c
      then install c (decode_rle 0 snap.counts_rle)
      else rejected resolution_mismatch
