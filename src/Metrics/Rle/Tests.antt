-- ===== src/Metrics/Rle/Tests.antt =====
-- Runs and instances for the run-length encoding of internal/metrics/histogram.go.
use load_wave.Prelude.{◌≡◌, refl, arith, List, [], ◌∷◌, ℤ, pos, negsuc, wrap}
use load_wave.Metrics.Rle.{encode_rle, decode_rle, ok, err, panic, negative_count}
use load_wave.Metrics.Rle.RoundTrip.{decode-encode}
use load_wave.Metrics.Rle.Hostile.{decode_panics}

abbrev counts : List ℤ
counts = pos 0 ∷ pos 0 ∷ pos 5 ∷ pos 0 ∷ []

encode_runs : encode_rle counts ≡ pos 0 ∷ pos 2 ∷ pos 5 ∷ pos 0 ∷ pos 1 ∷ []
unfolding encode_rle wrap
encode_runs = refl

decode_refuses : decode_rle 0 (pos 1 ∷ negsuc 0 ∷ []) ≡ err negative_count
unfolding decode_rle
decode_refuses = refl

decode-encode_example : decode_rle 0 (encode_rle counts) ≡ ok counts
decode-encode_example = decode-encode counts (tt, (tt, (tt, (tt, tt)))) (omega arith)

decode_panics_example : decode_rle 0 (pos 1 ∷ pos 0 ∷ pos 9223372036854775807 ∷ []) ≡ panic
decode_panics_example =
    decode_panics (0 ∷ []) 9223372036854775807 [] (omega arith) (omega arith) (omega arith)
