-- ===== src/Metrics/Rle.antt =====
-- The run-length encoding of bucket counts, `encodeRLE` and `decodeRLE` of
-- internal/metrics/histogram.go, over `int64` values.
pub mod RoundTrip
mod Hostile
mod Tests
use load_wave.Prelude.{
  ℕ, zero, suc, ◌+◌, List, [], ◌∷◌, ◌++◌, length, replicate, if◌then◌else◌, ltb, ltb_ℤ, leb_ℤ,
  eqb_ℤ, is_pos, ℤ, pos, pos_part, ◌+ℤ◌, wrap,
}

-- The outer loop; `encode_zeros run` is the inner loop, `run` zeros into a run.
unfoldable mutual
  pub encode_rle : List ℤ → List ℤ
  encode_rle [] = []
  encode_rle (c ∷ cs) = if eqb_ℤ c (pos 0) then encode_zeros (pos 1) cs else c ∷ encode_rle cs

  pub encode_zeros : ℤ → List ℤ → List ℤ
  encode_zeros run [] = pos 0 ∷ run ∷ []
  encode_zeros run (c ∷ cs) =
      if eqb_ℤ c (pos 0)
      then encode_zeros (wrap (run +ℤ pos 1)) cs
      else pos 0 ∷ run ∷ c ∷ encode_rle cs

pub data DecodeError : Type 0 where
  negative_count no_run_length bad_run_length too_many_buckets : DecodeError

-- `panic`: the runtime refuses the length that a slice is made with.
pub data Decoded {ℓ} (A : Type ℓ) : Type ℓ where
  ok : A → Decoded A
  err : DecodeError → Decoded A
  panic : Decoded A

-- `maxDecodedCounts`
abbrev pub max_decoded_counts : ℕ
max_decoded_counts = 4194304

-- The longest slice of 8-byte values that Go's runtime makes: 2 ^ 48 bytes of addresses.
abbrev pub max_slice : ℕ
max_slice = 35184372088832

abbrev pub prepend : List ℤ → Decoded (List ℤ) → Decoded (List ℤ)
prepend xs (ok ys) = ok (xs ++ ys)
prepend xs (err e) = err e
prepend xs panic = panic

-- `decode_rle n` decodes what is left when `n` counts are out; `decode_run n` reads a run length.
unfoldable mutual
  pub decode_rle : ℕ → List ℤ → Decoded (List ℤ)
  decode_rle n [] = ok []
  decode_rle n (v ∷ rest) =
      let counted = prepend (v ∷ []) (decode_rle (suc n) rest) in
      let zeros = decode_run n rest in
      if is_pos v then counted else if ltb_ℤ v (pos 0) then err negative_count else zeros

  pub decode_run : ℕ → List ℤ → Decoded (List ℤ)
  decode_run n [] = err no_run_length
  decode_run n (run ∷ rest) =
      let filled =
        prepend (replicate (pos_part run) (pos 0)) (decode_rle (n + pos_part run) rest) in
      if leb_ℤ run (pos 0)
      then err bad_run_length
      else if ltb_ℤ (pos max_decoded_counts) (wrap (pos n +ℤ run))
      then err too_many_buckets
      else if ltb max_slice (pos_part run)
      then panic
      else filled
