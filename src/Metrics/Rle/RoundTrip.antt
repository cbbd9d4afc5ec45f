-- ===== src/Metrics/Rle/RoundTrip.antt =====
-- Decoding what `encodeRLE` of internal/metrics/histogram.go writes.
use load_wave.Prelude.{
  ℕ, zero, suc, ◌+◌, ◌≤◌, wrap, ◌+ℤ◌, ◌<◌, ◌≡◌, refl, ap, ◌∙◌, List, [], ◌∷◌, ◌++◌, length,
  replicate, All, arith, ℤ, pos, negsuc, wrap_pos,
}
use load_wave.Metrics.Rle.{
  encode_rle, encode_zeros, decode_rle, decode_run, ok, prepend, max_decoded_counts,
}

abbrev pub IsCount : ℤ → Type 0
IsCount (pos n) = Unit {0}
IsCount (negsuc n) = ⊥

one_more_zero :
    (k : ℕ) (cs : List ℤ) → replicate (suc k) (pos 0) ++ cs ≡ replicate k (pos 0) ++ pos 0 ∷ cs
one_more_zero zero cs = refl
one_more_zero (suc k) cs = ap (λ r. pos 0 ∷ r) (one_more_zero k cs)

-- A run of `k` zeros that fits.
pub decode_run_of :
    (n k : ℕ) (rest : List ℤ)
    → 0 < k
    → n + k ≤ max_decoded_counts
    → decode_run n (pos k ∷ rest) ≡ prepend (replicate k (pos 0)) (decode_rle (n + k) rest)
unfolding decode_run
decode_run_of n k rest p h = ground (arith, wrap_pos (n + k))

pub decode_zero : (n : ℕ) (rest : List ℤ) → decode_rle n (pos 0 ∷ rest) ≡ decode_run n rest
unfolding decode_rle
decode_zero n rest = refl

pub decode_pos :
    (n c : ℕ) (rest : List ℤ)
    → decode_rle n (pos (suc c) ∷ rest) ≡ prepend (pos (suc c) ∷ []) (decode_rle (suc n) rest)
unfolding decode_rle
decode_pos n c rest = ground arith

decode_nil : (n : ℕ) → decode_rle n [] ≡ ok []
unfolding decode_rle
decode_nil n = refl

wrap-suc : (k : ℕ) → k < max_decoded_counts → wrap (pos k +ℤ pos 1) ≡ pos (suc k)
wrap-suc k h = wrap_pos (k + 1) (omega arith) ∙ ap pos (omega arith)

mutual
  unfolding encode_rle

  decode-encode_from :
      (n : ℕ) (cs : List ℤ)
      → All IsCount cs
      → n + length cs ≤ max_decoded_counts
      → decode_rle n (encode_rle cs) ≡ ok cs
  decode-encode_from n [] h k = decode_nil n
  decode-encode_from n (pos zero ∷ cs) h k =
      decode-encode_zeros n 1 cs h.1 (omega arith) (omega arith)
  decode-encode_from n (pos (suc c) ∷ cs) h k =
      ground
        (arith, decode_pos n c (encode_rle cs), decode-encode_from (suc n) cs h.1 (omega arith))
  decode-encode_from n (negsuc c ∷ cs) h k = absurd h.0

  decode-encode_zeros :
      (n k : ℕ) (cs : List ℤ)
      → All IsCount cs
      → 0 < k
      → n + k + length cs ≤ max_decoded_counts
      → decode_rle n (encode_zeros (pos k) cs) ≡ ok (replicate k (pos 0) ++ cs)
  decode-encode_zeros n k [] h p m =
      decode_zero n (pos k ∷ [])
      ∙ decode_run_of n k [] p (omega arith)
      ∙ ap (prepend (replicate k (pos 0))) (decode_nil (n + k))
  decode-encode_zeros n k (pos zero ∷ cs) h p m =
      rw (wrap-suc k (omega arith), ← one_more_zero k cs)
        (decode-encode_zeros n (suc k) cs h.1 (omega arith) (omega arith))
  decode-encode_zeros n k (pos (suc c) ∷ cs) h p m = ground (
    arith,
    decode_zero n (pos k ∷ pos (suc c) ∷ encode_rle cs),
    decode_run_of n k (pos (suc c) ∷ encode_rle cs) p (omega arith),
    decode_pos (n + k) c (encode_rle cs),
    decode-encode_from (suc (n + k)) cs h.1 (omega arith),
  )
  decode-encode_zeros n k (negsuc c ∷ cs) h p m = absurd h.0

-- Bucket counts that are not negative, 2 ^ 22 of them at most, are decoded from their encoding.
pub decode-encode :
    (cs : List ℤ)
    → All IsCount cs
    → length cs ≤ max_decoded_counts
    → decode_rle 0 (encode_rle cs) ≡ ok cs
decode-encode cs h k = decode-encode_from 0 cs h (omega arith)
