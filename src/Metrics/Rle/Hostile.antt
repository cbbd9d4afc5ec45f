-- ===== src/Metrics/Rle/Hostile.antt =====
-- What `decodeRLE` of internal/metrics/histogram.go does with encodings that it did not write.
use load_wave.Prelude.{
  ℕ, zero, suc, ◌+◌, ◌≤◌, ◌<◌, ◌≡◌, ◌≢◌, refl, sym, ap, ◌∙◌, map, List, [], ◌∷◌, ◌++◌, length,
  length-append, length-replicate, replicate, All, arith, ℤ, pos, negsuc, pos_part, wrap, wrap_pos,
  int64_end,
}
use load_wave.Metrics.Rle.RoundTrip.{decode_run_of, decode_pos, decode_zero}
use load_wave.Metrics.Rle.{
  decode_rle, decode_run, Decoded, ok, err, panic, prepend, max_decoded_counts,
}

prepend-eq-ok :
    (xs ys : List ℤ) (r : Decoded (List ℤ))
    → prepend xs r ≡ ok ys
    → (zs : List ℤ) × (r ≡ ok zs) × (ys ≡ xs ++ zs)
prepend-eq-ok xs ys (ok zs) h = (zs, refl, ground arith)
prepend-eq-ok xs ys (err e) h = cc
prepend-eq-ok xs ys panic h = cc

-- The number of counts that are out when an encoding of this length is read to its end.
abbrev pub most : ℕ
most = 1099511627776

module _ (n r : ℕ) (rest out : List ℤ) where
  -- A run that is decoded passed the check of the bucket limit, with no wrap-around.
  run_fits :
      n ≤ most + max_decoded_counts
      → decode_run n (pos (suc r) ∷ rest) ≡ ok out
      → n + suc r ≤ max_decoded_counts
  unfolding decode_run
  run_fits h e = ground (arith, wrap_pos (n + suc r))

  run_rest :
      n ≤ most + max_decoded_counts
      → decode_run n (pos (suc r) ∷ rest) ≡ ok out
      → (zs : List ℤ) × (decode_rle (n + suc r) rest ≡ ok zs) × (length out ≡ suc r + length zs)
  run_rest h e =
      let (zs, decoded, whole) =
        prepend-eq-ok (replicate (suc r) (pos 0)) out (decode_rle (n + suc r) rest)
          (sym (decode_run_of n (suc r) rest (omega arith) (run_fits h e)) ∙ e) in
      (
        zs,
        decoded,
        omega (
          arith,
          ap length whole,
          length-append (replicate (suc r) (pos 0)) zs,
          length-replicate (suc r) (pos 0),
        ),
      )

mutual
  unfolding decode_rle

  decoded_length :
      (n m : ℕ) (encoded out : List ℤ)
      → m + length encoded ≤ most
      → n ≤ max_decoded_counts + m
      → decode_rle n encoded ≡ ok out
      → n + length out ≤ max_decoded_counts + m + length encoded
  decoded_length n m [] out h k e = ground arith
  decoded_length n m (pos zero ∷ rest) out h k e =
      omega (arith, run_length n (m + 1) rest out (omega arith) (omega arith) e)
  decoded_length n m (pos (suc v) ∷ rest) out h k e =
      let (zs, decoded, whole) =
        prepend-eq-ok (pos (suc v) ∷ []) out (decode_rle (suc n) rest)
          (sym (decode_pos n v rest) ∙ e) in
      omega (
        arith,
        ap length whole,
        decoded_length (suc n) (m + 1) rest zs (omega arith) (omega arith) decoded,
      )
  decoded_length n m (negsuc v ∷ rest) out h k e = cc

  run_length :
      (n m : ℕ) (encoded out : List ℤ)
      → m + length encoded ≤ most
      → n ≤ max_decoded_counts + m
      → decode_run n encoded ≡ ok out
      → n + length out ≤ max_decoded_counts + m + length encoded
  run_length n m [] out h k e = cc
  run_length n m (pos zero ∷ rest) out h k e = cc
  run_length n m (negsuc r ∷ rest) out h k e = cc
  run_length n m (pos (suc r) ∷ rest) out h k e =
      let (zs, decoded, whole) = run_rest n r rest out (omega arith) e in
      omega (
        arith,
        whole,
        run_fits n r rest out (omega arith) e,
        decoded_length (n + suc r) (m + 1) rest zs (omega arith)
            (omega (arith, run_fits n r rest out (omega arith) e)) decoded,
      )

-- Whatever the encoding, of at most 2 ^ 40 values: if it is decoded, there are at most 2 ^ 22 counts
-- more than the encoding has values.
pub decode-length-le :
    (encoded out : List ℤ)
    → length encoded ≤ most
    → decode_rle 0 encoded ≡ ok out
    → length out ≤ max_decoded_counts + length encoded
decode-length-le encoded out h e =
    omega (arith, decoded_length 0 0 encoded out (omega arith) (omega arith) e)

run_panics :
    (n r : ℕ) (rest : List ℤ)
    → n ≤ most
    → r < int64_end
    → int64_end ≤ n + r
    → decode_run n (pos r ∷ rest) ≡ panic
unfolding decode_run wrap
run_panics n r rest h k l = ground arith

panics_from :
    (n r : ℕ) (vs : List ℕ) (rest : List ℤ)
    → n + length vs ≤ most
    → r < int64_end
    → int64_end ≤ n + length vs + r
    → decode_rle n (map (λ v. pos (suc v)) vs ++ pos 0 ∷ pos r ∷ rest) ≡ panic
panics_from n r [] rest h k l =
    decode_zero n (pos r ∷ rest) ∙ run_panics n r rest (omega arith) k (omega arith)
panics_from n r (v ∷ vs) rest h k l =
    decode_pos n v (map (λ v. pos (suc v)) vs ++ pos 0 ∷ pos r ∷ rest)
    ∙ ap (prepend (pos (suc v) ∷ [])) (panics_from (suc n) r vs rest (omega arith) k (omega arith))

-- A run length that passes the end of `int64` when the number of counts before it is added escapes
-- the check of the bucket limit, and making the slice panics.
pub decode_panics :
    (vs : List ℕ) (r : ℕ) (rest : List ℤ)
    → length vs ≤ most
    → r < int64_end
    → int64_end ≤ length vs + r
    → decode_rle 0 (map (λ v. pos (suc v)) vs ++ pos 0 ∷ pos r ∷ rest) ≡ panic
decode_panics vs r rest h k l = panics_from 0 r vs rest (omega arith) k (omega arith)

-- Half of the range of `int64`.
abbrev pub IsModest : ℤ → Type 0
IsModest v = pos_part v < 4611686018427387904

prepend-ne-panic : (xs : List ℤ) (r : Decoded (List ℤ)) → r ≢ panic → prepend xs r ≢ panic
prepend-ne-panic xs (ok ys) h e = cc
prepend-ne-panic xs (err x) h e = cc
prepend-ne-panic xs panic h e = h refl

run_checked :
    (n r : ℕ) (rest : List ℤ)
    → n ≤ most + max_decoded_counts
    → IsModest (pos (suc r))
    → decode_run n (pos (suc r) ∷ rest) ≡ panic
    → n + suc r ≤ max_decoded_counts
unfolding decode_run
run_checked n r rest h k e = ground (arith, wrap_pos (n + suc r))

mutual
  unfolding decode_rle

  no_panic_from :
      (n m : ℕ) (encoded : List ℤ)
      → m + length encoded ≤ most
      → n ≤ max_decoded_counts + m
      → All IsModest encoded
      → decode_rle n encoded ≢ panic
  no_panic_from n m [] h k a e = cc
  no_panic_from n m (pos zero ∷ rest) h k a e =
      no_panic_run n (m + 1) rest (omega arith) (omega arith) a.1 e
  no_panic_from n m (pos (suc v) ∷ rest) h k a e =
      prepend-ne-panic (pos (suc v) ∷ []) (decode_rle (suc n) rest)
        (no_panic_from (suc n) (m + 1) rest (omega arith) (omega arith) a.1)
        (sym (decode_pos n v rest) ∙ e)
  no_panic_from n m (negsuc v ∷ rest) h k a e = cc

  no_panic_run :
      (n m : ℕ) (encoded : List ℤ)
      → m + length encoded ≤ most
      → n ≤ max_decoded_counts + m
      → All IsModest encoded
      → decode_run n encoded ≢ panic
  no_panic_run n m [] h k a e = cc
  no_panic_run n m (pos zero ∷ rest) h k a e = cc
  no_panic_run n m (negsuc r ∷ rest) h k a e = cc
  no_panic_run n m (pos (suc r) ∷ rest) h k a e =
      let fits = run_checked n r rest (omega arith) a.0 e in
      prepend-ne-panic (replicate (suc r) (pos 0)) (decode_rle (n + suc r) rest)
        (no_panic_from (n + suc r) (m + 1) rest (omega arith) (omega (arith, fits)) a.1)
        (sym (decode_run_of n (suc r) rest (omega arith) fits) ∙ e)

-- Decoding at most 2 ^ 40 values, all below 2 ^ 62, never panics: it ends in counts or in an error.
pub decode_no_panic :
    (encoded : List ℤ) → length encoded ≤ most → All IsModest encoded → decode_rle 0 encoded ≢ panic
decode_no_panic encoded h a = no_panic_from 0 0 encoded (omega arith) (omega arith) a
