-- ===== src/Apportion/Even.antt =====
-- Equal weights: what `Equal` of internal/apportion/apportion.go gives each claimant.
use load_wave.Prelude.{
  ℕ, zero, suc, ◌+◌, ◌-◌, ◌*◌, ◌/◌, ◌%◌, ◌<◌, ◌≡◌, refl, ◌&&◌, sum, arith, if◌then◌else◌, ltb, leb,
  replicate, take,
}
use load_wave.Apportion.{less, insert, sort}
use load_wave.Apportion.Exact.{floor_shares, claims_from}
use load_wave.Apportion.Quota.{hits, extra}

module _ (t weight : ℕ) where
  -- Claims of one remainder and rising indices are in order as they stand.
  sort-even :
      (k i : ℕ)
      → sort (claims_from t weight i (replicate k 1)) ≡ claims_from t weight i (replicate k 1)
  unfolding sort insert less
  sort-even zero i = refl
  sort-even (suc zero) i = refl
  sort-even (suc (suc k)) i = rw (sort-even (suc k) (suc i)) (ground arith)

  hits-even :
      (n k i j : ℕ)
      → hits j (take n (claims_from t weight i (replicate k 1)))
        ≡ (if leb i j && ltb j (i + n) && ltb j (i + k) then 1 else 0)
  hits-even zero k i j = ground arith
  hits-even (suc n) zero i j = ground arith
  hits-even (suc n) (suc k) i j = ground (arith, hits-even n k (suc i) j)

sum-even : (n : ℕ) → sum (replicate n 1) ≡ n
sum-even zero = refl
sum-even (suc n) = omega (arith, sum-even n)

sum-floor_shares-even :
    (t weight n : ℕ) → sum (floor_shares t weight (replicate n 1)) ≡ n * (t * 1 / weight)
sum-floor_shares-even t weight zero = omega arith
sum-floor_shares-even t weight (suc n) = omega (arith, sum-floor_shares-even t weight n)

pub extra-even :
    (t n i : ℕ) → 0 < n → i < n → extra t (replicate n 1) i ≡ (if ltb i (t % n) then 1 else 0)
unfolding extra
extra-even t n i p h =
    rw (sum-even n, sort-even t n n 0, sum-floor_shares-even t n n, hits-even t n _ n 0 i)
      (ground (arith, left))
  where
    left : t - n * (t * 1 / n) ≡ t % n
    left = grind arith
