-- ===== src/Engine/Executor/Between.antt =====
-- What internal/engine/executor.go relies on of `float64`, and that its interpolation stays between
-- the ends.
use native.Mathlib.Nat.{mul-le-mul_left, mul-le-mul_right}
use load_wave.Prelude.{
  int64_end, ℕ, ◌*◌, ◌≤◌, ◌<◌, ◌≡◌, true, if◌then◌else◌, ltb, ℤ, pos, ◌-ℤ◌, leb_ℤ, wrap, Bool-cases,
  arith, inl, inr,
}
use load_wave.Engine.Executor.{Reals, interpolate, share_of_peak}

-- Integers below this are exact in a `float64`.
abbrev pub exact_end : ℕ
exact_end = 9007199254740992

-- The order of the numbers, and the correctly rounded operations on finite ones: each is monotone, and
-- exact where the exact result is an integer below 2 ^ 53. An `int64` is converted to the nearest number, and a
-- number is rounded to an `int` where it lies between two integers below 2 ^ 53.
pub record Laws (R : Reals) : Type 1 where
  pub le : Reals.Real R → Reals.Real R → Type 0
  pub plus_le :
      (a : ℕ) (x y : Reals.Real R)
      → a < exact_end
      → le x y
      → le (Reals.plus R (Reals.of_int R (pos a)) x) (Reals.plus R (Reals.of_int R (pos a)) y)
  pub plus_int :
      (a b : ℕ)
      → a < exact_end
      → b < exact_end
      → Reals.plus R (Reals.of_int R (pos a)) (Reals.of_int R (pos b -ℤ pos a))
        ≡ Reals.of_int R (pos b)
  pub plus_zero :
      (a : ℕ)
      → a < exact_end
      → Reals.plus R (Reals.of_int R (pos a)) (Reals.of_int R (pos 0)) ≡ Reals.of_int R (pos a)
  pub times_int :
      (a b : ℕ)
      → a < exact_end
      → b < exact_end
      → a * b < exact_end
      → Reals.times R (Reals.of_int R (pos a)) (Reals.of_int R (pos b))
        ≡ Reals.of_int R (pos (a * b))
  -- A number from 0 to 1 times a difference of such integers is between 0 and the difference.
  pub times_up :
      (p : Reals.Real R) (a b : ℕ)
      → a ≤ b
      → b < exact_end
      → le (Reals.of_int R (pos 0)) p
      → le p (Reals.of_int R (pos 1))
      → le (Reals.of_int R (pos 0)) (Reals.times R p (Reals.of_int R (pos b -ℤ pos a)))
        × le (Reals.times R p (Reals.of_int R (pos b -ℤ pos a))) (Reals.of_int R (pos b -ℤ pos a))
  pub times_down :
      (p : Reals.Real R) (a b : ℕ)
      → b ≤ a
      → a < exact_end
      → le (Reals.of_int R (pos 0)) p
      → le p (Reals.of_int R (pos 1))
      → le (Reals.of_int R (pos b -ℤ pos a)) (Reals.times R p (Reals.of_int R (pos b -ℤ pos a)))
        × le (Reals.times R p (Reals.of_int R (pos b -ℤ pos a))) (Reals.of_int R (pos 0))
  -- A quotient of an `int64` by a positive one, which can be above 2 ^ 53.
  pub over_nonneg :
      (n d : ℕ)
      → 0 < d
      → n < int64_end
      → d < int64_end
      → le (Reals.of_int R (pos 0)) (Reals.over R (Reals.of_int R (pos n)) (Reals.of_int R (pos d)))
  pub over_one :
      (n d : ℕ)
      → 0 < d
      → n ≤ d
      → d < int64_end
      → le (Reals.over R (Reals.of_int R (pos n)) (Reals.of_int R (pos d))) (Reals.of_int R (pos 1))
  pub over_le :
      (n d k : ℕ)
      → 0 < d
      → d < exact_end
      → n ≤ k * d
      → k * d < exact_end
      → le (Reals.over R (Reals.of_int R (pos n)) (Reals.of_int R (pos d))) (Reals.of_int R (pos k))
  pub round_within :
      (lo hi : ℕ) (x : Reals.Real R)
      → lo < exact_end
      → hi < exact_end
      → le (Reals.of_int R (pos lo)) x
      → le x (Reals.of_int R (pos hi))
      → (leb_ℤ (pos lo) (Reals.round R x) ≡ true) × (leb_ℤ (Reals.round R x) (pos hi) ≡ true)

-- Between two numbers, in either order.
abbrev pub IsBetween : ℕ → ℕ → ℤ → Type 0
IsBetween a b n =
    (leb_ℤ (pos (if ltb a b then a else b)) n ≡ true)
    × (leb_ℤ n (pos (if ltb a b then b else a)) ≡ true)

difference : (a b : ℕ) → a < exact_end → b < exact_end → wrap (pos b -ℤ pos a) ≡ pos b -ℤ pos a
unfolding wrap
difference a b h k = ground arith

module _ (R : Reals) (L : Laws R) where
  -- The interpolation of a part `n` of a span `d` is between its ends.
  pub interpolate-IsBetween :
      (n d a b : ℕ)
      → 0 < d
      → n ≤ d
      → d < int64_end
      → a < exact_end
      → b < exact_end
      → IsBetween a b (interpolate R (pos n) (pos d) (pos a) (pos b))
  unfolding interpolate
  interpolate-IsBetween n d a b h k l ha hb =
      let p = Reals.over R (Reals.of_int R (pos n)) (Reals.of_int R (pos d)) in
      let p0 = L.over_nonneg n d h (omega arith) l in
      let p1 = L.over_one n d h k l in
      rw (difference a b ha hb) (elim (Bool-cases (ltb a b)) [
        | inl up ↦
            let (lo, hi) = L.times_up p a b (ground (arith, up)) hb p0 p1 in
            let (below, above) =
              L.round_within a b _ ha hb (rw (L.plus_zero a ha) at (L.plus_le a _ _ ha lo))
                (rw (L.plus_int a b ha hb) at (L.plus_le a _ _ ha hi)) in
            rw up (below, above)
        | inr down ↦
            let (lo, hi) = L.times_down p a b (ground (arith, down)) ha p0 p1 in
            let (below, above) =
              L.round_within b a _ hb ha (rw (L.plus_int a b ha hb) at (L.plus_le a _ _ ha lo))
                (rw (L.plus_zero a ha) at (L.plus_le a _ _ ha hi)) in
            rw down (below, above)
      ])

  -- The share of a quota at a part `g` of a peak `t` is no more than the quota.
  pub share_of_peak-le :
      (q g t : ℕ)
      → 0 < t
      → g ≤ t
      → q * t < exact_end
      → 0 < q
      → (leb_ℤ (pos 0) (share_of_peak R (pos q) (pos g) (pos t)) ≡ true)
        × (leb_ℤ (share_of_peak R (pos q) (pos g) (pos t)) (pos q) ≡ true)
  share_of_peak-le q g t h k e o =
      let product : q * g ≤ q * t = mul-le-mul_left q k in
      let alone : q ≤ q * t = omega (arith, mul-le-mul_left q h) in
      let whole : t ≤ q * t = omega (arith, mul-le-mul_right t o) in
      let exact : q * g < exact_end = omega (arith, product, e) in
      let small : q < exact_end = omega (arith, alone, e) in
      let top : t < exact_end = omega (arith, whole, e) in
      rw (L.times_int q g small (omega (arith, k, top)) exact) (
        L.round_within 0 q _ (omega arith) small
          (L.over_nonneg (q * g) t h (omega (arith, exact)) (omega (arith, top)))
          (L.over_le (q * g) t q h top product e))
