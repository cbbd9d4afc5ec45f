-- ===== src/Apportion/Exact.antt =====
-- The largest remainder method of internal/apportion/apportion.go over the natural numbers, and
-- that the code agrees with it where no product leaves `int64`.
use load_wave.Prelude.{
  ℕ, zero, suc, ◌+◌, ◌*◌, ◌/◌, ◌%◌, ◌≤◌, ◌<◌, ◌≡◌, refl, ap, List, [], ◌∷◌, map, sum, arith, ℤ, pos,
  negsuc, pos_part, wrap_pos, int64_end,
}
use load_wave.Apportion.{Claim, total_weight, floors, bump, hand_out}

-- A weight that is not positive counts as 0.
abbrev pub weights_of : List ℤ → List ℕ
weights_of = map pos_part

abbrev pub floor_shares : ℕ → ℕ → List ℕ → List ℕ
floor_shares t weight [] = []
floor_shares t weight (w ∷ ws) = t * w / weight ∷ floor_shares t weight ws

abbrev pub claims_from : ℕ → ℕ → ℕ → List ℕ → List Claim
claims_from t weight i [] = []
claims_from t weight i (zero ∷ ws) = claims_from t weight (suc i) ws
claims_from t weight i (suc w ∷ ws) =
    record { index = i; remainder = pos (t * suc w % weight) } ∷ claims_from t weight (suc i) ws

abbrev pub raise_at : ℕ → List ℕ → List ℕ
raise_at i [] = []
raise_at zero (s ∷ ss) = suc s ∷ ss
raise_at (suc i) (s ∷ ss) = s ∷ raise_at i ss

abbrev pub give : ℕ → List Claim → List ℕ → List ℕ
give zero cs ss = ss
give (suc n) [] ss = ss
give (suc n) (c ∷ cs) ss = give n cs (raise_at c.index ss)

pub total_weight_of :
    (acc : ℕ) (ws : List ℤ)
    → acc + sum (weights_of ws) < int64_end
    → total_weight (pos acc) ws ≡ pos (acc + sum (weights_of ws))
unfolding total_weight
total_weight_of acc [] h = ground arith
total_weight_of acc (pos w ∷ ws) h =
    ground (arith, wrap_pos (acc + w), total_weight_of (acc + w) ws, total_weight_of acc ws)
total_weight_of acc (negsuc w ∷ ws) h = ground (arith, total_weight_of acc ws)

-- `floors` over numbers that fit.
pub floors_of :
    (t weight i a : ℕ) (ws : List ℤ)
    → t * sum (weights_of ws) < int64_end
    → a + sum (floor_shares t weight (weights_of ws)) < int64_end
    → floors (pos t) (pos weight) i (pos a) ws ≡ record {
      shares = map pos (floor_shares t weight (weights_of ws));
      claims = claims_from t weight i (weights_of ws);
      assigned = pos (a + sum (floor_shares t weight (weights_of ws)));
    }
unfolding floors
floors_of t weight i a [] h k = ground arith
floors_of t weight i a (pos zero ∷ ws) h k =
    let none_due : t * 0 / weight ≡ 0 = omega arith in
    ground (arith, none_due, floors_of t weight (suc i) a ws (omega arith) (omega arith))
floors_of t weight i a (pos (suc w) ∷ ws) h k = ground (
  arith,
  wrap_pos (t * suc w),
  wrap_pos (a + t * suc w / weight),
  floors_of t weight (suc i) (a + t * suc w / weight) ws (omega arith) (omega arith),
)
floors_of t weight i a (negsuc w ∷ ws) h k =
    let none_due : t * 0 / weight ≡ 0 = omega arith in
    ground (arith, none_due, floors_of t weight (suc i) a ws (omega arith) (omega arith))

raise_at_of :
    (i : ℕ) (ss : List ℕ) → sum ss + 1 < int64_end → bump i (map pos ss) ≡ map pos (raise_at i ss)
unfolding bump
raise_at_of i [] h = refl
raise_at_of zero (s ∷ ss) h = ground (arith, wrap_pos (s + 1))
raise_at_of (suc i) (s ∷ ss) h = ap (λ r. pos s ∷ r) (raise_at_of i ss (omega arith))

sum-raise_at-le : (i : ℕ) (ss : List ℕ) → sum (raise_at i ss) ≤ sum ss + 1
sum-raise_at-le i [] = omega arith
sum-raise_at-le zero (s ∷ ss) = omega arith
sum-raise_at-le (suc i) (s ∷ ss) = omega (arith, sum-raise_at-le i ss)

pub give_of :
    (n : ℕ) (cs : List Claim) (ss : List ℕ)
    → sum ss + n < int64_end
    → hand_out n cs (map pos ss) ≡ map pos (give n cs ss)
unfolding hand_out
give_of zero cs ss h = refl
give_of (suc n) [] ss h = refl
give_of (suc n) (c ∷ cs) ss h =
    rw (raise_at_of c.index ss (omega arith))
      (give_of n cs (raise_at c.index ss) (omega (arith, sum-raise_at-le c.index ss)))
