-- ===== src/Apportion/Shares.antt =====
-- What `Largest` and `Equal` of internal/apportion/apportion.go return.
use load_wave.Prelude.{
  ℕ, zero, suc, ◌+◌, ◌-◌, ◌*◌, ◌/◌, ◌%◌, ◌≤◌, ◌<◌, ◌≡◌, refl, ap, ◌∙◌, List, [], ◌∷◌, map, sum,
  length, arith, if◌then◌else◌, ◌==◌, ltb, leb_ℤ, ℤ, pos, pos_part, inl, inr, ◌⊎◌, true, false,
  get_elem?, some, int64_end, wrap_pos, replicate, length-map,
}
use load_wave.Apportion.{Claim, total_weight, floors, sort, share_out, largest, equal}
use load_wave.Apportion.Exact.{
  weights_of, floor_shares, claims_from, give, total_weight_of, floors_of, give_of,
}
use load_wave.Apportion.Total.{exact, leftover_bounds, length-give, length-floor_shares, sum-exact}
use load_wave.Apportion.Quota.{extra, extra-le, get_elem?-exact}
use load_wave.Apportion.Order.{extra_order}
use load_wave.Apportion.Even.{extra-even}

-- A total and weights for which the code computes shares, and no product leaves `int64`.
pub record IsFair (t : ℕ) (ws : List ℤ) : Type 0 where
  pub some_total : 0 < t
  pub some_weight : 0 < sum (weights_of ws)
  pub fits : t * sum (weights_of ws) < int64_end

length-pos : (ws : List ℤ) → 0 < sum (weights_of ws) → (length ws == 0) ≡ false
length-pos [] h = elim h [ ]
length-pos (w ∷ ws) h = ground arith

share_out_of :
    (n : ℕ) (cs : List Claim) (ss : List ℕ) (a : ℤ)
    → sum ss + n < int64_end
    → share_out (pos n) (record { shares = map pos ss; claims = cs; assigned = a })
      ≡ map pos (give n (sort cs) ss)
unfolding share_out
share_out_of zero cs ss a h = refl
share_out_of (suc n) cs ss a h = ground (arith, give_of (suc n) (sort cs) ss h)

module _ (t : ℕ) (ws : List ℤ) (h : IsFair t ws) where
  fits_total : t < int64_end
  fits_total = grind (arith, h.some_weight, h.fits)

  fits_weight : sum (weights_of ws) < int64_end
  fits_weight = grind (arith, h.some_total, h.fits)

  weight_is : total_weight (pos 0) ws ≡ pos (sum (weights_of ws))
  weight_is = total_weight_of 0 ws (omega (arith, fits_weight)) ∙ ap pos (omega arith)

  abbrev given : ℕ
  given = sum (floor_shares t (sum (weights_of ws)) (weights_of ws))

  given_le : given ≤ t
  given_le = (leftover_bounds t 0 (weights_of ws) h.some_weight).0

  floors_are : floors (pos t) (pos (sum (weights_of ws))) 0 (pos 0) ws ≡ record {
    shares = map pos (floor_shares t (sum (weights_of ws)) (weights_of ws));
    claims = claims_from t (sum (weights_of ws)) 0 (weights_of ws);
    assigned = pos given;
  }
  floors_are =
      ground (
        arith,
        floors_of t (sum (weights_of ws)) 0 0 ws h.fits (omega (arith, given_le, fits_total)),
      )

  -- The code's result, over the natural numbers.
  pub largest_of : largest (pos t) ws ≡ map pos (exact t (weights_of ws))
  unfolding largest
  largest_of =
      rw (weight_is, floors_are, length-pos ws h.some_weight)
        (ground (
          arith,
          h.some_total,
          h.some_weight,
          given_le,
          wrap_pos (t - given) (omega (arith, fits_total)),
          share_out_of (t - given) (claims_from t (sum (weights_of ws)) 0 (weights_of ws))
              (floor_shares t (sum (weights_of ws)) (weights_of ws)) (pos given)
              (omega (arith, given_le, fits_total)),
        ))

get_elem?-map {ℓ κ} :
    {A : Type ℓ} {B : Type κ} (f : A → B) (i : ℕ) (xs : List A) (x : A)
    → get_elem? xs i ≡ some x
    → get_elem? (map f xs) i ≡ some (f x)
get_elem?-map f i [] x h = cc
get_elem?-map f zero (y ∷ xs) x h = cc
get_elem?-map f (suc i) (y ∷ xs) x h = get_elem?-map f i xs x h

-- The share of claimant `i` is its floor and its extra unit.
share_of :
    (t : ℕ) (ws : List ℤ) (i : ℕ) (w : ℤ)
    → IsFair t ws
    → get_elem? ws i ≡ some w
    → get_elem? (largest (pos t) ws) i
      ≡ some (pos (t * pos_part w / sum (weights_of ws) + extra t (weights_of ws) i))
share_of t ws i w h e = rw (largest_of t ws h) (
    get_elem?-map pos i (exact t (weights_of ws)) _
      (get_elem?-exact t i (weights_of ws) (pos_part w) (get_elem?-map pos_part i ws w e)))

-- For a positive total and at least one positive weight, with the products inside `int64`, the
-- shares are natural numbers, as many as the weights, and their sum is exactly the total.
pub largest_total :
    (t : ℕ) (ws : List ℤ)
    → IsFair t ws
    → (ss : List ℕ) × (largest (pos t) ws ≡ map pos ss) × (length ss ≡ length ws) × (sum ss ≡ t)
largest_total t ws h = (
  exact t (weights_of ws),
  largest_of t ws h,
  length-give (t - given t ws h) (sort (claims_from t (sum (weights_of ws)) 0 (weights_of ws))) _
      ∙ length-floor_shares t (sum (weights_of ws)) (weights_of ws)
      ∙ length-map ws pos_part,
  sum-exact t (weights_of ws) h.some_weight,
)

-- Under the same conditions each share is the floor of the exact proportional share or one more,
-- and a claimant whose weight is not positive gets 0.
pub largest_quota :
    (t : ℕ) (ws : List ℤ) (i : ℕ) (w : ℤ)
    → IsFair t ws
    → get_elem? ws i ≡ some w
    → (s : ℕ) × (get_elem? (largest (pos t) ws) i ≡ some (pos s))
      × (t * pos_part w / sum (weights_of ws) ≤ s)
      × (s ≤ t * pos_part w / sum (weights_of ws) + 1)
      × (pos_part w ≡ 0 → s ≡ 0)
largest_quota t ws i w h e =
    let bound = extra-le t i (weights_of ws) (pos_part w) (get_elem?-map pos_part i ws w e) in
    (
      t * pos_part w / sum (weights_of ws) + extra t (weights_of ws) i,
      share_of t ws i w h e,
      omega arith,
      ground (arith, bound),
      λ z.
          let none_due : t * 0 / sum (weights_of ws) ≡ 0 = omega arith in
          rw z (ground (arith, bound, none_due)),
    )

-- Under the same conditions, if claimant `i` gets one unit beyond its floor while claimant `j`, of
-- positive weight, gets only its floor, then the remainder of `i` is at least that of `j`, and where
-- the remainders are equal `i` is not after `j`.
pub largest_order :
    (t : ℕ) (ws : List ℤ) (i j v w : ℕ)
    → IsFair t ws
    → get_elem? ws i ≡ some (pos v)
    → get_elem? ws j ≡ some (pos w)
    → 0 < w
    → get_elem? (largest (pos t) ws) i ≡ some (pos (t * v / sum (weights_of ws) + 1))
    → get_elem? (largest (pos t) ws) j ≡ some (pos (t * w / sum (weights_of ws)))
    → (t * w % sum (weights_of ws) ≤ t * v % sum (weights_of ws))
      × (t * w % sum (weights_of ws) ≡ t * v % sum (weights_of ws) → i ≤ j)
largest_order t ws i j v w h ei ej p gi gj =
    extra_order t i j v w (weights_of ws) (get_elem?-map pos_part i ws (pos v) ei)
      (get_elem?-map pos_part j ws (pos w) ej) p (ground (arith, share_of t ws i (pos v) h ei))
      (ground (arith, share_of t ws j (pos w) h ej))

-- If the total or every weight is not positive, each claimant gets 0.
pub largest_nothing :
    (total : ℤ) (ws : List ℤ)
    → (leb_ℤ total (pos 0) ≡ true) ⊎ (sum (weights_of ws) ≡ 0)
    → largest total ws ≡ replicate (length ws) (pos 0)
unfolding largest
largest_nothing total ws (inl e) = rw e
largest_nothing total ws (inr e) = ground (arith, total_weight_of 0 ws (omega arith))

weights-even : (n : ℕ) → weights_of (replicate n (pos 1)) ≡ replicate n 1
weights-even zero = refl
weights-even (suc n) = ap (λ r. 1 ∷ r) (weights-even n)

sum-even : (n : ℕ) → sum (replicate n 1) ≡ n
sum-even zero = refl
sum-even (suc n) = omega (arith, sum-even n)

get_elem?-replicate {ℓ} :
    {A : Type ℓ} (n i : ℕ) (a : A) → i < n → get_elem? (replicate n a) i ≡ some a
get_elem?-replicate zero i a h = elim h [ ]
get_elem?-replicate (suc n) zero a h = refl
get_elem?-replicate (suc n) (suc i) a h = get_elem?-replicate n i a (omega arith)

IsFair-even : (t n : ℕ) → 0 < t → 0 < n → t * n < int64_end → IsFair t (replicate n (pos 1))
IsFair-even t n p q k =
    let whole : sum (weights_of (replicate n (pos 1))) ≡ n = ap sum (weights-even n) ∙ sum-even n in
    record { some_total = p; some_weight = omega arith; fits = rw whole k }

even_share :
    (t n i : ℕ)
    → 0 < t
    → i < n
    → t * n < int64_end
    → get_elem? (largest (pos t) (replicate n (pos 1))) i
      ≡ some (pos (t / n + (if ltb i (t % n) then 1 else 0)))
even_share t n i p h k =
    rw (weights-even n, sum-even n, extra-even t n i (omega arith) h) at
      (share_of t (replicate n (pos 1)) i (pos 1) (IsFair-even t n p (omega arith) k)
        (get_elem?-replicate n i (pos 1) h))
    ∙ ap (λ (q : ℕ). some (pos (q / n + (if ltb i (t % n) then 1 else 0)))) (omega arith)

-- `Equal` of a positive total over n claimants, with their product inside `int64`, gives claimant
-- `i` the quotient, and one more exactly if `i` is below the remainder.
pub equal_lem :
    (t n i : ℕ)
    → 0 < t
    → i < n
    → t * n < int64_end
    → get_elem? (equal (pos t) (pos n)) i ≡ some (pos (t / n + (if ltb i (t % n) then 1 else 0)))
unfolding equal
equal_lem t n i p h k = ground (arith, even_share t n i p h k)
