-- ===== src/Apportion/Total.antt =====
-- The sum of the shares of internal/apportion/apportion.go.
use load_wave.Prelude.{
  ℕ, zero, suc, ◌+◌, ◌-◌, ◌*◌, ◌/◌, ◌%◌, ◌≤◌, ◌<◌, ◌≡◌, refl, ap, ◌∙◌, List, [], ◌∷◌, sum, length,
  All, arith, pos_part, Bool-cases, inl, inr,
}
use load_wave.Apportion.{Claim, less, insert, sort}
use load_wave.Apportion.Exact.{floor_shares, claims_from, raise_at, give}

abbrev rems : List Claim → ℕ
rems [] = 0
rems (c ∷ cs) = pos_part c.remainder + rems cs

-- Each product is a floor and a remainder, so the floors and the remainders account for them all.
floors-rems :
    (t weight i : ℕ) (ws : List ℕ)
    → sum (floor_shares t weight ws) * weight + rems (claims_from t weight i ws) ≡ t * sum ws
floors-rems t weight i [] = omega arith
floors-rems t weight i (zero ∷ ws) =
    let none_due : t * 0 / weight ≡ 0 = omega arith in
    rw none_due (omega (arith, floors-rems t weight (suc i) ws))
floors-rems t weight i (suc w ∷ ws) =
    omega (arith, div_mod (t * suc w) weight, floors-rems t weight (suc i) ws)
  where
    div_mod : (a d : ℕ) → a / d * d + a % d ≡ a
    div_mod a d = grind arith

pub rems-lt :
    (t weight i : ℕ) (ws : List ℕ)
    → 0 < weight
    → rems (claims_from t weight i ws) ≤ length (claims_from t weight i ws) * weight
rems-lt t weight i [] h = omega arith
rems-lt t weight i (zero ∷ ws) h = rems-lt t weight (suc i) ws h
rems-lt t weight i (suc w ∷ ws) h =
    let below : t * suc w % weight < weight = grind arith in
    omega (arith, below, rems-lt t weight (suc i) ws h)

-- The floors never exceed the total, and every unit left over has a claim of its own.
pub leftover_bounds :
    (t i : ℕ) (ws : List ℕ)
    → 0 < sum ws
    → (sum (floor_shares t (sum ws) ws) ≤ t)
      × (t ≤ sum (floor_shares t (sum ws) ws) + length (claims_from t (sum ws) i ws))
leftover_bounds t i ws h = (
  le_of_mul (sum ws) _ _ h (omega (arith, floors-rems t (sum ws) i ws)),
  le_of_mul (sum ws) _ _ h (omega (arith, floors-rems t (sum ws) i ws, rems-lt t (sum ws) i ws h)),
)
  where
    le_of_mul : (d a b : ℕ) → 0 < d → a * d ≤ b * d → a ≤ b
    le_of_mul d a b p q = grind arith

length-insert : (c : Claim) (cs : List Claim) → length (insert c cs) ≡ suc (length cs)
unfolding insert
length-insert c [] = refl
length-insert c (d ∷ ds) = ground (arith, length-insert c ds)

pub length-sort : (cs : List Claim) → length (sort cs) ≡ length cs
unfolding sort
length-sort [] = refl
length-sort (c ∷ cs) = omega (arith, length-insert c (sort cs), length-sort cs)

module _ (P : Claim → Type 0) where
  All-insert : (c : Claim) (cs : List Claim) → P c → All P cs → All P (insert c cs)
  unfolding insert
  All-insert c [] p h = (p, tt)
  All-insert c (d ∷ ds) p h = elim (Bool-cases (less d c)) [
    | inl e ↦ rw e (h.0, All-insert c ds p h.1)
    | inr e ↦ rw e (p, h)
  ]

  pub All-sort : (cs : List Claim) → All P cs → All P (sort cs)
  unfolding sort
  All-sort [] h = h
  All-sort (c ∷ cs) h = All-insert c (sort cs) h.0 (All-sort cs h.1)

length-raise_at : (i : ℕ) (ss : List ℕ) → length (raise_at i ss) ≡ length ss
length-raise_at i [] = refl
length-raise_at zero (s ∷ ss) = refl
length-raise_at (suc i) (s ∷ ss) = ap suc (length-raise_at i ss)

sum-raise_at : (i : ℕ) (ss : List ℕ) → i < length ss → sum (raise_at i ss) ≡ sum ss + 1
sum-raise_at i [] h = elim h [ ]
sum-raise_at zero (s ∷ ss) h = omega arith
sum-raise_at (suc i) (s ∷ ss) h = omega (arith, sum-raise_at i ss (omega arith))

pub length-give : (n : ℕ) (cs : List Claim) (ss : List ℕ) → length (give n cs ss) ≡ length ss
length-give zero cs ss = refl
length-give (suc n) [] ss = refl
length-give (suc n) (c ∷ cs) ss =
    length-give n cs (raise_at c.index ss) ∙ length-raise_at c.index ss

abbrev Below : ℕ → Claim → Type 0
Below n c = c.index < n

sum-give :
    (n : ℕ) (cs : List Claim) (ss : List ℕ)
    → n ≤ length cs
    → All (Below (length ss)) cs
    → sum (give n cs ss) ≡ sum ss + n
sum-give zero cs ss h p = omega arith
sum-give (suc n) [] ss h p = elim h [ ]
sum-give (suc n) (c ∷ cs) ss h p = omega (
  arith,
  sum-raise_at c.index ss p.0,
  sum-give n cs (raise_at c.index ss) (omega arith) (rw (length-raise_at c.index ss) p.1),
)

Below-claims_from :
    (n t weight i : ℕ) (ws : List ℕ) → i + length ws ≤ n → All (Below n) (claims_from t weight i ws)
Below-claims_from n t weight i [] h = tt
Below-claims_from n t weight i (zero ∷ ws) h = Below-claims_from n t weight (suc i) ws (omega arith)
Below-claims_from n t weight i (suc w ∷ ws) h =
    (omega arith, Below-claims_from n t weight (suc i) ws (omega arith))

pub length-floor_shares :
    (t weight : ℕ) (ws : List ℕ) → length (floor_shares t weight ws) ≡ length ws
length-floor_shares t weight [] = refl
length-floor_shares t weight (w ∷ ws) = ap suc (length-floor_shares t weight ws)

-- The shares over the natural numbers.
abbrev pub exact : ℕ → List ℕ → List ℕ
exact t ws =
    let ss = floor_shares t (sum ws) ws in give (t - sum ss) (sort (claims_from t (sum ws) 0 ws)) ss

pub sum-exact : (t : ℕ) (ws : List ℕ) → 0 < sum ws → sum (exact t ws) ≡ t
sum-exact t ws h = omega (
  arith,
  leftover_bounds t 0 ws h,
  sum-give (t - sum (floor_shares t (sum ws) ws)) (sort (claims_from t (sum ws) 0 ws))
      (floor_shares t (sum ws) ws)
      (omega (arith, leftover_bounds t 0 ws h, length-sort (claims_from t (sum ws) 0 ws)))
      (rw (length-floor_shares t (sum ws) ws) (
        All-sort (Below (length ws)) (claims_from t (sum ws) 0 ws)
          (Below-claims_from (length ws) t (sum ws) 0 ws (omega arith)))),
)
