-- ===== src/Apportion/Quota.antt =====
-- What each claimant of internal/apportion/apportion.go gets: its floor, and at most one unit more.
use load_wave.Prelude.{
  ℕ, zero, suc, ◌+◌, ◌-◌, ◌*◌, ◌/◌, ◌≤◌, ◌<◌, ◌≡◌, refl, ap, ◌∙◌, List, [], ◌∷◌, sum, arith,
  if◌then◌else◌, ◌==◌, Bool-cases, inl, inr, take, get_elem?, some,
}
use load_wave.Apportion.{Claim, less, insert, sort}
use load_wave.Apportion.Exact.{floor_shares, claims_from, raise_at, give}
use load_wave.Apportion.Total.{exact}

-- How many of the claims are those of index `i`.
abbrev pub hits : ℕ → List Claim → ℕ
hits i [] = 0
hits i (c ∷ cs) = (if c.index == i then 1 else 0) + hits i cs

get_elem?-raise_at :
    (j i : ℕ) (ss : List ℕ) (s : ℕ)
    → get_elem? ss i ≡ some s
    → get_elem? (raise_at j ss) i ≡ some (s + (if j == i then 1 else 0))
get_elem?-raise_at j i [] s h = cc
get_elem?-raise_at zero zero (x ∷ ss) s h = ground arith
get_elem?-raise_at zero (suc i) (x ∷ ss) s h = ground arith
get_elem?-raise_at (suc j) zero (x ∷ ss) s h = ground arith
get_elem?-raise_at (suc j) (suc i) (x ∷ ss) s h = ground (arith, get_elem?-raise_at j i ss s h)

get_elem?-give :
    (n : ℕ) (cs : List Claim) (ss : List ℕ) (i s : ℕ)
    → get_elem? ss i ≡ some s
    → get_elem? (give n cs ss) i ≡ some (s + hits i (take n cs))
get_elem?-give zero cs ss i s h = ground arith
get_elem?-give (suc n) [] ss i s h = ground arith
get_elem?-give (suc n) (c ∷ cs) ss i s h =
    get_elem?-give n cs (raise_at c.index ss) i (s + (if c.index == i then 1 else 0))
      (get_elem?-raise_at c.index i ss s h)
    ∙ ap some (omega arith)

hits-take-le : (n i : ℕ) (cs : List Claim) → hits i (take n cs) ≤ hits i cs
hits-take-le zero i cs = omega arith
hits-take-le (suc n) i [] = omega arith
hits-take-le (suc n) i (c ∷ cs) = omega (arith, hits-take-le n i cs)

hits-insert : (i : ℕ) (c : Claim) (cs : List Claim) → hits i (insert c cs) ≡ hits i (c ∷ cs)
unfolding insert
hits-insert i c [] = refl
hits-insert i c (d ∷ ds) = elim (Bool-cases (less d c)) [
  | inl e ↦ rw e (omega (arith, hits-insert i c ds))
  | inr e ↦ rw e
]

pub hits-sort : (i : ℕ) (cs : List Claim) → hits i (sort cs) ≡ hits i cs
unfolding sort
hits-sort i [] = refl
hits-sort i (c ∷ cs) = omega (arith, hits-insert i c (sort cs), hits-sort i cs)

module _ (t weight : ℕ) where
  hits_before : (i k : ℕ) (ws : List ℕ) → i < k → hits i (claims_from t weight k ws) ≡ 0
  hits_before i k [] h = refl
  hits_before i k (zero ∷ ws) h = hits_before i (suc k) ws (omega arith)
  hits_before i k (suc w ∷ ws) h = ground (arith, hits_before i (suc k) ws (omega arith))

  -- A claimant has one claim if its weight is positive, and none if it is 0.
  pub hits_at :
      (i j k : ℕ) (ws : List ℕ) (w : ℕ)
      → get_elem? ws j ≡ some w
      → i ≡ k + j
      → hits i (claims_from t weight k ws) ≡ (if w == 0 then 0 else 1)
  hits_at i j k [] w h e = cc
  hits_at i zero k (zero ∷ ws) w h e = ground (arith, hits_before i (suc k) ws (omega arith))
  hits_at i zero k (suc v ∷ ws) w h e = ground (arith, hits_before i (suc k) ws (omega arith))
  hits_at i (suc j) k (zero ∷ ws) w h e = hits_at i j (suc k) ws w h (omega arith)
  hits_at i (suc j) k (suc v ∷ ws) w h e = ground (arith, hits_at i j (suc k) ws w h (omega arith))

  pub get_elem?-floor_shares :
      (i : ℕ) (ws : List ℕ) (w : ℕ)
      → get_elem? ws i ≡ some w
      → get_elem? (floor_shares t weight ws) i ≡ some (t * w / weight)
  get_elem?-floor_shares i [] w h = cc
  get_elem?-floor_shares zero (v ∷ ws) w h = cc
  get_elem?-floor_shares (suc i) (v ∷ ws) w h = get_elem?-floor_shares i ws w h

-- How many units claimant `i` gets beyond its floor.
unfoldable pub extra : ℕ → List ℕ → ℕ → ℕ
extra t ws i =
    hits i (take (t - sum (floor_shares t (sum ws) ws)) (sort (claims_from t (sum ws) 0 ws)))

pub get_elem?-exact :
    (t i : ℕ) (ws : List ℕ) (w : ℕ)
    → get_elem? ws i ≡ some w
    → get_elem? (exact t ws) i ≡ some (t * w / sum ws + extra t ws i)
unfolding extra
get_elem?-exact t i ws w h =
    get_elem?-give _ _ _ i (t * w / sum ws) (get_elem?-floor_shares t (sum ws) i ws w h)

pub extra-le :
    (t i : ℕ) (ws : List ℕ) (w : ℕ)
    → get_elem? ws i ≡ some w
    → extra t ws i ≤ (if w == 0 then 0 else 1)
unfolding extra
extra-le t i ws w h = omega (
  arith,
  hits-take-le (t - sum (floor_shares t (sum ws) ws)) i (sort (claims_from t (sum ws) 0 ws)),
  hits-sort i (claims_from t (sum ws) 0 ws),
  hits_at t (sum ws) i i 0 ws w h (omega arith),
)
