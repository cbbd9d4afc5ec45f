-- ===== src/Apportion/Order.antt =====
-- The order in which internal/apportion/apportion.go hands out the units left over.
use load_wave.Prelude.{
  ℕ, zero, suc, ◌+◌, ◌-◌, ◌*◌, ◌%◌, ◌≤◌, ◌<◌, ◌≡◌, ap, ◌∙◌, List, [], ◌∷◌, sum, All, arith, ◌==◌,
  pos, Bool-cases, inl, inr, true, false, take, get_elem?, some,
}
use load_wave.Apportion.{Claim, less, insert, sort}
use load_wave.Apportion.Exact.{floor_shares, claims_from}
use load_wave.Apportion.Total.{All-sort}
use load_wave.Apportion.Quota.{hits, hits-sort, hits_at, extra}

less_asymm : (a b : Claim) → less a b ≡ true → less b a ≡ false
unfolding less
less_asymm a b h = ground arith

less_trans : (a b c : Claim) → less b a ≡ false → less c b ≡ false → less c a ≡ false
unfolding less
less_trans a b c h k = ground arith

-- No claim of the list is before `c` in the order.
abbrev NoneBefore : Claim → List Claim → Type 0
NoneBefore c = All (λ d. less d c ≡ false)

abbrev IsSorted : List Claim → Type 0
IsSorted [] = Unit
IsSorted (c ∷ cs) = NoneBefore c cs × IsSorted cs

NoneBefore-trans :
    (a b : Claim) (cs : List Claim) → less b a ≡ false → NoneBefore b cs → NoneBefore a cs
NoneBefore-trans a b [] h p = tt
NoneBefore-trans a b (c ∷ cs) h p = (less_trans a b c h p.0, NoneBefore-trans a b cs h p.1)

NoneBefore-insert :
    (a c : Claim) (cs : List Claim)
    → less c a ≡ false
    → NoneBefore a cs
    → NoneBefore a (insert c cs)
unfolding insert
NoneBefore-insert a c [] h p = (h, tt)
NoneBefore-insert a c (d ∷ ds) h p = elim (Bool-cases (less d c)) [
  | inl e ↦ rw e (p.0, NoneBefore-insert a c ds h p.1)
  | inr e ↦ rw e (h, p)
]

insert-IsSorted : (c : Claim) (cs : List Claim) → IsSorted cs → IsSorted (insert c cs)
unfolding insert
insert-IsSorted c [] h = (tt, tt)
insert-IsSorted c (d ∷ ds) h = elim (Bool-cases (less d c)) [
  | inl e ↦ rw e (NoneBefore-insert d c ds (less_asymm d c e) h.0, insert-IsSorted c ds h.1)
  | inr e ↦ rw e ((e, NoneBefore-trans c d ds e h.0), h)
]

sort-IsSorted : (cs : List Claim) → IsSorted (sort cs)
unfolding sort
sort-IsSorted [] = tt
sort-IsSorted (c ∷ cs) = insert-IsSorted c (sort cs) (sort-IsSorted cs)

-- The remainders that the claims carry are a function of their indices.
module _ (r : ℕ → ℕ) where
  abbrev Carries : Claim → Type 0
  Carries c = c.remainder ≡ pos (r c.index)

  -- Index `i` is not after index `j` in the order.
  abbrev Precedes : ℕ → ℕ → Type 0
  Precedes i j = (r j ≤ r i) × (r j ≡ r i → i ≤ j)

  Precedes-of_less :
      (c d : Claim) → Carries c → Carries d → less d c ≡ false → Precedes c.index d.index
  unfolding less
  Precedes-of_less c d p q h = ground arith

  Precedes-found :
      (j : ℕ) (c : Claim) (cs : List Claim)
      → Carries c
      → All Carries cs
      → NoneBefore c cs
      → 0 < hits j cs
      → Precedes c.index j
  Precedes-found j c [] p q s h = elim h [ ]
  Precedes-found j c (d ∷ ds) p q s h = elim (Bool-cases (d.index == j)) [
    | inl e ↦ ground (arith, Precedes-of_less c d p q.0 s.0)
    | inr e ↦ Precedes-found j c ds p q.1 s.1 (ground arith)
  ]

  -- A claim among the first `n` of a sorted list is not after one that is not among them.
  Precedes-of_take :
      (n i j : ℕ) (cs : List Claim)
      → All Carries cs
      → IsSorted cs
      → 0 < hits i (take n cs)
      → hits j (take n cs) ≡ 0
      → 0 < hits j cs
      → Precedes i j
  Precedes-of_take zero i j cs q s h k l = elim h [ ]
  Precedes-of_take (suc n) i j [] q s h k l = elim h [ ]
  Precedes-of_take (suc n) i j (c ∷ cs) q s h k l = elim (Bool-cases (c.index == i)) [
    | inl e ↦ ground (arith, Precedes-found j c cs q.0 q.1 s.0)
    | inr e ↦ Precedes-of_take n i j cs q.1 s.1 (ground arith) (ground arith) (ground arith)
  ]

abbrev weight_at : List ℕ → ℕ → ℕ
weight_at [] i = 0
weight_at (w ∷ ws) zero = w
weight_at (w ∷ ws) (suc i) = weight_at ws i

weight_at_of : (ws : List ℕ) (i w : ℕ) → get_elem? ws i ≡ some w → weight_at ws i ≡ w
weight_at_of [] i w h = cc
weight_at_of (v ∷ ws) zero w h = cc
weight_at_of (v ∷ ws) (suc i) w h = weight_at_of ws i w h

module _ (t weight : ℕ) (all : List ℕ) where
  -- `ws` is what is left of `all` from index `k` on.
  abbrev IsRest : ℕ → List ℕ → Type 0
  IsRest k ws = (i : ℕ) → weight_at all (k + i) ≡ weight_at ws i

  IsRest-tail : (k w : ℕ) (ws : List ℕ) → IsRest k (w ∷ ws) → IsRest (suc k) ws
  IsRest-tail k w ws h i = let shift : suc k + i ≡ k + suc i = omega arith in rw shift (h (suc i))

  IsRest-head : (k w : ℕ) (ws : List ℕ) → IsRest k (w ∷ ws) → weight_at all k ≡ w
  IsRest-head k w ws h = let same : k ≡ k + 0 = omega arith in ap (weight_at all) same ∙ h 0

  Carries-claims_from :
      (k : ℕ) (ws : List ℕ)
      → IsRest k ws
      → All (Carries (λ i. t * weight_at all i % weight)) (claims_from t weight k ws)
  Carries-claims_from k [] h = tt
  Carries-claims_from k (zero ∷ ws) h = Carries-claims_from (suc k) ws (IsRest-tail k zero ws h)
  Carries-claims_from k (suc w ∷ ws) h =
      (rw (IsRest-head k (suc w) ws h), Carries-claims_from (suc k) ws (IsRest-tail k (suc w) ws h))

-- If claimant `i` gets a unit beyond its floor and claimant `j`, of positive weight, does not, then
-- the remainder of `i` is at least that of `j`, and if they are equal then `i` is not after `j`.
pub extra_order :
    (t i j v w : ℕ) (ws : List ℕ)
    → get_elem? ws i ≡ some v
    → get_elem? ws j ≡ some w
    → 0 < w
    → 0 < extra t ws i
    → extra t ws j ≡ 0
    → (t * w % sum ws ≤ t * v % sum ws) × (t * w % sum ws ≡ t * v % sum ws → i ≤ j)
unfolding extra
extra_order t i j v w ws hv hw p gi gj =
    rw (weight_at_of ws i v hv, weight_at_of ws j w hw) at
      (Precedes-of_take (λ k. t * weight_at ws k % sum ws) (t - sum (floor_shares t (sum ws) ws)) i
        j (sort (claims_from t (sum ws) 0 ws))
        (All-sort (Carries (λ k. t * weight_at ws k % sum ws)) (claims_from t (sum ws) 0 ws)
          (Carries-claims_from t (sum ws) ws 0 ws (λ k. ap (weight_at ws) (omega arith))))
        (sort-IsSorted (claims_from t (sum ws) 0 ws)) gi gj
        (ground
          (arith, hits-sort j (claims_from t (sum ws) 0 ws), hits_at t (sum ws) j j 0 ws w hw)))
