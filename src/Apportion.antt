-- ===== src/Apportion.antt =====
-- internal/apportion/apportion.go: the largest remainder method over Go's 64-bit `int`.
pub mod Exact
mod Total
pub mod Lengths
mod Quota
mod Order
pub mod Shares
mod Even
mod Tests
use load_wave.Prelude.{
  ℕ, zero, suc, ◌+◌, Bool, true, false, not, ◌||◌, List, [], ◌∷◌, length, replicate, map,
  if◌then◌else◌, ltb, leb_ℤ, eqb_ℤ, ltb_ℤ, is_pos, ◌==◌, ℤ, pos, pos_part, ◌+ℤ◌, ◌-ℤ◌, ◌*ℤ◌, quot,
  rem, wrap,
}

-- `claim`: a claimant's index and its discarded fraction, scaled by the total weight.
pub record Claim : Type 0 where
  pub index : ℕ
  pub remainder : ℤ

-- The first loop: the sum of the positive weights.
unfoldable pub total_weight : ℤ → List ℤ → ℤ
total_weight acc [] = acc
total_weight acc (w ∷ ws) = total_weight (if is_pos w then wrap (acc +ℤ w) else acc) ws

-- What the second loop leaves in its three variables.
pub record Floors : Type 0 where
  pub shares : List ℤ
  pub claims : List Claim
  pub assigned : ℤ

-- The second loop from index `i` on: floors, claims, and the sum of the floors.
unfoldable pub floors : ℤ → ℤ → ℕ → ℤ → List ℤ → Floors
floors total weight i assigned [] = record { shares = []; claims = []; assigned = assigned }
floors total weight i assigned (w ∷ ws) =
    let exact = wrap (total *ℤ w) in
    let share = quot exact weight in
    let counted = floors total weight (suc i) (wrap (assigned +ℤ share)) ws in
    let skipped = floors total weight (suc i) assigned ws in
    if is_pos w
    then record {
      shares = share ∷ counted.shares;
      claims = record { index = i; remainder = rem exact weight } ∷ counted.claims;
      assigned = counted.assigned;
    }
    else record skipped { shares = pos 0 ∷ skipped.shares }

-- The order that the claims are sorted by.
unfoldable pub less : Claim → Claim → Bool
less a b =
    if eqb_ℤ a.remainder b.remainder then ltb a.index b.index else ltb_ℤ b.remainder a.remainder

-- `sort.SliceStable`: an element is placed before the first one that is not less than it.
unfoldable pub insert : Claim → List Claim → List Claim
insert c [] = c ∷ []
insert c (d ∷ ds) = if less d c then d ∷ insert c ds else c ∷ d ∷ ds

unfoldable pub sort : List Claim → List Claim
sort [] = []
sort (c ∷ cs) = insert c (sort cs)

-- `shares[i]++`
unfoldable pub bump : ℕ → List ℤ → List ℤ
bump i [] = []
bump zero (s ∷ ss) = wrap (s +ℤ pos 1) ∷ ss
bump (suc i) (s ∷ ss) = s ∷ bump i ss

-- The last loop: one unit to each of the first `leftover` claims.
unfoldable pub hand_out : ℕ → List Claim → List ℤ → List ℤ
hand_out zero cs shares = shares
hand_out (suc n) [] shares = shares
hand_out (suc n) (c ∷ cs) shares = hand_out n cs (bump c.index shares)

unfoldable pub share_out : ℤ → Floors → List ℤ
unfolding sort hand_out
share_out leftover f =
    if leb_ℤ leftover (pos 0)
    then f.shares
    else hand_out (pos_part leftover) (sort f.claims) f.shares

unfoldable pub largest : ℤ → List ℤ → List ℤ
largest total weights =
    let none_given = replicate (length weights) (pos 0) in
    if leb_ℤ total (pos 0) || (length weights == 0)
    then none_given
    else let weight = total_weight (pos 0) weights in
      if eqb_ℤ weight (pos 0)
      then none_given
      else let f = floors total weight 0 (pos 0) weights in share_out (wrap (total -ℤ f.assigned)) f

-- `make([]int, n)` filled with ones, for positive n.
unfoldable pub equal : ℤ → ℤ → List ℤ
equal total n = if leb_ℤ n (pos 0) then [] else largest total (replicate (pos_part n) (pos 1))
