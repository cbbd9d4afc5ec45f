-- ===== src/Apportion/Lengths.antt =====
-- How many shares `Largest` of internal/apportion/apportion.go returns.
use load_wave.Prelude.{
  wrap, quot, ◌+ℤ◌, ◌*ℤ◌, ◌-ℤ◌, ℕ, zero, suc, ◌≡◌, refl, List, [], ◌∷◌, length, arith, ℤ, pos,
  pos_part, length-replicate,
}
use load_wave.Apportion.{
  Claim, Floors, total_weight, floors, sort, bump, hand_out, share_out, largest,
}

length-floors :
    (total weight : ℤ) (i : ℕ) (a : ℤ) (ws : List ℤ)
    → length (floors total weight i a ws).shares ≡ length ws
unfolding floors
length-floors total weight i a [] = refl
length-floors total weight i a (w ∷ ws) = ground (
  arith,
  length-floors total weight (suc i) (wrap (a +ℤ quot (wrap (total *ℤ w)) weight)) ws,
  length-floors total weight (suc i) a ws,
)

length-bump : (i : ℕ) (ss : List ℤ) → length (bump i ss) ≡ length ss
unfolding bump
length-bump i [] = refl
length-bump zero (s ∷ ss) = refl
length-bump (suc i) (s ∷ ss) = ground (arith, length-bump i ss)

length-hand_out : (n : ℕ) (cs : List Claim) (ss : List ℤ) → length (hand_out n cs ss) ≡ length ss
unfolding hand_out
length-hand_out zero cs ss = refl
length-hand_out (suc n) [] ss = refl
length-hand_out (suc n) (c ∷ cs) ss =
    ground (arith, length-bump c.index ss, length-hand_out n cs (bump c.index ss))

length-share_out : (n : ℤ) (f : Floors) → length (share_out n f) ≡ length f.shares
unfolding share_out
length-share_out n f = ground (arith, length-hand_out (pos_part n) (sort f.claims) f.shares)

-- There is one share for each weight, whatever the total and the weights are, overflow included.
pub length-largest : (total : ℤ) (ws : List ℤ) → length (largest total ws) ≡ length ws
unfolding largest
length-largest total ws =
    let weight = total_weight (pos 0) ws in
    let f = floors total weight 0 (pos 0) ws in
    ground (
      arith,
      length-replicate (length ws) (pos 0),
      length-floors total weight 0 (pos 0) ws,
      length-share_out (wrap (total -ℤ f.assigned)) f,
    )
