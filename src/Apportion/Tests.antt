-- ===== src/Apportion/Tests.antt =====
-- Runs and instances for internal/apportion/apportion.go.
use load_wave.Prelude.{
  ℕ, ◌+◌, ◌*◌, ◌/◌, ◌≤◌, ◌≡◌, refl, List, [], ◌∷◌, map, sum, length, arith, some, get_elem?, ℤ, pos,
  negsuc, wrap,
}
use load_wave.Apportion.{
  floors, total_weight, less, insert, sort, bump, hand_out, share_out, largest,
}
use load_wave.Apportion.Shares.{IsFair, largest_total, largest_quota}

abbrev weights : List ℤ
weights = pos 3 ∷ negsuc 4 ∷ pos 3 ∷ pos 1 ∷ []

runs : largest (pos 11) weights ≡ pos 5 ∷ pos 0 ∷ pos 5 ∷ pos 1 ∷ []
unfolding largest total_weight floors share_out sort insert less hand_out bump wrap
runs = refl

fair : IsFair 11 weights
fair = record { some_total = omega arith; some_weight = omega arith; fits = omega arith }

largest_total_example :
    (ss : List ℕ) × (largest (pos 11) weights ≡ map pos ss) × (length ss ≡ 4) × (sum ss ≡ 11)
largest_total_example = largest_total 11 weights fair

largest_quota_example :
    (s : ℕ) × (get_elem? (largest (pos 11) weights) 0 ≡ some (pos s))
    × (11 * 3 / 7 ≤ s)
    × (s ≤ 11 * 3 / 7 + 1)
    × (◌≡◌ {A = ℕ} 3 0 → s ≡ 0)
largest_quota_example = largest_quota 11 weights 0 (pos 3) fair refl
