-- ===== src/Shard/Tests.antt =====
-- Shards and instances for pkg/loadwave/vu.go.
use load_wave.Prelude.{ℕ, ◌%◌, ◌≡◌, ◌↔◌, refl, true, List, [], ◌∷◌, arith, pos, uint_32}
use load_wave.Shard.{Shard, owns, slice, slice_from}
use load_wave.Shard.Partition.{owns_iff}

abbrev second : Shard
second = record { index = 1; count = 3 }

abbrev items : List ℕ
items = 10 ∷ 11 ∷ 12 ∷ 13 ∷ 14 ∷ []

slice_runs : slice second items ≡ 11 ∷ 14 ∷ []
unfolding slice slice_from owns
slice_runs = refl

owns_iff_example : (owns second (pos 4) ≡ true) ↔ (uint_32 (pos 4) % 3 ≡ 1)
owns_iff_example = owns_iff second (pos 4) (omega arith)
