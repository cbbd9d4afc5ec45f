-- ===== src/Shard.antt =====
-- The shards of the items of a run, pkg/loadwave/vu.go.
mod Partition
mod Tests
use load_wave.Prelude.{
  ℕ, suc, ◌%◌, Bool, true, List, [], ◌∷◌, if◌then◌else◌, leb, ◌==◌, ℤ, pos, uint_32,
}

-- `Shard`
pub record Shard : Type 0 where
  pub index : ℕ
  pub count : ℕ

-- `Shard.Owns`
unfoldable pub owns : Shard → ℤ → Bool
owns s i = if leb s.count 1 then true else (uint_32 i % s.count == s.index)

-- The loop of `Slice`, from an index on.
unfoldable pub slice_from {ℓ} : {A : Type ℓ} → Shard → ℕ → List A → List A
slice_from s i [] = []
slice_from s i (x ∷ xs) =
    let rest = slice_from s (suc i) xs in if owns s (pos i) then x ∷ rest else rest

-- `Slice`
unfoldable pub slice {ℓ} : {A : Type ℓ} → Shard → List A → List A
slice s items = if leb s.count 1 then items else slice_from s 0 items
