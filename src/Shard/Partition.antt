-- ===== src/Shard/Partition.antt =====
-- The shards of pkg/loadwave/vu.go share the items out.
use load_wave.Prelude.{
  ℕ, zero, suc, ◌+◌, ◌%◌, ◌<◌, ◌≡◌, ◌↔◌, refl, ◌∙◌, true, List, [], ◌∷◌, length, if◌then◌else◌, ltb,
  arith, ℤ, pos, uint_32,
}
use load_wave.Shard.{Shard, owns, slice, slice_from}

-- A shard whose index is below its count owns an item exactly if its index is the remainder of the
-- item's 32-bit index.
pub owns_iff :
    (s : Shard) (i : ℤ) → s.index < s.count → (owns s i ≡ true) ↔ (uint_32 i % s.count ≡ s.index)
unfolding owns
owns_iff s i h = ground arith

-- The number of items that the first `n` shards of `count` take.
abbrev pub taken {ℓ} : {A : Type ℓ} → ℕ → ℕ → List A → ℕ
taken zero count items = 0
taken (suc n) count items =
    taken n count items + length (slice (record { index = n; count = count }) items)

abbrev taken_from {ℓ} : {A : Type ℓ} → ℕ → ℕ → ℕ → List A → ℕ
taken_from zero count i items = 0
taken_from (suc n) count i items =
    taken_from n count i items + length (slice_from (record { index = n; count = count }) i items)

taken_from-empty {ℓ} : (A : Type ℓ) (n count i : ℕ) → taken_from {A = A} n count i [] ≡ 0
unfolding slice_from
taken_from-empty A zero count i = refl
taken_from-empty A (suc n) count i = ground (arith, taken_from-empty A n count i)

taken_from-cons {ℓ} :
    {A : Type ℓ} (n count i : ℕ) (x : A) (xs : List A)
    → 1 < count
    → taken_from n count i (x ∷ xs)
      ≡ taken_from n count (suc i) xs + (if ltb (uint_32 (pos i) % count) n then 1 else 0)
unfolding slice_from owns
taken_from-cons zero count i x xs h = ground arith
taken_from-cons (suc n) count i x xs h = ground (arith, taken_from-cons n count i x xs)

taken_from-all {ℓ} :
    {A : Type ℓ} (count i : ℕ) (xs : List A) → 1 < count → taken_from count count i xs ≡ length xs
taken_from-all count i [] h = taken_from-empty _ count count i
taken_from-all count i (x ∷ xs) h =
    ground (arith, taken_from-cons count count i x xs, taken_from-all count (suc i) xs)

taken-from {ℓ} :
    {A : Type ℓ} (n count : ℕ) (xs : List A)
    → 1 < count
    → taken n count xs ≡ taken_from n count 0 xs
unfolding slice
taken-from zero count xs h = refl
taken-from (suc n) count xs h = ground (arith, taken-from n count xs)

-- The shards of a count above 0 together take as many items as there are.
pub taken_all {ℓ} :
    {A : Type ℓ} (count : ℕ) (items : List A) → 0 < count → taken count count items ≡ length items
unfolding slice
taken_all zero items h = elim h [ ]
taken_all (suc zero) items h = ground arith
taken_all (suc (suc count)) items h =
    taken-from (suc (suc count)) (suc (suc count)) items (omega arith)
    ∙ taken_from-all (suc (suc count)) 0 items (omega arith)
