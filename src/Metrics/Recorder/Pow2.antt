-- ===== src/Metrics/Recorder/Pow2.antt =====
-- The rounding to a power of two in internal/metrics/recorder.go.
use load_wave.Prelude.{ℕ, zero, suc, ◌-◌, ◌*◌, ◌/◌, ◌≤◌, ◌<◌, ◌≡◌, pos, wrap_pos, arith}
use load_wave.Metrics.RecorderConfig.{bit_len_from, power_of_2, round_up_pow2}

bit_len-bounds :
    (fuel x : ℕ)
    → x ≤ fuel
    → (x < power_of_2 (bit_len_from fuel x))
      × (x ≡ 0 → bit_len_from fuel x ≡ 0)
      × (0 < x → power_of_2 (bit_len_from fuel x) ≤ 2 * x)
unfolding bit_len_from
bit_len-bounds zero x h = ground arith
bit_len-bounds (suc fuel) x h =
    let (above, at_0, below) = bit_len-bounds fuel (x / 2) (omega arith) in
    ground (arith, above, at_0, below)

-- Rounding up a number from 1 to 2 ^ 62 gives a power of two, which is at least the number and less
-- than twice it.
pub round_up_pow2_lem :
    (n : ℕ)
    → 1 ≤ n
    → n ≤ 4611686018427387904
    → (k : ℕ) × (round_up_pow2 (pos n) ≡ pos (power_of_2 k))
      × (n ≤ power_of_2 k)
      × (power_of_2 k < 2 * n)
unfolding round_up_pow2
round_up_pow2_lem n least most =
    let (above, at_0, below) = bit_len-bounds (n - 1) (n - 1) (omega arith) in
    (
      bit_len_from (n - 1) (n - 1),
      ground (arith, above, at_0, below, wrap_pos (power_of_2 (bit_len_from (n - 1) (n - 1)))),
      omega (arith, above),
      ground (arith, at_0, below),
    )
