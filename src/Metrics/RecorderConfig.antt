-- ===== src/Metrics/RecorderConfig.antt =====
-- The configuration of a node's recorder with its defaults, internal/metrics/recorder.go. The
-- histogram's configuration is left out: the clients take what it gives as a parameter.
use load_wave.Prelude.{
  ℕ, zero, suc, ◌-◌, ◌*◌, ◌/◌, if◌then◌else◌, ◌==◌, ℤ, pos, pos_part, leb_ℤ, ltb_ℤ, wrap,
}
use load_wave.Metrics.Failures.{default_max_failure_kinds}

-- `bits.Len`, by halving: as much fuel as the number is enough.
unfoldable pub bit_len_from : ℕ → ℕ → ℕ
bit_len_from zero x = 0
bit_len_from (suc fuel) x = let rest = bit_len_from fuel (x / 2) in if x == 0 then 0 else suc rest

abbrev pub power_of_2 : ℕ → ℕ
power_of_2 zero = 1
power_of_2 (suc k) = 2 * power_of_2 k

-- `roundUpPow2`
unfoldable pub round_up_pow2 : ℤ → ℤ
round_up_pow2 n =
    if leb_ℤ n (pos 1)
    then pos 1
    else wrap (pos (power_of_2 (bit_len_from (pos_part n - 1) (pos_part n - 1))))

pub record RecorderConfig : Type 0 where
  pub shards : ℤ
  pub trend_shards : ℤ
  pub max_series : ℤ
  pub max_failure_kinds : ℤ

abbrev pub default_max_series : ℤ
default_max_series = pos 5000

abbrev pub default_trend_shards : ℤ
default_trend_shards = pos 4

abbrev pub default_max_scalar_shard : ℤ
default_max_scalar_shard = pos 16

abbrev pub lower : ℤ → ℤ → ℤ
lower a b = if ltb_ℤ a b then a else b

abbrev pub or_default : ℤ → ℤ → ℤ
or_default n default = if leb_ℤ n (pos 0) then default else n

abbrev pub shards_of : ℤ → RecorderConfig → ℤ
shards_of processors c =
    round_up_pow2 (or_default c.shards (lower processors default_max_scalar_shard))

-- `RecorderConfig.applyDefaults`, for the number that `runtime.GOMAXPROCS(0)` returns.
unfoldable pub apply_defaults : ℤ → RecorderConfig → RecorderConfig
apply_defaults processors c = record {
  shards = shards_of processors c;
  trend_shards =
      lower (round_up_pow2 (or_default c.trend_shards default_trend_shards))
        (shards_of processors c);
  max_series = or_default c.max_series default_max_series;
  max_failure_kinds = or_default c.max_failure_kinds (pos default_max_failure_kinds);
}
