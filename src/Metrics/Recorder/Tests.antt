-- ===== src/Metrics/Recorder/Tests.antt =====
-- Recorders and instances for internal/metrics/recorder.go.
use load_wave.Prelude.{◌+◌, ◌≤◌, ◌≡◌, refl, some, List, [], ◌∷◌, length, pos, wrap, arith}
use load_wave.Metrics.RecorderConfig.{RecorderConfig, round_up_pow2, bit_len_from}
use load_wave.Metrics.Aggregate.Tests.{millis, login, home}
use load_wave.Metrics.Recorder.{Recorder, count, trend_value, new_recorder, Batch}
use load_wave.Metrics.Recorder.Steps.{shard_count}
use load_wave.Metrics.Recorder.Tally.{
  Use, pinned_use, shared_use, flush_use, uses, reported, uses-reported,
}

rounding_runs : round_up_pow2 (pos 13) ≡ pos 16
unfolding round_up_pow2 bit_len_from wrap
rounding_runs = refl

-- One series at most, so that the second is dropped.
abbrev one_series : RecorderConfig
one_series = record {
  shards = pos 3;
  trend_shards = pos 0;
  max_series = pos 1;
  max_failure_kinds = pos 0;
}

abbrev afternoon : List (Use millis)
afternoon =
    pinned_use 1024 (trend_value "http_req_duration" login 12)
    ∷ shared_use (count "http_reqs" home 1)
    ∷ flush_use
    ∷ pinned_use 1025 (trend_value "http_req_duration" login 15)
    ∷ []

uses-reported_example :
    (bs : List (Batch millis)) × (r : Recorder millis) × (uses millis afternoon
        (new_recorder millis (pos 8) one_series)
      ≡ some (bs, r))
    × (reported millis bs + shard_count millis r.shards + r.dropped ≡ 3)
    × (length r.distinct ≤ r.max_series)
uses-reported_example = uses-reported millis afternoon (pos 8) one_series refl refl (omega arith)
