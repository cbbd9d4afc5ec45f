-- ===== src/Metrics/Recorder/Tally.antt =====
-- A recorder over its life, internal/metrics/recorder.go.
use load_wave.Prelude.{
  Bool-cases, inl, inr, ltb, negsuc, false, ℕ, zero, suc, ◌+◌, ◌≤◌, ◌<◌, ◌≡◌, refl, Option, none,
  some, List, [], ◌∷◌, length, arith, word, ℤ, pos, leb_ℤ, true,
}
use load_wave.Metrics.Failures.{Failure}
use load_wave.Metrics.RecorderConfig.{
  RecorderConfig, apply_defaults, shards_of, lower, default_max_scalar_shard, round_up_pow2,
  power_of_2,
}
use load_wave.Metrics.Recorder.Pow2.{round_up_pow2_lem}
use load_wave.Metrics.Aggregate.{Measures}
use load_wave.Metrics.Aggregate.Counts.{map_count}
use load_wave.Metrics.Recorder.{
  Recorder, Observation, count, trend_value, rate_value, gauge_value, record_observation,
  record_pinned, record_shared, mix_hash, report_failure, empty_shards, new_recorder, Batch, flush,
}
use load_wave.Metrics.Recorder.Steps.{shard_count, held, IsSized, record_value_in-held}
use load_wave.Metrics.Recorder.Flushing.{delta_count, flush-held}

lower_in :
    (processors : ℤ)
    → leb_ℤ (pos 1) processors ≡ true
    → (n : ℕ) × (lower processors default_max_scalar_shard ≡ pos n) × (1 ≤ n) × (n ≤ 16)
lower_in (negsuc n) h = cc
lower_in (pos n) h = elim (Bool-cases (ltb n 16)) [
  | inl low ↦ (n, ground (arith, low), ground (arith, h), ground (arith, low))
  | inr high ↦ (16, ground (arith, high), omega arith, omega arith)
]

rounded :
    (n : ℕ) → 1 ≤ n → n ≤ 4611686018427387904 → (m : ℕ) × (round_up_pow2 (pos n) ≡ pos m) × (1 ≤ m)
rounded n least most =
    let (k, e, above, below) = round_up_pow2_lem n least most in
    (power_of_2 k, e, omega (arith, above))

given :
    (z : ℤ)
    → leb_ℤ z (pos 0) ≡ false
    → leb_ℤ z (pos 4611686018427387904) ≡ true
    → (n : ℕ) × (round_up_pow2 z ≡ pos n) × (1 ≤ n)
given (negsuc n) set top = cc
given (pos n) set top = rounded n (ground (arith, set)) (ground (arith, top))

shards_lem :
    (processors : ℤ) (config : RecorderConfig)
    → leb_ℤ (pos 1) processors ≡ true
    → leb_ℤ config.shards (pos 4611686018427387904) ≡ true
    → (n : ℕ) × (shards_of processors config ≡ pos n) × (1 ≤ n)
shards_lem processors config h top =
    let (low, e, least, most) = lower_in processors h in
    let (n, r, above) = rounded low least (omega (arith, most)) in
    elim (Bool-cases (leb_ℤ config.shards (pos 0))) [
      | inl unset ↦ (n, ground (arith, unset, e, r), above)
      | inr set ↦
          let (m, q, positive) = given config.shards set top in
          (m, ground (arith, set, q), positive)
    ]

module _ (M : Measures) where
  -- What the users of a node's recorder do to it.
  pub data Use : Type 0 where
    pinned_use : ℕ → Observation M → Use
    shared_use : Observation M → Use
    report_use : Failure → ℕ → Use
    flush_use : Use

  abbrev with_batch :
      Batch M → Option (List (Batch M) × Recorder M) → Option (List (Batch M) × Recorder M)
  with_batch b none = none
  with_batch b (some (bs, r)) = some (b ∷ bs, r)

  abbrev then_uses :
      Option (Recorder M)
      → (Recorder M → Option (List (Batch M) × Recorder M))
      → Option (List (Batch M) × Recorder M)
  then_uses none rest = none
  then_uses (some r) rest = rest r

  -- The batches of the flushes, and the recorder that is left; `none` is a panic.
  unfoldable pub uses : List Use → Recorder M → Option (List (Batch M) × Recorder M)
  uses [] r = some ([], r)
  uses (pinned_use vu o ∷ us) r = then_uses (record_pinned M vu o r) (uses us)
  uses (shared_use o ∷ us) r = then_uses (record_shared M o r) (uses us)
  uses (report_use f now ∷ us) r = uses us (report_failure M f now r)
  uses (flush_use ∷ us) r = with_batch (flush M r).0 (uses us (flush M r).1)

  abbrev pub observations : List Use → ℕ
  observations [] = 0
  observations (pinned_use vu o ∷ us) = 1 + observations us
  observations (shared_use o ∷ us) = 1 + observations us
  observations (report_use f now ∷ us) = observations us
  observations (flush_use ∷ us) = observations us

  abbrev pub reported : List (Batch M) → ℕ
  reported [] = 0
  reported (b ∷ bs) = delta_count M b.series + reported bs

  abbrev Outcome : Recorder M → Option (Recorder M) → Type 0
  Outcome r o = (r' : Recorder M) × (o ≡ some r') × (held M r' ≡ held M r + 1) × IsSized M r'

  record_observation-held :
      (o : Observation M) (hint : ℕ) (r : Recorder M)
      → IsSized M r
      → held M r + 1 < word
      → Outcome r (record_observation M o hint r)
  record_observation-held (count metric labels delta) hint r s h =
      record_value_in-held M _ metric labels delta _ hint r s h
  record_observation-held (trend_value metric labels value) hint r s h =
      record_value_in-held M _ metric labels value _ hint r s h
  record_observation-held (rate_value metric labels truthy) hint r s h =
      record_value_in-held M _ metric labels _ truthy hint r s h
  record_observation-held (gauge_value metric labels value) hint r s h =
      record_value_in-held M _ metric labels value _ hint r s h

  record_pinned-held :
      (vu : ℕ) (o : Observation M) (r : Recorder M)
      → IsSized M r
      → held M r + 1 < word
      → Outcome r (record_pinned M vu o r)
  unfolding record_pinned
  record_pinned-held vu o r s h = record_observation-held o (mix_hash vu) r s h

  record_shared-held :
      (o : Observation M) (r : Recorder M)
      → IsSized M r
      → held M r + 1 < word
      → Outcome r (record_shared M o r)
  unfolding record_shared IsSized
  record_shared-held o r s h = record_observation-held o _ (record r { rr = _ }) s h

  empty_shards-count :
      (n : ℕ) → (shard_count M (empty_shards M n) ≡ 0) × (length (empty_shards M n) ≡ n)
  unfolding map_count
  empty_shards-count zero = (refl, refl)
  empty_shards-count (suc n) = ground (arith, empty_shards-count n)

  new_recorder-IsSized :
      (processors : ℤ) (config : RecorderConfig)
      → leb_ℤ (pos 1) processors ≡ true
      → leb_ℤ config.shards (pos 4611686018427387904) ≡ true
      → IsSized M (new_recorder M processors config)
        × (held M (new_recorder M processors config) ≡ 0)
  unfolding new_recorder apply_defaults IsSized
  new_recorder-IsSized processors config h top =
      let (n, e, positive) = shards_lem processors config h top in
      ground (arith, e, empty_shards-count n)

  -- From any sized recorder on.
  uses-held :
      (us : List Use) (r : Recorder M)
      → IsSized M r
      → held M r + observations us < word
      → (bs : List (Batch M)) × (r' : Recorder M) × (uses us r ≡ some (bs, r'))
        × (reported bs + held M r' ≡ held M r + observations us)
        × IsSized M r'
  unfolding uses report_failure IsSized
  uses-held [] r s h = ([], r, refl, omega arith, s)
  uses-held (pinned_use vu o ∷ us) r s h =
      let (r1, e1, c1, s1) = record_pinned-held vu o r s (omega arith) in
      let (bs, r2, e2, c2, s2) = uses-held us r1 s1 (omega (arith, c1)) in
      (bs, r2, ground (arith, e1, e2), omega (arith, c1, c2), s2)
  uses-held (shared_use o ∷ us) r s h =
      let (r1, e1, c1, s1) = record_shared-held o r s (omega arith) in
      let (bs, r2, e2, c2, s2) = uses-held us r1 s1 (omega (arith, c1)) in
      (bs, r2, ground (arith, e1, e2), omega (arith, c1, c2), s2)
  uses-held (report_use f now ∷ us) r s h = uses-held us (report_failure M f now r) s h
  uses-held (flush_use ∷ us) r s h =
      let (c1, h1, d1, s1) = flush-held M r (omega arith) s in
      let (bs, r2, e2, c2, s2) = uses-held us (flush M r).1 s1 (omega (arith, h1)) in
      ((flush M r).0 ∷ bs, r2, ground (arith, e2), omega (arith, c1, h1, c2), s2)

  -- No observation is lost. On a machine with a processor, with at most 2 ^ 62 shards configured and
  -- fewer than 2 ^ 64 observations, any sequence of observations through a virtual user's view or the
  -- recorder itself, of failures and of flushes runs without a panic; and the observations that the
  -- flushed series count, those that the shards still hold and those that were dropped for the cap on
  -- series are as many as were made. The series seen are never more than the cap.
  pub uses-reported :
      (us : List Use) (processors : ℤ) (config : RecorderConfig)
      → leb_ℤ (pos 1) processors ≡ true
      → leb_ℤ config.shards (pos 4611686018427387904) ≡ true
      → observations us < word
      → (bs : List (Batch M)) × (r : Recorder M) × (uses us (new_recorder M processors config)
          ≡ some (bs, r))
        × (reported bs + shard_count M r.shards + r.dropped ≡ observations us)
        × (length r.distinct ≤ r.max_series)
  unfolding IsSized
  uses-reported us processors config h top few =
      let (sized, empty) = new_recorder-IsSized processors config h top in
      let (bs, r, e, c, s) =
        uses-held us (new_recorder M processors config) sized (omega (arith, empty)) in
      (bs, r, e, omega (arith, c, empty), s.2)
