-- ===== src/Engine/Executor/Rescale.antt =====
-- A node's share of a profile, `scaled` of internal/engine/executor.go, and how its quota moves.
use native.Mathlib.Nat.{mul-le-mul_right}
use load_wave.Prelude.{
  pos_part, ℕ, ◌+◌, ◌-◌, ◌*◌, ◌≤◌, ◌<◌, ◌≡◌, ◌↔◌, ◌⊎◌, refl, true, false, Bool-cases, inl, inr,
  ◌||◌, ◌&&◌, ltb, ℤ, pos, leb_ℤ, is_pos, wrap_pos, int64_end, arith,
}
use load_wave.Engine.Executor.{
  Reals, target_at, Scaled, no_less_than_0, quota_at, rescale, scale_target, scaled_target_at,
}
use load_wave.Engine.Executor.Between.{
  Laws, exact_end, IsBetween, interpolate-IsBetween, share_of_peak-le,
}
use load_wave.Engine.Executor.Bounds.{span, IsWithin, IsBuilt, built_peak, target_at-IsWithin}

is_pos_part : (n : ℤ) → leb_ℤ (pos 0) n ≡ true → n ≡ pos (pos_part n)
is_pos_part n h = ground arith

module _ (R : Reals) where
  abbrev eased : ℤ → ℕ → ℕ → Scaled → Scaled
  eased quota at n s = record s {
    from = quota_at R s (pos at);
    to = no_less_than_0 quota;
    ramp_from_at = pos at;
    ramp_to_at = pos (at + n);
  }

  rescale-eased :
      (quota : ℤ) (at n : ℕ) (s : Scaled)
      → 0 < n
      → at + n < int64_end
      → rescale R quota (pos at) (pos n) s ≡ eased quota at n s
  unfolding rescale
  rescale-eased quota at n s h k =
      let long : is_pos (pos n) ≡ true = ground arith in rw (wrap_pos (at + n) k, long) refl

  quota_at-over : (s : Scaled) (at : ℤ) → leb_ℤ s.ramp_to_at at ≡ true → quota_at R s at ≡ s.to
  unfolding quota_at
  quota_at-over s at h = ground (arith, h)

  quota_at-start :
      (s : Scaled) (at : ℤ)
      → leb_ℤ s.ramp_to_at s.ramp_from_at ≡ false
      → leb_ℤ s.ramp_to_at at ≡ false
      → leb_ℤ at s.ramp_from_at ≡ true
      → quota_at R s at ≡ s.from
  unfolding quota_at
  quota_at-start s at h k l = ground (arith, h, k, l)

  -- Rescaling with a ramp starts from the quota of the moment, without a jump, and from the end of the
  -- ramp on the quota is the new one; a negative quota counts as 0.
  pub quota_at-rescale :
      (quota : ℤ) (at n later : ℕ) (s : Scaled)
      → 0 < n
      → at + n < int64_end
      → at + n ≤ later
      → (quota_at R (rescale R quota (pos at) (pos n) s) (pos at) ≡ quota_at R s (pos at))
        × (quota_at R (rescale R quota (pos at) (pos n) s) (pos later) ≡ no_less_than_0 quota)
  quota_at-rescale quota at n later s h k l = rw (rescale-eased quota at n s h k) (
    quota_at-start (eased quota at n s) (pos at) (ground arith) (ground arith) (ground arith),
    quota_at-over (eased quota at n s) (pos later) (ground arith),
  )

  -- During a ramp the quota is between the one it started from and the new one.
  pub quota_at-IsBetween :
      (L : Laws R) (s : Scaled) (a b start last now : ℕ)
      → s.from ≡ pos a
      → s.to ≡ pos b
      → s.ramp_from_at ≡ pos start
      → s.ramp_to_at ≡ pos last
      → a < exact_end
      → b < exact_end
      → last < int64_end
      → IsBetween a b (quota_at R s (pos now))
  unfolding quota_at
  quota_at-IsBetween L s a b start last now ea eb es el ha hb hl =
      rw (ea, eb, es, el)
        (elim (Bool-cases (leb_ℤ (pos last) (pos start) || leb_ℤ (pos last) (pos now))) [
          | inl over ↦ rw over (ground arith)
          | inr going ↦ elim (Bool-cases (leb_ℤ (pos now) (pos start))) [
            | inl early ↦ rw (going, early) (ground arith)
            | inr later ↦
                rw
                  (
                    going,
                    later,
                    span start now (ground (arith, later)) (ground (arith, going)),
                    span start last (ground (arith, going)) hl,
                  )
                  (interpolate-IsBetween R L (now - start) (last - start) a b
                    (ground (arith, going)) (ground (arith, going)) (omega (arith, hl)) ha hb)
          ]
        ])

  pub scale_target-IsWithin :
      (L : Laws R) (q top g : ℕ)
      → 0 < top
      → q * top < exact_end
      → IsWithin (scale_target R (pos q) (pos top) (pos g)) q
        × ((scale_target R (pos q) (pos top) (pos g) ≡ pos 0) ↔ ((q ≡ 0) ⊎ (g ≡ 0)))
  unfolding scale_target
  scale_target-IsWithin L q top g h k = elim (Bool-cases (ltb 0 q && (ltb 0 g && ltb g top))) [
    | inr whole ↦ ground (arith, whole)
    | inl part ↦
        let inside =
          share_of_peak-le R L q g top h (ground (arith, part)) k (ground (arith, part)) in
        ground (arith, part, inside)
  ]

  -- What a node with a positive quota asks for at a moment is from 0 to that quota, and it is 0 exactly
  -- if the profile's own target is: such a node is not left without a user while the profile is above
  -- zero. The floats follow the laws stated for them, the peak scaled by is the profile's, the quota
  -- times that peak is below 2 ^ 53, and the profile's time fits `int64`.
  pub scaled_target_at-IsWithin :
      (L : Laws R) (s : Scaled) (q total top : ℕ) (elapsed : ℤ)
      → quota_at R s elapsed ≡ pos q
      → IsBuilt total top s.inner
      → s.peak_vus ≡ pos top
      → 0 < q
      → q * top < exact_end
      → total < int64_end
      → IsWithin (scaled_target_at R s elapsed) q
        × ((scaled_target_at R s elapsed ≡ pos 0) ↔ (target_at R s.inner elapsed ≡ pos 0))
  unfolding scaled_target_at
  scaled_target_at-IsWithin L s q total top elapsed e built p o k b =
      let some_peak = (built_peak total top s.inner built).1 in
      let top_le : top ≤ q * top = omega (arith, mul-le-mul_right top o) in
      let within =
        target_at-IsWithin R L s.inner total top elapsed built (omega (arith, top_le)) b in
      let g = pos_part (target_at R s.inner elapsed) in
      let is_g = is_pos_part (target_at R s.inner elapsed) within.0 in
      let (inside, zeroes) = scale_target-IsWithin L q top g some_peak k in
      rw (e, p, is_g) (inside, ground (arith, zeroes, o))
