-- ===== src/Engine/Executor.antt =====
-- The load profiles, internal/engine/executor.go. Offsets from the start of a run are `int64`
-- nanoseconds with their wrap-around. Floating point numbers are a parameter.
mod Between
mod Bounds
mod Rescale
mod Tests
use load_wave.Prelude.{
  ℕ, suc, ◌+◌, Bool, true, false, ◌&&◌, ◌||◌, List, [], ◌∷◌, length, if◌then◌else◌, ltb, ◌==◌, ℤ,
  pos, ◌+ℤ◌, ◌-ℤ◌, ltb_ℤ, leb_ℤ, eqb_ℤ, is_pos, wrap,
}

-- What the interpolation uses of `float64`: the conversion of an `int`, the arithmetic, and
-- `int(math.Round(x))`.
pub record Reals : Type 1 where
  pub Real : Type 0
  pub of_int : ℤ → Real
  pub plus : Real → Real → Real
  pub times : Real → Real → Real
  pub over : Real → Real → Real
  pub round : Real → ℤ

-- `Stage` and `LoadProfile` of proto/loadwave/v1/plan.proto, what an executor is made of.
pub record Stage : Type 0 where
  pub duration : ℤ
  pub target : ℕ

pub data ExecutorType : Type 0 where
  unspecified constant_vus ramping_vus : ExecutorType
  other : ℤ → ExecutorType

pub record LoadProfile : Type 0 where
  pub executor : ExecutorType
  pub vus : ℕ
  pub duration : ℤ
  pub iterations : ℕ
  pub stages : List Stage

-- The errors of the constructors; a stage is named by its number from 1.
pub data ProfileError : Type 0 where
  no_vus negative_duration endless no_stages never_rises : ProfileError
  stage_duration : ℕ → ProfileError
  unknown_type : ℤ → ProfileError

pub data Result {ℓ} (A : Type ℓ) : Type ℓ where
  ok : A → Result A
  err : ProfileError → Result A

-- `leg`, `constantVUs` and `rampingVUs`
pub record Leg : Type 0 where
  pub end : ℤ
  pub target : ℤ

pub record ConstantVus : Type 0 where
  pub vus : ℤ
  pub duration : ℤ

pub record RampingVus : Type 0 where
  pub legs : List Leg
  pub total : ℤ
  pub peak : ℤ

pub data Executor : Type 0 where
  constant : ConstantVus → Executor
  ramping : RampingVus → Executor

unfoldable pub new_constant_vus : LoadProfile → Result Executor
new_constant_vus profile =
    if profile.vus == 0
    then err no_vus
    else if ltb_ℤ profile.duration (pos 0)
    then err negative_duration
    else if eqb_ℤ profile.duration (pos 0) && profile.iterations == 0
    then err endless
    else ok (constant (record { vus = pos profile.vus; duration = profile.duration }))

abbrev pub add_leg : ℤ → Stage → RampingVus → RampingVus
add_leg total stage r = record {
  legs = record { end = total; target = pos stage.target } ∷ r.legs;
  total = r.total;
  peak = r.peak;
}

abbrev pub higher : ℤ → ℤ → ℤ
higher target peak = if ltb_ℤ peak target then target else peak

abbrev pub with_leg : ℤ → Stage → Result RampingVus → Result RampingVus
with_leg total stage (ok r) = ok (add_leg total stage r)
with_leg total stage (err e) = err e

-- The loop of `newRampingVUs`, from a stage on, with the total and the peak so far.
unfoldable pub ramp_from : ℕ → ℤ → ℤ → List Stage → Result RampingVus
ramp_from i total peak [] = ok (record { legs = []; total = total; peak = peak })
ramp_from i total peak (s ∷ ss) =
    let next = wrap (total +ℤ s.duration) in
    let rest = ramp_from (suc i) next (higher (pos s.target) peak) ss in
    if is_pos s.duration then with_leg next s rest else err (stage_duration (suc i))

abbrev rising : Result RampingVus → Result Executor
rising (err e) = err e
rising (ok r) = if eqb_ℤ r.peak (pos 0) then err never_rises else ok (ramping r)

unfoldable pub new_ramping_vus : LoadProfile → Result Executor
new_ramping_vus profile =
    if length profile.stages == 0
    then err no_stages
    else rising (ramp_from 0 (pos 0) (pos 0) profile.stages)

-- `NewExecutor` of a profile that is there, by its type.
abbrev pub new_by : ExecutorType → LoadProfile → Result Executor
new_by unspecified profile = new_constant_vus profile
new_by constant_vus profile = new_constant_vus profile
new_by ramping_vus profile = new_ramping_vus profile
new_by (other n) profile = err (unknown_type n)

unfoldable pub new_executor : LoadProfile → Result Executor
new_executor profile = new_by profile.executor profile

-- `Duration` and `Peak`
abbrev pub duration : Executor → ℤ
duration (constant c) = c.duration
duration (ramping r) = r.total

abbrev pub peak : Executor → ℤ
peak (constant c) = c.vus
peak (ramping r) = r.peak

module _ (R : Reals) where
  -- `math.Round(float64(from) + progress*float64(to-from))` with progress `done` of `span`.
  unfoldable pub interpolate : ℤ → ℤ → ℤ → ℤ → ℤ
  interpolate done span from to = Reals.round R (
      Reals.plus R (Reals.of_int R from) (
        Reals.times R (Reals.over R (Reals.of_int R done) (Reals.of_int R span))
          (Reals.of_int R (wrap (to -ℤ from)))))

  -- The loop of `rampingVUs.TargetAt`.
  unfoldable pub target_from : ℤ → ℤ → ℤ → List Leg → ℤ
  target_from elapsed from start [] = pos 0
  target_from elapsed from start (l ∷ ls) =
      let rest = target_from elapsed l.target l.end ls in
      if ltb_ℤ elapsed l.end
      then interpolate (wrap (elapsed -ℤ start)) (wrap (l.end -ℤ start)) from l.target
      else rest

  -- `constantVUs.TargetAt`
  abbrev pub constant_target : ConstantVus → ℤ → ℤ
  constant_target c elapsed =
      if ltb_ℤ elapsed (pos 0)
      then pos 0
      else if is_pos c.duration && leb_ℤ c.duration elapsed
      then pos 0
      else c.vus

  -- `TargetAt` of both executors.
  unfoldable pub target_at : Executor → ℤ → ℤ
  target_at (constant c) elapsed = constant_target c elapsed
  target_at (ramping r) elapsed =
      if ltb_ℤ elapsed (pos 0)
      then pos 0
      else if leb_ℤ r.total elapsed
      then pos 0
      else target_from elapsed (pos 0) (pos 0) r.legs

-- `scaled`
pub record Scaled : Type 0 where
  pub inner : Executor
  pub peak_vus : ℤ
  pub from : ℤ
  pub to : ℤ
  pub ramp_from_at : ℤ
  pub ramp_to_at : ℤ

abbrev pub no_less_than_0 : ℤ → ℤ
no_less_than_0 n = if ltb_ℤ n (pos 0) then pos 0 else n

-- `newScaled`
unfoldable pub new_scaled : Executor → ℤ → Scaled
new_scaled inner quota = record {
  inner = inner;
  peak_vus = peak inner;
  from = no_less_than_0 quota;
  to = no_less_than_0 quota;
  ramp_from_at = pos 0;
  ramp_to_at = pos 0;
}

module _ (R : Reals) where
  -- `quotaAtLocked`, and so `Quota`.
  unfoldable pub quota_at : Scaled → ℤ → ℤ
  quota_at s at =
      if leb_ℤ s.ramp_to_at s.ramp_from_at || leb_ℤ s.ramp_to_at at
      then s.to
      else if leb_ℤ at s.ramp_from_at
      then s.from
      else interpolate R (wrap (at -ℤ s.ramp_from_at)) (wrap (s.ramp_to_at -ℤ s.ramp_from_at))
          s.from s.to

  -- `Rescale`
  unfoldable pub rescale : ℤ → ℤ → ℤ → Scaled → Scaled
  rescale quota at ramp s =
      if is_pos ramp
      then record s {
        from = quota_at s at;
        to = no_less_than_0 quota;
        ramp_from_at = at;
        ramp_to_at = wrap (at +ℤ ramp);
      }
      else record s {
        from = no_less_than_0 quota;
        to = no_less_than_0 quota;
        ramp_from_at = pos 0;
        ramp_to_at = pos 0;
      }

  abbrev at_least_1 : ℤ → ℤ
  at_least_1 n = if eqb_ℤ n (pos 0) then pos 1 else n

  -- `math.Round(float64(quota) * float64(global) / float64(peak))`
  abbrev pub share_of_peak : ℤ → ℤ → ℤ → ℤ
  share_of_peak quota global top = Reals.round R (
      Reals.over R (Reals.times R (Reals.of_int R quota) (Reals.of_int R global))
        (Reals.of_int R top))

  -- `scaled.TargetAt` with the quota and the inner target at hand.
  unfoldable pub scale_target : ℤ → ℤ → ℤ → ℤ
  scale_target quota top global =
      if eqb_ℤ quota (pos 0) || eqb_ℤ top (pos 0)
      then pos 0
      else if leb_ℤ global (pos 0)
      then pos 0
      else if leb_ℤ top global
      then quota
      else at_least_1 (share_of_peak quota global top)

  unfoldable pub scaled_target_at : Scaled → ℤ → ℤ
  scaled_target_at s elapsed =
      scale_target (quota_at s elapsed) s.peak_vus (target_at R s.inner elapsed)
