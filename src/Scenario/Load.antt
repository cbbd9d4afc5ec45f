-- ===== src/Scenario/Load.antt =====
-- The load section of a scenario file, internal/scenario/config.go: its validation, and its
-- conversion into the profile that the engine makes an executor of. Durations are nanoseconds.
mod Accepted
mod Tests
use Prim.Native.String.{String}
use text.Mathlib.Text.{◌==◌ as str_eq}
use load_wave.Prelude.{
  ℕ, suc, Bool, true, false, ◌&&◌, ◌||◌, List, [], ◌∷◌, length, if◌then◌else◌, ltb, ◌==◌, ℤ, pos,
  pos_part, ltb_ℤ, leb_ℤ, eqb_ℤ,
}
use load_wave.Engine.Executor.{Stage, ExecutorType, constant_vus, ramping_vus, LoadProfile, higher}

-- `StageConfig` and `LoadConfig`
pub record StageConfig : Type 0 where
  pub duration : ℤ
  pub target : ℤ

pub record LoadConfig : Type 0 where
  pub executor : String
  pub vus : ℤ
  pub duration : ℤ
  pub stages : List StageConfig
  pub max_iteration_rate : ℤ
  pub iterations : ℕ
  pub graceful_stop : ℤ

abbrev pub executor_constant_vus : String
executor_constant_vus = "constant-vus"

abbrev pub executor_ramping_vus : String
executor_ramping_vus = "ramping-vus"

-- The errors of the validation, a stage by its number from 1, and of `asUint32`.
pub data LoadError : Type 0 where
  unknown_executor : String → LoadError
  without_end stages_of_constant ramp_without_stages flat_ramp negative_rate : LoadError
  stage_without_duration stage_below_zero : ℕ → LoadError
  count_below_zero count_too_large : ℤ → LoadError

pub data Checked {ℓ} (A : Type ℓ) : Type ℓ where
  fine : A → Checked A
  refused : LoadError → Checked A

-- The loop over the stages, with the peak so far.
unfoldable pub check_stages : ℕ → ℤ → List StageConfig → Checked ℤ
check_stages i peak [] = fine peak
check_stages i peak (s ∷ ss) =
    let rest = check_stages (suc i) (higher s.target peak) ss in
    if leb_ℤ s.duration (pos 0)
    then refused (stage_without_duration (suc i))
    else if ltb_ℤ s.target (pos 0)
    then refused (stage_below_zero (suc i))
    else rest

abbrev pub check_rate : LoadConfig → Checked LoadConfig
check_rate l = if ltb_ℤ l.max_iteration_rate (pos 0) then refused negative_rate else fine l

-- The case of constant users.
unfoldable pub check_constant : LoadConfig → Checked LoadConfig
check_constant l =
    if leb_ℤ l.duration (pos 0) && l.iterations == 0
    then refused without_end
    else if ltb 0 (length l.stages)
    then refused stages_of_constant
    else check_rate (record l { vus = if leb_ℤ l.vus (pos 0) then pos 1 else l.vus })

abbrev pub check_peak : LoadConfig → Checked ℤ → Checked LoadConfig
check_peak l (refused e) = refused e
check_peak l (fine peak) = if eqb_ℤ peak (pos 0) then refused flat_ramp else check_rate l

-- The case of a ramp.
unfoldable pub check_ramping : LoadConfig → Checked LoadConfig
check_ramping l =
    if length l.stages == 0
    then refused ramp_without_stages
    else check_peak l (check_stages 0 (pos 0) l.stages)

-- `LoadConfig.validate`: the load with its defaults.
unfoldable pub validate_load : LoadConfig → Checked LoadConfig
validate_load l =
    if str_eq l.executor ""
    then check_constant (record l { executor = executor_constant_vus })
    else if str_eq l.executor executor_constant_vus
    then check_constant l
    else if str_eq l.executor executor_ramping_vus
    then check_ramping l
    else refused (unknown_executor l.executor)

-- `asUint32`
unfoldable pub as_uint_32 : ℤ → Checked ℕ
as_uint_32 v =
    if ltb_ℤ v (pos 0)
    then refused (count_below_zero v)
    else if ltb_ℤ (pos 4294967295) v
    then refused (count_too_large v)
    else fine (pos_part v)

abbrev pub add_stage : ℤ → Checked ℕ → Checked (List Stage) → Checked (List Stage)
add_stage duration (refused e) rest = refused e
add_stage duration (fine n) (refused e) = refused e
add_stage duration (fine n) (fine ss) = fine (record { duration = duration; target = n } ∷ ss)

-- The loop of `Plan` over the stages.
unfoldable pub plan_stages : List StageConfig → Checked (List Stage)
plan_stages [] = fine []
plan_stages (s ∷ ss) = add_stage s.duration (as_uint_32 s.target) (plan_stages ss)

abbrev pub profile_of : LoadConfig → ExecutorType → ℕ → Checked (List Stage) → Checked LoadProfile
profile_of l type vus (refused e) = refused e
profile_of l type vus (fine stages) = fine record {
  executor = type;
  vus = vus;
  duration = l.duration;
  iterations = l.iterations;
  stages = stages;
}

abbrev pub with_counts : LoadConfig → Checked ℕ → Checked ℕ → Checked LoadProfile
with_counts l (refused e) rate = refused e
with_counts l (fine vus) (refused e) = refused e
with_counts l (fine vus) (fine rate) =
    if str_eq l.executor executor_ramping_vus
    then profile_of l ramping_vus vus (plan_stages l.stages)
    else profile_of l constant_vus vus (fine [])

-- The load profile that `Plan` makes, from what the executors look at.
unfoldable pub plan_load : LoadConfig → Checked LoadProfile
plan_load l = with_counts l (as_uint_32 l.vus) (as_uint_32 l.max_iteration_rate)
