-- ===== src/Scenario/Load/Accepted.antt =====
-- Whether the engine accepts a load that was validated, internal/scenario/config.go and
-- internal/engine/executor.go.
use text.Mathlib.Text.{◌==◌ as str_eq}
use text.Mathlib.TextEquality.{eq_iff}
use load_wave.Prelude.{
  ltb, ℕ, suc, ◌≡◌, refl, ap, sym, ◌∙◌, ◌+ℤ◌, wrap, is_pos, Bool, Bool-cases, true, false, ◌&&◌,
  inl, inr, ◌⊎◌, List, [], ◌∷◌, length, if◌then◌else◌, ◌==◌, ℤ, pos, ltb_ℤ, leb_ℤ, eqb_ℤ, arith,
}
use load_wave.Engine.Executor.{
  Result, ok, err, Stage, LoadProfile, Executor, RampingVus, constant_vus, ramping_vus, higher,
  add_leg, ramp_from, new_constant_vus, new_ramping_vus, new_executor,
}
use load_wave.Scenario.Load.{
  StageConfig, LoadConfig, LoadError, executor_constant_vus, executor_ramping_vus, Checked, fine,
  refused, check_stages, check_rate, check_constant, check_ramping, validate_load, as_uint_32,
  plan_stages, profile_of, plan_load,
}

abbrev pub is_refused : Result Executor → Bool
is_refused (ok x) = false
is_refused (err e) = true

Checked-cases {ℓ} :
    {A : Type ℓ} (c : Checked A) → ((x : A) × (c ≡ fine x)) ⊎ ((e : LoadError) × (c ≡ refused e))
Checked-cases (fine x) = inl (x, refl)
Checked-cases (refused e) = inr (e, refl)

check_stages-cons :
    (i : ℕ) (peak final : ℤ) (s : StageConfig) (stages : List StageConfig)
    → check_stages i peak (s ∷ stages) ≡ fine final
    → (is_pos s.duration ≡ true)
      × (ltb_ℤ s.target (pos 0) ≡ false)
      × (check_stages (suc i) (higher s.target peak) stages ≡ fine final)
unfolding check_stages
check_stages-cons i peak final s stages h = elim (Bool-cases (leb_ℤ s.duration (pos 0))) [
  | inl bad ↦ ground (arith, bad, h)
  | inr long ↦ elim (Bool-cases (ltb_ℤ s.target (pos 0))) [
    | inl below ↦ ground (arith, long, below, h)
    | inr above ↦ (ground (arith, long), above, rw (long, above) at h)
  ]
]

as_uint_32-fine : (v : ℤ) (n : ℕ) → as_uint_32 v ≡ fine n → v ≡ pos n
unfolding as_uint_32
as_uint_32-fine v n h = elim (Bool-cases (ltb_ℤ v (pos 0))) [
  | inl below ↦ ground (arith, below, h)
  | inr above ↦ elim (Bool-cases (ltb_ℤ (pos 4294967295) v)) [
    | inl large ↦ ground (arith, above, large, h)
    | inr fits ↦ ground (arith, above, fits, h)
  ]
]

plan_stages-cons :
    (s : StageConfig) (stages : List StageConfig) (ss : List Stage)
    → plan_stages (s ∷ stages) ≡ fine ss
    → (n : ℕ) × (rest : List Stage) × (s.target ≡ pos n)
      × (plan_stages stages ≡ fine rest)
      × (ss ≡ record { duration = s.duration; target = n } ∷ rest)
unfolding plan_stages
plan_stages-cons s stages ss h = elim (Checked-cases (as_uint_32 s.target)) [
  | inr (e, bad) ↦ ground (arith, bad, h)
  | inl (n, good) ↦ elim (Checked-cases (plan_stages stages)) [
    | inr (e, bad) ↦ ground (arith, good, bad, h)
    | inl (rest, fits) ↦
        (n, rest, as_uint_32-fine s.target n good, fits, ground (arith, good, fits, h))
  ]
]

fine-injective {ℓ} : {A : Type ℓ} (x y : A) → fine x ≡ fine y → x ≡ y
fine-injective x y e = ap (λ c. elim c [ fine z ↦ z | refused r ↦ x ]) e

plan_stages-empty :
    (stages : List StageConfig) (ss : List Stage)
    → plan_stages stages ≡ fine ss
    → (length ss == 0) ≡ (length stages == 0)
unfolding plan_stages
plan_stages-empty [] ss h = let e : [] ≡ ss = fine-injective [] ss h in rw (← e)
plan_stages-empty (s ∷ stages) ss h =
    let (n, rest, e, planned, same) = plan_stages-cons s stages ss h in rw same (ground arith)

-- The ramp that the engine makes of stages that were checked rises to the peak that was found.
ramp_from-checked :
    (i : ℕ) (total peak final : ℤ) (stages : List StageConfig) (ss : List Stage)
    → check_stages i peak stages ≡ fine final
    → plan_stages stages ≡ fine ss
    → (r : RampingVus) × (ramp_from i total peak ss ≡ ok r) × (r.peak ≡ final)
unfolding check_stages plan_stages ramp_from
ramp_from-checked i total peak final [] ss h k =
    let e : ss ≡ [] = cc in rw e (record { legs = []; total = total; peak = peak }, refl, cc)
ramp_from-checked i total peak final (s ∷ stages) ss h k =
    let (long, above, checked) = check_stages-cons i peak final s stages h in
    let (n, rest, e, planned, same) = plan_stages-cons s stages ss k in
    let next = wrap (total +ℤ s.duration) in
    let (r, made, top) =
      ramp_from-checked (suc i) next (higher (pos n) peak) final stages rest
        (ap (λ v. check_stages (suc i) (higher v peak) stages) (sym e) ∙ checked) planned in
    rw same (
      add_leg next (record { duration = s.duration; target = n }) r,
      ground (arith, long, made),
      top,
    )

abbrev IsConstant : LoadConfig → Type 0
IsConstant l =
    (l.executor ≡ executor_constant_vus)
    × (is_pos l.vus ≡ true)
    × ((leb_ℤ l.duration (pos 0) && l.iterations == 0) ≡ false)

abbrev IsRamping : LoadConfig → Type 0
IsRamping l =
    (l.executor ≡ executor_ramping_vus)
    × ((length l.stages == 0) ≡ false)
    × (peak : ℤ) × (check_stages 0 (pos 0) l.stages ≡ fine peak)
    × (eqb_ℤ peak (pos 0) ≡ false)

check_rate-fine : (l l' : LoadConfig) → check_rate l ≡ fine l' → l ≡ l'
check_rate-fine l l' h = elim (Bool-cases (ltb_ℤ l.max_iteration_rate (pos 0))) [
  | inl below ↦ ground (arith, below, h)
  | inr above ↦ ground (arith, above, h)
]

at_least_one : (v : ℤ) → is_pos (if leb_ℤ v (pos 0) then pos 1 else v) ≡ true
at_least_one v = ground arith

check_constant-IsConstant :
    (l l' : LoadConfig)
    → l.executor ≡ executor_constant_vus
    → check_constant l ≡ fine l'
    → IsConstant l'
unfolding check_constant
check_constant-IsConstant l l' name h =
    elim (Bool-cases (leb_ℤ l.duration (pos 0) && l.iterations == 0)) [
      | inl bad ↦ ground (arith, bad, h)
      | inr ends ↦ elim (Bool-cases (ltb 0 (length l.stages))) [
        | inl some_stages ↦ ground (arith, ends, some_stages, h)
        | inr no_stages ↦
            let defaulted = record l { vus = if leb_ℤ l.vus (pos 0) then pos 1 else l.vus } in
            let same = check_rate-fine defaulted l' (rw (ends, no_stages) at h) in
            rw (← same) (name, at_least_one l.vus, ends)
      ]
    ]

check_ramping-IsRamping :
    (l l' : LoadConfig)
    → l.executor ≡ executor_ramping_vus
    → check_ramping l ≡ fine l'
    → IsRamping l'
unfolding check_ramping
check_ramping-IsRamping l l' name h = elim (Bool-cases (length l.stages == 0)) [
  | inl none_given ↦ ground (arith, none_given, h)
  | inr given ↦ elim (Checked-cases (check_stages 0 (pos 0) l.stages)) [
    | inr (e, bad) ↦ ground (arith, given, bad, h)
    | inl (peak, good) ↦ elim (Bool-cases (eqb_ℤ peak (pos 0))) [
      | inl flat ↦ ground (arith, given, good, flat, h)
      | inr high ↦
          let same = check_rate-fine l l' (rw (given, good, high) at h) in
          rw (← same) (name, given, peak, good, high)
    ]
  ]
]

validate_load-cases : (l l' : LoadConfig) → validate_load l ≡ fine l' → IsConstant l' ⊎ IsRamping l'
unfolding validate_load
validate_load-cases l l' h = elim (Bool-cases (str_eq l.executor "")) [
  | inl empty ↦ inl (
      check_constant-IsConstant (record l { executor = executor_constant_vus }) l' refl
        (rw empty at h))
  | inr set ↦ elim (Bool-cases (str_eq l.executor executor_constant_vus)) [
    | inl constant ↦ inl (
        check_constant-IsConstant l l' ((eq_iff l.executor executor_constant_vus).0 constant)
          (rw (set, constant) at h))
    | inr unlike ↦ elim (Bool-cases (str_eq l.executor executor_ramping_vus)) [
      | inl ramping ↦ inr (
          check_ramping-IsRamping l l' ((eq_iff l.executor executor_ramping_vus).0 ramping)
            (rw (set, unlike, ramping) at h))
      | inr unknown ↦ ground (arith, set, unlike, unknown, h)
    ]
  ]
]

plan_load-fine :
    (l : LoadConfig) (profile : LoadProfile)
    → plan_load l ≡ fine profile
    → (n : ℕ) × (l.vus ≡ pos n)
      × ((if str_eq l.executor executor_ramping_vus
            then profile_of l ramping_vus n (plan_stages l.stages)
            else profile_of l constant_vus n (fine []))
          ≡ fine profile)
unfolding plan_load
plan_load-fine l profile h = elim (Checked-cases (as_uint_32 l.vus)) [
  | inr (e, bad) ↦ ground (arith, bad, h)
  | inl (n, good) ↦ elim (Checked-cases (as_uint_32 l.max_iteration_rate)) [
    | inr (e, bad) ↦ ground (arith, good, bad, h)
    | inl (rate, fits) ↦ (n, as_uint_32-fine l.vus n good, rw (good, fits) at h)
  ]
]

constant-accepted :
    (l : LoadConfig) (profile : LoadProfile)
    → IsConstant l
    → plan_load l ≡ fine profile
    → is_refused (new_executor profile)
      ≡ (str_eq l.executor executor_constant_vus && ltb_ℤ l.duration (pos 0))
unfolding new_executor new_constant_vus
constant-accepted l profile (name, some_vus, ends) planned =
    let (n, vus, made) = plan_load-fine l profile planned in
    let prof : LoadProfile = record {
      executor = constant_vus;
      vus = n;
      duration = l.duration;
      iterations = l.iterations;
      stages = [];
    } in
    let same : prof ≡ profile = fine-injective prof profile (rw name at made) in
    rw (← same, name) (ground (arith, vus, some_vus, ends))

ramping-accepted :
    (l : LoadConfig) (profile : LoadProfile)
    → IsRamping l
    → plan_load l ≡ fine profile
    → is_refused (new_executor profile)
      ≡ (str_eq l.executor executor_constant_vus && ltb_ℤ l.duration (pos 0))
unfolding new_executor new_ramping_vus
ramping-accepted l profile (name, given, peak, checked, high) planned =
    let (n, vus, made) = plan_load-fine l profile planned in
    let by_stages = rw name at made in
    elim (Checked-cases (plan_stages l.stages)) [
      | inr (e, bad) ↦ ground (arith, bad, by_stages)
      | inl (ss, fits) ↦
          let prof : LoadProfile = record {
            executor = ramping_vus;
            vus = n;
            duration = l.duration;
            iterations = l.iterations;
            stages = ss;
          } in
          let same : prof ≡ profile = fine-injective prof profile (rw fits at by_stages) in
          let (r, built, top) = ramp_from-checked 0 (pos 0) (pos 0) peak l.stages ss checked fits in
          rw (← same, name)
            (ground (arith, plan_stages-empty l.stages ss fits, given, built, top, high))
    ]

-- The engine accepts every load that the validation of a scenario file accepts and `Plan` converts,
-- except for constant users with a duration below 0, which are left to a count of iterations: the
-- validation lets them pass, and the engine refuses them.
pub new_executor-validated :
    (l l' : LoadConfig) (profile : LoadProfile)
    → validate_load l ≡ fine l'
    → plan_load l' ≡ fine profile
    → is_refused (new_executor profile)
      ≡ (str_eq l'.executor executor_constant_vus && ltb_ℤ l'.duration (pos 0))
new_executor-validated l l' profile valid planned = elim (validate_load-cases l l' valid) [
  | inl constant ↦ constant-accepted l' profile constant planned
  | inr ramp ↦ ramping-accepted l' profile ramp planned
]
