-- ===== src/Engine/Executor/Bounds.antt =====
-- How many virtual users the executors of internal/engine/executor.go ask for.
use load_wave.Prelude.{
  ltb→lt, pos_part, ℕ, suc, ◌+◌, ◌-◌, ◌≤◌, ◌<◌, ◌≡◌, refl, ap, ◌∙◌, true, Bool-cases, inl, inr, ◌⊎◌,
  List, [], ◌∷◌, if◌then◌else◌, ltb, ℤ, pos, negsuc, ◌+ℤ◌, ◌-ℤ◌, leb_ℤ, is_pos, wrap, wrap_pos,
  int64_end, arith,
}
use load_wave.Engine.Executor.{
  Reals, Stage, LoadProfile, Result, ok, err, ProfileError, ExecutorType, unspecified, constant_vus,
  ramping_vus, other, new_by, Leg, RampingVus, Executor, constant, ramping, new_executor,
  new_constant_vus, new_ramping_vus, ramp_from, target_from, target_at, peak, higher, add_leg,
}
use load_wave.Engine.Executor.Between.{Laws, exact_end, IsBetween, interpolate-IsBetween}

-- From 0 to a bound.
abbrev pub IsWithin : ℤ → ℕ → Type 0
IsWithin n top = (leb_ℤ (pos 0) n ≡ true) × (leb_ℤ n (pos top) ≡ true)

-- Legs that end later and later, after `start`, with targets up to `top`; the last ends at `total`.
abbrev pub AreLegs : ℕ → ℕ → ℕ → List Leg → Type 0
AreLegs start total top [] = start ≡ total
AreLegs start total top (l ∷ ls) =
    (e : ℕ) × (t : ℕ) × (l ≡ record { end = pos e; target = pos t })
    × (start < e)
    × (t ≤ top)
    × AreLegs e total top ls

pub span : (a b : ℕ) → a ≤ b → b < int64_end → wrap (pos b -ℤ pos a) ≡ pos (b - a)
unfolding wrap
span a b h k = ground arith

AreLegs-le : (start total top : ℕ) (ls : List Leg) → AreLegs start total top ls → start ≤ total
AreLegs-le start total top [] a = omega arith
AreLegs-le start total top (l ∷ ls) (n, t, same, later, t_le, a) =
    omega (arith, AreLegs-le n total top ls a)

IsBetween-IsWithin : (a b top : ℕ) (n : ℤ) → a ≤ top → b ≤ top → IsBetween a b n → IsWithin n top
IsBetween-IsWithin a b top n h k (lo, hi) = ground arith

module _ (R : Reals) (L : Laws R) where
  target_from-IsWithin :
      (e start from total top : ℕ) (ls : List Leg)
      → start ≤ e
      → from ≤ top
      → top < exact_end
      → total < int64_end
      → AreLegs start total top ls
      → IsWithin (target_from R (pos e) (pos from) (pos start) ls) top
  unfolding target_from
  target_from-IsWithin e start from total top [] h k b c a = ground arith
  target_from-IsWithin e start from total top (l ∷ ls) h k b c (n, t, same, later, t_le, a) =
      let n_le = AreLegs-le n total top ls a in
      rw same (elim (Bool-cases (ltb e n)) [
        | inl now ↦
            rw
              (
                now,
                span start e h (omega (arith, n_le, c, ltb→lt e n now)),
                span start n (omega arith) (omega (arith, n_le, c)),
              )
              (IsBetween-IsWithin from t top _ k t_le (
                interpolate-IsBetween R L (e - start) (n - start) from t (omega arith)
                  (ground (arith, now)) (omega arith) (omega arith) (omega arith)))
        | inr past ↦
            rw past (target_from-IsWithin e n t total top ls (ground (arith, past)) t_le b c a)
      ])

abbrev pub lasting : List Stage → ℕ
lasting [] = 0
lasting (s ∷ ss) = pos_part s.duration + lasting ss

abbrev pub highest : ℕ → List Stage → ℕ
highest p [] = p
highest p (s ∷ ss) = highest (if ltb p s.target then s.target else p) ss

highest-le : (p : ℕ) (ss : List Stage) → p ≤ highest p ss
highest-le p [] = omega arith
highest-le p (s ∷ ss) = ground (arith, highest-le (if ltb p s.target then s.target else p) ss)

Result-cases {ℓ} :
    {A : Type ℓ} (r : Result A) → ((a : A) × (r ≡ ok a)) ⊎ ((e : ProfileError) × (r ≡ err e))
Result-cases (ok a) = inl (a, refl)
Result-cases (err e) = inr (e, refl)

later_is :
    (a : ℕ) (d : ℤ)
    → is_pos d ≡ true
    → a + pos_part d < int64_end
    → wrap (pos a +ℤ d) ≡ pos (a + pos_part d)
later_is a (pos d) h k = wrap_pos (a + d) k
later_is a (negsuc d) h k = cc

higher_is : (t p : ℕ) → higher (pos t) (pos p) ≡ pos (if ltb p t then t else p)
higher_is t p = ground arith

sum_assoc : (a b c : ℕ) → a + b + c ≡ a + (b + c)
sum_assoc a b c = omega arith

zero_add : (a : ℕ) → 0 + a ≡ a
zero_add a = omega arith

-- What the loop of `newRampingVUs` builds.
pub record IsRamp (a total top : ℕ) (r : RampingVus) : Type 0 where
  pub lasts : r.total ≡ pos total
  pub peaks : r.peak ≡ pos top
  pub legs_lem : AreLegs a total top r.legs

ramp_from-IsRamp :
    (i a p : ℕ) (ss : List Stage) (r : RampingVus)
    → a + lasting ss < int64_end
    → ramp_from i (pos a) (pos p) ss ≡ ok r
    → IsRamp a (a + lasting ss) (highest p ss) r
unfolding ramp_from
ramp_from-IsRamp i a p [] r b h =
    let same : record { legs = []; total = pos a; peak = pos p } ≡ r = ground (arith, h) in
    rw (← same) (record { lasts = ap pos (omega arith); peaks = refl; legs_lem = omega arith })
ramp_from-IsRamp i a p (s ∷ ss) r b h =
    let n = a + pos_part s.duration in
    let q = if ltb p s.target then s.target else p in
    elim (Bool-cases (is_pos s.duration)) [
      | inr short ↦ ground (arith, h, short)
      | inl long ↦
          let next = later_is a s.duration long (omega arith) in
          elim (Result-cases (ramp_from (suc i) (pos n) (pos q) ss)) [
            | inr (e, bad) ↦ ground (arith, h, long, next, bad, higher_is s.target p)
            | inl (rest, e) ↦
                let same : add_leg (pos n) s rest ≡ r =
                  ground (arith, h, long, next, e, higher_is s.target p) in
                let ih = ramp_from-IsRamp (suc i) n q ss rest (omega arith) e in
                rw (← same) (record {
                  lasts = ih.lasts ∙ ap pos (omega arith);
                  peaks = ih.peaks;
                  legs_lem = (
                    n,
                    s.target,
                    refl,
                    ground (arith, long),
                    ground (arith, highest-le q ss),
                    rw (sum_assoc a (pos_part s.duration) (lasting ss)) at ih.legs_lem,
                  );
                })
          ]
    ]

-- What an executor that was built satisfies: a constant one asks for a positive number of users, a
-- ramping one is a ramp from 0 to its peak, which is positive.
abbrev pub IsBuilt : ℕ → ℕ → Executor → Type 0
IsBuilt total top (constant c) = (c.vus ≡ pos top) × (0 < top) × (leb_ℤ (pos 0) c.duration ≡ true)
IsBuilt total top (ramping r) = IsRamp 0 total top r × (0 < top)

-- The peak that a profile asks for.
abbrev pub peak_by : ExecutorType → LoadProfile → ℕ
peak_by unspecified profile = profile.vus
peak_by constant_vus profile = profile.vus
peak_by ramping_vus profile = highest 0 profile.stages
peak_by (other n) profile = 0

abbrev pub peak_of : LoadProfile → ℕ
peak_of profile = peak_by profile.executor profile

constant-IsBuilt :
    (profile : LoadProfile) (x : Executor)
    → new_constant_vus profile ≡ ok x
    → IsBuilt (lasting profile.stages) profile.vus x
unfolding new_constant_vus
constant-IsBuilt profile (constant c) h = ground (arith, h)
constant-IsBuilt profile (ramping r) h = ground (arith, h)

ramping-IsBuilt :
    (profile : LoadProfile) (x : Executor)
    → lasting profile.stages < int64_end
    → new_ramping_vus profile ≡ ok x
    → IsBuilt (lasting profile.stages) (highest 0 profile.stages) x
unfolding new_ramping_vus
ramping-IsBuilt profile (constant c) b h =
    elim (Result-cases (ramp_from 0 (pos 0) (pos 0) profile.stages)) [
      | inl (r, e) ↦ ground (arith, h, e)
      | inr (f, e) ↦ ground (arith, h, e)
    ]
ramping-IsBuilt profile (ramping r) b h =
    elim (Result-cases (ramp_from 0 (pos 0) (pos 0) profile.stages)) [
      | inr (f, e) ↦ ground (arith, h, e)
      | inl (q, e) ↦
          let same : q ≡ r = ground (arith, h, e) in
          let ramp =
            rw (zero_add (lasting profile.stages)) at
              (ramp_from-IsRamp 0 0 0 profile.stages q (omega arith) e) in
          (rw (← same) ramp, ground (arith, h, e, ramp.peaks))
    ]

new_by-IsBuilt :
    (t : ExecutorType) (profile : LoadProfile) (x : Executor)
    → lasting profile.stages < int64_end
    → new_by t profile ≡ ok x
    → IsBuilt (lasting profile.stages) (peak_by t profile) x
new_by-IsBuilt unspecified profile x b h = constant-IsBuilt profile x h
new_by-IsBuilt constant_vus profile x b h = constant-IsBuilt profile x h
new_by-IsBuilt ramping_vus profile x b h = ramping-IsBuilt profile x b h
new_by-IsBuilt (other n) profile x b h = ground (arith, h)

pub new_executor-IsBuilt :
    (profile : LoadProfile) (x : Executor)
    → lasting profile.stages < int64_end
    → new_executor profile ≡ ok x
    → IsBuilt (lasting profile.stages) (peak_of profile) x
unfolding new_executor
new_executor-IsBuilt profile x b h = new_by-IsBuilt profile.executor profile x b h

pub built_peak :
    (total top : ℕ) (x : Executor) → IsBuilt total top x → (peak x ≡ pos top) × (0 < top)
built_peak total top (constant c) h = (h.0, h.1)
built_peak total top (ramping r) (m, po) = (m.peaks, po)

pub target_at-IsWithin :
    (R : Reals) (L : Laws R) (x : Executor) (total top : ℕ) (elapsed : ℤ)
    → IsBuilt total top x
    → top < exact_end
    → total < int64_end
    → IsWithin (target_at R x elapsed) top
unfolding target_at
target_at-IsWithin R L (constant c) total top elapsed h b k = ground arith
target_at-IsWithin R L (ramping r) total top (negsuc e) h b k = ground arith
target_at-IsWithin R L (ramping r) total top (pos e) (m, po) b k =
    elim (Bool-cases (leb_ℤ r.total (pos e))) [
      | inl past ↦ ground (arith, past)
      | inr going ↦
          let h =
            target_from-IsWithin R L e 0 0 total top r.legs (omega arith) (omega arith) b k
              m.legs_lem in
          ground (arith, going, h)
    ]

-- For every profile that an executor is made of, with a peak below 2 ^ 53 and stages that together
-- fit `int64`, over floats that follow the laws stated for them: the executor's peak is the profile's, which is positive, and at every moment the number
-- of users that it asks for is from 0 to that peak.
pub executor_bounds :
    (R : Reals) (L : Laws R) (profile : LoadProfile) (x : Executor) (elapsed : ℤ)
    → new_executor profile ≡ ok x
    → lasting profile.stages < int64_end
    → peak_of profile < exact_end
    → (peak x ≡ pos (peak_of profile))
      × (0 < peak_of profile)
      × IsWithin (target_at R x elapsed) (peak_of profile)
executor_bounds R L profile x elapsed h b k =
    let built = new_executor-IsBuilt profile x b h in
    let (peaks, some_peak) = built_peak (lasting profile.stages) (peak_of profile) x built in
    (
      peaks,
      some_peak,
      target_at-IsWithin R L x (lasting profile.stages) (peak_of profile) elapsed built k b,
    )
