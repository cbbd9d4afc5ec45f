-- ===== src/Engine/Executor/Tests.antt =====
-- Profiles and instances for internal/engine/executor.go, with whole numbers for the floating point
-- numbers.
use native.Mathlib.Nat.{div-le_of_le-mul, mul_comm}
use load_wave.Prelude.{
  wrap, ℕ, zero, suc, ◌*◌, ◌/◌, ◌≤◌, ◌<◌, ◌≡◌, ◌↔◌, refl, true, [], ◌∷◌, ℤ, pos, negsuc, ◌+ℤ◌, ◌-ℤ◌,
  ◌*ℤ◌, quot, leb_ℤ, arith,
}
use load_wave.Engine.Executor.{
  Reals, LoadProfile, ramping_vus, ok, Executor, ramping, new_executor, new_ramping_vus, ramp_from,
  target_at, Scaled, quota_at, scaled_target_at,
}
use load_wave.Engine.Executor.Between.{Laws, exact_end}
use load_wave.Engine.Executor.Bounds.{IsWithin, IsBuilt, new_executor-IsBuilt}
use load_wave.Engine.Executor.Rescale.{scaled_target_at-IsWithin}

abbrev whole : Reals
whole = record { Real = ℤ; of_int = λ n. n; plus = ◌+ℤ◌; times = ◌*ℤ◌; over = quot; round = λ n. n }

abbrev le : ℤ → ℤ → Type 0
le a b = leb_ℤ a b ≡ true

plus_le : (a : ℕ) (x y : ℤ) → le x y → le (pos a +ℤ x) (pos a +ℤ y)
plus_le a x y h = ground arith

plus_int : (a b : ℕ) → a < exact_end → b < exact_end → pos a +ℤ (pos b -ℤ pos a) ≡ pos b
plus_int a b h k = ground arith

plus_zero : (a : ℕ) → pos a +ℤ pos 0 ≡ pos a
plus_zero a = ground arith

times_up :
    (p x : ℤ) → le (pos 0) p → le p (pos 1) → le (pos 0) x → le (pos 0) (p *ℤ x) × le (p *ℤ x) x
times_up (pos zero) x h k l = ground arith
times_up (pos (suc zero)) x h k l = ground arith
times_up (pos (suc (suc n))) x h k l = ground arith
times_up (negsuc n) x h k l = ground arith

times_down :
    (p x : ℤ) → le (pos 0) p → le p (pos 1) → le x (pos 0) → le x (p *ℤ x) × le (p *ℤ x) (pos 0)
times_down (pos zero) x h k l = ground arith
times_down (pos (suc zero)) x h k l = ground arith
times_down (pos (suc (suc n))) x h k l = ground arith
times_down (negsuc n) x h k l = ground arith

rises : (a b : ℕ) → a ≤ b → le (pos 0) (pos b -ℤ pos a)
rises a b h = ground arith

falls : (a b : ℕ) → b ≤ a → le (pos b -ℤ pos a) (pos 0)
falls a b h = ground arith

over_nonneg : (n d : ℕ) → 0 < d → le (pos 0) (quot (pos n) (pos d))
over_nonneg n d h = ground arith

over_le : (n d k : ℕ) → 0 < d → n ≤ k * d → le (quot (pos n) (pos d)) (pos k)
over_le n d k h l =
    let part : n / d ≤ k = div-le_of_le-mul d (omega (arith, l, mul_comm k d)) in
    ground (arith, part)

abbrev laws : Laws whole
laws = record {
  le = le;
  plus_le = λ a x y b h. plus_le a x y h;
  plus_int = plus_int;
  plus_zero = λ a h. plus_zero a;
  times_int = λ a b h k l. refl;
  times_up = λ p a b h k lo hi. times_up p (pos b -ℤ pos a) lo hi (rises a b h);
  times_down = λ p a b h k lo hi. times_down p (pos b -ℤ pos a) lo hi (falls a b h);
  over_nonneg = λ n d h k l. over_nonneg n d h;
  over_one = λ n d h k l. over_le n d 1 h (omega (arith, k));
  over_le = λ n d k h a l b. over_le n d k h l;
  round_within = λ lo hi x h k below above. (below, above);
}

abbrev ramp : LoadProfile
ramp = record {
  executor = ramping_vus;
  vus = 0;
  duration = pos 0;
  iterations = 0;
  stages =
      record { duration = pos 100; target = 10 } ∷ record { duration = pos 50; target = 4 } ∷ [];
}

abbrev built : Executor
built = ramping (record {
  legs = record { end = pos 100; target = pos 10 } ∷ record { end = pos 150; target = pos 4 } ∷ [];
  total = pos 150;
  peak = pos 10;
})

ramp_is_built : new_executor ramp ≡ ok built
unfolding new_executor new_ramping_vus ramp_from wrap
ramp_is_built = refl

ramp_ends : target_at whole built (pos 150) ≡ pos 0
unfolding target_at
ramp_ends = refl

ramp_IsBuilt : IsBuilt 150 10 built
ramp_IsBuilt = new_executor-IsBuilt ramp built (omega arith) ramp_is_built

abbrev half : Scaled
half = record {
  inner = built;
  peak_vus = pos 10;
  from = pos 5;
  to = pos 5;
  ramp_from_at = pos 0;
  ramp_to_at = pos 0;
}

abbrev easing : Scaled
easing = record half { to = pos 8; ramp_from_at = pos 20; ramp_to_at = pos 30 }

scaled_target_at-IsWithin_example :
    IsWithin (scaled_target_at whole half (pos 120)) 5
    × ((scaled_target_at whole half (pos 120) ≡ pos 0) ↔ (target_at whole built (pos 120) ≡ pos 0))
unfolding quota_at
scaled_target_at-IsWithin_example =
    scaled_target_at-IsWithin whole laws half 5 150 10 (pos 120) refl ramp_IsBuilt refl
      (omega arith) (omega arith) (omega arith)
