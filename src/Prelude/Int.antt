-- ===== src/Prelude/Int.antt =====
-- Signed integers over the native numbers, and Go's 64-bit `int` arithmetic: two's complement
-- wrap-around, division and remainder that truncate towards zero.
use Prim.Native.Nat.{ℕ, suc, ◌+◌, ◌-◌, ◌*◌, ◌/◌, ◌%◌, ◌<◌}
use mathlib.Core.Path.{◌≡◌, refl}
use mathlib.Core.Logic.{◌↔◌}
use mathlib.Core.Bool.{Bool, true, false}
use native.Mathlib.Omega.{arith}
use load_wave.Prelude.Tests.{ltb, leb, ◌==◌, if◌then◌else◌}

-- `negsuc n` is -(n + 1).
pub data ℤ : Type 0 where
  pos : ℕ → ℤ
  negsuc : ℕ → ℤ

abbrev pub pos_part : ℤ → ℕ
pos_part (pos n) = n
pos_part (negsuc n) = 0

abbrev pub sub_ℕ : ℕ → ℕ → ℤ
sub_ℕ a b = if leb b a then pos (a - b) else negsuc (b - a - 1)

infixl 65 ◌+ℤ◌ ◌-ℤ◌
infixl 70 ◌*ℤ◌
abbrev pub ◌+ℤ◌ : ℤ → ℤ → ℤ
pos a +ℤ pos b = pos (a + b)
pos a +ℤ negsuc b = sub_ℕ a (suc b)
negsuc a +ℤ pos b = sub_ℕ b (suc a)
negsuc a +ℤ negsuc b = negsuc (suc (a + b))

abbrev pub ◌-ℤ◌ : ℤ → ℤ → ℤ
pos a -ℤ pos b = sub_ℕ a b
pos a -ℤ negsuc b = pos (a + suc b)
negsuc a -ℤ pos b = negsuc (a + b)
negsuc a -ℤ negsuc b = sub_ℕ b a

abbrev pub ◌*ℤ◌ : ℤ → ℤ → ℤ
pos a *ℤ pos b = pos (a * b)
pos a *ℤ negsuc b = sub_ℕ 0 (a * suc b)
negsuc a *ℤ pos b = sub_ℕ 0 (suc a * b)
negsuc a *ℤ negsuc b = pos (suc a * suc b)

-- Go's `/` and `%`. The source divides by a variable only after testing that it is not 0.
abbrev pub quot : ℤ → ℤ → ℤ
quot (pos a) (pos b) = pos (a / b)
quot (pos a) (negsuc b) = sub_ℕ 0 (a / suc b)
quot (negsuc a) (pos b) = sub_ℕ 0 (suc a / b)
quot (negsuc a) (negsuc b) = pos (suc a / suc b)

abbrev pub rem : ℤ → ℤ → ℤ
rem (pos a) (pos b) = pos (a % b)
rem (pos a) (negsuc b) = pos (a % suc b)
rem (negsuc a) (pos b) = sub_ℕ 0 (suc a % b)
rem (negsuc a) (negsuc b) = sub_ℕ 0 (suc a % suc b)

abbrev pub ltb_ℤ : ℤ → ℤ → Bool
ltb_ℤ (pos a) (pos b) = ltb a b
ltb_ℤ (pos a) (negsuc b) = false
ltb_ℤ (negsuc a) (pos b) = true
ltb_ℤ (negsuc a) (negsuc b) = ltb b a

abbrev pub leb_ℤ : ℤ → ℤ → Bool
leb_ℤ a b = if ltb_ℤ b a then false else true

abbrev pub eqb_ℤ : ℤ → ℤ → Bool
eqb_ℤ (pos a) (pos b) = a == b
eqb_ℤ (pos a) (negsuc b) = false
eqb_ℤ (negsuc a) (pos b) = false
eqb_ℤ (negsuc a) (negsuc b) = a == b

abbrev pub is_pos : ℤ → Bool
is_pos w = ltb_ℤ (pos 0) w

-- 2 ^ 64 and the first number that an `int64` does not hold.
abbrev pub word : ℕ
word = 18446744073709551616

abbrev pub int64_end : ℕ
int64_end = 9223372036854775808

abbrev pub of_residue : ℕ → ℤ
of_residue m = if ltb m int64_end then pos m else negsuc (word - 1 - m)

-- The `int64` that a result of exact arithmetic becomes.
unfoldable pub wrap : ℤ → ℤ
wrap (pos n) = of_residue (n % word)
wrap (negsuc n) = of_residue (word - 1 - n % word)

abbrev of_residue_32 : ℕ → ℤ
of_residue_32 m = if ltb m 2147483648 then pos m else negsuc (4294967296 - 1 - m)

-- Go's conversion of an integer to `int32`.
unfoldable pub wrap_32 : ℤ → ℤ
wrap_32 (pos n) = of_residue_32 (n % 4294967296)
wrap_32 (negsuc n) = of_residue_32 (4294967296 - 1 - n % 4294967296)

-- Go's `uint32(x)` and `uint64(x)` of an `int`.
abbrev pub uint_32 : ℤ → ℕ
uint_32 (pos n) = n % 4294967296
uint_32 (negsuc n) = 4294967295 - n % 4294967296

abbrev pub uint_64 : ℤ → ℕ
uint_64 (pos n) = n % 18446744073709551616
uint_64 (negsuc n) = 18446744073709551615 - n % 18446744073709551616

pub eqb_ℤ_iff : (a b : ℤ) → (eqb_ℤ a b ≡ true) ↔ (a ≡ b)
eqb_ℤ_iff a b = ground arith

pub wrap_pos : (n : ℕ) → n < int64_end → wrap (pos n) ≡ pos n
unfolding wrap
wrap_pos n h = ground arith

pub wrap_neg : (n : ℕ) → n < int64_end → wrap (negsuc n) ≡ negsuc n
unfolding wrap
wrap_neg n h = ground arith

wrap_runs : wrap (pos 9223372036854775808) ≡ negsuc 9223372036854775807
unfolding wrap
wrap_runs = refl
