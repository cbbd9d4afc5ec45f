-- ===== src/Sdk/Pause/Drawing.antt =====
-- The bounds of a drawn delay.
use load_wave.Prelude.{
  ℕ, ◌+◌, ◌-◌, ◌/◌, ◌≡◌, ap, inl, inr, false, Option, none, some, [], ◌∷◌, arith, ℤ, pos, negsuc,
  ltb_ℤ, ◌+ℤ◌, ◌-ℤ◌, quot, ◌<◌, Bool-cases, ltb, ltb→lt,
}
use load_wave.Text.{Text, trim}
use load_wave.Sdk.Pause.{
  Pause, new_pause, new_pause_range, at_least_zero, drawn, duration, pause, range_of, fixed_pause,
  ranged, from_trimmed, parse_pause,
}

-- Both bounds are delays, in their order.
abbrev pub IsAscending : Pause → Type 0
IsAscending p = (ltb_ℤ p.min (pos 0) ≡ false) × (ltb_ℤ p.max p.min ≡ false)

-- `Int64N` draws below its argument.
abbrev pub DrawsBelow : Option (ℤ → ℤ) → Type 0
DrawsBelow none = Unit
DrawsBelow (some draw) = (n : ℕ) → 0 < n → (k : ℕ) × (draw (pos n) ≡ pos k) × (k < n)

-- A delay within the bounds of a pause.
abbrev pub Within : Pause → Option ℤ → Type 0
Within p d = (x : ℤ) × (d ≡ some x) × (ltb_ℤ x p.min ≡ false) × (ltb_ℤ p.max x ≡ false)

halfway :
    (a b : ℕ)
    → a < b
    → (x : ℤ) × (pos a +ℤ quot (pos b -ℤ pos a) (pos 2) ≡ x)
      × (ltb_ℤ x (pos a) ≡ false)
      × (ltb_ℤ (pos b) x ≡ false)
halfway a b h = (pos (a + (b - a) / 2), ground arith, ground arith, ground arith)

drawn-Within :
    (rnd : Option (ℤ → ℤ)) (a b : ℕ)
    → DrawsBelow rnd
    → a < b
    → Within (record { min = pos a; max = pos b }) (drawn rnd (pos a) (pos b))
drawn-Within none a b h q = let (x, e, low, high) = halfway a b q in (x, ap some e, low, high)
drawn-Within (some draw) a b h q =
    let (k, e, below) = h (b - a) (omega arith) in
    let gap : pos b -ℤ pos a ≡ pos (b - a) = ground arith in
    (pos (a + k), rw gap (ground (arith, e)), ground arith, ground arith)

at_least_pos : (a : ℕ) → at_least_zero (pos a) ≡ pos a
at_least_pos a = ground arith

bounds-Within :
    (rnd : Option (ℤ → ℤ)) (min max : ℤ)
    → IsAscending (record { min = min; max = max })
    → DrawsBelow rnd
    → Within (record { min = min; max = max }) (duration rnd (record { min = min; max = max }))
unfolding duration
bounds-Within rnd (negsuc a) max h q = absurd (ground (arith, h.0))
bounds-Within rnd (pos a) (negsuc b) h q = absurd (ground (arith, h.1))
bounds-Within rnd (pos a) (pos b) h q = elim (Bool-cases (ltb a b)) [
  | inl e ↦ rw (e, duration) (rw (at_least_pos a) (drawn-Within rnd a b q (ltb→lt a b e)))
  | inr e ↦ rw (e, duration) (pos a, ap some (at_least_pos a), ground arith, ground arith)
]

-- A delay drawn from a pause with its bounds in order lies between them, for a random source that draws
-- below its argument, and with no source: the call does not panic.
pub duration-Within :
    (rnd : Option (ℤ → ℤ)) (p : Pause) → IsAscending p → DrawsBelow rnd → Within p (duration rnd p)
duration-Within rnd p h q = bounds-Within rnd p.min p.max h q

fixed_pause-IsAscending : (o : Option ℤ) {p : Pause} → fixed_pause o ≡ pause p → IsAscending p
unfolding new_pause
fixed_pause-IsAscending none h = cc
fixed_pause-IsAscending (some (pos n)) h = ground arith
fixed_pause-IsAscending (some (negsuc n)) h = ground arith

ranged-IsAscending :
    (parse_duration : Text → Option ℤ) (s : Text) (o : Option (ℤ × ℤ)) {p : Pause}
    → ranged parse_duration o s ≡ pause p
    → IsAscending p
ranged-IsAscending parse_duration s none h = fixed_pause-IsAscending (parse_duration s) h
ranged-IsAscending parse_duration s (some (low, high)) h = ground arith

from_trimmed-IsAscending :
    (parse_duration : Text → Option ℤ) (s : Text) {p : Pause}
    → from_trimmed parse_duration s ≡ pause p
    → IsAscending p
from_trimmed-IsAscending parse_duration [] h = cc
from_trimmed-IsAscending parse_duration (c ∷ cs) h =
    ranged-IsAscending parse_duration (c ∷ cs) (range_of parse_duration (c ∷ cs)) h

-- Whatever `ParsePause` accepts is a pause that a delay can be drawn from, and the delay lies between the
-- bounds, for a random source that draws below its argument, and with no source.
pub parse_pause-Within :
    (parse_duration : Text → Option ℤ) (rnd : Option (ℤ → ℤ)) (spec : Text) {p : Pause}
    → parse_pause parse_duration spec ≡ pause p
    → DrawsBelow rnd
    → Within p (duration rnd p)
unfolding parse_pause
parse_pause-Within parse_duration rnd spec {p} h q =
    duration-Within rnd p (from_trimmed-IsAscending parse_duration (trim spec) h) q

-- `NewPauseRange` puts its bounds in order.
pub new_pause_range-IsAscending : (a b : ℕ) → IsAscending (new_pause_range (pos a) (pos b))
unfolding new_pause_range
new_pause_range-IsAscending a b = ground arith
