-- ===== src/Sdk/Pause.antt =====
-- Delays between requests, `Pause` of pkg/loadwave/pause.go. A duration is a number of nanoseconds.
-- `time.ParseDuration` is a parameter, as it goes through floating-point numbers, and so is the random
-- source, of which `Int64N` is read: a number from 0 below its argument.
pub mod Drawing
use load_wave.Prelude.{
  ℕ, Bool, true, false, ◌&&◌, Option, none, some, List, [], ◌∷◌, ◌++◌, if◌then◌else◌, ℤ, pos, ltb_ℤ,
  leb_ℤ, ◌+ℤ◌, ◌-ℤ◌, quot,
}
use load_wave.Text.{Text, codes, trim, split_last}

pub record Pause : Type 0 where
  pub min : ℤ
  pub max : ℤ

unfoldable pub new_pause : ℤ → Pause
new_pause d = record { min = d; max = d }

unfoldable pub new_pause_range : ℤ → ℤ → Pause
new_pause_range min_dur max_dur =
    if ltb_ℤ max_dur min_dur
    then record { min = max_dur; max = min_dur }
    else record { min = min_dur; max = max_dur }

unfoldable pub is_zero : Pause → Bool
is_zero p = leb_ℤ p.min (pos 0) && leb_ℤ p.max (pos 0)

abbrev pub at_least_zero : ℤ → ℤ
at_least_zero d = if ltb_ℤ d (pos 0) then pos 0 else d

-- `Int64N` panics on an argument that is not positive: `none`.
abbrev pub int64_n : (ℤ → ℤ) → ℤ → Option ℤ
int64_n draw n = if leb_ℤ n (pos 0) then none else some (draw n)

abbrev pub above : ℤ → Option ℤ → Option ℤ
above low none = none
above low (some d) = some (low +ℤ d)

abbrev pub drawn : Option (ℤ → ℤ) → ℤ → ℤ → Option ℤ
drawn none low max = some (low +ℤ quot (max -ℤ low) (pos 2))
drawn (some draw) low max = above low (int64_n draw (max -ℤ low))

-- `Duration`, with the source of random numbers or nil; `none` is a panic.
unfoldable pub duration : Option (ℤ → ℤ) → Pause → Option ℤ
duration rnd p =
    if leb_ℤ p.max p.min then some (at_least_zero p.min) else drawn rnd (at_least_zero p.min) p.max

-- `String`, with that of a duration, which is the library's.
unfoldable pub pause_string : (ℤ → Text) → Pause → Text
pause_string duration_string p =
    if is_zero p
    then codes "0s"
    else if leb_ℤ p.max p.min
    then duration_string p.min
    else duration_string p.min ++ (45 ∷ duration_string p.max)

-- What `ParsePause` returns.
pub data ParsedPause : Type 0 where
  pause : Pause → ParsedPause
  empty_pause not_ascending invalid_pause negative_pause : ParsedPause

abbrev pub both : Option ℤ → Option ℤ → Option (ℤ × ℤ)
both (some low) (some high) = some (low, high)
both _ _ = none

abbrev pub fixed_pause : Option ℤ → ParsedPause
fixed_pause none = invalid_pause
fixed_pause (some d) = if ltb_ℤ d (pos 0) then negative_pause else pause (new_pause d)

module _ (parse_duration : Text → Option ℤ) where
  -- The two durations around the last `-`, if it is not the first character and both are read.
  unfoldable pub range_of : Text → Option (ℤ × ℤ)
  range_of s = elim (split_last 45 s) [
    | none ↦ none
    | some ([], after) ↦ none
    | some (c ∷ cs, after) ↦ both (parse_duration (trim (c ∷ cs))) (parse_duration (trim after))
  ]

  abbrev pub ranged : Option (ℤ × ℤ) → Text → ParsedPause
  ranged none s = fixed_pause (parse_duration s)
  ranged (some (low, high)) s =
      if ltb_ℤ low (pos 0)
      then not_ascending
      else if ltb_ℤ high low
      then not_ascending
      else pause (record { min = low; max = high })

  abbrev pub from_trimmed : Text → ParsedPause
  from_trimmed [] = empty_pause
  from_trimmed (c ∷ cs) = ranged (range_of (c ∷ cs)) (c ∷ cs)

  unfoldable pub parse_pause : Text → ParsedPause
  parse_pause spec = from_trimmed (trim spec)
