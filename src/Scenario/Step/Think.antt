-- ===== src/Scenario/Step/Think.antt =====
-- A think time is read as a pause is.
use load_wave.Prelude.{
  ◌≡◌, refl, ap, ◌∙◌, inl, inr, Option-cases, Option, none, some, [], ◌∷◌, ℤ, arith,
}
use load_wave.Sdk.Pause.{
  ParsedPause, pause, empty_pause, not_ascending, invalid_pause, negative_pause, range_of,
  parse_pause, from_trimmed, ranged, fixed_pause, new_pause, both,
}
use load_wave.Scenario.Step.{
  Library, ParsedThink, between, descending, unreadable, negative, parse_think, think_in,
  fixed_think, think_range, both_read,
}
use load_wave.Text.{Text, trim, split_last}

-- The think time that a pause is; an empty pause is one that is not read.
abbrev pub of_pause : ParsedPause → ParsedThink
of_pause (pause p) = between p.min p.max
of_pause empty_pause = unreadable
of_pause not_ascending = descending
of_pause invalid_pause = unreadable
of_pause negative_pause = negative

fixed_think-of_pause : (o : Option ℤ) → fixed_think o ≡ of_pause (fixed_pause o)
unfolding new_pause
fixed_think-of_pause none = refl
fixed_think-of_pause (some d) = ground arith

think_in-of_pause :
    (parse_duration : Text → Option ℤ) (o : Option (ℤ × ℤ)) (s : Text)
    → think_in o (parse_duration s) ≡ of_pause (ranged parse_duration o s)
think_in-of_pause parse_duration none s = fixed_think-of_pause (parse_duration s)
think_in-of_pause parse_duration (some (low, high)) s = ground arith

both_read-both : (low high : Option ℤ) → both_read low high ≡ both low high
both_read-both none high = refl
both_read-both (some low) none = refl
both_read-both (some low) (some high) = refl

-- The two ways in which the range is split agree.
think_range-range_of :
    (parse_duration : Text → Option ℤ) (s : Text)
    → think_range parse_duration s ≡ range_of parse_duration s
unfolding think_range range_of
think_range-range_of parse_duration s = elim (Option-cases (split_last 45 s)) [
  | inl e ↦ rw (e, think_range, range_of) refl
  | inr (([], after), e) ↦ rw (e, think_range, range_of) refl
  | inr ((c ∷ cs, after), e) ↦
      rw (e, think_range, range_of)
        (both_read-both (parse_duration (trim (c ∷ cs))) (parse_duration (trim after)))
]

from_trimmed-of_pause :
    (parse_duration : Text → Option ℤ) (s : Text)
    → parse_duration [] ≡ none
    → think_in (range_of parse_duration s) (parse_duration s)
      ≡ of_pause (from_trimmed parse_duration s)
unfolding range_of split_last
from_trimmed-of_pause parse_duration [] h = rw h refl
from_trimmed-of_pause parse_duration (c ∷ cs) h =
    think_in-of_pause parse_duration (range_of parse_duration (c ∷ cs)) (c ∷ cs)

-- `parseThink` and `ParsePause` accept the same texts and read the same bounds, where
-- `time.ParseDuration` does not read the empty text; their errors correspond.
pub parse_think-of_pause :
    (lib : Library) (spec : Text)
    → lib.parse_duration [] ≡ none
    → parse_think lib spec ≡ of_pause (parse_pause lib.parse_duration spec)
unfolding parse_think parse_pause
parse_think-of_pause lib spec h =
    ap (λ o. think_in o (lib.parse_duration (trim spec)))
      (think_range-range_of lib.parse_duration (trim spec))
    ∙ from_trimmed-of_pause lib.parse_duration (trim spec) h
