-- ===== src/Sdk/Floats.antt =====
-- The numbers that the recorder is given, `float64`, with the conversion of an `int64` and the quotient, and
-- `msOf` of pkg/loadwave/http.go. No law of them is assumed.
use load_wave.Prelude.{ℤ, pos}

pub record Floats (V : Type 0) : Type 0 where
  pub of_int64 : ℤ → V
  pub over : V → V → V

-- A duration in milliseconds.
abbrev pub ms_of : {V : Type 0} → Floats V → ℤ → V
ms_of f d = f.over (f.of_int64 d) (f.of_int64 (pos 1000000))
