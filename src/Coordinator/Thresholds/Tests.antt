-- ===== src/Coordinator/Thresholds/Tests.antt =====
-- Runs and instances for internal/coordinator/threshold.go, over floats that are whole numbers or
-- not a number.
use Prim.Native.String.{String}
use text.Mathlib.Text.{◌==◌ as str_eq}
use load_wave.Prelude.{
  ℕ, ◌≡◌, refl, arith, Bool, true, false, Option, none, some, [], ◌∷◌, inr, ltb, leb, if◌then◌else◌,
}
use load_wave.Coordinator.Thresholds.{
  Floats, Stat, Op, Threshold, ThresholdResult, SeriesSummary, percentiles_of, percentile,
  stat_value, compare, evaluate, evaluate_thresholds, is_breach, any_breached,
}
use load_wave.Coordinator.Thresholds.Verdicts.{compare_nan, p999_unevaluated, IsReported}

abbrev test : (ℕ → ℕ → Bool) → Option ℕ → Option ℕ → Bool
test f none b = false
test f (some a) none = false
test f (some a) (some b) = f a b

abbrev nan : Option ℕ → Bool
nan none = true
nan (some _) = false

abbrev pub whole : Floats
whole = record {
  Float = Option ℕ;
  zero_float = some 0;
  of_uint64 = λ n. some n;
  is_nan = nan;
  lt_float = test ltb;
  le_float = test leb;
  format_g = λ v. "x";
}

abbrev summary : SeriesSummary whole
summary = record {
  count = 4;
  min = some 1;
  max = some 9;
  avg = some 5;
  rate = some 0;
  percentiles = percentiles_of whole (λ q. some q);
}

abbrev lookup : String → Option (SeriesSummary whole)
lookup m = if str_eq m "http_req_duration" then some summary else none

abbrev limit : Stat → Threshold whole
limit s = record {
  metric = "http_req_duration";
  stat = s;
  op = Op.lt;
  value = some 90;
  abort_on_fail = true;
}

lookup-IsReported : (m : String) (s : SeriesSummary whole) → lookup m ≡ some s → IsReported whole s
lookup-IsReported m s e = inr (λ q. some q, ground arith)

p95_fails : any_breached whole (evaluate_thresholds whole lookup (limit Stat.p95 ∷ [])) ≡ true
unfolding any_breached evaluate_thresholds stat_value compare percentile percentiles_of
p95_fails = refl

compare_nan_example : compare whole none Op.lt (some 3) ≡ false
compare_nan_example = compare_nan whole none (some 3) Op.lt refl

p999_unevaluated_example :
    ((evaluate whole lookup (limit Stat.p999)).evaluated ≡ false)
    × (is_breach whole (evaluate whole lookup (limit Stat.p999)) ≡ false)
p999_unevaluated_example = p999_unevaluated whole lookup (limit Stat.p999) lookup-IsReported refl

abbrev failing : ThresholdResult whole
failing = record {
  metric = "m";
  stat = "max";
  op = "<";
  value = some 1;
  actual = some 2;
  evaluated = true;
  passed = false;
  abort_on_fail = true;
  description = "m max < 1";
}
