-- ===== src/Coordinator/Thresholds.antt =====
-- The verdict on a run's thresholds, internal/coordinator/threshold.go. The floating point type and
-- its operations are a parameter, and so is `Store.Aggregate` of internal/metrics/store.go.
mod Verdicts
mod Tests
use Prim.Native.String.{String, ◌++◌ as ◌⧺◌}
use text.Mathlib.Text.{◌==◌ as str_eq}
use load_wave.Prelude.{
  ℕ, ◌==◌, Bool, true, false, not, ◌&&◌, Option, none, some, List, [], ◌∷◌, map, if◌then◌else◌,
}

-- What the verdicts use of Go's `float64` and of `fmt`.
pub record Floats : Type 1 where
  pub Float : Type 0
  pub zero_float : Float
  pub of_uint64 : ℕ → Float
  pub is_nan : Float → Bool
  pub lt_float : Float → Float → Bool
  pub le_float : Float → Float → Bool
  pub format_g : Float → String

-- `ThresholdStat` and `ThresholdOp` of proto/loadwave/v1/plan.proto.
pub data Stat : Type 0 where
  unspecified count rate avg min max p50 p90 p95 p99 p999 : Stat

pub data Op : Type 0 where
  unspecified lt lte gt gte : Op

-- `statLabels`, and the text that Go's map gives for a missing key.
abbrev pub stat_label : Stat → Option String
stat_label Stat.unspecified = none
stat_label Stat.count = some "count"
stat_label Stat.rate = some "rate"
stat_label Stat.avg = some "avg"
stat_label Stat.min = some "min"
stat_label Stat.max = some "max"
stat_label Stat.p50 = some "p50"
stat_label Stat.p90 = some "p90"
stat_label Stat.p95 = some "p95"
stat_label Stat.p99 = some "p99"
stat_label Stat.p999 = some "p999"

abbrev pub op_label : Op → Option String
op_label Op.unspecified = none
op_label Op.lt = some "<"
op_label Op.lte = some "<="
op_label Op.gt = some ">"
op_label Op.gte = some ">="

abbrev or_empty : Option String → String
or_empty none = ""
or_empty (some s) = s

module _ (F : Floats) where
  open F use {Float, zero_float, of_uint64, is_nan, lt_float, le_float, format_g}

  pub record Threshold : Type 0 where
    pub metric : String
    pub stat : Stat
    pub op : Op
    pub value : Float
    pub abort_on_fail : Bool

  pub record ThresholdResult : Type 0 where
    pub metric : String
    pub stat : String
    pub op : String
    pub value : Float
    pub actual : Float
    pub evaluated : Bool
    pub passed : Bool
    pub abort_on_fail : Bool
    pub description : String

  -- The fields of `metrics.SeriesSummary` that a threshold reads.
  pub record SeriesSummary : Type 0 where
    pub count : ℕ
    pub min : Float
    pub max : Float
    pub avg : Float
    pub rate : Float
    pub percentiles : List (String × Float)

  -- `percentilesOf` of internal/metrics/store.go: `value_at` reads a quantile of the histogram in
  -- the metric's unit, and the keys are `PercentileKeys`.
  unfoldable pub percentiles_of : (ℕ → Float) → List (String × Float)
  percentiles_of value_at =
      ("p50", value_at 50) ∷ ("p90", value_at 90) ∷ ("p95", value_at 95) ∷ ("p99", value_at 99) ∷ []

  unfoldable pub percentile : String → List (String × Float) → Option Float
  percentile key [] = none
  percentile key ((k, v) ∷ rest) = if str_eq k key then some v else percentile key rest

  abbrev percentile_of : Option String → List (String × Float) → Option Float
  percentile_of none ps = none
  percentile_of (some key) ps = percentile key ps

  unfoldable pub stat_value : SeriesSummary → Stat → Option Float
  stat_value s Stat.count = some (of_uint64 s.count)
  stat_value s Stat.rate = some s.rate
  stat_value s Stat.avg = some s.avg
  stat_value s Stat.min = some s.min
  stat_value s Stat.max = some s.max
  stat_value s other = percentile_of (stat_label other) s.percentiles

  abbrev by_op : Float → Op → Float → Bool
  by_op actual Op.lt want = lt_float actual want
  by_op actual Op.lte want = le_float actual want
  by_op actual Op.gt want = lt_float want actual
  by_op actual Op.gte want = le_float want actual
  by_op actual Op.unspecified want = false

  unfoldable pub compare : Float → Op → Float → Bool
  compare actual op want = if is_nan actual then false else by_op actual op want

  -- The result before the metric is looked up.
  abbrev pub unevaluated : Threshold → ThresholdResult
  unevaluated t = record {
    metric = t.metric;
    stat = or_empty (stat_label t.stat);
    op = or_empty (op_label t.op);
    value = t.value;
    actual = zero_float;
    evaluated = false;
    passed = false;
    abort_on_fail = t.abort_on_fail;
    description =
        t.metric
        ⧺ " "
        ⧺ or_empty (stat_label t.stat)
        ⧺ " "
        ⧺ or_empty (op_label t.op)
        ⧺ " "
        ⧺ format_g t.value;
  }

  abbrev observed : Threshold → Option Float → ThresholdResult
  observed t none = unevaluated t
  observed t (some actual) = record (unevaluated t) {
    actual = actual;
    evaluated = true;
    passed = compare actual t.op t.value;
  }

  abbrev summarised : Threshold → Option SeriesSummary → ThresholdResult
  summarised t none = unevaluated t
  summarised t (some summary) =
      if summary.count == 0 then unevaluated t else observed t (stat_value summary t.stat)

  -- The body of the loop of `EvaluateThresholds`.
  unfoldable pub evaluate : (String → Option SeriesSummary) → Threshold → ThresholdResult
  evaluate aggregate t = summarised t (aggregate t.metric)

  unfoldable pub evaluate_thresholds :
      (String → Option SeriesSummary) → List Threshold → List ThresholdResult
  unfolding evaluate
  evaluate_thresholds aggregate ts = map (evaluate aggregate) ts

  abbrev pub is_breach : ThresholdResult → Bool
  is_breach r = r.evaluated && not r.passed

  unfoldable pub any_breached : List ThresholdResult → Bool
  any_breached [] = false
  any_breached (r ∷ rs) = if is_breach r then true else any_breached rs

  unfoldable pub abort_requested : List ThresholdResult → Option ThresholdResult
  abort_requested [] = none
  abort_requested (r ∷ rs) = if is_breach r && r.abort_on_fail then some r else abort_requested rs
