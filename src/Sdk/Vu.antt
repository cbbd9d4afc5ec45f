-- ===== src/Sdk/Vu.antt =====
-- The virtual user that a scenario is handed, `VU` of pkg/loadwave/vu.go: its labels, its checks, its errors
-- and its pauses. A set of labels is of a type `T`. A pause says how long it lasted, which the clock decides.
pub mod Accounting
use load_wave.Prelude.{
  ℕ, Bool, true, false, ◌||◌, Option, none, some, List, [], ◌∷◌, ◌++◌, if◌then◌else◌, ℤ, pos, ltb_ℤ,
  leb_ℤ, ◌+ℤ◌, ◌-ℤ◌,
}
use load_wave.Sdk.Floats.{Floats}
use load_wave.Sdk.Pause.{int64_n, above}
use load_wave.Text.{Text, codes}

pub record Vu (T : Type 0) : Type 0 where
  pub base_tag : T
  pub iteration : ℤ
  pub iter_tag : T
  pub think_time : ℤ
  pub failed : Bool

-- What the recorder is given.
pub data Observation (T V : Type 0) : Type 0 where
  count : (metric : Text) → T → V → Observation T V
  trend : (metric : Text) → T → (ms : V) → Observation T V
  rate : (metric : Text) → T → Bool → Observation T V

abbrev pub active : ℤ → ℤ → ℤ
active elapsed thought = if ltb_ℤ (elapsed -ℤ thought) (pos 0) then pos 0 else elapsed -ℤ thought

module _ {T : Type 0} where
  unfoldable pub begin_iteration : ℤ → Vu T → Vu T
  begin_iteration n vu = record vu {
    iteration = n;
    iter_tag = vu.base_tag;
    think_time = pos 0;
    failed = false;
  }

  module _ (with_tag : T → Text → Text → T) where
    -- `Tag`
    unfoldable pub tag : Text → Text → Vu T → Vu T
    tag key value vu = record vu { iter_tag = with_tag vu.iter_tag key value }

    -- `Check` and `Checkf`
    unfoldable pub check : {V : Type 0} → Text → Bool → Vu T → List (Observation T V)
    check name ok vu = rate (codes "checks") (with_tag vu.iter_tag (codes "check") name) ok ∷ []

  -- `Think` for a delay; the wait that the clock measures is shorter when the run is stopping.
  unfoldable pub think : ℤ → ℤ → Vu T → Vu T
  think d waited vu =
      if leb_ℤ d (pos 0) then vu else record vu { think_time = vu.think_time +ℤ waited }

module _ {T V : Type 0} (floats : Floats V) where
  abbrev pub error_count : Bool → T → List (Observation T V)
  error_count true labels = count (codes "errors") labels (floats.of_int64 (pos 1)) ∷ []
  error_count false labels = []

  -- `EndIteration`, with whether the scenario returned an error.
  unfoldable pub end_iteration : ℤ → Bool → Vu T → List (Observation T V)
  end_iteration elapsed err vu =
      count (codes "iterations") vu.base_tag (floats.of_int64 (pos 1))
      ∷ trend (codes "iteration_duration") vu.base_tag (
          floats.over (floats.of_int64 (active elapsed vu.think_time))
            (floats.of_int64 (pos 1000000)))
      ∷ rate (codes "iteration_failed") vu.base_tag (vu.failed || err)
      ∷ error_count err vu.base_tag

  -- `Fail`, with whether there is an error.
  unfoldable pub fail : Bool → Vu T → Vu T × List (Observation T V)
  fail true vu = (
    record vu { failed = true },
    count (codes "errors") vu.iter_tag (floats.of_int64 (pos 1)) ∷ [],
  )
  fail false vu = (vu, [])

-- The delay of `ThinkBetween`; `none` is a panic.
unfoldable pub think_delay : (ℤ → ℤ) → ℤ → ℤ → Option ℤ
think_delay rnd min_dur max_dur =
    if leb_ℤ max_dur min_dur then some min_dur else above min_dur (int64_n rnd (max_dur -ℤ min_dur))
