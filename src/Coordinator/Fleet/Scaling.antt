-- ===== src/Coordinator/Fleet/Scaling.antt =====
-- `ScaleRun` of internal/coordinator/coordinator.go: a running run gets another peak. The text of its event,
-- which `fmt` renders, is a parameter.
use Prim.Native.String.{String}
use load_wave.Prelude.{
  ℕ, ◌*◌, ◌<◌, ◌≡◌, refl, ap, false, Option, none, some, List, [], map, arith, sum, length,
  if◌then◌else◌, ℤ, pos, ltb_ℤ, int64_end,
}
use load_wave.Coordinator.Fleet.{Session, Load, Order, rebalance}
use load_wave.Coordinator.Fleet.Quotas.{capacity, vus_of, rebalance_total}
use load_wave.Coordinator.Phase.{is_terminal}
use load_wave.Coordinator.Run.{Run, Event, add_event}
use load_wave.Coordinator.Thresholds.{Floats}

pub data ScaleError : Type 0 where
  negative_count negative_ramp unknown_run finished : ScaleError

-- What `ScaleRun` does: it refuses, it panics, or it sends messages and leaves the run.
pub data Scaled (F : Floats) : Type 0 where
  refused : ScaleError → Scaled F
  panics : Scaled F
  scaled : List (String × Order) → Run F → Scaled F

not_negative : (n : ℕ) → ltb_ℤ (pos n) (pos 0) ≡ false
not_negative n = ground arith

module _ (send : String → Order → Option String) (F : Floats) (message : ℤ → ℤ → ℤ → String) where
  abbrev scale_event : String → Event
  scale_event s = record {
    time = none;
    level = "info";
    source = "coordinator";
    message = s;
    fields = [];
  }

  abbrev with_peak : ℤ → ℤ → Run F → Run F
  with_peak peak ramp r = record r { peak_vus = peak; scale_ramp = ramp }

  abbrev reported_scale : ℕ → String → Option (List (String × Order) × Run F) → Scaled F
  reported_scale now s none = panics
  reported_scale now s (some (os, r)) = scaled os (add_event F now (scale_event s) r)

  -- For the run that was found, or none.
  unfoldable pub scale_run : Load → List Session → ℕ → ℤ → ℤ → Option (Run F) → Scaled F
  scale_run load sessions now peak ramp found =
      if ltb_ℤ peak (pos 0)
      then refused negative_count
      else if ltb_ℤ ramp (pos 0)
      then refused negative_ramp
      else elim found [
        | none ↦ refused unknown_run
        | some r ↦
            if is_terminal r.phase
            then refused finished
            else reported_scale now (message r.peak_vus peak ramp)
                (rebalance send F load sessions (with_peak peak ramp r))
      ]

  -- `ScaleRun` of an active run to a peak from 1 to 2 ^ 32 - 1, on at least one healthy agent, does not panic
  -- and sends every agent a message, with quotas of virtual users that add up to exactly the new peak,
  -- if the product of the peak and the agents' capacity fits `int64`.
  pub scale_run_total :
      (load : Load) (t d now : ℕ) (ss : List Session) (r : Run F)
      → is_terminal r.phase ≡ false
      → 0 < t
      → t < 4294967296
      → 0 < length ss
      → t * capacity ss < int64_end
      → (os : List (String × Order)) × (after : Run F) × (scale_run load ss now
            (pos t)
            (pos d)
            (some r)
          ≡ scaled os after)
        × (length os ≡ length ss)
        × (sum (map vus_of os) ≡ t)
  unfolding scale_run
  scale_run_total load t d now ss r active p b h c =
      let text = message r.peak_vus (pos t) (pos d) in
      let (os, after, e, n, q) =
        rebalance_total send F load t ss (with_peak (pos t) (pos d) r) active refl p b h c in
      (
        os,
        add_event F now (scale_event text) after,
        rw (not_negative t, not_negative d, active) (ap (reported_scale now text) e),
        n,
        q,
      )
