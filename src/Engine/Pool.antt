-- ===== src/Engine/Pool.antt =====
-- The pool of virtual users of a node, `resize`, `startVU` and `retireVU` of internal/engine/engine.go,
-- and what its control loop does at a tick. A virtual user is its id; a group is the users of one
-- scenario, and retiring a user takes it out of its group and lets its current iteration finish.
mod Resize
mod Tests
use Prim.Native.String.{String}
use load_wave.Prelude.{
  ℕ, zero, suc, ◌+◌, ◌-◌, Bool, true, false, ◌&&◌, Option, none, some, List, [], ◌∷◌, ◌++◌, length,
  if◌then◌else◌, ltb, leb, ◌==◌, ℤ, pos, pos_part, ◌+ℤ◌, ltb_ℤ, leb_ℤ, is_pos, wrap,
}
use load_wave.Apportion.{largest}
use load_wave.Engine.Executor.{Reals, Scaled, duration, scaled_target_at}

-- The engine's groups, `nextVUID`, and the ids of the users that were retired, in order.
pub record Pool : Type 0 where
  pub groups : List (List ℤ)
  pub next_vu_id : ℤ
  pub retired : List ℤ

-- The loop that starts users, `startVU` in each round: `n` rounds from a group and the next id.
unfoldable pub grow : ℕ → List ℤ → ℤ → List ℤ × ℤ
grow zero vus next = (vus, next)
grow (suc n) vus next = grow n (vus ++ next ∷ []) (wrap (next +ℤ pos 1))

-- `g.vus[:last]`, and `g.vus[last]` before it.
unfoldable pub all_but_last : ℤ → List ℤ → List ℤ × ℤ
all_but_last v [] = ([], v)
all_but_last v (w ∷ vus) = let (rest, last) = all_but_last w vus in (v ∷ rest, last)

-- The loop that retires users, `retireVU` in each round: `n` rounds from a group.
unfoldable pub shrink : ℕ → List ℤ → List ℤ → List ℤ × List ℤ
shrink zero vus retired = (vus, retired)
shrink (suc n) [] retired = ([], retired)
shrink (suc n) (v ∷ vus) retired =
    let (rest, last) = all_but_last v vus in shrink n rest (retired ++ last ∷ [])

-- Both loops of `resize` for one group. Only one of them has rounds.
unfoldable pub resize_group : ℕ → List ℤ → ℤ → List ℤ → List ℤ × ℤ × List ℤ
resize_group want vus next retired =
    let (more, after) = grow (want - length vus) vus next in
    let (fewer, gone) = shrink (length more - want) more retired in (fewer, after, gone)

-- The loop of `resize` over the groups and their shares; `none` is a share that is missing.
unfoldable pub resize_groups : List (List ℤ) → List ℤ → ℤ → List ℤ → Option Pool
resize_groups [] shares next retired =
    some (record { groups = []; next_vu_id = next; retired = retired })
resize_groups (g ∷ gs) [] next retired = none
resize_groups (g ∷ gs) (s ∷ shares) next retired =
    let (vus, after, gone) = resize_group (pos_part s) g next retired in
    elim (resize_groups gs shares after gone) [
      | none ↦ none
      | some p ↦ some (record p { groups = vus ∷ p.groups })
    ]

unfoldable pub resize : List ℤ → ℤ → Pool → Option Pool
resize weights total p =
    resize_groups p.groups (largest (if ltb_ℤ total (pos 0) then pos 0 else total) weights)
      p.next_vu_id p.retired

-- Why the control loop ends a run.
pub record StopRequest : Type 0 where
  pub graceful : Bool
  pub reason : String

-- What a tick of `control` does: it stops, or resizes the pool to a total.
pub data TickAction : Type 0 where
  stop : StopRequest → TickAction
  resize_to : ℤ → TickAction

unfoldable pub control_tick : Reals → Scaled → ℕ → ℕ → ℤ → TickAction
control_tick R executor quota iterations elapsed =
    if is_pos (duration executor.inner) && leb_ℤ (duration executor.inner) elapsed
    then stop (record { graceful = true; reason = "profile completed" })
    else if ltb 0 quota && leb quota iterations
    then stop (record { graceful = true; reason = "iteration budget spent" })
    else resize_to (scaled_target_at R executor elapsed)
