-- ===== src/Engine/Pool/Tests.antt =====
-- Pools and instances for `resize` of internal/engine/engine.go.
use load_wave.Prelude.{ℕ, ◌+◌, ◌≡◌, refl, some, [], ◌∷◌, map, sum, length, ℤ, pos, wrap, arith}
use load_wave.Apportion.{
  largest, total_weight, floors, sort, insert, less, hand_out, bump, share_out,
}
use load_wave.Apportion.Shares.{IsFair}
use load_wave.Engine.Pool.{Pool, resize, resize_groups, resize_group, grow, shrink, all_but_last}
use load_wave.Engine.Pool.Resize.{resize_lem, occurs, occurs_in, ids_from}

abbrev pool : Pool
pool = record { groups = (pos 7 ∷ pos 8 ∷ pos 9 ∷ []) ∷ [] ∷ []; next_vu_id = pos 10; retired = [] }

resize_runs :
    resize (pos 1 ∷ pos 1 ∷ []) (pos 4) pool
    ≡ some record {
      groups = (pos 7 ∷ pos 8 ∷ []) ∷ (pos 10 ∷ pos 11 ∷ []) ∷ [];
      next_vu_id = pos 12;
      retired = pos 9 ∷ [];
    }
unfolding resize resize_groups resize_group grow shrink all_but_last largest total_weight floors
    share_out sort insert less hand_out bump wrap
resize_runs = refl

fair : IsFair 4 (pos 1 ∷ pos 1 ∷ [])
fair = record { some_total = omega arith; some_weight = omega arith; fits = omega arith }

resize_lem_example :
    (q : Pool) × (n : ℕ) × (resize (pos 1 ∷ pos 1 ∷ []) (pos 4) pool ≡ some q)
    × (map pos (map length q.groups) ≡ largest (pos 4) (pos 1 ∷ pos 1 ∷ []))
    × (sum (map length q.groups) ≡ 4)
    × (q.next_vu_id ≡ pos (10 + n))
    × ((x : ℤ)
        → occurs_in x q.groups + occurs x q.retired
          ≡ occurs_in x pool.groups + occurs x [] + occurs x (ids_from 10 n))
resize_lem_example = resize_lem (pos 1 ∷ pos 1 ∷ []) 4 10 pool fair refl refl (omega arith)
