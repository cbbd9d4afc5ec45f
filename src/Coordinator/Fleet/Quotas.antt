-- ===== src/Coordinator/Fleet/Quotas.antt =====
-- The quotas that `dispatch` and `rebalance` of internal/coordinator/coordinator.go send.
use load_wave.Prelude.{
  uint_32, ◌≤◌, ℕ, suc, ◌+◌, ◌*◌, ◌<◌, ◌≡◌, refl, ap, ◌∙◌, true, false, Bool, ltb, Option, some,
  List, [], ◌∷◌, map, sum, length, length-map, arith, if◌then◌else◌, ℤ, pos, int64_end,
}
use Prim.Native.String.{String}
use mathlib.Core.Option.{map as option_map}
use load_wave.Apportion.{largest}
use load_wave.Apportion.Exact.{weights_of}
use load_wave.Apportion.Shares.{largest_total}
use load_wave.Apportion.Lengths.{length-largest}
use load_wave.Coordinator.Fleet.{
  base_of, Session, Load, Order, start_run, set_quota, Dispatched, place, sort_sessions, weight_of,
  dispatch_from, dispatch, rebalance_from, rebalance, note_quota, start_order, shared_iterations,
  known_to, quota_order,
}
use load_wave.Idspace.{agent_base}
use load_wave.Coordinator.Phase.{is_terminal}
use load_wave.Coordinator.Run.{Run, set_participants, Participant}
use load_wave.Coordinator.Thresholds.{Floats}

-- The virtual users that the agents can carry, each at least one.
abbrev pub capacity : List Session → ℕ
capacity [] = 0
capacity (s ∷ ss) = (if ltb s.max_vus 1 then 1 else s.max_vus) + capacity ss

-- The virtual users that a message asks for.
abbrev pub vus_of : String × Order → ℕ
vus_of (id, start_run vus rate i n base iterations) = vus
vus_of (id, set_quota vus rate ramp) = vus

capacity_is : (ss : List Session) → sum (weights_of (map weight_of ss)) ≡ capacity ss
capacity_is [] = refl
capacity_is (s ∷ ss) = ground (arith, capacity_is ss)

capacity-length : (ss : List Session) → length ss ≤ capacity ss
capacity-length [] = omega arith
capacity-length (s ∷ ss) = ground (arith, capacity-length ss)

capacity-place : (s : Session) (ts : List Session) → capacity (place s ts) ≡ capacity (s ∷ ts)
unfolding place
capacity-place s [] = refl
capacity-place s (t ∷ ts) = ground (arith, capacity-place s ts)

capacity-sort : (ss : List Session) → capacity (sort_sessions ss) ≡ capacity ss
unfolding sort_sessions
capacity-sort [] = refl
capacity-sort (s ∷ ss) = ground (arith, capacity-place s (sort_sessions ss), capacity-sort ss)

length-place : (s : Session) (ts : List Session) → length (place s ts) ≡ suc (length ts)
unfolding place
length-place s [] = refl
length-place s (t ∷ ts) = ground (arith, length-place s ts)

pub length-sort_sessions : (ss : List Session) → length (sort_sessions ss) ≡ length ss
unfolding sort_sessions
length-sort_sessions [] = refl
length-sort_sessions (s ∷ ss) =
    ground (arith, length-place s (sort_sessions ss), length-sort_sessions ss)

map-uint_32 : (xs : List ℕ) → sum xs < 4294967296 → map uint_32 (map pos xs) ≡ xs
map-uint_32 [] h = refl
map-uint_32 (x ∷ xs) h = ground (arith, map-uint_32 xs)

-- The shares of a peak over the agents, as the messages carry them, add up to the peak.
shares_total :
    (t : ℕ) (ss : List Session)
    → 0 < t
    → t < 4294967296
    → 0 < length ss
    → t * capacity ss < int64_end
    → sum (map uint_32 (largest (pos t) (map weight_of (sort_sessions ss)))) ≡ t
shares_total t ss p b h c =
    let (xs, e, l, s) = largest_total t (map weight_of (sort_sessions ss)) record {
      some_total = p;
      some_weight =
          omega (arith, capacity_is (sort_sessions ss), capacity-sort ss, capacity-length ss);
      fits = rw (capacity_is (sort_sessions ss), capacity-sort ss) c;
    } in
    rw (e, map-uint_32 xs (omega (arith, s))) s

-- Shares for as many agents as there are, and none missing.
abbrev pub Matches : List Session → List ℤ → Type 0
Matches ss vs = length vs ≡ length ss

pub Matches-largest :
    (total : ℤ) (ss : List Session) → Matches ss (largest total (map weight_of ss))
Matches-largest total ss = length-largest total (map weight_of ss) ∙ length-map ss weight_of

-- The id bases of the messages of `dispatch` from an index on.
abbrev pub bases_from : ℕ → List Session → List (Option ℤ)
bases_from i [] = []
bases_from i (s ∷ ss) = some (agent_base (pos i)) ∷ bases_from (suc i) ss

pub dispatch_from-some :
    (send : String → Order → Option String) (count i : ℕ) (load : Load) (ss : List Session)
    (vs rs ns : List ℤ) (quotas : List (String × ℤ))
    → Matches ss vs
    → Matches ss rs
    → Matches ss ns
    → (d : Dispatched) × (dispatch_from send count i load ss vs rs ns quotas ≡ some d)
      × (map vus_of d.orders ≡ map uint_32 vs)
      × (map (λ m. base_of m.1) d.orders ≡ bases_from i ss)
unfolding dispatch_from
dispatch_from-some send count i load [] [] rs ns quotas a b c = (_, refl, refl, refl)
dispatch_from-some send count i load [] (v ∷ vs) rs ns quotas a b c = cc
dispatch_from-some send count i load (s ∷ ss) (v ∷ vs) (r ∷ rs) (n ∷ ns) quotas a b c =
    let (d, e, m, f) =
      dispatch_from-some send count (suc i) load ss vs rs ns
        (note_quota (send s.id (start_order count i load v r n)) s.id v quotas) (omega (arith, a))
        (omega (arith, b)) (omega (arith, c)) in
    (
      _,
      ap (option_map _) e,
      ap (λ xs. uint_32 v ∷ xs) m,
      ap (λ bs. some (agent_base (pos i)) ∷ bs) f,
    )
dispatch_from-some send count i load (s ∷ ss) [] rs ns quotas a b c = cc
dispatch_from-some send count i load (s ∷ ss) (v ∷ vs) [] ns quotas a b c = cc
dispatch_from-some send count i load (s ∷ ss) (v ∷ vs) (r ∷ rs) [] quotas a b c = cc

vus_of-quota_order :
    (k : Bool) (id : String) (count i : ℕ) (ramp v r : ℤ)
    → vus_of (id, quota_order k count i ramp v r) ≡ uint_32 v
vus_of-quota_order true id count i ramp v r = refl
vus_of-quota_order false id count i ramp v r = refl

pub rebalance_from-some :
    (send : String → Order → Option String) (known : String → Bool) (count i : ℕ) (ramp : ℤ)
    (ss : List Session) (vs rs : List ℤ)
    → Matches ss vs
    → Matches ss rs
    → (ps : List Participant) × (os : List (String × Order)) × (rebalance_from send known count i
          ramp ss vs rs
        ≡ some (ps, os))
      × (map vus_of os ≡ map uint_32 vs)
unfolding rebalance_from
rebalance_from-some send known count i ramp [] [] rs a b = (_, _, refl, refl)
rebalance_from-some send known count i ramp [] (v ∷ vs) rs a b = cc
rebalance_from-some send known count i ramp (s ∷ ss) (v ∷ vs) (r ∷ rs) a b =
    let (ps, os, e, m) =
      rebalance_from-some send known count (suc i) ramp ss vs rs (omega (arith, a))
        (omega (arith, b)) in
    (
      _,
      _,
      ap (option_map _) e,
      ground (arith, m, vus_of-quota_order (known s.id) s.id count i ramp v r),
    )
rebalance_from-some send known count i ramp (s ∷ ss) [] rs a b = cc
rebalance_from-some send known count i ramp (s ∷ ss) (v ∷ vs) [] a b = cc

-- There are as many messages as agents.
length-orders :
    (ss : List Session) (vs : List ℤ) (os : List (String × Order))
    → Matches (sort_sessions ss) vs
    → map vus_of os ≡ map uint_32 vs
    → length os ≡ length ss
length-orders ss vs os a m =
    omega
      (arith, a, ap length m, length-map os vus_of, length-map vs uint_32, length-sort_sessions ss)

-- Starting a run with a peak from 1 to 2 ^ 32 - 1, on at least one agent, never indexes out of range
-- and sends as many messages as there are agents, with quotas of virtual users that add up to exactly
-- the peak, whichever messages fail, if the product of the peak and the agents' capacity fits `int64`.
pub dispatch_total :
    (send : String → Order → Option String) (load : Load) (t : ℕ) (ss : List Session)
    (quotas : List (String × ℤ))
    → 0 < t
    → t < 4294967296
    → 0 < length ss
    → t * capacity ss < int64_end
    → (d : Dispatched) × (dispatch send load (pos t) ss quotas ≡ some d)
      × (length d.orders ≡ length ss)
      × (sum (map vus_of d.orders) ≡ t)
unfolding dispatch
dispatch_total send load t ss quotas p b h c =
    let sorted = sort_sessions ss in
    let (d, e, m, f) =
      dispatch_from-some send (length sorted) 0 load sorted _ _ _ quotas
        (Matches-largest (pos t) sorted)
        (Matches-largest (pos load.max_iterations_per_second) sorted)
        (Matches-largest (shared_iterations load) sorted) in
    (
      d,
      e,
      length-orders ss _ d.orders (Matches-largest (pos t) sorted) m,
      rw m (shares_total t ss p b h c),
    )

-- Rebalancing an active run with a peak from 1 to 2 ^ 32 - 1, on at least one healthy agent, never
-- indexes out of range and sends as many messages as there are agents, with quotas of virtual users
-- that add up to exactly the peak, whichever agents have the run already and whichever messages fail,
-- if the product of the peak and the agents' capacity fits `int64`.
pub rebalance_total :
    (send : String → Order → Option String) (F : Floats) (load : Load) (t : ℕ) (ss : List Session)
    (r : Run F)
    → is_terminal r.phase ≡ false
    → r.peak_vus ≡ pos t
    → 0 < t
    → t < 4294967296
    → 0 < length ss
    → t * capacity ss < int64_end
    → (os : List (String × Order)) × (after : Run F) × (rebalance send F load ss r
        ≡ some (os, after))
      × (length os ≡ length ss)
      × (sum (map vus_of os) ≡ t)
unfolding rebalance
rebalance_total send F load t ss r active peak p b h c =
    let sorted = sort_sessions ss in
    let (ps, os, e, m) =
      rebalance_from-some send (known_to r.participants) (length sorted) 0 r.scale_ramp sorted _ _
        (Matches-largest r.peak_vus sorted)
        (Matches-largest (pos load.max_iterations_per_second) sorted) in
    (
      os,
      set_participants F ps (record r { scale_ramp = pos 0 }),
      ground (arith, active, h, e),
      length-orders ss _ os (Matches-largest r.peak_vus sorted) m,
      rw (m, peak) (shares_total t ss p b h c),
    )
