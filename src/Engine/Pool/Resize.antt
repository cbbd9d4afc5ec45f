-- ===== src/Engine/Pool/Resize.antt =====
-- What `resize` of internal/engine/engine.go leaves in the pool.
use load_wave.Prelude.{
  ℕ, zero, suc, ◌+◌, ◌-◌, ◌≤◌, ◌<◌, ◌≡◌, refl, ap, ◌∙◌, some, List, [], ◌∷◌, ◌++◌, map, sum, length,
  length-append, if◌then◌else◌, ℤ, pos, eqb_ℤ, ltb_ℤ, wrap_pos, int64_end, arith,
}
use load_wave.Apportion.{largest}
use load_wave.Apportion.Shares.{IsFair, largest_total}
use load_wave.Engine.Pool.{Pool, grow, all_but_last, shrink, resize_group, resize_groups, resize}

grow-length :
    (n k : ℕ) (vus : List ℤ)
    → k + n < int64_end
    → (length (grow n vus (pos k)).0 ≡ length vus + n) × ((grow n vus (pos k)).1 ≡ pos (k + n))
unfolding grow
grow-length zero k vus h = (omega arith, ap pos (omega arith))
grow-length (suc n) k vus h = ground (
  arith,
  wrap_pos (k + 1),
  length-append vus (pos k ∷ []),
  grow-length n (k + 1) (vus ++ pos k ∷ []),
)

all_but_last-length : (v : ℤ) (vus : List ℤ) → length (all_but_last v vus).0 ≡ length vus
unfolding all_but_last
all_but_last-length v [] = refl
all_but_last-length v (w ∷ vus) = ground (arith, all_but_last-length w vus)

shrink-length :
    (n : ℕ) (vus retired : List ℤ)
    → n ≤ length vus
    → (length (shrink n vus retired).0 + n ≡ length vus)
      × (length (shrink n vus retired).1 ≡ length retired + n)
unfolding shrink
shrink-length zero vus retired h = (omega arith, omega arith)
shrink-length (suc n) [] retired h = ground arith
shrink-length (suc n) (v ∷ vus) retired h =
    let last = (all_but_last v vus).1 in
    ground (
      arith,
      all_but_last-length v vus,
      length-append retired (last ∷ []),
      shrink-length n (all_but_last v vus).0 (retired ++ last ∷ [])
          (omega (arith, all_but_last-length v vus)),
    )

resize_group-length :
    (want k : ℕ) (vus retired : List ℤ)
    → k + want < int64_end
    → (length (resize_group want vus (pos k) retired).0 ≡ want)
      × ((resize_group want vus (pos k) retired).1 ≡ pos (k + (want - length vus)))
      × (length (resize_group want vus (pos k) retired).2 ≡ length retired + (length vus - want))
unfolding resize_group
resize_group-length want k vus retired h =
    let grown = grow-length (want - length vus) k vus (omega arith) in
    let more = (grow (want - length vus) vus (pos k)).0 in
    let shrunk = shrink-length (length more - want) more retired (omega arith) in
    (omega (arith, grown, shrunk), grown.1, omega (arith, grown, shrunk))

-- How often an id is in a list, and in the groups.
unfoldable pub occurs : ℤ → List ℤ → ℕ
occurs x [] = 0
occurs x (v ∷ vus) = (if eqb_ℤ v x then 1 else 0) + occurs x vus

unfoldable pub occurs_in : ℤ → List (List ℤ) → ℕ
occurs_in x [] = 0
occurs_in x (g ∷ gs) = occurs x g + occurs_in x gs

-- The `n` ids from `k` on.
unfoldable pub ids_from : ℕ → ℕ → List ℤ
ids_from k zero = []
ids_from k (suc n) = pos k ∷ ids_from (suc k) n

occurs-append : (x : ℤ) (a b : List ℤ) → occurs x (a ++ b) ≡ occurs x a + occurs x b
unfolding occurs
occurs-append x [] b = omega arith
occurs-append x (v ∷ a) b = omega (arith, occurs-append x a b)

occurs-ids_from :
    (x : ℤ) (k m n : ℕ)
    → occurs x (ids_from k (m + n)) ≡ occurs x (ids_from k m) + occurs x (ids_from (k + m) n)
unfolding occurs ids_from
occurs-ids_from x k zero n =
    let front : occurs x (ids_from k (0 + n)) ≡ occurs x (ids_from k n) =
      ap (λ j. occurs x (ids_from k j)) (omega arith) in
    let same : occurs x (ids_from (k + 0) n) ≡ occurs x (ids_from k n) =
      ap (λ j. occurs x (ids_from j n)) (omega arith) in
    omega (arith, front, same)
occurs-ids_from x k (suc m) n =
    let next : suc m + n ≡ suc (m + n) = omega arith in
    let front : occurs x (ids_from k (suc m + n)) ≡ occurs x (ids_from k (suc (m + n))) =
      ap (λ j. occurs x (ids_from k j)) next in
    let same : occurs x (ids_from (suc k + m) n) ≡ occurs x (ids_from (k + suc m) n) =
      ap (λ j. occurs x (ids_from j n)) (omega arith) in
    omega (arith, front, occurs-ids_from x (suc k) m n, same)

grow-occurs :
    (x : ℤ) (n k : ℕ) (vus : List ℤ)
    → k + n < int64_end
    → occurs x (grow n vus (pos k)).0 ≡ occurs x vus + occurs x (ids_from k n)
unfolding grow occurs ids_from
grow-occurs x zero k vus h = omega arith
grow-occurs x (suc n) k vus h =
    let same : occurs x (ids_from (k + 1) n) ≡ occurs x (ids_from (suc k) n) =
      ap (λ j. occurs x (ids_from j n)) (omega arith) in
    ground (
      arith,
      same,
      wrap_pos (k + 1),
      grow-occurs x n (k + 1) (vus ++ pos k ∷ []),
      occurs-append x vus (pos k ∷ []),
    )

all_but_last-occurs :
    (x v : ℤ) (vus : List ℤ)
    → occurs x (all_but_last v vus).0 + occurs x ((all_but_last v vus).1 ∷ []) ≡ occurs x (v ∷ vus)
unfolding all_but_last occurs
all_but_last-occurs x v [] = omega arith
all_but_last-occurs x v (w ∷ vus) = omega (arith, all_but_last-occurs x w vus)

shrink-occurs :
    (x : ℤ) (n : ℕ) (vus retired : List ℤ)
    → occurs x (shrink n vus retired).0 + occurs x (shrink n vus retired).1
      ≡ occurs x vus + occurs x retired
unfolding shrink occurs
shrink-occurs x zero vus retired = refl
shrink-occurs x (suc n) [] retired = refl
shrink-occurs x (suc n) (v ∷ vus) retired =
    let last = (all_but_last v vus).1 in
    omega (
      arith,
      all_but_last-occurs x v vus,
      occurs-append x retired (last ∷ []),
      shrink-occurs x n (all_but_last v vus).0 (retired ++ last ∷ []),
    )

resize_group-occurs :
    (x : ℤ) (want k : ℕ) (vus retired : List ℤ)
    → k + want < int64_end
    → occurs x (resize_group want vus (pos k) retired).0
        + occurs x (resize_group want vus (pos k) retired).2
      ≡ occurs x vus + occurs x retired + occurs x (ids_from k (want - length vus))
unfolding resize_group
resize_group-occurs x want k vus retired h =
    let more = (grow (want - length vus) vus (pos k)).0 in
    omega (
      arith,
      grow-occurs x (want - length vus) k vus (omega (arith, h)),
      shrink-occurs x (length more - want) more retired,
    )

-- What the loop over the groups leaves: groups as large as the shares, and each user that was there or
-- was started in a group or retired, as often as before.
resize_groups-some :
    (gs : List (List ℤ)) (ss : List ℕ) (k : ℕ) (retired : List ℤ)
    → length gs ≡ length ss
    → k + sum ss < int64_end
    → (q : Pool) × (n : ℕ) × (resize_groups gs (map pos ss) (pos k) retired ≡ some q)
      × (map length q.groups ≡ ss)
      × (q.next_vu_id ≡ pos (k + n))
      × ((x : ℤ)
          → occurs_in x q.groups + occurs x q.retired
            ≡ occurs_in x gs + occurs x retired + occurs x (ids_from k n))
unfolding resize_groups occurs_in
resize_groups-some [] [] k retired l h =
    (_, 0, refl, refl, ap pos (omega arith), λ x. unfold ids_from occurs in omega arith)
resize_groups-some [] (s ∷ ss) k retired l h = cc
resize_groups-some (g ∷ gs) [] k retired l h = cc
resize_groups-some (g ∷ gs) (s ∷ ss) k retired l h =
    let (a, b, c) = resize_group-length s k g retired (omega arith) in
    let gone = (resize_group s g (pos k) retired).2 in
    let m = s - length g in
    let (q, n, e, sizes, next, total) =
      resize_groups-some gs ss (k + m) gone (omega (arith, l)) (omega arith) in
    (
      record q { groups = (resize_group s g (pos k) retired).0 ∷ q.groups },
      m + n,
      rw (b, e) refl,
      ground (arith, a, sizes),
      next ∙ ap pos (omega arith),
      λ x. omega (
        arith,
        total x,
        resize_group-occurs x s k g retired (omega arith),
        occurs-ids_from x k m n,
      ),
    )

not_negative : (t : ℕ) → (if ltb_ℤ (pos t) (pos 0) then pos 0 else pos t) ≡ pos t
not_negative t = ground arith

-- Resizing to a positive total, with a weight for each group and no overflow, never indexes out of
-- range and leaves in each group exactly its share, in all exactly the total. The ids of the started users
-- are the next ones, and every id is in the groups and among the retired as often as it was before and
-- among the started: no user is lost or counted twice.
pub resize_lem :
    (weights : List ℤ) (t k : ℕ) (p : Pool)
    → IsFair t weights
    → length p.groups ≡ length weights
    → p.next_vu_id ≡ pos k
    → k + t < int64_end
    → (q : Pool) × (n : ℕ) × (resize weights (pos t) p ≡ some q)
      × (map pos (map length q.groups) ≡ largest (pos t) weights)
      × (sum (map length q.groups) ≡ t)
      × (q.next_vu_id ≡ pos (k + n))
      × ((x : ℤ)
          → occurs_in x q.groups + occurs x q.retired
            ≡ occurs_in x p.groups + occurs x p.retired + occurs x (ids_from k n))
unfolding resize
resize_lem weights t k p fair l e h =
    let (ss, shares, count, total) = largest_total t weights fair in
    let (q, n, done, m, next, kept) =
      resize_groups-some p.groups ss k p.retired (omega (arith, l, count)) (omega (arith, total)) in
    (q, n, rw (e, not_negative t, shares) done, rw (m, shares) refl, rw m total, next, kept)
