-- ===== src/Metrics/Ring/Refine.antt =====
-- The ring of internal/metrics/store.go keeps the last elements, in order.
use load_wave.Prelude.{
  replicate, ℕ, zero, suc, ◌+◌, ◌-◌, ◌%◌, ◌≤◌, ◌<◌, ◌≡◌, refl, sym, ap, ◌∙◌, Bool-cases, Option,
  none, some, inl, inr, List, [], ◌∷◌, ◌++◌, length, length-append, drop, get_elem?, if◌then◌else◌,
  ltb, ◌==◌, keep_last, keep_last-append, arith,
}
use mathlib.Core.List.{append_assoc, append-nil}
use native.Mathlib.Nat.{mod-eq_of_lt, mod-eq-sub-mod, mod-lt}
use load_wave.Metrics.Ring.{
  filled, rolled, Ring, set_slot, new_ring, push, with_slot, visit, retained,
}

-- A slot past the end wraps once.
abbrev slot : ℕ → ℕ → ℕ
slot capacity a = if ltb a capacity then a else a - capacity

mod-slot :
    (capacity a : ℕ) → 0 < capacity → a < capacity + capacity → a % capacity ≡ slot capacity a
mod-slot capacity a h k = elim (Bool-cases (ltb a capacity)) [
  | inl small ↦ ground (arith, small, mod-eq_of_lt {n = a} {m = capacity})
  | inr big ↦ ground (
    arith,
    big,
    mod-eq-sub-mod {n = a} {m = capacity} (ground (arith, big)),
    mod-eq_of_lt {n = a - capacity} {m = capacity} (ground (arith, big)),
  )
]

module _ {A : Type 0} where
  get_elem?-set_slot :
      (i j : ℕ) (x : A) (ys : List A)
      → i < length ys
      → get_elem? (set_slot i x ys) j ≡ (if i == j then some x else get_elem? ys j)
  get_elem?-set_slot i j x [] h = absurd (omega arith)
  get_elem?-set_slot zero zero x (y ∷ ys) h = ground arith
  get_elem?-set_slot zero (suc j) x (y ∷ ys) h = ground arith
  get_elem?-set_slot (suc i) zero x (y ∷ ys) h = ground arith
  get_elem?-set_slot (suc i) (suc j) x (y ∷ ys) h =
      ground (arith, get_elem?-set_slot i j x ys (omega arith))

  length-set_slot : (i : ℕ) (x : A) (ys : List A) → length (set_slot i x ys) ≡ length ys
  length-set_slot i x [] = refl
  length-set_slot zero x (y ∷ ys) = refl
  length-set_slot (suc i) x (y ∷ ys) = omega (arith, length-set_slot i x ys)

  -- What holds of a ring from its making on.
  unfoldable pub IsRing : Ring A → Type 0
  IsRing r =
      (0 < r.capacity)
      × (length r.closed ≡ r.capacity)
      × (r.closed_n ≤ r.capacity)
      × (r.head < r.capacity)

  abbrev cell : Ring A → ℕ → Option A
  cell r a = get_elem? r.closed ((r.head + a) % r.capacity)

  visit-suc : (n i : ℕ) (r : Ring A) → visit (suc n) i r ≡ with_slot (cell r i) (visit n (i + 1) r)
  unfolding visit
  visit-suc n i r = refl

  -- Reading the same slots of two rings.
  visit-same :
      (n i j : ℕ) (r s : Ring A)
      → ((k a b : ℕ) → k < n → a ≡ i + k → b ≡ j + k → cell r a ≡ cell s b)
      → visit n i r ≡ visit n j s
  unfolding visit
  visit-same zero i j r s h = refl
  visit-same (suc n) i j r s h =
      let here = h 0 i j (omega arith) (omega arith) (omega arith) in
      let rest =
        visit-same n (i + 1) (j + 1) r s (λ k.
          λ a. λ b. λ lt. λ p. λ q. h (suc k) a b (omega arith) (omega arith) (omega arith)) in
      rw (here, rest)

  with_slot-append : (o : Option A) (xs ys : List A) → with_slot o (xs ++ ys) ≡ with_slot o xs ++ ys
  with_slot-append none xs ys = refl
  with_slot-append (some x) xs ys = refl

  visit-snoc :
      (n i m : ℕ) (r : Ring A)
      → m ≡ i + n
      → visit (suc n) i r ≡ visit n i r ++ with_slot (cell r m) []
  unfolding visit
  visit-snoc zero i m r e =
      let same : m ≡ i = omega arith in ap (λ a. with_slot (cell r a) []) (sym same)
  visit-snoc (suc n) i m r e =
      let rest = visit-snoc n (i + 1) m r (omega arith) in
      ap (with_slot (cell r i)) rest ∙ with_slot-append (cell r i) (visit n (i + 1) r) _

  cell-some : (i : ℕ) (ys : List A) → i < length ys → (y : A) × (get_elem? ys i ≡ some y)
  cell-some i [] h = absurd (omega arith)
  cell-some zero (y ∷ ys) h = (y, refl)
  cell-some (suc i) (y ∷ ys) h = cell-some i ys (omega arith)

  length-replicate : (n : ℕ) (x : A) → length (replicate n x) ≡ n
  length-replicate zero x = refl
  length-replicate (suc n) x = omega (arith, length-replicate n x)

  pub new_ring-IsRing : (capacity : ℕ) (x : A) → 0 < capacity → IsRing (new_ring capacity x)
  unfolding IsRing
  new_ring-IsRing capacity x h = (h, length-replicate capacity x, omega arith, h)

  filled-IsRing : (x : A) (r : Ring A) → IsRing r → r.closed_n < r.capacity → IsRing (filled x r)
  unfolding IsRing
  filled-IsRing x r (po, len, most, in_ring) room = (
    po,
    omega (arith, len, length-set_slot ((r.head + r.closed_n) % r.capacity) x r.closed),
    omega arith,
    in_ring,
  )

  rolled-IsRing : (x : A) (r : Ring A) → IsRing r → IsRing (rolled x r)
  unfolding IsRing
  rolled-IsRing x r (po, len, most, in_ring) = (
    po,
    omega (arith, len, length-set_slot r.head x r.closed),
    most,
    mod-lt (r.head + 1) {m = r.capacity} po,
  )

  -- Room is left.
  filled-retained :
      (x : A) (r : Ring A)
      → IsRing r
      → r.closed_n < r.capacity
      → retained (filled x r) ≡ retained r ++ (x ∷ [])
  unfolding retained IsRing
  filled-retained x r (po, len, most, in_ring) room =
      let n = r.closed_n in
      let at = (r.head + n) % r.capacity in
      let at_in : at < length r.closed = omega (arith, mod-lt (r.head + n) {m = r.capacity} po) in
      let last : cell (filled x r) n ≡ some x =
        ground (arith, get_elem?-set_slot at at x r.closed at_in) in
      let front = visit-same n 0 0 (filled x r) r (λ k. λ a. λ b. λ lt. λ p. λ q. ground (
        arith,
        p,
        q,
        get_elem?-set_slot at ((r.head + a) % r.capacity) x r.closed at_in,
        mod-slot r.capacity (r.head + a) po (omega arith),
        mod-slot r.capacity (r.head + n) po (omega arith),
      )) in
      visit-snoc n 0 n (filled x r) (omega arith) ∙ rw (last, front)

  -- The ring is full.
  rolled-retained :
      (x : A) (r : Ring A)
      → IsRing r
      → r.closed_n ≡ r.capacity
      → retained (rolled x r) ≡ drop 1 (retained r ++ (x ∷ []))
  unfolding retained IsRing
  rolled-retained x r (po, len, most, in_ring) full =
      let cap = r.capacity in
      let next = (r.head + 1) % cap in
      let wraps : next ≡ slot cap (r.head + 1) = mod-slot cap (r.head + 1) po (omega arith) in
      let head_in : r.head < length r.closed = omega (arith, len) in
      let (oldest, first) = cell-some r.head r.closed head_in in
      let back : cell (rolled x r) (cap - 1) ≡ some x = ground (
        arith,
        wraps,
        get_elem?-set_slot r.head r.head x r.closed head_in,
        mod-slot cap (next + (cap - 1)) po (ground (arith, wraps)),
      ) in
      let front = visit-same (cap - 1) 0 1 (rolled x r) r (λ k. λ a. λ b. λ lt. λ p. λ q. ground (
        arith,
        p,
        q,
        wraps,
        get_elem?-set_slot r.head ((next + a) % cap) x r.closed head_in,
        mod-slot cap (next + a) po (ground (arith, wraps, p)),
        mod-slot cap (r.head + b) po (omega arith),
      )) in
      let size : r.closed_n ≡ suc (cap - 1) = omega arith in
      let at_0 : cell r 0 ≡ some oldest =
        ground (arith, first, mod-slot cap (r.head + 0) po (omega arith)) in
      let whole : visit (suc (cap - 1)) 0 r ≡ oldest ∷ visit (cap - 1) 1 r =
        visit-suc (cap - 1) 0 r ∙ ap (λ o. with_slot o (visit (cap - 1) 1 r)) at_0 in
      let joined : visit (cap - 1) 0 (rolled x r) ++ with_slot (cell (rolled x r) (cap - 1)) []
          ≡ visit (cap - 1) 1 r ++ (x ∷ []) =
        rw (back, front) in
      ap (λ n. visit n 0 (rolled x r)) size
      ∙ (visit-snoc (cap - 1) 0 (cap - 1) (rolled x r) (omega arith)
          ∙ (joined
              ∙ (ap (λ l. drop 1 (l ++ (x ∷ []))) (sym whole)
                  ∙ ap (λ n. drop 1 (visit n 0 r ++ (x ∷ []))) (sym size))))

  length-visit : (n i : ℕ) (r : Ring A) → IsRing r → length (visit n i r) ≡ n
  unfolding visit IsRing
  length-visit zero i r h = refl
  length-visit (suc n) i r h =
      let (y, e) =
        cell-some ((r.head + i) % r.capacity) r.closed
          (omega (arith, h.1, mod-lt (r.head + i) {m = r.capacity} h.0)) in
      ground (arith, e, length-visit n (i + 1) r h)

  length-retained : (r : Ring A) → IsRing r → length (retained r) ≡ r.closed_n
  unfolding retained
  length-retained r h = length-visit r.closed_n 0 r h

  pub push-retained :
      (x : A) (r : Ring A)
      → IsRing r
      → IsRing (push x r)
        × (retained (push x r) ≡ keep_last r.capacity (retained r ++ (x ∷ [])))
        × ((push x r).capacity ≡ r.capacity)
  unfolding push IsRing
  push-retained x r h = elim (Bool-cases (r.closed_n == r.capacity)) [
    | inl full ↦
        let e : push x r ≡ rolled x r = rw full in
        let size : r.closed_n ≡ r.capacity = ground (arith, full) in
        let over : length (retained r ++ (x ∷ [])) - r.capacity ≡ 1 =
          omega (arith, length-append (retained r) (x ∷ []), length-retained r h, size) in
        rw (e, over) (rolled-IsRing x r h, rolled-retained x r h size, refl)
    | inr room ↦
        let e : push x r ≡ filled x r = rw room in
        let size : r.closed_n < r.capacity = ground (arith, room, h) in
        let over : length (retained r ++ (x ∷ [])) - r.capacity ≡ 0 =
          omega (arith, length-append (retained r) (x ∷ []), length-retained r h, size) in
        rw (e, over) (filled-IsRing x r h size, filled-retained x r h size, refl)
  ]

  IsRing-le : (r : Ring A) → IsRing r → r.closed_n ≤ r.capacity
  unfolding IsRing
  IsRing-le r h = h.2

  abbrev pub push_all : List A → Ring A → Ring A
  push_all [] r = r
  push_all (x ∷ xs) r = push_all xs (push x r)

  -- A ring that took in one element after the other lists the last of those that it had and took in,
  -- oldest first, as many as its capacity.
  pub push_all-retained :
      (xs : List A) (r : Ring A)
      → IsRing r
      → retained (push_all xs r) ≡ keep_last r.capacity (retained r ++ xs)
  push_all-retained [] r h =
      let none_over : length (retained r ++ []) - r.capacity ≡ 0 =
        omega (arith, length-append (retained r) [], length-retained r h, IsRing-le r h) in
      sym (append-nil (retained r)) ∙ rw none_over
  push_all-retained (x ∷ xs) r h =
      let (ring, now, same) = push-retained x r h in
      let rest = push_all-retained xs (push x r) ring in
      rest
      ∙ (ap (λ c. keep_last c (retained (push x r) ++ xs)) same
          ∙ (ap (λ l. keep_last r.capacity (l ++ xs)) now
              ∙ (keep_last-append r.capacity (retained r ++ (x ∷ [])) xs
                  ∙ ap (keep_last r.capacity) (append_assoc (retained r) (x ∷ []) xs))))
