-- ===== src/Metrics/Ring.antt =====
-- The ring of finalised buckets in internal/metrics/store.go, for elements of any type: `finalise`
-- files one, `Timeline` visits them oldest first.
pub mod Refine
use load_wave.Prelude.{
  ℕ, zero, suc, ◌+◌, ◌%◌, Option, none, some, List, [], ◌∷◌, if◌then◌else◌, ◌==◌, get_elem?,
  replicate,
}

-- The fields `closed`, `head`, `closedN` and `capacity`.
pub record Ring {ℓ} (A : Type ℓ) : Type ℓ where
  pub closed : List A
  pub head : ℕ
  pub closed_n : ℕ
  pub capacity : ℕ

abbrev pub set_slot {ℓ} : {A : Type ℓ} → ℕ → A → List A → List A
set_slot i x [] = []
set_slot zero x (y ∷ ys) = x ∷ ys
set_slot (suc i) x (y ∷ ys) = y ∷ set_slot i x ys

module _ {ℓ} {A : Type ℓ} where
  abbrev pub new_ring : ℕ → A → Ring A
  new_ring capacity empty = record {
    closed = replicate capacity empty;
    head = 0;
    closed_n = 0;
    capacity = capacity;
  }

  abbrev pub filled : A → Ring A → Ring A
  filled x r = record r {
    closed = set_slot ((r.head + r.closed_n) % r.capacity) x r.closed;
    closed_n = suc r.closed_n;
  }

  abbrev pub rolled : A → Ring A → Ring A
  rolled x r = record r { closed = set_slot r.head x r.closed; head = (r.head + 1) % r.capacity }

  -- The end of `finalise`.
  unfoldable pub push : A → Ring A → Ring A
  push x r = if r.closed_n == r.capacity then rolled x r else filled x r

  -- The slots that `Timeline` reads, for as many steps as asked; a slot that is not there, where Go
  -- would panic, is left out.
  abbrev with_slot : Option A → List A → List A
  with_slot none xs = xs
  with_slot (some x) xs = x ∷ xs

  unfoldable pub visit : ℕ → ℕ → Ring A → List A
  visit zero i r = []
  visit (suc n) i r = with_slot (get_elem? r.closed ((r.head + i) % r.capacity)) (visit n (i + 1) r)

  unfoldable pub retained : Ring A → List A
  retained r = visit r.closed_n 0 r
