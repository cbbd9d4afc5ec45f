-- ===== src/Text/Cuts.antt =====
-- What trimming a text and cutting it at a mark leave, for internal/scenario.
use load_wave.Prelude.{
  ℕ, ◌≡◌, refl, true, false, none, some, [], ◌∷◌, ◌++◌, arith, Bool-cases, Option-cases, inl, inr,
}
use load_wave.Text.{Text, is_space, trim_left, trim_right, trim, split_at, opens, tail, split_open}

trim_left_idem : (s : Text) → trim_left (trim_left s) ≡ trim_left s
unfolding trim_left
trim_left_idem [] = refl
trim_left_idem (c ∷ cs) = ground (arith, trim_left_idem cs)

trim_right_idem : (s : Text) → trim_right (trim_right s) ≡ trim_right s
unfolding trim_right
trim_right_idem [] = refl
trim_right_idem (c ∷ cs) = ground (arith, trim_right_idem cs)

-- A text that does not begin with a space.
abbrev IsFlush : Text → Type 0
IsFlush [] = Unit
IsFlush (c ∷ cs) = is_space c ≡ false

trim_left-IsFlush : (s : Text) → IsFlush (trim_left s)
unfolding trim_left
trim_left-IsFlush [] = tt
trim_left-IsFlush (c ∷ cs) = ground (arith, trim_left-IsFlush cs)

trim_left-trim_right : (s : Text) → IsFlush s → trim_left (trim_right s) ≡ trim_right s
unfolding trim_left trim_right
trim_left-trim_right [] h = refl
trim_left-trim_right (c ∷ cs) h = ground arith

pub trim_idem : (s : Text) → trim (trim s) ≡ trim s
unfolding trim
trim_idem s =
    rw (trim_left-trim_right (trim_left s) (trim_left-IsFlush s)) (trim_right_idem (trim_left s))

trim_left-split_at : (m : ℕ) (s : Text) → split_at m s ≡ none → split_at m (trim_left s) ≡ none
unfolding trim_left split_at
trim_left-split_at m [] h = refl
trim_left-split_at m (c ∷ cs) h = ground (arith, trim_left-split_at m cs)

trim_right-split_at : (m : ℕ) (s : Text) → split_at m s ≡ none → split_at m (trim_right s) ≡ none
unfolding trim_right split_at
trim_right-split_at m [] h = refl
trim_right-split_at m (c ∷ cs) h = ground (arith, trim_right-split_at m cs)

pub trim-split_at : (m : ℕ) (s : Text) → split_at m s ≡ none → split_at m (trim s) ≡ none
unfolding trim
trim-split_at m s h = trim_right-split_at m _ (trim_left-split_at m s h)

-- A text cut at the first mark: what stands before it holds no mark, and nothing is lost.
pub split_at-some :
    (m : ℕ) (s : Text) {a b : Text}
    → split_at m s ≡ some (a, b)
    → (s ≡ a ++ (m ∷ b)) × (split_at m a ≡ none)
unfolding split_at
split_at-some m [] h = cc
split_at-some m (c ∷ cs) h = elim (Option-cases (split_at m cs)) [
  | inl e ↦ ground arith
  | inr ((a, b), e) ↦ ground (arith, split_at-some m cs e)
]

pub split_at-append :
    (m : ℕ) (a b : Text) → split_at m a ≡ none → split_at m (a ++ (m ∷ b)) ≡ some (a, b)
unfolding split_at
split_at-append m [] b h = ground arith
split_at-append m (c ∷ cs) b h = ground (arith, split_at-append m cs b)

opens-append : (c : ℕ) (a b : Text) → opens c a ≡ false → opens c (a ++ (36 ∷ b)) ≡ false
opens-append c [] b h = ground arith
opens-append c (d ∷ ds) b h = h

opens-prefix : (c : ℕ) (a b : Text) → opens c (a ++ b) ≡ false → opens c a ≡ false
opens-prefix c [] b h = refl
opens-prefix c (d ∷ ds) b h = h

pub split_open-append :
    (a b : Text) → split_open a ≡ none → split_open (a ++ (36 ∷ 123 ∷ b)) ≡ some (a, b)
unfolding split_open
split_open-append [] b h = refl
split_open-append (c ∷ cs) b h = ground (arith, split_open-append cs b, opens-append c cs (123 ∷ b))

opens-some : (c : ℕ) (cs : Text) → opens c cs ≡ true → c ∷ cs ≡ 36 ∷ 123 ∷ tail cs
opens-some c [] h = cc
opens-some c (d ∷ ds) h = ground arith

pub split_open-some :
    (s : Text) {a b : Text}
    → split_open s ≡ some (a, b)
    → (s ≡ a ++ (36 ∷ 123 ∷ b)) × (split_open a ≡ none)
unfolding split_open
split_open-some [] h = cc
split_open-some (c ∷ cs) {a} {b} h = elim (Bool-cases (opens c cs)) [
  | inl o ↦ ground (arith, opens-some c cs o)
  | inr o ↦ elim (Option-cases (split_open cs)) [
    | inl e ↦ ground arith
    | inr ((x, y), e) ↦ ground (arith, split_open-some cs e, opens-prefix c x (36 ∷ 123 ∷ y))
  ]
]
