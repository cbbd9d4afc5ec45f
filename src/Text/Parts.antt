-- ===== src/Text/Parts.antt =====
-- A text split at every mark.
use load_wave.Prelude.{ℕ, ◌≡◌, refl, none, List, [], ◌∷◌, ◌++◌, inl, inr, arith, Bool-cases, ◌==◌}
use load_wave.Text.{Text, split_at, split_all}

split_all-nonempty :
    (m : ℕ) (s : Text) → (part : Text) × (parts : List Text) × (split_all m s ≡ part ∷ parts)
unfolding split_all
split_all-nonempty m [] = ([], [], refl)
split_all-nonempty m (c ∷ cs) = elim (Bool-cases (c == m)) [
  | inl e ↦ ([], split_all m cs, rw e refl)
  | inr e ↦ let (part, parts, f) = split_all-nonempty m cs in (c ∷ part, parts, rw (e, f) refl)
]

-- The parts of a text that is cut at one of its marks are those of its two pieces.
pub split_all-append :
    (m : ℕ) (a b : Text) → split_all m (a ++ (m ∷ b)) ≡ split_all m a ++ split_all m b
unfolding split_all
split_all-append m [] b = ground arith
split_all-append m (c ∷ cs) b = elim (Bool-cases (c == m)) [
  | inl e ↦ rw (e, split_all-append m cs b) refl
  | inr e ↦
      let (part, parts, f) = split_all-nonempty m cs in rw (e, split_all-append m cs b, f) refl
]

-- A text with no mark is one part.
pub split_all-whole : (m : ℕ) (s : Text) → split_at m s ≡ none → split_all m s ≡ s ∷ []
unfolding split_all split_at
split_all-whole m [] h = refl
split_all-whole m (c ∷ cs) h = ground (arith, split_all-whole m cs)
