-- ===== src/Sdk/Messages/Bounds.antt =====
-- How long an excerpt is.
use load_wave.Prelude.{
  ℕ, ◌+◌, ◌≤◌, ◌≡◌, ◌⊎◌, All, refl, Bool, true, false, ◌&&◌, [], ◌∷◌, ◌++◌, ltb, leb, arith, inl,
  inr, Bool-cases,
}
use load_wave.Sdk.Messages.{ellipsis, max_failure_message, spaced, excerpt, truncate_message}
use load_wave.Sdk.Names.{byte_length, bytes_of}
use load_wave.Text.{Text, is_space, trim}

byte_length-append : (a b : Text) → byte_length (a ++ b) ≡ byte_length a + byte_length b
unfolding byte_length
byte_length-append [] b = omega arith
byte_length-append (c ∷ cs) b = omega (arith, byte_length-append cs b)

bytes_of-le : (c : ℕ) → bytes_of c ≤ 4
bytes_of-le c = ground arith

byte_length-one : (c : ℕ) → byte_length (c ∷ []) ≤ 4
unfolding byte_length
byte_length-one c = omega (arith, bytes_of-le c)

not_full : (n : ℕ) → leb 240 n ≡ false → n ≤ 239
not_full n h = ground arith

spaced-length : (space : Bool) (b : Text) → byte_length (spaced space b) ≤ byte_length b + 1
unfolding byte_length
spaced-length space b = elim (Bool-cases (space && ltb 0 (byte_length b))) [
  | inl e ↦ rw e (omega (arith, byte_length-append b (32 ∷ [])))
  | inr e ↦ rw e (omega arith)
]

-- One line: a rune of the excerpt is a blank or no white space.
abbrev pub OneLine : Text → Type 0
OneLine = All (λ c. (is_space c ≡ false) ⊎ (c ≡ 32))

OneLine-append : (a b : Text) → OneLine a → OneLine b → OneLine (a ++ b)
OneLine-append [] b h k = k
OneLine-append (c ∷ cs) b (h, t) k = (h, OneLine-append cs b t k)

spaced-OneLine : (space : Bool) (b : Text) → OneLine b → OneLine (spaced space b)
spaced-OneLine space b h = elim (Bool-cases (space && ltb 0 (byte_length b))) [
  | inl e ↦ rw e (OneLine-append b (32 ∷ []) h (inr refl, tt))
  | inr e ↦ rw e h
]

abbrev pub IsExcerpt : Text → Type 0
IsExcerpt b = (byte_length b ≤ 247) × OneLine b

module _ (is_print : ℕ → Bool) where
  -- A rune that is written, with what stands before it.
  abbrev Longer : Text → Type 0
  Longer b = (byte_length b ≤ 244) × OneLine b

  full-IsExcerpt : (b : Text) → Longer b → IsExcerpt (b ++ (ellipsis ∷ []))
  unfolding byte_length is_space
  full-IsExcerpt b (h, k) = (
    omega (arith, byte_length-append b (ellipsis ∷ [])),
    OneLine-append b (ellipsis ∷ []) k (inl refl, tt),
  )

  excerpt-IsExcerpt :
      (rs : Text) (space : Bool) (b : Text)
      → byte_length b ≤ 243
      → OneLine b
      → IsExcerpt (excerpt is_print space b rs)
  unfolding excerpt
  excerpt-IsExcerpt [] space b h k = (omega arith, k)
  excerpt-IsExcerpt (r ∷ rs) space b h k =
      let longer = spaced space b in
      let bounded : byte_length longer ≤ 244 = omega (arith, spaced-length space b) in
      let lined = spaced-OneLine space b k in
      elim (Bool-cases (is_space r)) [
        | inl e ↦ rw (e, excerpt) (excerpt-IsExcerpt rs true b h k)
        | inr e ↦ elim (Bool-cases (is_print r)) [
          | inr f ↦ rw (e, excerpt) (rw f (excerpt-IsExcerpt rs space b h k))
          | inl f ↦ elim (Bool-cases (leb max_failure_message (byte_length longer))) [
            | inl g ↦ rw (e, excerpt) (rw (f, g) (full-IsExcerpt longer (bounded, lined)))
            | inr g ↦
                rw (e, excerpt)
                  (rw (f, g)
                    (excerpt-IsExcerpt rs false (longer ++ (r ∷ []))
                      (omega (
                        arith,
                        byte_length-append longer (r ∷ []),
                        byte_length-one r,
                        not_full (byte_length longer) g,
                      ))
                      (OneLine-append longer (r ∷ []) lined (inl e, tt))))
          ]
        ]
      ]

  -- An excerpt is one line, with no white space but blanks, of 247 bytes at most: 240 can be passed by one
  -- rune, and a blank and the ellipsis follow.
  pub truncate_message-IsExcerpt : (text : Text) → IsExcerpt (truncate_message is_print text)
  unfolding truncate_message byte_length
  truncate_message-IsExcerpt text = excerpt-IsExcerpt (trim text) false [] (omega arith) tt
