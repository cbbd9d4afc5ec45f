-- ===== src/Scenario/Path/Segments.antt =====
-- The segments that `splitPath` of internal/scenario/jsonpath.go makes of a capture expression.
use load_wave.Prelude.{
  ◌≡◌, ◌≢◌, refl, sym, ap, ◌∙◌, none, List, [], ◌∷◌, ◌++◌, arith, All, ◌==◌, false,
}
use load_wave.Text.{Text, split_all, split_at}
use load_wave.Text.Parts.{split_all-append, split_all-whole}
use load_wave.Scenario.Path.{replace_brackets, nonempty, split_path}

replace_brackets-append :
    (a b : Text) → replace_brackets (a ++ b) ≡ replace_brackets a ++ replace_brackets b
unfolding replace_brackets
replace_brackets-append [] b = refl
replace_brackets-append (c ∷ cs) b = ground (arith, replace_brackets-append cs b)

replace_brackets-pair :
    (inside after : Text)
    → replace_brackets (91 ∷ (inside ++ (93 ∷ after))) ≡ replace_brackets (46 ∷ (inside ++ after))
unfolding replace_brackets
replace_brackets-pair inside after =
    ap (◌∷◌ 46)
      (replace_brackets-append inside (93 ∷ after) ∙ sym (replace_brackets-append inside after))

append_nil : (s : Text) → s ++ [] ≡ s
append_nil [] = refl
append_nil (c ∷ cs) = ap (◌∷◌ c) (append_nil cs)

-- A bracketed index is a dotted one.
bracketed-dotted :
    (before inside after : Text)
    → split_path (before ++ (91 ∷ (inside ++ (93 ∷ after))))
      ≡ split_path (before ++ (46 ∷ (inside ++ after)))
unfolding split_path
bracketed-dotted before inside after =
    ap (λ s. nonempty (split_all 46 s))
      (replace_brackets-append before (91 ∷ (inside ++ (93 ∷ after)))
        ∙ ap (λ s. replace_brackets before ++ s) (replace_brackets-pair inside after)
        ∙ sym (replace_brackets-append before (46 ∷ (inside ++ after))))

nonempty-append : (a b : List Text) → nonempty (a ++ b) ≡ nonempty a ++ nonempty b
unfolding nonempty
nonempty-append [] b = refl
nonempty-append ([] ∷ a) b = nonempty-append a b
nonempty-append ((c ∷ cs) ∷ a) b = ap (◌∷◌ (c ∷ cs)) (nonempty-append a b)

-- A dot separates.
split_path-dot :
    (before after : Text)
    → split_path (before ++ (46 ∷ after)) ≡ split_path before ++ split_path after
unfolding split_path replace_brackets
split_path-dot before after =
    ap (λ s. nonempty (split_all 46 s)) (replace_brackets-append before (46 ∷ after))
    ∙ ap nonempty (split_all-append 46 (replace_brackets before) (replace_brackets after))
    ∙ nonempty-append (split_all 46 (replace_brackets before))
        (split_all 46 (replace_brackets after))

-- No dot and no bracket.
abbrev pub IsPlain : Text → Type 0
IsPlain s = All (λ c. ((c == 46) ≡ false) × ((c == 91) ≡ false) × ((c == 93) ≡ false)) s

replace_brackets-IsPlain : (s : Text) → IsPlain s → replace_brackets s ≡ s
unfolding replace_brackets
replace_brackets-IsPlain [] h = refl
replace_brackets-IsPlain (c ∷ cs) ((dot, no_open, no_close), h) =
    rw (no_open, no_close) (ap (◌∷◌ c) (replace_brackets-IsPlain cs h))

split_at-IsPlain : (s : Text) → IsPlain s → split_at 46 s ≡ none
unfolding split_at
split_at-IsPlain [] h = refl
split_at-IsPlain (c ∷ cs) ((dot, no_open, no_close), h) = ground (arith, dot, split_at-IsPlain cs h)

split_path-IsPlain : (s : Text) → s ≢ [] → IsPlain s → split_path s ≡ s ∷ []
unfolding split_path nonempty
split_path-IsPlain [] some_name h = absurd (some_name refl)
split_path-IsPlain (c ∷ cs) some_name h = ap nonempty (
    ap (split_all 46) (replace_brackets-IsPlain (c ∷ cs) h)
    ∙ split_all-whole 46 (c ∷ cs) (split_at-IsPlain (c ∷ cs) h))

split_path-inner :
    (before inside after : Text)
    → inside ≢ []
    → IsPlain inside
    → split_path (before ++ (46 ∷ (inside ++ (46 ∷ after))))
      ≡ split_path before ++ (inside ∷ split_path after)
split_path-inner before inside after some_name plain =
    split_path-dot before (inside ++ (46 ∷ after))
    ∙ ap (λ x. split_path before ++ x)
        (split_path-dot inside after
          ∙ ap (λ x. x ++ split_path after) (split_path-IsPlain inside some_name plain))

-- A text that is not empty and has no dot and no bracket is a segment of its own, between those of what
-- is before it and those of what is after it, between dots and in brackets: `items[0].sku` and
-- `items.0.sku` have the segments `items`, `0` and `sku`. So it is in brackets at the end.
pub split_path-brackets :
    (before inside after : Text)
    → inside ≢ []
    → IsPlain inside
    → (split_path (before ++ (91 ∷ (inside ++ (93 ∷ 46 ∷ after))))
        ≡ split_path before ++ (inside ∷ split_path after))
      × (split_path (before ++ (46 ∷ (inside ++ (46 ∷ after))))
          ≡ split_path before ++ (inside ∷ split_path after))
      × (split_path (before ++ (91 ∷ (inside ++ (93 ∷ [])))) ≡ split_path before ++ (inside ∷ []))
split_path-brackets before inside after some_name plain = (
  bracketed-dotted before inside (46 ∷ after)
      ∙ split_path-inner before inside after some_name plain,
  split_path-inner before inside after some_name plain,
  bracketed-dotted before inside []
      ∙ ap (λ s. split_path (before ++ (46 ∷ s))) (append_nil inside)
      ∙ split_path-dot before inside
      ∙ ap (λ x. split_path before ++ x) (split_path-IsPlain inside some_name plain),
)
