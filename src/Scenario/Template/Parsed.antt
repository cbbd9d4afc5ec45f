-- ===== src/Scenario/Template/Parsed.antt =====
-- What `ParseTemplate` produces, and that `String` writes it back.
use mathlib.Core.List.{append-nil, append_assoc}
use load_wave.Prelude.{
  ℕ, zero, suc, ◌≤◌, ◌<◌, ◌≡◌, ◌≢◌, refl, sym, ap, ◌∙◌, false, none, some, List, [], ◌∷◌, ◌++◌, inl,
  inr, arith, Option-cases, length, length-append,
}
use load_wave.Text.{Text, trim, split_at, split_open}
use load_wave.Text.Cuts.{
  trim_idem, trim-split_at, split_at-some, split_at-append, split_open-append, split_open-some,
}
use load_wave.Scenario.Template.{
  Template, Parsing, parsed, unterminated, empty_placeholder, out_of_fuel, with_part, parse_rest,
  interleave, placeholder,
}

-- A name that a placeholder can hold: trimmed, not empty, with no `}`.
abbrev pub IsName : Text → Type 0
IsName n = (trim n ≡ n) × (n ≢ []) × (split_at 125 n ≡ none)

-- One more literal than names, no `${` in a literal, and names that a placeholder can hold.
abbrev pub IsParts : List Text → List Text → Type 0
IsParts [] (l ∷ []) = split_open l ≡ none
IsParts (n ∷ ns) (l ∷ ls) = (split_open l ≡ none) × IsName n × IsParts ns ls
IsParts _ _ = ⊥

pub with_part-parsed :
    (l n : Text) (p : Parsing) {t : Template}
    → with_part l n p ≡ parsed t
    → (u : Template) × (p ≡ parsed u)
      × (n ≢ [])
      × (t ≡ record u { literals = l ∷ u.literals; names = n ∷ u.names })
with_part-parsed l [] p h = cc
with_part-parsed l (c ∷ cs) (parsed u) h = (u, refl, (λ e. cc e), cc h)
with_part-parsed l (c ∷ cs) unterminated h = cc
with_part-parsed l (c ∷ cs) empty_placeholder h = cc
with_part-parsed l (c ∷ cs) out_of_fuel h = cc

abbrev pub IsLoop : Template → Type 0
IsLoop t = IsParts t.names t.literals × (t.static ≡ false)

IsLoop-part :
    {t u : Template} (l n : Text)
    → t ≡ record u { literals = l ∷ u.literals; names = n ∷ u.names }
    → split_open l ≡ none
    → IsName n
    → IsLoop u
    → IsLoop t
IsLoop-part l n e a b (c, d) = rw e ((a, b, c), d)

pub parse_rest-turn :
    (fuel : ℕ) (s : Text) {l behind inside after : Text}
    → split_open s ≡ some (l, behind)
    → split_at 125 behind ≡ some (inside, after)
    → parse_rest (suc fuel) s ≡ with_part l (trim inside) (parse_rest fuel after)
unfolding parse_rest
parse_rest-turn fuel s e f = rw (e, parse_rest) (rw f refl)

parse_rest-last :
    (fuel : ℕ) (s : Text)
    → split_open s ≡ none
    → parse_rest (suc fuel) s ≡ parsed (record { literals = s ∷ []; names = []; static = false })
unfolding parse_rest
parse_rest-last fuel s e = rw (e, parse_rest) refl

pub parse_rest-unterminated :
    (fuel : ℕ) (s : Text) {l behind : Text}
    → split_open s ≡ some (l, behind)
    → split_at 125 behind ≡ none
    → parse_rest (suc fuel) s ≡ unterminated
unfolding parse_rest
parse_rest-unterminated fuel s e f = rw (e, parse_rest) (rw f refl)

pub parse_rest-IsLoop :
    (fuel : ℕ) (s : Text) {t : Template} → parse_rest fuel s ≡ parsed t → IsLoop t
unfolding parse_rest
parse_rest-IsLoop zero s h = cc
parse_rest-IsLoop (suc fuel) s {t} h = elim (Option-cases (split_open s)) [
  | inl e ↦ ground arith
  | inr ((l, behind), e) ↦ elim (Option-cases (split_at 125 behind)) [
    | inl f ↦ absurd (ground arith)
    | inr ((inside, after), f) ↦
        let k = sym (parse_rest-turn fuel s e f) ∙ h in
        let (u, now, full, whole) = with_part-parsed l (trim inside) (parse_rest fuel after) k in
        IsLoop-part l (trim inside) whole (split_open-some s e).1
          (trim_idem inside, full, trim-split_at 125 inside (split_at-some 125 behind f).1)
          (parse_rest-IsLoop fuel after now)
  ]
]

with_part-name :
    (l n : Text) {t : Template}
    → n ≢ []
    → with_part l n (parsed t)
      ≡ parsed (record t { literals = l ∷ t.literals; names = n ∷ t.names })
with_part-name l [] h = absurd (h refl)
with_part-name l (c ∷ cs) h = refl

interleave-last : (k : ℕ) (l : Text) → interleave placeholder k (l ∷ []) [] ≡ l
unfolding interleave
interleave-last k l = append-nil l

pub interleave-placeholder :
    (k : ℕ) (l n : Text) (ls ns : List Text)
    → interleave placeholder k (l ∷ ls) (n ∷ ns)
      ≡ l ++ (36 ∷ 123 ∷ (n ++ (125 ∷ interleave placeholder (suc k) ls ns)))
unfolding interleave
interleave-placeholder k l n ls ns =
    ap (λ x. l ++ (36 ∷ 123 ∷ x)) (append_assoc n (125 ∷ []) (interleave placeholder (suc k) ls ns))

-- The text of parts that a template can have is read back as these parts.
pub parse_rest-interleave :
    (fuel k : ℕ) (ns ls : List Text)
    → IsParts ns ls
    → length ns < fuel
    → parse_rest fuel (interleave placeholder k ls ns)
      ≡ parsed (record { literals = ls; names = ns; static = false })
parse_rest-interleave (suc fuel) k [] (l ∷ []) h q =
    ap (parse_rest (suc fuel)) (interleave-last k l) ∙ parse_rest-last fuel l h
parse_rest-interleave (suc fuel) k (n ∷ ns) (l ∷ ls) (lit, (trimmed, full, shut), h) q =
    ap (parse_rest (suc fuel)) (interleave-placeholder k l n ls ns)
    ∙ parse_rest-turn fuel _ (split_open-append l _ lit) (split_at-append 125 n _ shut)
    ∙ rw (trimmed, parse_rest-interleave fuel (suc k) ns ls h (omega arith))
        (with_part-name l n full)
parse_rest-interleave (suc fuel) k [] [] h q = absurd h
parse_rest-interleave (suc fuel) k [] (l ∷ (_ ∷ _)) h q = absurd h
parse_rest-interleave (suc fuel) k (n ∷ ns) [] h q = absurd h
parse_rest-interleave zero k ns ls h q = absurd (omega arith)

pub parse_rest-length :
    (k : ℕ) (ns ls : List Text)
    → IsParts ns ls
    → length ns ≤ length (interleave placeholder k ls ns)
parse_rest-length k [] ls h = omega arith
parse_rest-length k (n ∷ ns) [] h = absurd h
parse_rest-length k (n ∷ ns) (l ∷ ls) (lit, name, h) = rw (interleave-placeholder k l n ls ns) (
    omega (
      arith,
      length-append l (36 ∷ 123 ∷ (n ++ (125 ∷ interleave placeholder (suc k) ls ns))),
      length-append n (125 ∷ interleave placeholder (suc k) ls ns),
      parse_rest-length (suc k) ns ls h,
    ))

with_part-total : (l n : Text) (p : Parsing) → p ≢ out_of_fuel → with_part l n p ≢ out_of_fuel
with_part-total l [] p h = λ e. cc e
with_part-total l (c ∷ cs) (parsed t) h = λ e. cc e
with_part-total l (c ∷ cs) unterminated h = h
with_part-total l (c ∷ cs) empty_placeholder h = h
with_part-total l (c ∷ cs) out_of_fuel h = h

-- The text that a turn leaves is shorter.
turn-shorter :
    (s : Text) {l behind inside after : Text}
    → split_open s ≡ some (l, behind)
    → split_at 125 behind ≡ some (inside, after)
    → length after < length s
turn-shorter s {l} {behind} {inside} {after} e f = omega (
  arith,
  ap length (split_open-some s e).0,
  ap length (split_at-some 125 behind f).0,
  length-append l (36 ∷ 123 ∷ behind),
  length-append inside (125 ∷ after),
)

-- Enough fuel is given.
pub parse_rest-total : (fuel : ℕ) (s : Text) → length s < fuel → parse_rest fuel s ≢ out_of_fuel
parse_rest-total zero s q = absurd (omega arith)
parse_rest-total (suc fuel) s q = elim (Option-cases (split_open s)) [
  | inl e ↦ rw (parse_rest-last fuel s e) (λ h. cc h)
  | inr ((l, behind), e) ↦ elim (Option-cases (split_at 125 behind)) [
    | inl f ↦ rw (parse_rest-unterminated fuel s e f) (λ h. cc h)
    | inr ((inside, after), f) ↦ rw (parse_rest-turn fuel s e f) (
        with_part-total l (trim inside) _
          (parse_rest-total fuel after (omega (arith, turn-shorter s e f))))
  ]
]
