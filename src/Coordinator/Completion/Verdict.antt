-- ===== src/Coordinator/Completion/Verdict.antt =====
-- Which participants' phases end a run, for `checkCompletion` of
-- internal/coordinator/coordinator.go.
use Prim.Native.String.{String}
use text.Mathlib.Text.{◌==◌ as str_eq}
use text.Mathlib.TextEquality.{eq_iff}
use mathlib.Core.List.{Memᴰ}
use load_wave.Prelude.{
  ℕ, suc, ◌+◌, ◌≤◌, ◌≡◌, ◌≢◌, refl, ◌⊎◌, inl, inr, true, false, none, some, List, [], ◌∷◌, length,
  All, arith, if◌then◌else◌, Bool-cases, ◌==◌, Option-cases,
}
use load_wave.Coordinator.Phase.{Phase, phase_completed, phase_failed}
use load_wave.Coordinator.Thresholds.{Floats}
use load_wave.Coordinator.Run.{Participant}
use load_wave.Coordinator.Completion.{Texts, count_failures, completion, outcome}

abbrev pub HasCompleted : Participant → Type 0
HasCompleted p = p.phase ≡ phase_completed

abbrev pub HasFailed : Participant → Type 0
HasFailed p = p.phase ≡ phase_failed

abbrev pub IsDone : Participant → Type 0
IsDone p = HasCompleted p ⊎ HasFailed p

-- How many of the participants have failed.
abbrev failed_count : List Participant → ℕ
failed_count [] = 0
failed_count (p ∷ ps) = (if str_eq p.phase phase_completed then 0 else 1) + failed_count ps

failed_not_completed :
    (p : Participant)
    → HasFailed p
    → (str_eq p.phase phase_completed ≡ false) × (str_eq p.phase phase_failed ≡ true)
failed_not_completed p e = (rw e, rw e)

count-All :
    (n : ℕ) (ps : List Participant)
    → All IsDone ps
    → count_failures n ps ≡ some (n + failed_count ps)
unfolding count_failures
count-All n [] h = ground arith
count-All n (p ∷ ps) (inl e, h) = rw e (ground (arith, count-All n ps h))
count-All n (p ∷ ps) (inr e, h) = rw e (ground (arith, count-All (suc n) ps h))

count_some :
    (n k : ℕ) (ps : List Participant)
    → count_failures n ps ≡ some k
    → All IsDone ps × (k ≡ n + failed_count ps)
unfolding count_failures
count_some n k [] h = (tt, ground arith)
count_some n k (p ∷ ps) h = elim (Bool-cases (str_eq p.phase phase_completed)) [
  | inl c ↦
      let (rest, sum) = count_some n k ps (rw c at h) in
      ((inl ((eq_iff p.phase phase_completed).0 c), rest), ground arith)
  | inr c ↦ elim (Bool-cases (str_eq p.phase phase_failed)) [
    | inl f ↦
        let (rest, sum) = count_some (suc n) k ps (rw (c, f) at h) in
        ((inr ((eq_iff p.phase phase_failed).0 f), rest), ground arith)
    | inr f ↦ cc (rw (c, f) at h)
  ]
]

failed_count-le : (ps : List Participant) → failed_count ps ≤ length ps
failed_count-le [] = omega arith
failed_count-le (p ∷ ps) = ground (arith, failed_count-le ps)

All-failed :
    (ps : List Participant) → All IsDone ps → failed_count ps ≡ length ps → All HasFailed ps
All-failed [] h e = tt
All-failed (p ∷ ps) (inl c, h) e = absurd (ground (arith, failed_count-le ps, rw c at e))
All-failed (p ∷ ps) (inr f, h) e = (f, All-failed ps h (ground (arith, failed_not_completed p f)))

some_completed :
    (ps : List Participant)
    → All IsDone ps
    → failed_count ps ≢ length ps
    → (p : Participant) × Memᴰ p ps × HasCompleted p
some_completed [] h e = absurd (e refl)
some_completed (p ∷ ps) (inl c, h) e = (p, Memᴰ.head refl, c)
some_completed (p ∷ ps) (inr f, h) e =
    let (q, m, c) = some_completed ps h (λ same. e (ground (arith, failed_not_completed p f))) in
    (q, Memᴰ.tail m, c)

module _ (F : Floats) (texts : Texts F) where
  abbrev pub Ending : Phase → List Participant → Type 0
  Ending p ps =
      ((p ≡ Phase.failed) × All HasFailed ps)
      ⊎ ((p ≡ Phase.completed) × ((q : Participant) × Memᴰ q ps × HasCompleted q))

  outcome_of :
      (total k : ℕ) (p : Phase) (reason : String)
      → outcome F texts total (some k) ≡ some (p, reason)
      → p ≡ (if k == total then Phase.failed else Phase.completed)
  outcome_of total k p reason e = ground arith

  Ending-of :
      (ps : List Participant) (p : Phase) (reason : String)
      → outcome F texts (length ps) (count_failures 0 ps) ≡ some (p, reason)
      → All IsDone ps × Ending p ps
  Ending-of ps p reason e = elim (Option-cases (count_failures 0 ps)) [
    | inl n ↦ cc (rw n at e)
    | inr (k, c) ↦
        let (done, total) = count_some 0 k ps c in
        let way = outcome_of (length ps) k p reason (rw c at e) in
        elim (Bool-cases (k == length ps)) [
          | inl b ↦ (done, inl (ground arith, All-failed ps done (ground arith)))
          | inr b ↦ (done, inr (ground arith, some_completed ps done (ground arith)))
        ]
  ]

  ending :
      (ps : List Participant) (p : Phase) (reason : String)
      → completion F texts ps ≡ some (p, reason)
      → (ps ≢ []) × All IsDone ps × Ending p ps
  unfolding completion
  ending [] p reason e = cc
  ending (q ∷ qs) p reason e =
      let (done, way) = Ending-of (q ∷ qs) p reason (ground arith) in (λ n. cc, done, way)

  ended : (ps : List Participant) → ps ≢ [] → All IsDone ps → completion F texts ps ≢ none
  unfolding completion
  ended [] n h e = n refl
  ended (q ∷ qs) n h e = ground (arith, count-All 0 (q ∷ qs) h)

  -- A run is ended by its participants exactly when there are some and each has completed or failed:
  -- as failed if all of them failed, and as completed if one of them completed.
  pub completion_iff :
      (ps : List Participant)
      → ((p : Phase) (reason : String)
          → completion F texts ps ≡ some (p, reason)
          → (ps ≢ [])
            × All IsDone ps
            × (((p ≡ Phase.failed) × All HasFailed ps)
                ⊎ ((p ≡ Phase.completed) × ((q : Participant) × Memᴰ q ps × HasCompleted q))))
        × (ps ≢ [] → All IsDone ps → completion F texts ps ≢ none)
  completion_iff ps = (ending ps, ended ps)
