-- ===== src/Coordinator/History/Live.antt =====
-- What holds of the runs that are not over.
use Prim.Native.String.{String}
use text.Mathlib.Text.{◌==◌ as str_eq}
use text.Mathlib.TextEquality.{eq_iff}
use load_wave.Prelude.{
  ℕ, suc, ◌≡◌, refl, sym, ap, ◌∙◌, true, false, Option, none, List, [], ◌∷◌, length, arith, inl,
  inr, ltb, ◌≤◌, Bool-cases, ◌⊎◌,
}
use load_wave.Prelude.Assoc.{string_eq, find, erase, find-erase}
use load_wave.Coordinator.History.{is_live, live, trim_history}
use load_wave.Coordinator.Phase.{Phase, is_terminal}
use load_wave.Coordinator.Run.{Run, Event, set_phase, add_event, update_participant}
use load_wave.Coordinator.Thresholds.{Floats}

module _ (F : Floats) where
  -- A run is as it was, or it was over and is gone.
  abbrev pub Evicts : String → List (String × Run F) → Option (Run F) → Type 0
  Evicts id runs after = (after ≡ find id runs) ⊎ ((live F id runs ≡ false) × (after ≡ none))

  evicted :
      (oldest : String) (runs : List (String × Run F)) (id : String) {after : Option (Run F)}
      → live F oldest runs ≡ false
      → Evicts id (erase oldest runs) after
      → Evicts id runs after
  evicted oldest runs id over h = elim (Bool-cases (str_eq oldest id)) [
    | inl e ↦
        let gone : find id (erase oldest runs) ≡ none = find-erase oldest id runs ∙ rw e refl in
        let now : live F id runs ≡ false =
          ap (λ x. live F x runs) (sym ((eq_iff oldest id).0 e)) ∙ over in
        elim h [ inl a ↦ inr (now, a ∙ gone) | inr (x, a) ↦ inr (now, a) ]
    | inr e ↦
        let same : find id (erase oldest runs) ≡ find id runs =
          find-erase oldest id runs ∙ rw e refl in
        elim h [ inl a ↦ inl (a ∙ same) | inr (x, a) ↦ inr (ap (is_live F) (sym same) ∙ x, a) ]
  ]

  pub trim_history-Evicts :
      (bound : ℕ) (runs : List (String × Run F)) (order : List String) (id : String)
      → Evicts id runs (find id (trim_history F bound runs order).0)
  unfolding trim_history
  trim_history-Evicts bound runs [] id = inl refl
  trim_history-Evicts bound runs (oldest ∷ order) id =
      elim (Bool-cases (ltb bound (suc (length order)))) [
        | inr e ↦ rw e (inl refl)
        | inl e ↦ elim (Bool-cases (live F oldest runs)) [
          | inl f ↦ rw (e, f) (inl refl)
          | inr f ↦
              rw (e, f)
                (evicted oldest runs id f (trim_history-Evicts bound (erase oldest runs) order id))
        ]
      ]

  -- Evicting the oldest runs never touches a run that is not over, whatever the bound.
  pub trim_history-live :
      (bound : ℕ) (runs : List (String × Run F)) (order : List String) (id : String)
      → live F id runs ≡ true
      → find id (trim_history F bound runs order).0 ≡ find id runs
  trim_history-live bound runs order id h = elim (trim_history-Evicts bound runs order id) [
    | inl a ↦ a
    | inr (over, a) ↦ absurd (cc (sym h ∙ over))
  ]

  -- The bound is kept, unless the oldest run that is left is not over.
  pub trim_history-bound :
      (bound : ℕ) (runs : List (String × Run F)) (order : List String)
      → (length (trim_history F bound runs order).1 ≤ bound)
        ⊎ ((oldest : String) × (rest : List String) × ((trim_history F bound runs order).1
              ≡ oldest ∷ rest)
            × (live F oldest (trim_history F bound runs order).0 ≡ true))
  unfolding trim_history
  trim_history-bound bound runs [] = inl (omega arith)
  trim_history-bound bound runs (oldest ∷ order) =
      elim (Bool-cases (ltb bound (suc (length order)))) [
        | inr e ↦ rw e (inl (ground (arith, e)))
        | inl e ↦ elim (Bool-cases (live F oldest runs)) [
          | inl f ↦ rw (e, f) (inr (oldest, order, refl, f))
          | inr f ↦ rw (e, f) (trim_history-bound bound (erase oldest runs) order)
        ]
      ]

  -- A run that is over stays over.
  pub update-phase : (a p m : String) (r : Run F) → (update_participant F a p m r).phase ≡ r.phase
  unfolding update_participant
  update-phase a p m r = refl

  pub add_event-phase : (now : ℕ) (e : Event) (r : Run F) → (add_event F now e r).phase ≡ r.phase
  unfolding add_event
  add_event-phase now e r = refl

  pub set_phase-over :
      (now : ℕ) (p : Phase) (why : String) (r : Run F)
      → is_terminal r.phase ≡ true
      → (set_phase F now p why r).0 ≡ r
  unfolding set_phase
  set_phase-over now p why r h = rw (h, set_phase) refl
