-- ===== src/Agent/Folding.antt =====
-- What phase an agent reports, `foldPhases` of internal/agent/agent.go.
use load_wave.Prelude.{
  ℕ, suc, ◌+◌, ◌<◌, ◌≤◌, ◌≡◌, refl, Bool, true, false, ◌↔◌, List, [], ◌∷◌, length, arith,
}
use load_wave.Coordinator.Phase.{
  Phase, failed, completed, aborted, unspecified, pending, starting, running, stopping,
}
use load_wave.Agent.{count_phases, fold_phases}

-- Some worker failed; every worker completed or was aborted.
abbrev pub any_failed : List Phase → Bool
any_failed [] = false
any_failed (failed ∷ ps) = true
any_failed (_ ∷ ps) = any_failed ps

abbrev pub all_done : List Phase → Bool
all_done [] = true
all_done (completed ∷ ps) = all_done ps
all_done (aborted ∷ ps) = all_done ps
all_done (_ ∷ ps) = false

-- The counts, given what they start from.
counts :
    (fails dones : ℕ) (ps : List Phase)
    → ((fails < (count_phases fails dones ps).0) ↔ (any_failed ps ≡ true))
      × (fails ≤ (count_phases fails dones ps).0)
      × (((count_phases fails dones ps).1 ≡ dones + length ps) ↔ (all_done ps ≡ true))
      × ((count_phases fails dones ps).1 ≤ dones + length ps)
unfolding count_phases
counts fails dones [] = ground arith
counts fails dones (failed ∷ ps) = ground (arith, counts (suc fails) dones ps)
counts fails dones (completed ∷ ps) = ground (arith, counts fails (suc dones) ps)
counts fails dones (aborted ∷ ps) = ground (arith, counts fails (suc dones) ps)
counts fails dones (unspecified ∷ ps) = ground (arith, counts fails dones ps)
counts fails dones (pending ∷ ps) = ground (arith, counts fails dones ps)
counts fails dones (starting ∷ ps) = ground (arith, counts fails dones ps)
counts fails dones (running ∷ ps) = ground (arith, counts fails dones ps)
counts fails dones (stopping ∷ ps) = ground (arith, counts fails dones ps)

any_failed-done : (ps : List Phase) → all_done ps ≡ true → any_failed ps ≡ false
any_failed-done [] h = refl
any_failed-done (failed ∷ ps) h = cc
any_failed-done (completed ∷ ps) h = any_failed-done ps h
any_failed-done (aborted ∷ ps) h = any_failed-done ps h
any_failed-done (unspecified ∷ ps) h = cc
any_failed-done (pending ∷ ps) h = cc
any_failed-done (starting ∷ ps) h = cc
any_failed-done (running ∷ ps) h = cc
any_failed-done (stopping ∷ ps) h = cc

-- An agent reports that it failed exactly if some worker failed, that it completed exactly if it has
-- a worker and each completed or was aborted, and that it is pending exactly if it has none.
pub fold_phases_iff :
    (ps : List Phase) (ns : List ℕ)
    → (((fold_phases ps ns).0 ≡ failed) ↔ (any_failed ps ≡ true))
      × (((fold_phases ps ns).0 ≡ completed) ↔ ((0 < length ps) × (all_done ps ≡ true)))
      × (((fold_phases ps ns).0 ≡ pending) ↔ (ps ≡ []))
unfolding fold_phases
fold_phases_iff [] ns = ground arith
fold_phases_iff (p ∷ ps) ns = ground (arith, counts 0 0 (p ∷ ps), any_failed-done (p ∷ ps))
