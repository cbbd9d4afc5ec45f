-- ===== src/Agent/Telemetry/Leaving.antt =====
-- What is left of a worker that is gone.
use Prim.Native.String.{String}
use text.Mathlib.Text.{◌==◌ as str_eq}
use load_wave.Prelude.{ℕ, ◌≡◌, refl, Bool, true, false, none, if◌then◌else◌, arith, ◌≤◌}
use load_wave.Prelude.Assoc.{string_eq, find, find-erase}
use load_wave.Agent.Telemetry.{Agent, worker_count, left, on_leave}
use load_wave.Registry.{Pointer, Registry, remove}

-- A run has a worker at least, and no more than the agent is configured for.
pub worker_count-between :
    (configured asked : ℕ)
    → 1 ≤ configured
    → (1 ≤ worker_count configured asked) × (worker_count configured asked ≤ configured)
unfolding worker_count
worker_count-between configured asked h = ground arith

module _ {D : Type 0} where
  -- What is left of a worker: no count of virtual users and no phase, but the total of virtual users and the
  -- iterations are as before.
  pub record IsLeft (s : Pointer) (a b : Agent D) : Type 0 where
    pub no_count :
        (id : String)
        → find id b.vu_by_worker ≡ (if str_eq s.id id then none else find id a.vu_by_worker)
    pub no_phase :
        (id : String)
        → find id b.worker_phase ≡ (if str_eq s.id id then none else find id a.worker_phase)
    pub same_total : b.active_vus ≡ a.active_vus
    pub same_iterations : b.worker_iters ≡ a.worker_iters

  left-IsLeft : (s : Pointer) (a : Agent D) (w : Registry) → IsLeft s a (left s a (w, true))
  left-IsLeft s a w = record {
    no_count = λ id. find-erase s.id id a.vu_by_worker;
    no_phase = λ id. find-erase s.id id a.worker_phase;
    same_total = refl;
    same_iterations = refl;
  }

  answered-IsLeft :
      (s : Pointer) (a : Agent D) (answer : Registry × Bool)
      → answer.1 ≡ true
      → IsLeft s a (left s a answer)
  answered-IsLeft s a (w, true) h = left-IsLeft s a w
  answered-IsLeft s a (w, false) h = absurd (cc h)

  -- When the registered session of a worker ends, the agent forgets its count of virtual users and the phase
  -- that it reported, and those of no other worker; the total that the agent reports stays as it was, and so
  -- do the iterations.
  pub on_leave-IsLeft :
      (s : Pointer) (a : Agent D) → (remove s a.workers).1 ≡ true → IsLeft s a (on_leave s a)
  unfolding on_leave
  on_leave-IsLeft s a h = answered-IsLeft s a (remove s a.workers) h
