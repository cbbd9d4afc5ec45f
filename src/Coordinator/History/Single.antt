-- ===== src/Coordinator/History/Single.antt =====
-- One run at a time.
use Prim.Native.String.{String}
use text.Mathlib.Text.{◌==◌ as str_eq}
use text.Mathlib.TextEquality.{eq_iff}
use load_wave.Prelude.{
  ℕ, ◌≡◌, refl, sym, ap, ◌∙◌, Bool, true, false, not, none, some, List, [], ◌∷◌, ◌++◌,
  if◌then◌else◌, inl, inr, Bool-cases, Option-cases,
}
use load_wave.Prelude.Assoc.{string_eq, find, put, find-put}
use load_wave.Coordinator.History.Live.{
  trim_history-Evicts, update-phase, add_event-phase, set_phase-over,
}
use load_wave.Coordinator.History.{
  History, RunStatus, LogEvent, in_progress, is_live, live, trim_history, active_id, start_run,
  after_status, error_event, on_run_status, record_global, on_log, entry, on_run, entered,
}
use load_wave.Coordinator.Phase.{Phase, running, is_terminal, phase_name}
use load_wave.Coordinator.Run.{Run, Event, set_phase, add_event, is_running, is_failed}
use load_wave.Coordinator.Thresholds.{Floats}

module _ (F : Floats) where
  -- A run that is not over is the active one.
  abbrev pub OneLive : History F → Type 0
  OneLive h = (id : String) → live F id h.runs ≡ true → h.active ≡ some id

  abbrev moved_if : ℕ → Bool → Run F → Run F
  moved_if now b r = if b then (set_phase F now running "" r).0 else r

  moved_if-over :
      (now : ℕ) (b : Bool) (r : Run F)
      → is_terminal r.phase ≡ true
      → is_terminal (moved_if now b r).phase ≡ true
  moved_if-over now true r h =
      ap (λ x. is_terminal x.phase) (set_phase-over F now running "" r h) ∙ h
  moved_if-over now false r h = h

  noted_if-over :
      (now : ℕ) (b : Bool) (e : Event) (r : Run F)
      → is_terminal r.phase ≡ true
      → is_terminal (if b then add_event F now e r else r).phase ≡ true
  noted_if-over now true e r h = ap is_terminal (add_event-phase F now e r) ∙ h
  noted_if-over now false e r h = h

  after_status-over :
      (now : ℕ) (u : RunStatus) (r : Run F)
      → is_terminal r.phase ≡ true
      → is_terminal (after_status F now u r).phase ≡ true
  after_status-over now u r h = noted_if-over now (is_failed u.phase) (error_event u) _ (
      moved_if-over now (is_running u.phase) _
        (ap is_terminal (update-phase F u.session_id (phase_name u.phase) u.message r) ∙ h))

  revived :
      (r r' : Run F)
      → (is_terminal r.phase ≡ true → is_terminal r'.phase ≡ true)
      → is_live F (some r') ≡ true
      → is_live F (some r) ≡ true
  revived r r' over h = elim (Bool-cases (is_terminal r.phase)) [
    | inl e ↦ absurd (cc (sym h ∙ ap not (over e)))
    | inr e ↦ ap not e
  ]

  find-put_same :
      (id x : String) (r : Run F) (m : List (String × Run F))
      → str_eq id x ≡ true
      → find x (put id r m) ≡ some r
  find-put_same id x r m e = find-put id x r m ∙ rw e refl

  find-put_other :
      (id x : String) (r : Run F) (m : List (String × Run F))
      → str_eq id x ≡ false
      → find x (put id r m) ≡ find x m
  find-put_other id x r m e = find-put id x r m ∙ rw e refl

  -- A change of one run that revives none.
  put-OneLive :
      (h : History F) (id : String) (r r' : Run F)
      → find id h.runs ≡ some r
      → (is_terminal r.phase ≡ true → is_terminal r'.phase ≡ true)
      → OneLive h
      → OneLive (record h { runs = put id r' h.runs })
  put-OneLive h id r r' e over one x l = elim (Bool-cases (str_eq id x)) [
    | inl same ↦
        let here = ap (is_live F) (sym (find-put_same id x r' h.runs same)) ∙ l in
        let q : id ≡ x = (eq_iff id x).0 same in
        one x (ap (is_live F) (ap (λ y. find y h.runs) (sym q) ∙ e) ∙ revived r r' over here)
    | inr other ↦ one x (ap (is_live F) (sym (find-put_other id x r' h.runs other)) ∙ l)
  ]

  on_run-OneLive :
      (h : History F) (id : String) (f : Run F → Run F)
      → ((r : Run F) → is_terminal r.phase ≡ true → is_terminal (f r).phase ≡ true)
      → OneLive h
      → OneLive (on_run F id f h)
  on_run-OneLive h id f over one = elim (Option-cases (find id h.runs)) [
    | inl e ↦ rw (e, on_run) one
    | inr (r, e) ↦ rw (e, on_run) (put-OneLive h id r (f r) e (over r) one)
  ]

  on_run_status-OneLive :
      (now : ℕ) (u : RunStatus) (h : History F) → OneLive h → OneLive (on_run_status F now u h)
  unfolding on_run_status
  on_run_status-OneLive now u h =
      on_run-OneLive h u.run_id (after_status F now u) (after_status-over now u)

  on_log-OneLive : (now : ℕ) (e : LogEvent) (h : History F) → OneLive h → OneLive (on_log F now e h)
  unfolding on_log record_global
  on_log-OneLive now e h one = elim (Option-cases (find e.run_id h.runs)) [
    | inl f ↦ rw (f, on_log) one
    | inr (r, f) ↦
        rw (f, on_log)
          (put-OneLive h e.run_id r _ f
            (λ q. ap is_terminal (add_event-phase F now (entry e) r) ∙ q) one)
  ]

  active_id-live :
      (h : History F) (id : String)
      → h.active ≡ some id
      → live F id h.runs ≡ true
      → active_id F h ≡ some id
  active_id-live h id e l = rw (e, active_id) (rw l refl)

  all_over :
      (h : History F) → active_id F h ≡ none → OneLive h → (id : String) → live F id h.runs ≡ false
  all_over h e one id = elim (Bool-cases (live F id h.runs)) [
    | inr l ↦ l
    | inl l ↦ absurd (cc (sym e ∙ active_id-live h id (one id l) l))
  ]

  started-OneLive :
      (id : String) (r : Run F) (h : History F)
      → active_id F h ≡ none
      → OneLive h
      → OneLive (
          entered F id r h
            (trim_history F h.max_run_history (put id r h.runs) (h.order ++ id ∷ [])))
  started-OneLive id r h e one x l = elim (Bool-cases (str_eq id x)) [
    | inl same ↦ ap some ((eq_iff id x).0 same)
    | inr other ↦
        let over : live F x (put id r h.runs) ≡ false =
          ap (is_live F) (find-put_other id x r h.runs other) ∙ all_over h e one x in
        elim (trim_history-Evicts F h.max_run_history (put id r h.runs) (h.order ++ id ∷ []) x) [
          | inl a ↦ absurd (cc (sym l ∙ ap (is_live F) a ∙ over))
          | inr (_, a) ↦ absurd (cc (sym l ∙ ap (is_live F) a))
        ]
  ]

  start_run-OneLive :
      (id : String) (r : Run F) (h : History F) → OneLive h → OneLive (start_run F id r h).0
  unfolding start_run
  start_run-OneLive id r h one = elim (Option-cases (active_id F h)) [
    | inl e ↦ rw (e, start_run) (started-OneLive id r h e one)
    | inr (x, e) ↦ rw (e, start_run) one
  ]

  -- While a run is not over, `StartRun` refuses another and changes nothing.
  pub start_run-refuses :
      (id other : String) (r : Run F) (h : History F)
      → OneLive h
      → live F other h.runs ≡ true
      → start_run F id r h ≡ (h, some (in_progress other))
  unfolding start_run
  start_run-refuses id other r h one l = rw (active_id-live h other (one other l) l, start_run) refl

  -- The events that change what the coordinator knows of its runs.
  pub data Step : Type 0 where
    start_step : String → Run F → Step
    phase_step : ℕ → String → Phase → String → Step
    status_step : ℕ → RunStatus → Step
    log_step : ℕ → LogEvent → Step
    global_step : ℕ → Event → Step

  abbrev pub step : Step → History F → History F
  step (start_step id r) h = (start_run F id r h).0
  step (phase_step now id phase why) h = on_run F id (λ r. (set_phase F now phase why r).0) h
  step (status_step now u) h = on_run_status F now u h
  step (log_step now e) h = on_log F now e h
  step (global_step now e) h = record_global F now e h

  unfoldable pub steps : List Step → History F → History F
  steps [] h = h
  steps (s ∷ ss) h = steps ss (step s h)

  step-OneLive : (s : Step) (h : History F) → OneLive h → OneLive (step s h)
  unfolding record_global
  step-OneLive (start_step id r) h one = start_run-OneLive id r h one
  step-OneLive (phase_step now id phase why) h one =
      on_run-OneLive h id (λ r. (set_phase F now phase why r).0)
        (λ r q. ap (λ x. is_terminal x.phase) (set_phase-over F now phase why r q) ∙ q) one
  step-OneLive (status_step now u) h one = on_run_status-OneLive now u h one
  step-OneLive (log_step now e) h one = on_log-OneLive now e h one
  step-OneLive (global_step now e) h one = one

  steps-OneLive : (ss : List Step) (h : History F) → OneLive h → OneLive (steps ss h)
  unfolding steps
  steps-OneLive [] h one = one
  steps-OneLive (s ∷ ss) h one = steps-OneLive ss (step s h) (step-OneLive s h one)

  abbrev pub no_runs : ℕ → History F
  no_runs bound = record {
    runs = [];
    order = [];
    active = none;
    events = [];
    max_run_history = bound;
  }

  -- Starting from no runs, whatever is started, moved to a phase, reported, logged and evicted, at most one
  -- run is not over: two ids of such runs are the same.
  pub steps-single :
      (ss : List Step) (bound : ℕ) (a b : String)
      → live F a (steps ss (no_runs bound)).runs ≡ true
      → live F b (steps ss (no_runs bound)).runs ≡ true
      → a ≡ b
  steps-single ss bound a b la lb =
      let one = steps-OneLive ss (no_runs bound) (λ id l. absurd (cc l)) in
      cc (sym (one a la) ∙ one b lb)
