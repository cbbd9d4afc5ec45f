-- ===== src/Scenario/Build/Shadowing.antt =====
-- What `BuildScenarios` keeps of the registry, and what it puts there.
use mathlib.Core.Path.{subst}
use load_wave.Prelude.{
  ◌≡◌, refl, sym, ap, ◌∙◌, true, false, ◌&&◌, not, Option, none, some, List, [], ◌∷◌, if◌then◌else◌,
  inl, inr, Bool-cases, Option-cases, All, length, ◌==◌,
}
use load_wave.Scenario.Build.{
  ScenarioConfig, Runner, Held, Steps, compiled, fails_at, compile_steps, scenario_of, Built,
  reported, define, has_steps, build_scenario, build_each, continued, default_scenario,
  register_default_scenario, build_scenarios, none_configured, register_get,
}
use load_wave.Scenario.Compile.{Step, Result, ok, err}
use load_wave.Scenario.Step.{Library, is_empty}
use load_wave.Sdk.Scenarios.{
  Scenario, RegisterError, lookup, register, Registers, register-Registers,
}
use load_wave.Text.{Text, same_text, same_text_iff}

module _ {R J : Type 0} where
  -- Every name of the first registry has the same scenario in the second.
  abbrev pub Keeps : Held R J → Held R J → Type 0
  Keeps r r' =
      (name : Text) (s : Scenario (Runner R J)) → lookup r name ≡ some s → lookup r' name ≡ some s

  Registers-Keeps :
      (r : Held R J) (s : Scenario (Runner R J)) (name : Text) (o : Scenario (Runner R J))
      (b : Held R J × Option RegisterError)
      → Registers r s name b
      → lookup r name ≡ some o
      → lookup b.0 name ≡ some o
  Registers-Keeps r s name o (r', some e) h k = rw h k
  Registers-Keeps r s name o (r', none) (free, _, now) k =
      elim (Bool-cases (same_text s.name name)) [
        | inl e ↦ absurd (cc (sym k ∙ ap (lookup r) (sym ((same_text_iff s.name name).0 e)) ∙ free))
        | inr e ↦ now ∙ rw e k
      ]

  -- A turn keeps what the registry had; if it reports no error, its name is there.
  abbrev Turns : Text → Held R J → Built R J → Type 0
  Turns name r (r', none) = Keeps r r' × ((s : Scenario (Runner R J)) × (lookup r' name ≡ some s))
  Turns name r (r', some e) = Keeps r r'

  register-Turns :
      (r : Held R J) (s : Scenario (Runner R J))
      (b : List (Text × Scenario (Runner R J)) × Option RegisterError)
      → ((name : Text) → Registers r s name b)
      → Turns s.name r (reported b)
  register-Turns r s (r', none) h = (
    (λ name o k. Registers-Keeps r s name o (r', none) (h name) k),
    (s, (h s.name).2 ∙ rw ((same_text_iff s.name s.name).1 refl) refl),
  )
  register-Turns r s (r', some e) h = λ name o k. Registers-Keeps r s name o (r', some e) (h name) k

  define-Turns :
      (lib : Library) (cfg : ScenarioConfig J) (r : Held R J) (ss : Steps J)
      → Turns cfg.name r (define lib cfg r ss)
  define-Turns lib cfg r (fails_at j e) = λ name o k. k
  define-Turns lib cfg r (compiled steps) =
      let s = scenario_of cfg steps in
      register-Turns r s (register r s) (λ name. register-Registers r s name)

  build_scenario-Turns :
      (lib : Library) (cfg : ScenarioConfig J) (r : Held R J)
      → Turns cfg.name r (build_scenario lib cfg r)
  unfolding build_scenario
  build_scenario-Turns lib cfg r = elim (Option-cases (lookup r cfg.name)) [
    | inl f ↦ elim (Bool-cases (has_steps cfg.steps)) [
      | inl e ↦
          rw (e, build_scenario) (rw f (define-Turns lib cfg r (compile_steps lib 0 cfg.steps)))
      | inr e ↦ rw (e, build_scenario) (rw f (λ name o k. k))
    ]
    | inr (s, f) ↦ elim (Bool-cases (has_steps cfg.steps)) [
      | inl e ↦ rw (e, build_scenario) (rw f (λ name o k. k))
      | inr e ↦ rw (e, build_scenario) (rw f ((λ name o k. k), (s, f)))
    ]
  ]

  -- All the names of the scenarios are there, if no error is reported.
  abbrev Ends : List (ScenarioConfig J) → Held R J → Built R J → Type 0
  Ends cfgs r (r', none) =
      Keeps r r' × All (λ cfg. (s : Scenario (Runner R J)) × (lookup r' cfg.name ≡ some s)) cfgs
  Ends cfgs r (r', some e) = Keeps r r'

  continued-Ends :
      (cfg : ScenarioConfig J) (cfgs : List (ScenarioConfig J)) (r : Held R J)
      (turn rest : Built R J)
      → Turns cfg.name r turn
      → Ends cfgs turn.0 rest
      → Ends (cfg ∷ cfgs) r (continued turn.0 turn.1 rest)
  continued-Ends cfg cfgs r (r', some e) rest h k = h
  continued-Ends cfg cfgs r (r', none) (r'', some e) h k = λ name o q. k name o (h.0 name o q)
  continued-Ends cfg cfgs r (r', none) (r'', none) (kept, (s, there)) (later, all) =
      ((λ name o q. later name o (kept name o q)), ((s, later cfg.name s there), all))

  build_each-Ends :
      (lib : Library) (cfgs : List (ScenarioConfig J)) (r : Held R J)
      → Ends cfgs r (build_each lib cfgs r)
  unfolding build_each
  build_each-Ends lib [] r = ((λ name o k. k), tt)
  build_each-Ends lib (cfg ∷ cfgs) r =
      let turn = build_scenario lib cfg r in
      continued-Ends cfg cfgs r turn (build_each lib cfgs turn.0) (build_scenario-Turns lib cfg r)
        (build_each-Ends lib cfgs turn.0)

  Turns-Keeps : (name : Text) (r : Held R J) (b : Built R J) → Turns name r b → Keeps r b.0
  Turns-Keeps name r (r', none) h = h.0
  Turns-Keeps name r (r', some e) h = h

  register_get-Keeps : (r : Held R J) (o : Result (Step J)) → Keeps r (register_get r o).0
  register_get-Keeps r (err e) = λ name s h. h
  register_get-Keeps r (ok s) =
      let d = default_scenario (s ∷ []) in
      Turns-Keeps d.name r (reported (register r d))
        (register-Turns r d (register r d) (λ name. register-Registers r d name))

  register_default_scenario-Keeps :
      (lib : Library) (base_url : Text) (r : Held R J)
      → Keeps r (register_default_scenario lib base_url r).0
  unfolding register_default_scenario
  register_default_scenario-Keeps lib base_url r = elim (Option-cases (lib.url_path base_url)) [
    | inl e ↦ rw (e, register_default_scenario) (λ name o k. k)
    | inr (path, e) ↦ rw (e, register_default_scenario) (register_get-Keeps r _)
  ]

  Ends-Keeps :
      (cfgs : List (ScenarioConfig J)) (r : Held R J) (b : Built R J) → Ends cfgs r b → Keeps r b.0
  Ends-Keeps cfgs r (r', none) h = h.0
  Ends-Keeps cfgs r (r', some e) h = h

  -- `BuildScenarios` never replaces a scenario that is registered, whether it succeeds or fails.
  pub build_scenarios-Keeps :
      (lib : Library) (base_url : Text) (cfgs : List (ScenarioConfig J)) (r : Held R J)
      → Keeps r (build_scenarios lib base_url cfgs r).0
  unfolding build_scenarios
  build_scenarios-Keeps lib base_url cfgs r =
      elim (none_configured cfgs && length r == 0 && not (is_empty base_url))
        as (λ b.
          Keeps r
            (if b then register_default_scenario lib base_url r else build_each lib cfgs r).0) [
              | true ↦ register_default_scenario-Keeps lib base_url r
              | false ↦ Ends-Keeps cfgs r (build_each lib cfgs r) (build_each-Ends lib cfgs r)
            ]

  Ends-All :
      (cfgs : List (ScenarioConfig J)) (r r' : Held R J) (b : Built R J)
      → b ≡ (r', none)
      → Ends cfgs r b
      → All (λ cfg. (s : Scenario (Runner R J)) × (lookup r' cfg.name ≡ some s)) cfgs
  Ends-All cfgs r r' b e h = (subst (Ends cfgs r) e h).1

  -- When `BuildScenarios` reports no error, every scenario of the configuration can be looked up.
  pub build_scenarios-All :
      (lib : Library) (base_url : Text) (cfgs : List (ScenarioConfig J)) (r r' : Held R J)
      → build_scenarios lib base_url cfgs r ≡ (r', none)
      → All (λ cfg. (s : Scenario (Runner R J)) × (lookup r' cfg.name ≡ some s)) cfgs
  unfolding build_scenarios
  build_scenarios-All lib base_url [] r r' h = tt
  build_scenarios-All lib base_url (cfg ∷ cfgs) r r' h =
      Ends-All (cfg ∷ cfgs) r r' (build_each lib (cfg ∷ cfgs) r) h
        (build_each-Ends lib (cfg ∷ cfgs) r)
