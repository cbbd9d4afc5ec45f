-- ===== src/Scenario/Path/Walking.antt =====
-- Where a path leads in a document, and which of its segments an error names.
use load_wave.Prelude.{
  ◌↔◌, true, false, ℕ, suc, ◌+◌, ◌≡◌, ◌≢◌, refl, sym, ap, ◌∙◌, Option, none, some, List, [], ◌∷◌,
  ◌++◌, inl, inr, ◌⊎◌, arith, Option-cases, length,
}
use load_wave.Text.{Text}
use load_wave.Scenario.Path.{PathStep, CapturePath}
use load_wave.Scenario.Path.Leading.{StepLeads, StepFails, apply_ok, apply_err}
use load_wave.Scenario.Path.Document.{
  Json, array, object, Encoding, StepError, CaptureError, at_segment, Result, ok, err, apply, walk,
  stringify, extract, extract_from, marshalled, null, boolean, float, text,
}

Result-cases : {E A : Type 0} (r : Result E A) → ((a : A) × (r ≡ ok a)) ⊎ ((e : E) × (r ≡ err e))
Result-cases (ok a) = inl (a, refl)
Result-cases (err e) = inr (e, refl)

at_number : (i : ℕ) → i + 1 ≡ i + 0 + 1
at_number i = omega arith

marshalled-segment : (o : Option Text) {k : ℕ} {e : StepError} → marshalled o ≢ err (at_segment k e)
marshalled-segment none = λ h. cc h
marshalled-segment (some s) = λ h. cc h

module _ {F : Type 0} where
  -- Segments lead from a document to a node, one after the other.
  abbrev pub Leads : List PathStep → Json F → Json F → Type 0
  Leads [] doc v = doc ≡ v
  Leads (s ∷ steps) doc v = (next : Json F) × StepLeads s doc next × Leads steps next v

  -- The segments before the one of a number lead to a node, and that one leads nowhere from it.
  pub record FailsAt (steps : List PathStep) (doc : Json F) (k : ℕ) (e : StepError) : Type 0 where
    pub before : List PathStep
    pub step : PathStep
    pub after : List PathStep
    pub node : Json F
    pub splits : steps ≡ before ++ (step ∷ after)
    pub leads : Leads before doc node
    pub fails : StepFails step node e
    pub number : k ≡ length before + 1

  walk-ok :
      (i : ℕ) (step : PathStep) (steps : List PathStep) (doc : Json F) {next : Json F}
      → apply step doc ≡ ok next
      → walk i (step ∷ steps) doc ≡ walk (suc i) steps next
  unfolding walk
  walk-ok i step steps doc e = rw (e, walk) refl

  walk-err :
      (i : ℕ) (step : PathStep) (steps : List PathStep) (doc : Json F) {e : StepError}
      → apply step doc ≡ err e
      → walk i (step ∷ steps) doc ≡ err (at_segment (i + 1) e)
  unfolding walk
  walk-err i step steps doc e = rw (e, walk) refl

  walk-FailsAt :
      (i : ℕ) (steps : List PathStep) (doc : Json F) {k : ℕ} {e : StepError}
      → walk i steps doc ≡ err (at_segment k e)
      → (n : ℕ) × (k ≡ i + n) × FailsAt steps doc n e
  walk-FailsAt i [] doc h = absurd (unfold walk in cc h)
  walk-FailsAt i (s ∷ steps) doc {k} {e} h = elim (Result-cases (apply s doc)) [
    | inl (next, f) ↦
        let (n, q, later) = walk-FailsAt (suc i) steps next (sym (walk-ok i s steps doc f) ∙ h) in
        (
          suc n,
          omega (arith, q),
          record {
            before = s ∷ later.before;
            step = later.step;
            after = later.after;
            node = later.node;
            splits = ap (◌∷◌ s) later.splits;
            leads = (next, (apply_ok s doc next).0 f, later.leads);
            fails = later.fails;
            number = omega (arith, later.number);
          },
        )
    | inr (e', f) ↦
        let q : ◌≡◌ {A = Result CaptureError (Json F)} (err (at_segment (i + 1) e'))
            (err (at_segment k e)) =
          sym (walk-err i s steps doc f) ∙ h in
        (
          1,
          cc q,
          record {
            before = [];
            step = s;
            after = steps;
            node = doc;
            splits = refl;
            leads = refl;
            fails = (apply_err s doc e).0 (f ∙ ap err (cc q));
            number = omega arith;
          },
        )
  ]

  walk-Leads :
      (i : ℕ) (before : List PathStep) (s : PathStep) (after : List PathStep) (doc node : Json F)
      (e : StepError)
      → Leads before doc node
      → StepFails s node e
      → walk i (before ++ (s ∷ after)) doc ≡ err (at_segment (i + (length before + 1)) e)
  walk-Leads i [] s after doc node e leads fails =
      walk-err i s after doc ((apply_err s doc e).1 (rw leads fails))
      ∙ ap (λ n. err (at_segment n e)) (omega arith)
  walk-Leads i (b ∷ before) s after doc node e (next, first, leads) fails =
      walk-ok i b (before ++ (s ∷ after)) doc ((apply_ok b doc next).1 first)
      ∙ walk-Leads (suc i) before s after next node e leads fails
      ∙ ap (λ n. err (at_segment n e)) (omega arith)

  stringify-segment :
      (encoding : Encoding F) (v : Json F) {k : ℕ} {e : StepError}
      → stringify encoding v ≢ err (at_segment k e)
  unfolding stringify
  stringify-segment encoding (array xs) = marshalled-segment (encoding.marshal (array xs))
  stringify-segment encoding (object ms) = marshalled-segment (encoding.marshal (object ms))
  stringify-segment encoding (boolean true) = λ h. cc h
  stringify-segment encoding (boolean false) = λ h. cc h
  stringify-segment encoding null = λ h. cc h
  stringify-segment encoding (text s) = λ h. cc h
  stringify-segment encoding (float x) = λ h. cc h

  FailsAt-extract_from :
      (encoding : Encoding F) (doc : Json F) (p : CapturePath) (k : ℕ) (e : StepError)
      → (extract_from encoding (some doc) p ≡ err (at_segment k e)) ↔ FailsAt p.steps doc k e
  FailsAt-extract_from encoding doc p k e = (
    λ h. elim (Result-cases (walk 0 p.steps doc)) [
      | inl (v, f) ↦ absurd (stringify-segment encoding v (rw f at h))
      | inr (e', f) ↦
          let (n, q, failing) =
            walk-FailsAt 0 p.steps doc {k = k} {e = e} (f ∙ ap err (cc (rw f at h))) in
          let same : n ≡ k = omega (arith, q) in rw same at failing
    ],
    λ g.
        let walked : walk 0 p.steps doc ≡ err (at_segment k e) =
          ap (λ ss. walk 0 ss doc) g.splits
          ∙ walk-Leads 0 g.before g.step g.after doc g.node e g.leads g.fails
          ∙ ap (λ n. err (at_segment n e)) (omega (arith, g.number)) in
        rw walked refl,
  )

  -- `Extract` fails at a segment exactly if the body is a document that is not empty, the segments before it
  -- lead from the document to a node, and it leads nowhere from there, and the error then says why: the
  -- position is outside of the array, there is no such name in the object, or the node is none of
  -- these. The segments are numbered from 1.
  pub extract-FailsAt :
      (encoding : Encoding F) (p : CapturePath) (body : Text) (k : ℕ) (e : StepError)
      → (extract encoding p body ≡ err (at_segment k e)) ↔ (
          (body ≢ [])
          × (doc : Json F) × (encoding.unmarshal body ≡ some doc)
          × FailsAt p.steps doc k e)
  unfolding extract
  extract-FailsAt encoding p [] k e = ((λ h. absurd (cc h)), (λ h. absurd (h.0 refl)))
  extract-FailsAt encoding p (c ∷ cs) k e = (
    λ h. elim (Option-cases (encoding.unmarshal (c ∷ cs))) [
      | inl f ↦ absurd (cc (rw f at h))
      | inr (doc, f) ↦
          ((λ q. cc q), doc, f, (FailsAt-extract_from encoding doc p k e).0 (rw f at h))
    ],
    λ (some_body, doc, f, g). rw f ((FailsAt-extract_from encoding doc p k e).1 g),
  )
