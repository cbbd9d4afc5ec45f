-- ===== src/Scenario/Path/Leading.antt =====
-- Where one segment of a path leads, and what the error says where it leads nowhere:
-- internal/scenario/jsonpath.go.
use load_wave.Prelude.{
  ◌↔◌, Bool-cases, zero, ◌≤◌, true, false, ℕ, suc, ◌≡◌, refl, sym, ap, ◌∙◌, Option, none, some, inl,
  inr, ◌⊎◌, arith,
}
use load_wave.Text.{Text, codes, same_text}
use load_wave.Scenario.Path.{PathStep, index, field}
use load_wave.Scenario.Path.Document.{
  nth, count, value_of, or_fail, json_kind, Items, no_items, item, Members, no_members, member,
  out_of_range, expected_array, expected_object, no_field, Json, array, object, StepError, Result,
  ok, err, apply, null, boolean, float, text,
}

module _ {F : Type 0} where
  -- The value at a position of an array, and that of a name in an object.
  abbrev pub ItemAt : Items F → ℕ → Json F → Type 0
  ItemAt no_items i v = ⊥
  ItemAt (item x xs) zero v = x ≡ v
  ItemAt (item x xs) (suc i) v = ItemAt xs i v

  abbrev pub size : Items F → ℕ
  size no_items = 0
  size (item x xs) = suc (size xs)

  abbrev pub MemberAt : Members F → Text → Json F → Type 0
  MemberAt no_members k v = ⊥
  MemberAt (member j w ms) k v =
      ((same_text j k ≡ true) × (w ≡ v)) ⊎ ((same_text j k ≡ false) × MemberAt ms k v)

  abbrev pub NoMember : Members F → Text → Type 0
  NoMember no_members k = Unit
  NoMember (member j w ms) k = (same_text j k ≡ false) × NoMember ms k

  -- A segment leads from a node to a value.
  abbrev pub StepLeads : PathStep → Json F → Json F → Type 0
  StepLeads (index i) (array xs) v = ItemAt xs i v
  StepLeads (field f) (object ms) v = MemberAt ms f v
  StepLeads _ _ v = ⊥

  -- A segment leads nowhere from a node, with what the error says.
  abbrev pub StepFails : PathStep → Json F → StepError → Type 0
  StepFails (index i) (array xs) e = (size xs ≤ i) × (e ≡ out_of_range i (size xs))
  StepFails (index i) null e = e ≡ expected_array (codes "null")
  StepFails (index i) (boolean b) e = e ≡ expected_array (codes "a boolean")
  StepFails (index i) (float x) e = e ≡ expected_array (codes "a number")
  StepFails (index i) (text s) e = e ≡ expected_array (codes "a string")
  StepFails (index i) (object ms) e = e ≡ expected_array (codes "an object")
  StepFails (field f) (object ms) e = NoMember ms f × (e ≡ no_field f)
  StepFails (field f) null e = e ≡ expected_object (codes "null")
  StepFails (field f) (boolean b) e = e ≡ expected_object (codes "a boolean")
  StepFails (field f) (float x) e = e ≡ expected_object (codes "a number")
  StepFails (field f) (text s) e = e ≡ expected_object (codes "a string")
  StepFails (field f) (array xs) e = e ≡ expected_object (codes "an array")

  nth_iff : (xs : Items F) (i : ℕ) (v : Json F) → (nth xs i ≡ some v) ↔ ItemAt xs i v
  nth_iff no_items i v = ((λ h. absurd (cc h)), (λ h. absurd h))
  nth_iff (item x xs) zero v = ((λ h. cc h), (λ h. ap some h))
  nth_iff (item x xs) (suc i) v = nth_iff xs i v

  nth-none_iff : (xs : Items F) (i : ℕ) → (nth xs i ≡ none) ↔ (size xs ≤ i)
  nth-none_iff no_items i = ((λ h. omega arith), (λ h. refl))
  nth-none_iff (item x xs) zero = ((λ h. absurd (cc h)), (λ h. absurd (omega (arith, h))))
  nth-none_iff (item x xs) (suc i) =
      let (a, b) = nth-none_iff xs i in ((λ h. omega (arith, a h)), (λ h. b (omega (arith, h))))

  size-count : (xs : Items F) → count xs ≡ size xs
  size-count no_items = refl
  size-count (item x xs) = ap suc (size-count xs)

  value_of-MemberAt :
      (ms : Members F) (k : Text) (v : Json F) → (value_of k ms ≡ some v) ↔ MemberAt ms k v
  value_of-MemberAt no_members k v = ((λ h. absurd (cc h)), (λ h. absurd h))
  value_of-MemberAt (member j w ms) k v = elim (Bool-cases (same_text j k)) [
    | inl e ↦ rw e (
      (λ h. inl (refl, cc h)),
      (λ h. elim h [ inl (_, q) ↦ ap some q | inr (q, _) ↦ absurd (cc q) ]),
    )
    | inr e ↦
        let (a, b) = value_of-MemberAt ms k v in
        rw e
          ((λ h. inr (refl, a h)), (λ h. elim h [ inl (q, _) ↦ absurd (cc q) | inr (_, q) ↦ b q ]))
  ]

  value_of-NoMember : (ms : Members F) (k : Text) → (value_of k ms ≡ none) ↔ NoMember ms k
  value_of-NoMember no_members k = ((λ h. tt), (λ h. refl))
  value_of-NoMember (member j w ms) k = elim (Bool-cases (same_text j k)) [
    | inl e ↦ rw e ((λ h. absurd (cc h)), (λ h. absurd (cc h.0)))
    | inr e ↦ let (a, b) = value_of-NoMember ms k in rw e ((λ h. (refl, a h)), (λ h. b h.1))
  ]

  found_iff :
      (o : Option (Json F)) (e : StepError) (v : Json F) → (or_fail o e ≡ ok v) ↔ (o ≡ some v)
  found_iff none e v = ((λ h. absurd (cc h)), (λ h. absurd (cc h)))
  found_iff (some w) e v = ((λ h. ap some (cc h)), (λ h. ap ok (cc h)))

  missing_iff :
      (o : Option (Json F)) (e e' : StepError) → (or_fail o e ≡ err e') ↔ ((o ≡ none) × (e' ≡ e))
  missing_iff none e e' = ((λ h. (refl, cc h)), (λ h. ap err (sym h.1)))
  missing_iff (some w) e e' = ((λ h. absurd (cc h)), (λ h. absurd (cc h.0)))

  pub apply_ok : (s : PathStep) (d v : Json F) → (apply s d ≡ ok v) ↔ StepLeads s d v
  unfolding apply
  apply_ok (index i) (array xs) v =
      let (a, b) = found_iff (nth xs i) (out_of_range i (count xs)) v in
      let (c, d) = nth_iff xs i v in ((λ h. c (a h)), (λ h. b (d h)))
  apply_ok (field f) (object ms) v =
      let (a, b) = found_iff (value_of f ms) (no_field f) v in
      let (c, d) = value_of-MemberAt ms f v in ((λ h. c (a h)), (λ h. b (d h)))
  apply_ok (index i) null v = ((λ h. cc h), (λ h. absurd h))
  apply_ok (index i) (boolean b) v = ((λ h. cc h), (λ h. absurd h))
  apply_ok (index i) (float x) v = ((λ h. cc h), (λ h. absurd h))
  apply_ok (index i) (text s) v = ((λ h. cc h), (λ h. absurd h))
  apply_ok (index i) (object ms) v = ((λ h. cc h), (λ h. absurd h))
  apply_ok (field f) null v = ((λ h. cc h), (λ h. absurd h))
  apply_ok (field f) (boolean b) v = ((λ h. cc h), (λ h. absurd h))
  apply_ok (field f) (float x) v = ((λ h. cc h), (λ h. absurd h))
  apply_ok (field f) (text s) v = ((λ h. cc h), (λ h. absurd h))
  apply_ok (field f) (array xs) v = ((λ h. cc h), (λ h. absurd h))

  wrong : (e e' : StepError) → (◌≡◌ {A = Result StepError (Json F)} (err e) (err e')) ↔ (e' ≡ e)
  wrong e e' = ((λ h. cc h), (λ h. ap err (sym h)))

  pub apply_err :
      (s : PathStep) (d : Json F) (e : StepError) → (apply s d ≡ err e) ↔ StepFails s d e
  unfolding apply json_kind
  apply_err (index i) (array xs) e =
      let (a, b) = missing_iff (nth xs i) (out_of_range i (count xs)) e in
      let (c, d) = nth-none_iff xs i in
      let same = ap (out_of_range i) (size-count xs) in
      ((λ h. (c (a h).0, (a h).1 ∙ same)), (λ h. b (d h.0, h.1 ∙ sym same)))
  apply_err (field f) (object ms) e =
      let (a, b) = missing_iff (value_of f ms) (no_field f) e in
      let (c, d) = value_of-NoMember ms f in ((λ h. (c (a h).0, (a h).1)), (λ h. b (d h.0, h.1)))
  apply_err (index i) null e = wrong _ e
  apply_err (index i) (boolean b) e = wrong _ e
  apply_err (index i) (float x) e = wrong _ e
  apply_err (index i) (text s) e = wrong _ e
  apply_err (index i) (object ms) e = wrong _ e
  apply_err (field f) null e = wrong _ e
  apply_err (field f) (boolean b) e = wrong _ e
  apply_err (field f) (float x) e = wrong _ e
  apply_err (field f) (text s) e = wrong _ e
  apply_err (field f) (array xs) e = wrong _ e
