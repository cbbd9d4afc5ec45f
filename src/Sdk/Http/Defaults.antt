-- ===== src/Sdk/Http/Defaults.antt =====
-- What `applyDefaults` leaves of the options.
use load_wave.Prelude.{
  ℕ, suc, ◌≡◌, refl, Bool, true, false, none, some, ℤ, pos, leb_ℤ, arith, inl, inr, Bool-cases,
}
use load_wave.Sdk.Http.{
  HttpOptions, apply_defaults, or_default, or_on, or_predicate, default_pause, Response,
}
use load_wave.Sdk.Pause.{Pause, is_zero, new_pause}

-- Options that the client can be built from.
pub record IsComplete (o : HttpOptions) : Type 0 where
  pub limits :
      (leb_ℤ o.timeout (pos 0) ≡ false)
      × (leb_ℤ o.max_idle_conns_per_host (pos 0) ≡ false)
      × (leb_ℤ o.max_redirects (pos 0) ≡ false)
      × (leb_ℤ o.max_body_bytes (pos 0) ≡ false)
  pub has_trace : (b : Bool) × (o.trace ≡ some b)
  pub has_predicate : (p : Response → Bool) × (o.is_success ≡ some p)
  pub is_paced : is_zero o.between_requests ≡ o.no_between_requests

or_default-pos : (x : ℤ) (d : ℕ) → leb_ℤ (or_default x (pos (suc d))) (pos 0) ≡ false
or_default-pos x d = ground arith

default_pause-zero : (b : Bool) (p : Pause) → is_zero (default_pause b p) ≡ b
unfolding is_zero new_pause
default_pause-zero true p = refl
default_pause-zero false p = elim (Bool-cases (is_zero p)) [ inl e ↦ rw e refl | inr e ↦ rw e e ]

-- After `applyDefaults` every limit is positive, the trace flag and the predicate are set, and a request is
-- followed by a pause unless pauses are switched off.
pub apply_defaults-IsComplete : (o : HttpOptions) → IsComplete (apply_defaults o)
unfolding apply_defaults
apply_defaults-IsComplete o = record {
  limits = (
    or_default-pos o.timeout _,
    or_default-pos o.max_idle_conns_per_host _,
    or_default-pos o.max_redirects _,
    or_default-pos o.max_body_bytes _,
  );
  has_trace = elim o.trace as (λ t. (b : Bool) × (or_on t ≡ some b)) [
    | none ↦ (true, refl)
    | some b ↦ (b, refl)
  ];
  has_predicate = elim o.is_success as (λ t. (p : Response → Bool) × (or_predicate t ≡ some p)) [
    | none ↦ (_, refl)
    | some p ↦ (p, refl)
  ];
  is_paced = default_pause-zero o.no_between_requests o.between_requests;
}
