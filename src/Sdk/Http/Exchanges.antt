-- ===== src/Sdk/Http/Exchanges.antt =====
-- What a request is to the network and what its answer is to the client: `resolve`, `encodeBody`, `fill`
-- and `execute` of pkg/loadwave/http.go.
use load_wave.Prelude.{
  ℕ, ◌+◌, Bool, true, false, Option, none, some, List, [], ◌∷◌, if◌then◌else◌, ltb, ℤ, pos, ltb_ℤ,
  ◌-ℤ◌, length, pos_part,
}
use load_wave.Sdk.Floats.{Floats}
use load_wave.Sdk.Http.Bodies.{Reader, read_body}
use load_wave.Sdk.Http.Errors.{TransportError}
use load_wave.Sdk.Http.{
  Request, RequestError, many_bodies, not_encoded, transport, Response, no_response, HttpOptions,
}
use load_wave.Text.{Text, codes}

-- The times that a trace collects; `none` is the zero time.
pub record RequestTrace : Type 0 where
  pub connect_start : Option ℤ
  pub connect_done : Option ℤ
  pub tls_start : Option ℤ
  pub tls_done : Option ℤ
  pub first_byte : Option ℤ

-- What the network makes of a request that it is sent at the time `start`: it cannot be built, it gets no
-- answer, or it gets one.
pub data Sent : Type 0 where
  not_built : TransportError → Sent
  no_answer : TransportError → (bytes_out : ℕ) (start took : ℤ) → RequestTrace → Sent
  answered : (status : ℤ) → Reader → (bytes_out : ℕ) (start took : ℤ) → RequestTrace → Sent

-- The libraries' operations. `read_failure` is the error of a body that ends with one.
pub record Net (U J T V W : Type 0) : Type 0 where
  pub floats : Floats V
  pub parse : Text → Option U
  pub is_abs : U → Bool
  pub resolve_reference : U → U → U
  pub add_query : U → List (Text × Text) → U
  pub path : U → Text
  pub marshal : J → Option Text
  pub encode_form : List (Text × Text) → Text
  pub with_tags : T → List (Text × Text) → T
  pub send : W → Request J T → U → Text → Text → Sent × W
  pub read_failure : TransportError

-- `fill`
abbrev gap : Option ℤ → Option ℤ → ℤ
gap (some start) (some done) = if ltb_ℤ start done then done -ℤ start else pos 0
gap _ _ = pos 0

abbrev since : ℤ → Option ℤ → ℤ
since start none = pos 0
since start (some t) = t -ℤ start

unfoldable pub fill : Option Bool → RequestTrace → ℤ → Response → Response
fill (some true) t start r = record r {
  connecting = gap t.connect_start t.connect_done;
  tls_handshake = gap t.tls_start t.tls_done;
  ttfb = since start t.first_byte;
}
fill _ t start r = r

abbrev pub read_error : Bool → TransportError → Option RequestError
read_error true e = some (transport e)
read_error false e = none

-- `execute`, from what the network made of the request.
unfoldable pub response_of : HttpOptions → TransportError → Sent → Response
response_of o read_failure (not_built e) = no_response (transport e)
response_of o read_failure (no_answer e out start took t) =
    fill o.trace t start (record (no_response (transport e)) { bytes_out = out; duration = took })
response_of o read_failure (answered status reader out start took t) =
    let b = read_body o.discard_body (pos_part o.max_body_bytes) reader in
    fill o.trace t start (record (no_response (transport read_failure)) {
      status_code = status;
      body = b.buffered;
      truncated = b.truncated;
      duration = took;
      bytes_in = b.consumed;
      bytes_out = out;
      err = read_error b.failed read_failure;
    })

-- `encodeBody` counts the forms of body that are set.
abbrev one_if : Bool → ℕ
one_if b = if b then 1 else 0

abbrev is_set : {J : Type 0} → Option J → Bool
is_set none = false
is_set (some j) = true

abbrev pub bodies : {J T : Type 0} → Request J T → ℕ
bodies r = one_if (ltb 0 (length r.body)) + one_if (is_set r.json) + one_if (ltb 0 (length r.form))

abbrev pub encoded : Bool → Option (Text × Text) → Option RequestError × Text × Text
encoded true body = (some many_bodies, [], [])
encoded false none = (some not_encoded, [], [])
encoded false (some (body, kind)) = (none, body, kind)

module _ {U J T V W : Type 0} (net : Net U J T V W) where
  abbrev absolute : Option U → U → Option U
  absolute base u =
      if net.is_abs u
      then some u
      else elim base [ none ↦ none | some b ↦ some (net.resolve_reference b u) ]

  abbrev with_query : List (Text × Text) → Option U → Option U
  with_query query none = none
  with_query [] (some u) = some u
  with_query (q ∷ qs) (some u) = some (net.add_query u (q ∷ qs))

  -- `resolve`; `none` is an error.
  unfoldable pub resolve : Option U → Text → List (Text × Text) → Option U
  resolve base [] query = none
  resolve base (c ∷ cs) query = elim (net.parse (c ∷ cs)) [
    | none ↦ none
    | some u ↦ with_query query (absolute base u)
  ]

  abbrev pub body_of : Request J T → Option J → List (Text × Text) → Option (Text × Text)
  body_of r (some j) form = elim (net.marshal j) [
    | none ↦ none
    | some s ↦ some (s, codes "application/json")
  ]
  body_of r none [] = some (r.body, [])
  body_of r none (f ∷ fs) =
      some (net.encode_form (f ∷ fs), codes "application/x-www-form-urlencoded")

  -- `encodeBody`: the body and its content type.
  unfoldable pub encode_body : Request J T → Option RequestError × Text × Text
  encode_body r = encoded (ltb 1 (bodies r)) (body_of r r.json r.form)
