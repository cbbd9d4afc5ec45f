-- ===== src/Sdk/Http/Do.antt =====
-- One request through the client, `Do`, `record` and `pace` of pkg/loadwave/http.go and `reportFailure` of
-- pkg/loadwave/failure.go: what the virtual user is asked for. The error class and the excerpt of a reported
-- failure are left out.
use load_wave.Prelude.{
  Bool, true, not, Option, none, some, List, [], ◌∷◌, ◌++◌, if◌then◌else◌, ℤ, pos, ltb_ℤ,
}
use load_wave.Sdk.Floats.{Floats, ms_of}
use load_wave.Sdk.Http.Errors.{classify_error}
use load_wave.Sdk.Http.Exchanges.{Net, Sent, response_of, resolve, encode_body}
use load_wave.Sdk.Http.{
  Request, RequestError, bad_url, transport, Response, no_response, HttpOptions, succeeded,
}
use load_wave.Sdk.Names.{derive_request_name}
use load_wave.Sdk.Pause.{Pause, is_zero, duration}
use load_wave.Text.{Text, codes, format_int}

-- What the virtual user is asked for. A delay is `none` where drawing it panics.
pub data Event (T V : Type 0) : Type 0 where
  count : (metric : Text) → T → V → Event T V
  trend : (metric : Text) → T → (ms : V) → Event T V
  rate : (metric : Text) → T → Bool → Event T V
  report_failure : (name method : Text) (status : ℤ) → Event T V
  think : Option ℤ → Event T V

-- The virtual user of a client: its labels, its random source, and whether its recorder takes failures.
pub record ClientVu (T : Type 0) : Type 0 where
  pub labels : T
  pub rand : ℤ → ℤ
  pub reports : Bool

pub record HttpClient (U T : Type 0) : Type 0 where
  pub opts : HttpOptions
  pub base : Option U
  pub vu : Option (ClientVu T)

abbrev pub error_label : Option RequestError → List (Text × Text)
error_label (some (transport e)) = (codes "error", classify_error e) ∷ []
error_label _ = []

abbrev pub is_failed : Option Bool → Bool
is_failed (some b) = not b
is_failed none = true

abbrev pub pause_for : Pause → Option Pause → Pause
pause_for run none = run
pause_for run (some p) = p

module _ {T V : Type 0} where
  abbrev pub when : Bool → List (Event T V) → List (Event T V)
  when b es = if b then es else []

  -- `pace`
  unfoldable pub pace : {U J : Type 0} → HttpClient U T → Request J T → List (Event T V)
  pace c req = elim c.vu [
    | none ↦ []
    | some vu ↦
        let p = pause_for c.opts.between_requests req.between_requests in
        when (not (is_zero p)) (think (duration (some vu.rand) p) ∷ [])
  ]

  -- `reportFailure`
  abbrev pub failure_of : Bool → Text → Text → Response → List (Event T V)
  failure_of reports name method resp =
      when reports (report_failure name method resp.status_code ∷ [])

  abbrev pub recorded : Floats V → T → Bool → Bool → Text → Text → Response → List (Event T V)
  recorded floats labels failed reports name method resp =
      count (codes "http_reqs") labels (floats.of_int64 (pos 1))
      ∷ trend (codes "http_req_duration") labels (ms_of floats resp.duration)
      ∷ rate (codes "http_req_failed") labels failed
      ∷ count (codes "http_req_bytes_in") labels (floats.of_int64 (pos resp.bytes_in))
      ∷ count (codes "http_req_bytes_out") labels (floats.of_int64 (pos resp.bytes_out))
      ∷ (when (ltb_ℤ (pos 0) resp.ttfb)
            (trend (codes "http_req_waiting") labels (ms_of floats resp.ttfb) ∷ [])
          ++ (when (ltb_ℤ (pos 0) resp.connecting)
                (trend (codes "http_req_connecting") labels (ms_of floats resp.connecting) ∷ [])
              ++ (when (ltb_ℤ (pos 0) resp.tls_handshake) (
                    trend (codes "http_req_tls_handshaking") labels
                      (ms_of floats resp.tls_handshake)
                    ∷ [])
                  ++ when failed (failure_of reports name method resp))))

  module _ {U J W : Type 0} (net : Net U J T V W) where
    -- The loops that add a label at a time.
    abbrev tagged : T → List (Text × Text) → T
    tagged labels [] = labels
    tagged labels (tag ∷ tags) = tagged (net.with_tags labels (tag ∷ [])) tags

    abbrev pub labels_of : ClientVu T → Text → Request J T → Response → T
    labels_of vu name req resp =
        let named = net.with_tags vu.labels (
          (codes "name", name)
          ∷ (codes "method", req.method)
          ∷ (codes "status", format_int resp.status_code)
          ∷ []) in
        tagged (tagged named req.tags) (error_label resp.err)

    -- `record`
    unfoldable pub record_request :
        HttpClient U T → Text → Request J T → Response → List (Event T V)
    record_request c name req resp = elim c.vu [
      | none ↦ []
      | some vu ↦
          let failed = is_failed (succeeded c.opts req.expect_status resp) in
          recorded net.floats (labels_of vu name req resp) failed vu.reports name req.method resp
    ]

    pub record Done : Type 0 where
      pub response : Response
      pub world : W
      pub events : List (Event T V)

    abbrev pub or_get : Text → Text
    or_get [] = codes "GET"
    or_get (c ∷ cs) = c ∷ cs

    abbrev pub name_for : Request J T → U → Text
    name_for req u = elim req.name [
      | [] ↦ derive_request_name req.method (net.path u)
      | c ∷ cs ↦ c ∷ cs
    ]

    abbrev pub early : HttpClient U T → W → Request J T → RequestError → Done
    early c w req e = record { response = no_response e; world = w; events = pace c req }

    abbrev pub answered_by : HttpClient U T → Request J T → U → Sent × W → Done
    answered_by c req u (sent, w) =
        let resp = response_of c.opts net.read_failure sent in
        record {
          response = resp;
          world = w;
          events = record_request c (name_for req u) req resp ++ pace c req;
        }

    abbrev pub with_body :
        HttpClient U T → W → Request J T → U → Option RequestError × Text × Text → Done
    with_body c w req u (some e, body, kind) = early c w req e
    with_body c w req u (none, body, kind) = answered_by c req u (net.send w req u body kind)

    abbrev pub with_target : HttpClient U T → W → Request J T → Option U → Done
    with_target c w req none = early c w req bad_url
    with_target c w req (some u) = with_body c w req u (encode_body net req)

    -- `Do`; the timeout of the request is part of what `send` is given.
    unfoldable pub do_request : HttpClient U T → W → Request J T → Done
    do_request c w req =
        let r = record req { method = or_get req.method } in
        with_target c w r (resolve net c.base r.url r.query)
