-- ===== src/Sdk/Http.antt =====
-- The HTTP client of a virtual user, pkg/loadwave/http.go. A URL is of a type `U` and a set of labels of a
-- type `T`, with the operations of `net/url` and of `Labels` that the client calls; the network is a
-- function of its state. Durations are numbers of nanoseconds. Of a response, its headers, its protocol and
-- whether the connection was reused are left out.
pub mod Errors
pub mod Bodies
pub mod Defaults
pub mod Exchanges
pub mod Do
pub mod Paced
mod Verbs
use load_wave.Prelude.{
  ℕ, suc, ◌+◌, Bool, true, false, ◌&&◌, ◌||◌, not, Option, none, some, List, [], ◌∷◌, ◌++◌,
  if◌then◌else◌, ltb, ◌==◌, ℤ, pos, ltb_ℤ, leb_ℤ, eqb_ℤ, length,
}
use load_wave.Sdk.Http.Bodies.{Reader, BodyRead, read_body}
use load_wave.Sdk.Http.Errors.{TransportError}
use load_wave.Sdk.Names.{derive_request_name}
use load_wave.Sdk.Pause.{Pause, new_pause, is_zero, duration}
use load_wave.Text.{Text, codes, format_int}

pub record Request (J T : Type 0) : Type 0 where
  pub method : Text
  pub url : Text
  pub name : Text
  pub header : List (Text × Text)
  pub query : List (Text × Text)
  pub body : Text
  pub json : Option J
  pub form : List (Text × Text)
  pub timeout : ℤ
  pub tags : List (Text × Text)
  pub expect_status : List ℤ
  pub between_requests : Option Pause

-- An error before the network is reached, or one of the exchange.
pub data RequestError : Type 0 where
  bad_url many_bodies not_encoded : RequestError
  transport : TransportError → RequestError

pub record Response : Type 0 where
  pub status_code : ℤ
  pub body : Text
  pub truncated : Bool
  pub duration : ℤ
  pub ttfb : ℤ
  pub connecting : ℤ
  pub tls_handshake : ℤ
  pub bytes_in : ℕ
  pub bytes_out : ℕ
  pub err : Option RequestError

abbrev pub no_response : RequestError → Response
no_response e = record {
  status_code = pos 0;
  body = [];
  truncated = false;
  duration = pos 0;
  ttfb = pos 0;
  connecting = pos 0;
  tls_handshake = pos 0;
  bytes_in = 0;
  bytes_out = 0;
  err = some e;
}

pub record HttpOptions : Type 0 where
  pub timeout : ℤ
  pub max_idle_conns_per_host : ℤ
  pub max_redirects : ℤ
  pub max_body_bytes : ℤ
  pub trace : Option Bool
  pub is_success : Option (Response → Bool)
  pub between_requests : Pause
  pub no_between_requests : Bool
  pub discard_body : Bool

-- `DefaultIsSuccess`
unfoldable pub default_is_success : Response → Bool
default_is_success r = elim r.err [
  | none ↦ leb_ℤ (pos 100) r.status_code && ltb_ℤ r.status_code (pos 400)
  | some e ↦ false
]

abbrev or_default : ℤ → ℤ → ℤ
or_default x d = if leb_ℤ x (pos 0) then d else x

abbrev or_on : Option Bool → Option Bool
or_on none = some true
or_on (some b) = some b

abbrev or_predicate : Option (Response → Bool) → Option (Response → Bool)
or_predicate none = some default_is_success
or_predicate (some p) = some p

abbrev default_pause : Bool → Pause → Pause
default_pause true p = record { min = pos 0; max = pos 0 }
default_pause false p = if is_zero p then new_pause (pos 1000000000) else p

unfoldable pub apply_defaults : HttpOptions → HttpOptions
apply_defaults o = record o {
  timeout = or_default o.timeout (pos 30000000000);
  max_idle_conns_per_host = or_default o.max_idle_conns_per_host (pos 512);
  max_redirects = or_default o.max_redirects (pos 10);
  max_body_bytes = or_default o.max_body_bytes (pos 4194304);
  trace = or_on o.trace;
  is_success = or_predicate o.is_success;
  between_requests = default_pause o.no_between_requests o.between_requests;
}

-- `succeeded`; an options record has a predicate after `applyDefaults`, and `none` is a nil call.
abbrev one_of : ℤ → List ℤ → Bool
one_of status [] = false
one_of status (want ∷ rest) = eqb_ℤ status want || one_of status rest

abbrev judged : Option (Response → Bool) → Response → List ℤ → Option Bool
judged none resp [] = none
judged (some p) resp [] = some (p resp)
judged o resp (want ∷ rest) = some (one_of resp.status_code (want ∷ rest))

unfoldable pub succeeded : HttpOptions → List ℤ → Response → Option Bool
succeeded o expect resp = elim resp.err [
  | some e ↦ some false
  | none ↦ judged o.is_success resp expect
]
