-- ===== src/Sdk/Tests.antt =====
-- The theorems about the SDK at concrete inputs, and runs of the definitions.
use load_wave.Prelude.{
  ℕ, ◌+◌, ◌≡◌, refl, true, false, Option, none, some, List, [], ◌∷◌, length, ℤ, pos, quot,
}
use load_wave.Sdk.Floats.{Floats}
use load_wave.Sdk.Http.Bodies.{Reader}
use load_wave.Sdk.Http.Do.{HttpClient}
use load_wave.Sdk.Http.Errors.{TransportError}
use load_wave.Sdk.Http.Exchanges.{Net, RequestTrace, answered}
use load_wave.Sdk.Http.{Request}
use load_wave.Sdk.Messages.Bounds.{IsExcerpt, truncate_message-IsExcerpt}
use load_wave.Sdk.Messages.{truncate_message, excerpt}
use load_wave.Sdk.Names.Collapsing.{through, derive_request_name-collapses}
use load_wave.Sdk.Names.{
  looks_like_identifier, derive_request_name, join, masked, count_runes, byte_length,
}
use load_wave.Sdk.Pause.Drawing.{Within, parse_pause-Within}
use load_wave.Sdk.Pause.{Pause, pause, duration, parse_pause, range_of}
use load_wave.Sdk.Vu.Accounting.{Action, tags, checks, thinks}
use load_wave.Sdk.Vu.{Vu}
use load_wave.Text.{
  Text, codes, trim, trim_right, trim_left, is_space, split_at, split_all, split_last,
}

names_numbers :
    derive_request_name (codes "GET") (codes "/users/42/posts") ≡ codes "GET /users/*/posts"
unfolding derive_request_name join split_all masked looks_like_identifier count_runes byte_length
names_numbers = refl

derive_request_name-collapses_example :
    derive_request_name (codes "GET") (through (codes "/users") (codes "42") (codes "posts"))
    ≡ derive_request_name (codes "GET") (through (codes "/users") (codes "1234567") (codes "posts"))
unfolding looks_like_identifier count_runes byte_length split_at
derive_request_name-collapses_example =
    derive_request_name-collapses (codes "GET") (codes "/users") (codes "posts") (codes "42")
      (codes "1234567") refl refl refl refl

-- A scheme in which a text is a duration of as many nanoseconds as it has characters.
abbrev counting : Text → Option ℤ
counting [] = none
counting (c ∷ cs) = some (pos (length (c ∷ cs)))

abbrev one_to_three : Pause
one_to_three = record { min = pos 1; max = pos 3 }

parses_range : parse_pause counting (codes " 1 - 333 ") ≡ pause one_to_three
unfolding parse_pause trim trim_right trim_left is_space range_of split_last
parses_range = refl

parse_pause-Within_example : Within one_to_three (duration none one_to_three)
parse_pause-Within_example =
    parse_pause-Within counting none (codes " 1 - 333 ") {p = one_to_three} parses_range tt

abbrev reader : Reader
reader = record { bytes = codes "too long"; fails = false }

abbrev no_trace : RequestTrace
no_trace = record {
  connect_start = none;
  connect_done = none;
  tls_start = none;
  tls_done = none;
  first_byte = none;
}

abbrev broken_off : TransportError
broken_off = record {
  deadline_exceeded = false;
  canceled = false;
  eof = false;
  unexpected_eof = true;
  conn_refused = false;
  conn_reset = false;
  net_timeout = false;
  dns_error = false;
  certificate_error = false;
  text = codes "unexpected EOF";
}

-- A network that counts what it is sent and answers with an error of the server.
-- Whole numbers in place of floats.
abbrev whole : Floats ℤ
whole = record { of_int64 = λ n. n; over = quot }

abbrev net : Net Text Text (List (Text × Text)) ℤ ℕ
net = record {
  floats = whole;
  parse = λ s. some s;
  is_abs = λ u. true;
  resolve_reference = λ b u. u;
  add_query = λ u q. u;
  path = λ u. u;
  marshal = λ j. some j;
  encode_form = λ f. [];
  with_tags = λ t ts. t;
  send = λ n r u body kind. (answered (pos 500) reader 0 (pos 0) (pos 7) no_trace, n + 1);
  read_failure = broken_off;
}

abbrev client : HttpClient Text (List (Text × Text))
client = record {
  opts = record {
    timeout = pos 30000000000;
    max_idle_conns_per_host = pos 512;
    max_redirects = pos 10;
    max_body_bytes = pos 3;
    trace = some false;
    is_success = none;
    between_requests = one_to_three;
    no_between_requests = false;
    discard_body = false;
  };
  base = none;
  vu = some (record { labels = []; rand = λ n. pos 0; reports = true });
}

abbrev fetch : Request Text (List (Text × Text))
fetch = record {
  method = [];
  url = codes "/users/42";
  name = [];
  header = [];
  query = [];
  body = [];
  json = none;
  form = [];
  timeout = pos 0;
  tags = [];
  expect_status = pos 200 ∷ [];
  between_requests = none;
}

abbrev with_tag : List (Text × Text) → Text → Text → List (Text × Text)
with_tag labels key value = (key, value) ∷ labels

abbrev user : Vu (List (Text × Text))
user = record {
  base_tag = (codes "scenario", codes "browse") ∷ [];
  iteration = pos 4;
  iter_tag = [];
  think_time = pos 99;
  failed = true;
}

abbrev actions : List Action
actions =
    tags (codes "page") (codes "home") ∷ thinks (pos 5) (pos 6) ∷ checks (codes "ok") false ∷ []

truncate_message-IsExcerpt_example :
    IsExcerpt (truncate_message (λ r. true) (codes " a message  of two lines "))
truncate_message-IsExcerpt_example =
    truncate_message-IsExcerpt (λ r. true) (codes " a message  of two lines ")

excerpts : truncate_message (λ r. true) (codes " two  words ") ≡ codes "two words"
unfolding truncate_message excerpt trim trim_right trim_left is_space byte_length
excerpts = refl
