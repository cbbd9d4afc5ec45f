-- ===== src/Sdk/Http/Verbs.antt =====
-- The short forms of a request, `Get`, `PostJSON`, `PutJSON` and `Delete` of pkg/loadwave/http.go.
use load_wave.Prelude.{◌≤◌, Option, none, some, [], pos, arith}
use load_wave.Sdk.Http.{Request}
use load_wave.Sdk.Http.Do.{HttpClient, Done, do_request}
use load_wave.Sdk.Http.Exchanges.{Net, bodies}
use load_wave.Text.{Text, codes}

module _ {J T : Type 0} where
  abbrev short_request : Text → Text → Option J → Request J T
  short_request method url json = record {
    method = method;
    url = url;
    name = [];
    header = [];
    query = [];
    body = [];
    json = json;
    form = [];
    timeout = pos 0;
    tags = [];
    expect_status = [];
    between_requests = none;
  }

  module _ {U V W : Type 0} (net : Net U J T V W) (c : HttpClient U T) (w : W) where
    unfoldable pub get_url : Text → Done net
    get_url url = do_request net c w (short_request (codes "GET") url none)

    unfoldable pub post_json : Text → J → Done net
    post_json url json = do_request net c w (short_request (codes "POST") url (some json))

    unfoldable pub put_json : Text → J → Done net
    put_json url json = do_request net c w (short_request (codes "PUT") url (some json))

    unfoldable pub delete_url : Text → Done net
    delete_url url = do_request net c w (short_request (codes "DELETE") url none)

-- A short form has no more than one body, so that it is not refused for having more.
pub bodies-short_request :
    {J : Type 0} (T : Type 0) (method url : Text) (json : Option J)
    → bodies (short_request {T = T} method url json) ≤ 1
bodies-short_request T method url none = omega arith
bodies-short_request T method url (some j) = omega arith
