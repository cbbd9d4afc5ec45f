-- ===== src/Metrics/Bucket.antt =====
-- The cluster's activity over one interval, the buckets of internal/metrics/store.go.
use Prim.Native.String.{String}
use text.Mathlib.Text.{◌==◌ as str_eq, starts_with}
use text.Mathlib.TextEquality.{eq_iff}
use load_wave.Prelude.{
  ℕ, ◌+◌, ◌%◌, ◌↔◌, ◌≡◌, Bool, true, ◌&&◌, ◌||◌, Option, none, some, List, [], ◌∷◌, length,
  if◌then◌else◌, ◌==◌, ℤ, leb_ℤ, pos, arith, word, sum,
}
use load_wave.Prelude.Assoc.{Eq, string_eq, find, put}
use load_wave.Labels.{Labels, get_label}
use load_wave.Metrics.Aggregate.{Measures, Kind, is_gauge, Aggregate}

-- `PointKey`
pub record PointKey : Type 0 where
  pub metric : String
  pub scenario : String

abbrev pub point_key_beq : PointKey → PointKey → Bool
point_key_beq a b = str_eq a.metric b.metric && str_eq a.scenario b.scenario

pub point_key_beq_iff : (a b : PointKey) → (point_key_beq a b ≡ true) ↔ (a ≡ b)
point_key_beq_iff a b = ground (arith, eq_iff a.metric b.metric, eq_iff a.scenario b.scenario)

instance abbrev pub point_key_eq : Eq PointKey
point_key_eq = record { beq = point_key_beq; beq_iff = point_key_beq_iff }

-- The metrics and labels of pkg/loadwave/metrics.go that a bucket looks at.
abbrev pub http_reqs : String
http_reqs = "http_reqs"

abbrev pub http_req_duration : String
http_req_duration = "http_req_duration"

abbrev pub http_req_failed : String
http_req_failed = "http_req_failed"

abbrev pub label_scenario : String
label_scenario = "scenario"

abbrev pub label_name : String
label_name = "name"

abbrev pub label_status : String
label_status = "status"

-- `statusClass`
unfoldable pub status_class : String → String
status_class status =
    if starts_with status "0"
    then "error"
    else if starts_with status "1"
    then "1xx"
    else if starts_with status "2"
    then "2xx"
    else if starts_with status "3"
    then "3xx"
    else if starts_with status "4"
    then "4xx"
    else if starts_with status "5"
    then "5xx"
    else "other"

-- Addition of unsigned 64-bit numbers.
abbrev pub plus_64 : ℕ → ℕ → ℕ
plus_64 a b = (a + b) % word

-- A value of a map, or Go's zero value.
abbrev pub or_else {ℓ} : {A : Type ℓ} → A → Option A → A
or_else default none = default
or_else default (some x) = x

module _ (M : Measures) where
  -- `Point`; its percentiles are the histogram's that the bucket was finalised with.
  pub record Point : Type 0 where
    pub count : ℕ
    pub total : Measures.Float M
    pub least : Measures.Float M
    pub greatest : Measures.Float M
    pub non_zero : ℕ
    pub percentiles : Option (Measures.Hist M)

  pub record EndpointPoint : Type 0 where
    pub requests : ℕ
    pub failures : ℕ
    pub total : Measures.Float M
    pub observed : ℕ

  pub record Bucket : Type 0 where
    pub start : ℤ
    pub active_vus : ℕ
    pub points : List (PointKey × Point)
    pub status : List (String × ℕ)
    pub endpoints : List (String × EndpointPoint)
    pub vus_by_node : List (String × ℕ)
    pub hists : List (PointKey × Measures.Hist M)

  abbrev pub new_bucket : ℤ → Bucket
  new_bucket start = record {
    start = start;
    active_vus = 0;
    points = [];
    status = [];
    endpoints = [];
    vus_by_node = [];
    hists = [];
  }

  abbrev pub no_point : Point
  no_point = record {
    count = 0;
    total = Measures.zero_float M;
    least = Measures.zero_float M;
    greatest = Measures.zero_float M;
    non_zero = 0;
    percentiles = none;
  }

  abbrev pub no_endpoint : EndpointPoint
  no_endpoint = record { requests = 0; failures = 0; total = Measures.zero_float M; observed = 0 }

  abbrev widened : Aggregate M → Point → Point
  widened incoming point = if incoming.count == 0 then point else record point {
    least =
        if Measures.is_zero M point.least || Measures.lt_float M incoming.min_val point.least
        then incoming.min_val
        else point.least;
    greatest =
        if Measures.lt_float M point.greatest incoming.max_val
        then incoming.max_val
        else point.greatest;
  }

  -- What `addToBucket` does to the point.
  unfoldable pub add_to_point : Kind → Aggregate M → Point → Point
  add_to_point kind incoming point =
      let point = record point {
        count = plus_64 point.count incoming.count;
        non_zero = plus_64 point.non_zero incoming.non_zero;
      } in
      if is_gauge kind
      then record point { total = Measures.plus M point.total incoming.last }
      else widened incoming (record point { total = Measures.plus M point.total incoming.total })

  abbrev merged_hists :
      PointKey
      → Kind
      → Option (Measures.Hist M)
      → List (PointKey × Measures.Hist M)
      → List (PointKey × Measures.Hist M)
  merged_hists key kind none hists = hists
  merged_hists key kind (some h) hists =
      if is_gauge kind
      then hists
      else put key (Measures.merge_hist M (or_else (Measures.new_hist M) (find key hists)) h) hists

  -- `addToBucket`
  unfoldable pub add_to_bucket :
      PointKey → Kind → Aggregate M → Option (Measures.Hist M) → Bucket → Bucket
  add_to_bucket key kind incoming hist bucket = record bucket {
    points =
        put key (add_to_point kind incoming (or_else no_point (find key bucket.points)))
          bucket.points;
    hists = merged_hists key kind hist bucket.hists;
  }

  abbrev add_to_endpoint : String → Aggregate M → EndpointPoint → EndpointPoint
  add_to_endpoint metric incoming point =
      if str_eq metric http_reqs
      then record point { requests = plus_64 point.requests incoming.count }
      else if str_eq metric http_req_duration
      then record point {
        total = Measures.plus M point.total incoming.total;
        observed = plus_64 point.observed incoming.count;
      }
      else record point { failures = plus_64 point.failures incoming.non_zero }

  abbrev pub charted :
      ℤ → String → String → Aggregate M → Bucket → Option EndpointPoint → Bucket × ℕ
  charted top name metric incoming bucket (some point) = (
    record bucket { endpoints = put name (add_to_endpoint metric incoming point) bucket.endpoints },
    0,
  )
  charted top name metric incoming bucket none =
      if leb_ℤ top (pos (length bucket.endpoints)) then (bucket, 1) else (
        record bucket {
          endpoints = put name (add_to_endpoint metric incoming no_endpoint) bucket.endpoints;
        },
        0,
      )

  -- `addEndpointPoint`, for the cap on endpoints: the bucket, and how many endpoints it dropped.
  unfoldable pub add_endpoint_point : ℤ → String → String → Aggregate M → Bucket → Bucket × ℕ
  add_endpoint_point top name metric incoming bucket =
      if str_eq metric http_reqs || str_eq metric http_req_duration || str_eq metric http_req_failed
      then charted top name metric incoming bucket (find name bucket.endpoints)
      else (bucket, 0)

  -- The two keys that `mergeBucket` adds to.
  unfoldable pub add_to_both :
      String → String → Kind → Aggregate M → Option (Measures.Hist M) → Bucket → Bucket
  add_to_both metric scenario kind incoming hist bucket =
      let one =
        add_to_bucket (record { metric = metric; scenario = scenario }) kind incoming hist bucket in
      if str_eq scenario ""
      then one
      else add_to_bucket (record { metric = metric; scenario = "" }) kind incoming hist one

  abbrev pub count_status : String → Aggregate M → Option String → Bucket → Bucket
  count_status metric incoming none bucket = bucket
  count_status metric incoming (some status) bucket =
      if str_eq metric http_reqs
      then record bucket {
        status =
            put (status_class status)
              (plus_64 (or_else 0 (find (status_class status) bucket.status)) incoming.count)
              bucket.status;
      }
      else bucket

  abbrev pub chart_name : ℤ → String → Aggregate M → Option String → Bucket → Bucket × ℕ
  chart_name top metric incoming none bucket = (bucket, 0)
  chart_name top metric incoming (some name) bucket =
      if str_eq name "" then (bucket, 0) else add_endpoint_point top name metric incoming bucket

  -- `mergeBucket`
  unfoldable pub merge_bucket :
      ℤ → String → Labels → Kind → Aggregate M → Option (Measures.Hist M) → Bucket → Bucket × ℕ
  merge_bucket top metric labels kind incoming hist bucket =
      chart_name top metric incoming (get_label label_name labels) (
        count_status metric incoming (get_label label_status labels) (
          add_to_both metric (or_else "" (get_label label_scenario labels)) kind incoming hist
            bucket))

  -- What `Ingest` notes of the virtual users of a node: ActiveVUs is a uint32.
  abbrev values : List (String × ℕ) → List ℕ
  values [] = []
  values ((node, n) ∷ m) = n ∷ values m

  unfoldable pub note_vus : String → ℕ → Bucket → Bucket
  note_vus node vus bucket = record bucket {
    vus_by_node = put node vus bucket.vus_by_node;
    active_vus = sum (values (put node vus bucket.vus_by_node)) % 4294967296;
  }
