-- ===== src/Metrics/Aggregate.antt =====
-- What a node and the coordinator hold of each series, internal/metrics/aggregate.go. Floating point
-- numbers and the HDR histograms of the run's configuration are parameters.
pub mod Series
pub mod Counts
pub mod Tests
use Prim.Native.String.{String}
use text.Mathlib.Text.{◌==◌ as str_eq}
use text.Mathlib.TextEquality.{eq_iff}
use load_wave.Prelude.{
  ℕ, suc, ◌+◌, ◌%◌, ◌↔◌, ◌≡◌, Bool, true, false, ◌&&◌, ◌||◌, Option, none, some, List, [], ◌∷◌, map,
  if◌then◌else◌, ◌==◌, ==_iff, arith, word,
}
use load_wave.Prelude.Assoc.{Eq, find, put}
use load_wave.Labels.{Labels, equal_labels}

pub record Measures : Type 1 where
  pub Float : Type 0
  pub Hist : Type 0
  pub zero_float : Float
  pub plus_inf : Float
  pub minus_inf : Float
  pub plus : Float → Float → Float
  pub lt_float : Float → Float → Bool
  pub is_zero : Float → Bool
  pub is_plus_inf : Float → Bool
  pub is_minus_inf : Float → Bool
  pub new_hist : Hist
  -- `h.RecordValue(cfg.ScaleValue(v))`
  pub record_value : Float → Hist → Hist
  pub merge_hist : Hist → Hist → Hist
  pub reset_hist : Hist → Hist
  pub hist_count : Hist → ℕ
  -- `EncodeHistogram` and `DecodeHistogram`, whose error is `none`
  pub Snapshot : Type 0
  pub encode : Hist → Snapshot
  pub decode : Snapshot → Option Hist

-- `MetricKind`
pub data Kind : Type 0 where
  counter gauge rate trend : Kind

abbrev pub is_trend : Kind → Bool
is_trend trend = true
is_trend _ = false

abbrev pub is_gauge : Kind → Bool
is_gauge gauge = true
is_gauge _ = false

-- `seriesKey`
pub record SeriesKey : Type 0 where
  pub metric : String
  pub hash : ℕ

abbrev pub key_beq : SeriesKey → SeriesKey → Bool
key_beq a b = str_eq a.metric b.metric && a.hash == b.hash

pub key_beq_iff : (a b : SeriesKey) → (key_beq a b ≡ true) ↔ (a ≡ b)
key_beq_iff a b = ground (arith, eq_iff a.metric b.metric)

instance abbrev pub series_key_eq : Eq SeriesKey
series_key_eq = record { beq = key_beq; beq_iff = key_beq_iff }

abbrev pub key_of : String → Labels → SeriesKey
key_of metric labels = record { metric = metric; hash = labels.hash }

module _ (M : Measures) where
  pub record Aggregate : Type 0 where
    pub metric : String
    pub labels : Labels
    pub kind : Kind
    pub count : ℕ
    pub total : Measures.Float M
    pub min_val : Measures.Float M
    pub max_val : Measures.Float M
    pub non_zero : ℕ
    pub last : Measures.Float M
    pub hist : Option (Measures.Hist M)

  unfoldable pub new_aggregate : String → Labels → Kind → Aggregate
  new_aggregate metric labels kind = record {
    metric = metric;
    labels = labels;
    kind = kind;
    count = 0;
    total = Measures.zero_float M;
    min_val = Measures.plus_inf M;
    max_val = Measures.minus_inf M;
    non_zero = 0;
    last = Measures.zero_float M;
    hist = if is_trend kind then some (Measures.new_hist M) else none;
  }

  abbrev pub lesser : Measures.Float M → Measures.Float M → Measures.Float M
  lesser v w = if Measures.lt_float M v w then v else w

  abbrev pub greater : Measures.Float M → Measures.Float M → Measures.Float M
  greater v w = if Measures.lt_float M w v then v else w

  abbrev on_hist :
      (Measures.Hist M → Measures.Hist M) → Option (Measures.Hist M) → Option (Measures.Hist M)
  on_hist f none = none
  on_hist f (some h) = some (f h)

  abbrev summed : Measures.Float M → Aggregate → Aggregate
  summed value a = record a {
    total = Measures.plus M a.total value;
    min_val = lesser value a.min_val;
    max_val = greater value a.max_val;
    hist = on_hist (Measures.record_value M value) a.hist;
  }

  abbrev observe_as : Kind → Measures.Float M → Bool → Aggregate → Aggregate
  observe_as gauge value truthy a = record a { last = value }
  observe_as rate value truthy a =
      if truthy then record a { non_zero = (a.non_zero + 1) % word } else a
  observe_as counter value truthy a = summed value a
  observe_as trend value truthy a = summed value a

  -- `aggregate.observe`
  unfoldable pub observe : Measures.Float M → Bool → Aggregate → Aggregate
  observe value truthy a =
      observe_as a.kind value truthy (record a { count = (a.count + 1) % word })

  abbrev merge_hists :
      Option (Measures.Hist M) → Option (Measures.Hist M) → Option (Measures.Hist M)
  merge_hists (some h) (some g) = some (Measures.merge_hist M h g)
  merge_hists (some h) none = some h
  merge_hists none g = none

  -- `a.mergeFrom(other)`
  unfoldable pub merge_from : Aggregate → Aggregate → Aggregate
  merge_from other a = if other.count == 0 then a else record a {
    count = (a.count + other.count) % word;
    total = Measures.plus M a.total other.total;
    non_zero = (a.non_zero + other.non_zero) % word;
    min_val = lesser other.min_val a.min_val;
    max_val = greater other.max_val a.max_val;
    last = if is_gauge a.kind then Measures.plus M a.last other.last else a.last;
    hist = merge_hists a.hist other.hist;
  }

  -- `aggregate.reset`
  unfoldable pub reset : Aggregate → Aggregate
  reset a = record a {
    count = 0;
    total = Measures.zero_float M;
    non_zero = 0;
    last = Measures.zero_float M;
    min_val = Measures.plus_inf M;
    max_val = Measures.minus_inf M;
    hist = on_hist (Measures.reset_hist M) a.hist;
  }

  -- `aggregate.min` and `aggregate.max`
  unfoldable pub min_of : Aggregate → Measures.Float M
  min_of a =
      if (a.count == 0) || Measures.is_plus_inf M a.min_val
      then Measures.zero_float M
      else a.min_val

  unfoldable pub max_of : Aggregate → Measures.Float M
  max_of a =
      if (a.count == 0) || Measures.is_minus_inf M a.max_val
      then Measures.zero_float M
      else a.max_val

  -- `aggMap`: a chain holds the series whose keys collided.
  pub record AggMap : Type 0 where
    pub entries : List (SeriesKey × List Aggregate)
    pub size : ℕ

  abbrev pub no_series : AggMap
  no_series = record { entries = []; size = 0 }

  abbrev pub in_chain : Labels → List Aggregate → Option Aggregate
  in_chain labels [] = none
  in_chain labels (a ∷ chain) =
      if equal_labels a.labels labels then some a else in_chain labels chain

  abbrev pub chain_at : SeriesKey → AggMap → List Aggregate
  chain_at key m = elim (find key m.entries) [ none ↦ [] | some chain ↦ chain ]

  -- `aggMap.find`
  unfoldable pub find_series : String → Labels → AggMap → Option Aggregate
  find_series metric labels m = in_chain labels (chain_at (key_of metric labels) m)

  abbrev created : String → Labels → Kind → AggMap → Option Aggregate → AggMap
  created metric labels kind m (some a) = m
  created metric labels kind m none = record {
    entries =
        put (key_of metric labels)
          (new_aggregate metric labels kind ∷ chain_at (key_of metric labels) m) m.entries;
    size = m.size + 1;
  }

  -- What `aggMap.getOrCreate` leaves of the map. The series that it returns is then in it.
  unfoldable pub ensure_series : String → Labels → Kind → AggMap → AggMap
  ensure_series metric labels kind m = created metric labels kind m (find_series metric labels m)

  abbrev pub change_in_chain : Labels → (Aggregate → Aggregate) → List Aggregate → List Aggregate
  change_in_chain labels f [] = []
  change_in_chain labels f (a ∷ chain) =
      let rest = change_in_chain labels f chain in
      if equal_labels a.labels labels then f a ∷ chain else a ∷ rest

  -- The assignments through the pointer that `find` or `getOrCreate` returned.
  unfoldable pub change_series : String → Labels → (Aggregate → Aggregate) → AggMap → AggMap
  change_series metric labels f m = record m {
    entries =
        put (key_of metric labels) (change_in_chain labels f (chain_at (key_of metric labels) m))
          m.entries;
  }

  abbrev pub map_chain : (Aggregate → Aggregate) → List Aggregate → List Aggregate
  map_chain f [] = []
  map_chain f (a ∷ chain) = f a ∷ map_chain f chain

  abbrev pub map_entries :
      (Aggregate → Aggregate)
      → List (SeriesKey × List Aggregate)
      → List (SeriesKey × List Aggregate)
  map_entries f [] = []
  map_entries f ((k, chain) ∷ es) = (k, map_chain f chain) ∷ map_entries f es

  -- `aggMap.resetAll`
  unfoldable pub reset_all : AggMap → AggMap
  reset_all m = record m { entries = map_entries reset m.entries }
