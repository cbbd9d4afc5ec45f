-- ===== src/Metrics/Store/Closing.antt =====
-- How the store of internal/metrics/store.go files the buckets whose grace period is over, and
-- lists them.
use load_wave.Prelude.{Option, none, some, List, [], ◌∷◌, if◌then◌else◌, ◌==◌, ℤ, ◌-ℤ◌, ltb_ℤ}
use load_wave.Prelude.Assoc.{find, put, erase}
use load_wave.Metrics.Aggregate.{Measures}
use load_wave.Metrics.Bucket.{Bucket, Point, PointKey, point_key_eq}
use load_wave.Metrics.Ring.{push, retained}
use load_wave.Metrics.Store.{index_eq, index_of, Store}

module _ (M : Measures) where
  -- The percentiles that `finalise` takes from the histograms; they stand for what `percentilesOf`
  -- reads of them.
  abbrev with_percentiles :
      PointKey
      → Measures.Hist M
      → List (PointKey × Point M)
      → Option (Point M)
      → List (PointKey × Point M)
  with_percentiles key h points none = points
  with_percentiles key h points (some point) =
      if Measures.hist_count M h == 0
      then points
      else put key (record point { percentiles = some h }) points

  unfoldable pub take_percentiles :
      List (PointKey × Measures.Hist M) → List (PointKey × Point M) → List (PointKey × Point M)
  take_percentiles [] points = points
  take_percentiles ((key, h) ∷ hists) points =
      take_percentiles hists (with_percentiles key h points (find key points))

  unfoldable pub finalised : Bucket M → Bucket M
  finalised b = record b {
    points = take_percentiles b.hists b.points;
    hists = [];
    vus_by_node = [];
  }

  -- `finalise`
  unfoldable pub finalise : Bucket M → Store M → Store M
  finalise b s = record s { ring = push (finalised b) s.ring }

  -- The open buckets before a cutoff, in the order of their indices.
  unfoldable pub place_index : ℤ → List ℤ → List ℤ
  place_index i [] = i ∷ []
  place_index i (j ∷ js) = let rest = place_index i js in if ltb_ℤ i j then i ∷ j ∷ js else j ∷ rest

  unfoldable pub ready_before : ℤ → List (ℤ × Bucket M) → List ℤ
  ready_before cutoff [] = []
  ready_before cutoff ((i, b) ∷ m) =
      let rest = ready_before cutoff m in if ltb_ℤ i cutoff then place_index i rest else rest

  abbrev pub finalise_found : Option (Bucket M) → Store M → Store M
  finalise_found none s = s
  finalise_found (some b) s = finalise b s

  abbrev pub close_one : ℤ → Store M → Store M
  close_one i s =
      let s' = finalise_found (find i s.opened) s in record s' { opened = erase i s.opened }

  unfoldable pub close_all : List ℤ → Store M → Store M
  close_all [] s = s
  close_all (i ∷ is) s = close_all is (close_one i s)

  -- `CloseStale`
  unfoldable pub close_stale : ℤ → Store M → Store M
  close_stale now s =
      close_all (ready_before (index_of s.config.resolution (now -ℤ s.config.late_grace)) s.opened)
        s

  abbrev starting_after : ℤ → List (Bucket M) → List (Bucket M)
  starting_after since [] = []
  starting_after since (b ∷ bs) =
      let rest = starting_after since bs in if ltb_ℤ since b.start then b ∷ rest else rest

  -- `Timeline`
  unfoldable pub timeline : Option ℤ → Store M → List (Bucket M)
  timeline none s = retained s.ring
  timeline (some since) s = starting_after since (retained s.ring)
