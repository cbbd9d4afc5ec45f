-- ===== src/Metrics/Store/Late.antt =====
-- What `CloseStale` and `bucketFor` of internal/metrics/store.go do to late buckets.
use load_wave.Prelude.{
  ◌≡◌, refl, ◌∙◌, ap, Bool, true, false, Option, Option-cases, none, some, inl, inr, List, [], ◌∷◌,
  ◌++◌, if◌then◌else◌, ℤ, ◌-ℤ◌, ltb_ℤ, eqb_ℤ, eqb_ℤ_iff, keep_last, arith,
}
use load_wave.Prelude.Assoc.{find, erase, find-erase}
use load_wave.Metrics.Aggregate.{Measures}
use load_wave.Metrics.Bucket.{Bucket, new_bucket}
use load_wave.Metrics.Ring.{retained}
use load_wave.Metrics.Ring.Refine.{IsRing, push_all, push_all-retained}
use load_wave.Metrics.Store.{index_eq, index_of, Store, later, bucket_for}
use load_wave.Metrics.Store.Closing.{
  finalised, finalise, place_index, ready_before, close_one, close_all, close_stale, timeline,
}

is_in : ℤ → List ℤ → Bool
is_in i [] = false
is_in i (j ∷ js) = if eqb_ℤ j i then true else is_in i js

module _ (M : Measures) where
  -- The buckets that are filed, one for each index in turn that is still open.
  abbrev with_filed : Option (Bucket M) → List (Bucket M) → List (Bucket M)
  with_filed none bs = bs
  with_filed (some b) bs = finalised M b ∷ bs

  abbrev pub filed_of : List ℤ → List (ℤ × Bucket M) → List (Bucket M)
  filed_of [] m = []
  filed_of (i ∷ is) m = with_filed (find i m) (filed_of is (erase i m))

  close_all-ring :
      (is : List ℤ) (s : Store M) → (close_all M is s).ring ≡ push_all (filed_of is s.opened) s.ring
  unfolding close_all finalise
  close_all-ring [] s = refl
  close_all-ring (i ∷ is) s = elim (Option-cases (find i s.opened)) [
    | inl n ↦ close_all-ring is (close_one M i s) ∙ rw n
    | inr (b, e) ↦ close_all-ring is (close_one M i s) ∙ rw e
  ]

  close_all-opened :
      (j : ℤ) (is : List ℤ) (s : Store M)
      → find j (close_all M is s).opened ≡ (if is_in j is then none else find j s.opened)
  unfolding close_all finalise is_in
  close_all-opened j [] s = refl
  close_all-opened j (i ∷ is) s =
      ground
        (arith, close_all-opened j is (close_one M i s), find-erase i j s.opened, eqb_ℤ_iff i j)

  is_in-place :
      (j i : ℤ) (is : List ℤ)
      → is_in j (place_index M i is) ≡ (if eqb_ℤ i j then true else is_in j is)
  unfolding is_in place_index
  is_in-place j i [] = refl
  is_in-place j i (k ∷ is) = ground (arith, is_in-place j i is)

  abbrev is_open : Option (Bucket M) → Bool
  is_open none = false
  is_open (some b) = true

  is_in-ready :
      (j cutoff : ℤ) (m : List (ℤ × Bucket M))
      → is_in j (ready_before M cutoff m) ≡ (if ltb_ℤ j cutoff then is_open (find j m) else false)
  unfolding is_in ready_before
  is_in-ready j cutoff [] = ground arith
  is_in-ready j cutoff ((i, b) ∷ m) =
      ground
        (arith, eqb_ℤ_iff i j, is_in-place j i (ready_before M cutoff m), is_in-ready j cutoff m)

  close_all-rest :
      (is : List ℤ) (s : Store M)
      → ((close_all M is s).config ≡ s.config) × ((close_all M is s).last_seen ≡ s.last_seen)
  unfolding close_all finalise
  close_all-rest [] s = (refl, refl)
  close_all-rest (i ∷ is) s = ground (arith, close_all-rest is (close_one M i s))

  abbrev pub cutoff_at : ℤ → Store M → ℤ
  cutoff_at now s = index_of s.config.resolution (now -ℤ s.config.late_grace)

  -- In a store whose ring is as `NewStore` makes it and `finalise` keeps it, with the fields in range,
  -- `CloseStale` files the open buckets before the cutoff, in turn, with their percentiles: the
  -- timeline is then that of before and these buckets, the last ones as many as the ring's capacity.
  -- The buckets before the cutoff are no longer open, and the others are as they were.
  pub close_stale_lem :
      (now : ℤ) (s : Store M)
      → IsRing s.ring
      → (timeline M none (close_stale M now s)
          ≡ keep_last s.ring.capacity
              (timeline M none s ++ filed_of (ready_before M (cutoff_at now s) s.opened) s.opened))
        × ((j : ℤ)
            → find j (close_stale M now s).opened
              ≡ (if ltb_ℤ j (cutoff_at now s) then none else find j s.opened))
  unfolding close_stale timeline
  close_stale_lem now s ring =
      let is = ready_before M (cutoff_at now s) s.opened in
      (
        ap retained (close_all-ring is s) ∙ push_all-retained (filed_of is s.opened) s.ring ring,
        λ j. elim (Option-cases (find j s.opened)) [
          | inl n ↦
              ground (arith, n, close_all-opened j is s, is_in-ready j (cutoff_at now s) s.opened)
          | inr (b, e) ↦
              ground (arith, e, close_all-opened j is s, is_in-ready j (cutoff_at now s) s.opened)
        ],
      )

  -- `CloseStale` goes by the coordinator's clock and `bucketFor` by the latest start that nodes have
  -- reported, the batch's own included: after `CloseStale` has filed every bucket whose grace period
  -- is over by the first, a batch for such a bucket gets a new empty one if it is not over by the
  -- second.
  pub bucket_for_reopens :
      (truncate : ℤ → ℤ → ℤ) (now start : ℤ) (s : Store M)
      → ltb_ℤ (index_of s.config.resolution start) (cutoff_at now s) ≡ true
      → ltb_ℤ (index_of s.config.resolution start) (cutoff_at (later start s.last_seen) s) ≡ false
      → bucket_for M truncate (index_of s.config.resolution start) start (close_stale M now s)
        ≡ some (new_bucket M (truncate start s.config.resolution))
  unfolding bucket_for close_stale
  bucket_for_reopens truncate now start s over early =
      let is = ready_before M (cutoff_at now s) s.opened in
      let (same_config, same_last) = close_all-rest is s in
      let gone = close_all-opened (index_of s.config.resolution start) is s in
      ground (
        arith,
        over,
        early,
        same_config,
        same_last,
        gone,
        is_in-ready (index_of s.config.resolution start) (cutoff_at now s) s.opened,
      )
