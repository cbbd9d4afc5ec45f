-- ===== src/Labels.antt =====
-- Metric tags, pkg/loadwave/labels.go. A flattened list of keys and values is a list of pairs where the
-- code has checked that its length is even; `none` is a panic. The hash, `hash/maphash` with a seed of
-- the process, is a parameter.
mod Lookup
mod Tests
use Prim.Native.String.{String, compare}
use text.Mathlib.Text.{◌==◌ as str_eq, is_lt}
use load_wave.Prelude.{
  ℕ, ◌+◌, Bool, true, false, ◌&&◌, Option, none, some, List, [], ◌∷◌, ◌++◌, length, if◌then◌else◌,
  ◌==◌,
}
use load_wave.Prelude.Assoc.{string_eq, find, put}

abbrev pub Pairs : Type 0
Pairs = List (String × String)

pub record Labels : Type 0 where
  pub pairs : Pairs
  pub hash : ℕ

-- The zero `Labels`.
abbrev pub no_labels : Labels
no_labels = record { pairs = []; hash = 0 }

-- The arguments of `NewLabels` and `With` as pairs; `none` is an odd number of them.
unfoldable pub pair_up : List String → Option Pairs
pair_up [] = some []
pair_up (k ∷ []) = none
pair_up (k ∷ v ∷ kvs) = elim (pair_up kvs) [ none ↦ none | some ps ↦ some ((k, v) ∷ ps) ]

-- `replacePair`: the pairs with the value of a key replaced, or `none` if it is not there.
unfoldable pub replace_pair : String → String → Pairs → Option Pairs
replace_pair k v [] = none
replace_pair k v ((j, w) ∷ ps) =
    let rest = replace_pair k v ps in
    if str_eq j k
    then some ((j, v) ∷ ps)
    else elim rest [ none ↦ none | some qs ↦ some ((j, w) ∷ qs) ]

abbrev merge_pair : String → String → Pairs → Option Pairs → Pairs
merge_pair k v merged (some replaced) = replaced
merge_pair k v merged none = merged ++ (k, v) ∷ []

-- The loop of `buildLabels`.
unfoldable pub merge_pairs : Pairs → Pairs → Pairs
merge_pairs merged [] = merged
merge_pairs merged ((k, v) ∷ extra) =
    merge_pairs (merge_pair k v merged (replace_pair k v merged)) extra

abbrev pub after : String → String → Bool
after j k = is_lt (compare k j)

-- The inner loop of `sortPairs`, from the pair before the one that is moved down: the pairs before it
-- are in reverse.
unfoldable pub move_down : String × String → Pairs → Pairs
move_down (k, v) [] = (k, v) ∷ []
move_down (k, v) ((j, w) ∷ before) =
    let rest = move_down (k, v) before in
    if after j k then (j, w) ∷ rest else (k, v) ∷ (j, w) ∷ before

-- The outer loop: the sorted pairs in reverse, and those that follow.
unfoldable pub sort_onto : Pairs → Pairs → Pairs
sort_onto sorted [] = sorted
sort_onto sorted (p ∷ ps) = sort_onto (move_down p sorted) ps

unfoldable pub reverse_onto : Pairs → Pairs → Pairs
reverse_onto [] out = out
reverse_onto (p ∷ ps) out = reverse_onto ps (p ∷ out)

unfoldable pub sort_pairs : Pairs → Pairs
sort_pairs ps = reverse_onto (sort_onto [] ps) []

module _ (hash_of : Pairs → ℕ) where
  unfoldable pub build_labels : Pairs → Pairs → Labels
  build_labels base extra =
      let merged = sort_pairs (merge_pairs base extra) in
      record { pairs = merged; hash = hash_of merged }

  -- `NewLabels`
  unfoldable pub new_labels : List String → Option Labels
  new_labels kv = elim (pair_up kv) [
    | none ↦ none
    | some [] ↦ some no_labels
    | some (p ∷ ps) ↦ some (build_labels [] (p ∷ ps))
  ]

  -- `Labels.With`
  unfoldable pub with_labels : List String → Labels → Option Labels
  with_labels kv l = elim (pair_up kv) [
    | none ↦ none
    | some [] ↦ some l
    | some (p ∷ ps) ↦ some (build_labels l.pairs (p ∷ ps))
  ]

  -- `LabelsFromMap`, for the pairs of the map in the order in which Go visits them.
  unfoldable pub labels_from_map : Pairs → Labels
  labels_from_map [] = no_labels
  labels_from_map (p ∷ ps) = build_labels [] (p ∷ ps)

-- `Labels.Get`; its second result is whether there is a value.
unfoldable pub get_label : String → Labels → Option String
get_label key l = find key l.pairs

abbrev pub same_pairs : Pairs → Pairs → Bool
same_pairs [] [] = true
same_pairs [] (q ∷ qs) = false
same_pairs (p ∷ ps) [] = false
same_pairs ((j, v) ∷ ps) ((k, w) ∷ qs) = str_eq j k && (str_eq v w && same_pairs ps qs)

-- `Labels.Equal`
unfoldable pub equal_labels : Labels → Labels → Bool
equal_labels a b = (a.hash == b.hash) && same_pairs a.pairs b.pairs

-- `Labels.Map`
unfoldable pub map_of_pairs : Pairs → Pairs → Pairs
map_of_pairs m [] = m
map_of_pairs m ((k, v) ∷ ps) = map_of_pairs (put k v m) ps
