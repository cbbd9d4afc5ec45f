-- ===== src/Labels/Tests.antt =====
-- Labels and instances for pkg/loadwave/labels.go.
use Prim.Native.String.{String}
use load_wave.Prelude.{ℕ, ◌≡◌, refl, true, none, some, List, [], ◌∷◌, length}
use load_wave.Labels.{
  Pairs, Labels, pair_up, merge_pairs, replace_pair, sort_pairs, sort_onto, move_down, reverse_onto,
  build_labels, new_labels, with_labels, get_label,
}
use load_wave.Labels.Lookup.{are_distinct, with_labels_lem}

abbrev hash_of : Pairs → ℕ
hash_of ps = length ps

abbrev base : Labels
base = record { pairs = ("method", "GET") ∷ ("name", "/") ∷ []; hash = 2 }

abbrev kv : List String
kv = "status" ∷ "200" ∷ "name" ∷ "/a" ∷ "name" ∷ "/b" ∷ []

kv_pairs : pair_up kv ≡ some (("status", "200") ∷ ("name", "/a") ∷ ("name", "/b") ∷ [])
unfolding pair_up
kv_pairs = refl

with_runs :
    with_labels hash_of kv base
    ≡ some record { pairs = ("method", "GET") ∷ ("name", "/b") ∷ ("status", "200") ∷ []; hash = 3 }
unfolding with_labels pair_up build_labels merge_pairs replace_pair sort_pairs sort_onto move_down
    reverse_onto
with_runs = refl

odd_panics : new_labels hash_of ("name" ∷ []) ≡ none
unfolding new_labels pair_up
odd_panics = refl

with_labels_lem_example :
    (m : Labels) × (with_labels hash_of kv base ≡ some m)
    × (are_distinct m.pairs ≡ true)
    × (get_label "name" m ≡ some "/b")
unfolding get_label
with_labels_lem_example =
    with_labels_lem hash_of kv (("status", "200") ∷ ("name", "/a") ∷ ("name", "/b") ∷ []) base
      "name" refl kv_pairs
