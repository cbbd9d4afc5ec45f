-- ===== src/Labels/Lookup.antt =====
-- What a set of labels of pkg/loadwave/labels.go holds.
use Prim.Native.String.{String}
use text.Mathlib.Text.{◌==◌ as str_eq}
use text.Mathlib.TextEquality.{eq_iff}
use load_wave.Prelude.{
  ℕ, ◌≡◌, refl, ◌∙◌, Bool, true, false, not, ◌&&◌, Option, Option-cases, none, some, inl, inr, List,
  [], ◌∷◌, ◌++◌, if◌then◌else◌, arith,
}
use load_wave.Prelude.Assoc.{string_eq, find}
use load_wave.Labels.{
  Pairs, Labels, no_labels, pair_up, replace_pair, merge_pairs, move_down, sort_onto, reverse_onto,
  sort_pairs, build_labels, new_labels, with_labels, get_label,
}

-- The last value that a list of arguments gives to a key, or else the given one.
abbrev pub last_value : String → Pairs → Option String → Option String
last_value k [] before = before
last_value k ((j, v) ∷ ps) before = last_value k ps (if str_eq j k then some v else before)

abbrev has : String → Pairs → Bool
has k [] = false
has k ((j, w) ∷ ps) = if str_eq j k then true else has k ps

-- No key stands twice.
abbrev pub are_distinct : Pairs → Bool
are_distinct [] = true
are_distinct ((k, v) ∷ ps) = not (has k ps) && are_distinct ps

find-has : (k : String) (ps : Pairs) → has k ps ≡ false → find k ps ≡ none
find-has k [] h = refl
find-has k ((j, w) ∷ ps) h = ground (arith, h, find-has k ps)

has-replace : (k v j : String) (ps qs : Pairs) → replace_pair k v ps ≡ some qs → has j qs ≡ has j ps
unfolding replace_pair
has-replace k v j [] qs h = ground (arith, h)
has-replace k v j ((i, w) ∷ ps) qs h = elim (Option-cases (replace_pair k v ps)) [
  | inl n ↦ ground (arith, h, n)
  | inr (rs, e) ↦ ground (arith, h, e, has-replace k v j ps rs e)
]

find-replace :
    (k v j : String) (ps qs : Pairs)
    → replace_pair k v ps ≡ some qs
    → find j qs ≡ (if str_eq k j then some v else find j ps)
unfolding replace_pair
find-replace k v j [] qs h = ground (arith, h)
find-replace k v j ((i, w) ∷ ps) qs h = elim (Option-cases (replace_pair k v ps)) [
  | inl n ↦ ground (arith, h, n, eq_iff k j, eq_iff i k, eq_iff i j)
  | inr (rs, e) ↦
      ground (arith, h, e, eq_iff k j, eq_iff i k, eq_iff i j, find-replace k v j ps rs e)
]

not_replaced : (k v : String) (ps : Pairs) → replace_pair k v ps ≡ none → has k ps ≡ false
unfolding replace_pair
not_replaced k v [] h = refl
not_replaced k v ((i, w) ∷ ps) h = elim (Option-cases (replace_pair k v ps)) [
  | inl n ↦ ground (arith, h, n, not_replaced k v ps n)
  | inr (rs, e) ↦ ground (arith, h, e)
]

find-append :
    (k j v : String) (ps : Pairs)
    → has k ps ≡ false
    → find j (ps ++ (k, v) ∷ []) ≡ (if str_eq k j then some v else find j ps)
find-append k j v [] h = refl
find-append k j v ((i, w) ∷ ps) h =
    ground (arith, h, eq_iff k j, eq_iff i k, eq_iff i j, find-append k j v ps)

has-append :
    (k j v : String) (ps : Pairs)
    → has j (ps ++ (k, v) ∷ []) ≡ (if str_eq k j then true else has j ps)
has-append k j v [] = refl
has-append k j v ((i, w) ∷ ps) = ground (arith, has-append k j v ps)

distinct-replace :
    (k v : String) (ps qs : Pairs)
    → replace_pair k v ps ≡ some qs
    → are_distinct qs ≡ are_distinct ps
unfolding replace_pair
distinct-replace k v [] qs h = ground (arith, h)
distinct-replace k v ((i, w) ∷ ps) qs h = elim (Option-cases (replace_pair k v ps)) [
  | inl n ↦ ground (arith, h, n)
  | inr (rs, e) ↦ ground (arith, h, e, distinct-replace k v ps rs e, has-replace k v i ps rs e)
]

distinct-append :
    (k v : String) (ps : Pairs)
    → has k ps ≡ false
    → are_distinct (ps ++ (k, v) ∷ []) ≡ are_distinct ps
distinct-append k v [] h = refl
distinct-append k v ((i, w) ∷ ps) h =
    ground (arith, h, eq_iff k i, eq_iff i k, has-append k i v ps, distinct-append k v ps)

merge-lookup :
    (ps extra : Pairs) (j : String)
    → are_distinct ps ≡ true
    → (are_distinct (merge_pairs ps extra) ≡ true)
      × (find j (merge_pairs ps extra) ≡ last_value j extra (find j ps))
unfolding merge_pairs
merge-lookup ps [] j d = (d, refl)
merge-lookup ps ((k, v) ∷ extra) j d = elim (Option-cases (replace_pair k v ps)) [
  | inl n ↦
      let fresh = not_replaced k v ps n in
      ground (
        arith,
        n,
        find-append k j v ps fresh,
        distinct-append k v ps fresh,
        merge-lookup (ps ++ (k, v) ∷ []) extra j,
      )
  | inr (qs, e) ↦
      ground (
        arith,
        e,
        find-replace k v j ps qs e,
        distinct-replace k v ps qs e,
        merge-lookup qs extra j,
      )
]

has-move :
    (k v j : String) (ps : Pairs)
    → has j (move_down (k, v) ps) ≡ (if str_eq k j then true else has j ps)
unfolding move_down
has-move k v j [] = refl
has-move k v j ((i, w) ∷ ps) = ground (arith, has-move k v j ps)

find-move :
    (k v j : String) (ps : Pairs)
    → has k ps ≡ false
    → find j (move_down (k, v) ps) ≡ (if str_eq k j then some v else find j ps)
unfolding move_down
find-move k v j [] h = refl
find-move k v j ((i, w) ∷ ps) h =
    ground (arith, h, eq_iff k j, eq_iff i k, eq_iff i j, find-move k v j ps)

distinct-move :
    (k v : String) (ps : Pairs)
    → has k ps ≡ false
    → are_distinct (move_down (k, v) ps) ≡ are_distinct ps
unfolding move_down
distinct-move k v [] h = refl
distinct-move k v ((i, w) ∷ ps) h =
    ground (arith, h, eq_iff k i, eq_iff i k, has-move k v i ps, distinct-move k v ps)

-- No key of the second list stands in the first.
abbrev apart : Pairs → Pairs → Bool
apart sorted [] = true
apart sorted ((k, v) ∷ ps) = not (has k sorted) && apart sorted ps

apart-move :
    (k v : String) (sorted ps : Pairs)
    → has k ps ≡ false
    → apart sorted ps ≡ true
    → apart (move_down (k, v) sorted) ps ≡ true
apart-move k v sorted [] h a = refl
apart-move k v sorted ((i, w) ∷ ps) h a =
    ground (arith, h, a, eq_iff k i, eq_iff i k, has-move k v i sorted, apart-move k v sorted ps)

abbrev or_else : Option String → Option String → Option String
or_else none o = o
or_else (some v) o = some v

sort_onto-lookup :
    (sorted ps : Pairs) (j : String)
    → are_distinct sorted ≡ true
    → are_distinct ps ≡ true
    → apart sorted ps ≡ true
    → (are_distinct (sort_onto sorted ps) ≡ true)
      × (find j (sort_onto sorted ps) ≡ or_else (find j ps) (find j sorted))
unfolding sort_onto
sort_onto-lookup sorted [] j d e a = (d, refl)
sort_onto-lookup sorted ((k, v) ∷ ps) j d e a = ground (
  arith,
  d,
  e,
  a,
  eq_iff k j,
  find-has k ps,
  find-move k v j sorted,
  distinct-move k v sorted,
  apart-move k v sorted ps,
  sort_onto-lookup (move_down (k, v) sorted) ps j,
)

reverse-lookup :
    (ps out : Pairs) (j : String)
    → are_distinct ps ≡ true
    → find j (reverse_onto ps out) ≡ or_else (find j ps) (find j out)
unfolding reverse_onto
reverse-lookup [] out j d = refl
reverse-lookup ((k, v) ∷ ps) out j d =
    ground (arith, d, eq_iff k j, find-has k ps, reverse-lookup ps ((k, v) ∷ out) j)

apart-nil : (ps : Pairs) → apart [] ps ≡ true
apart-nil [] = refl
apart-nil ((k, v) ∷ ps) = apart-nil ps

apart-cons :
    (k v : String) (out ps : Pairs)
    → has k ps ≡ false
    → apart out ps ≡ true
    → apart ((k, v) ∷ out) ps ≡ true
apart-cons k v out [] h a = refl
apart-cons k v out ((i, w) ∷ ps) h a =
    ground (arith, h, a, eq_iff k i, eq_iff i k, apart-cons k v out ps)

reverse-distinct :
    (ps out : Pairs)
    → are_distinct ps ≡ true
    → are_distinct out ≡ true
    → apart out ps ≡ true
    → are_distinct (reverse_onto ps out) ≡ true
unfolding reverse_onto
reverse-distinct [] out d e a = e
reverse-distinct ((k, v) ∷ ps) out d e a =
    ground (arith, d, e, a, apart-cons k v out ps, reverse-distinct ps ((k, v) ∷ out))

sort_pairs-lookup :
    (ps : Pairs) (j : String)
    → are_distinct ps ≡ true
    → (are_distinct (sort_pairs ps) ≡ true) × (find j (sort_pairs ps) ≡ find j ps)
unfolding sort_pairs
sort_pairs-lookup ps j d =
    let (sorted, same) = sort_onto-lookup [] ps j refl d (apart-nil ps) in
    let onto = sort_onto [] ps in
    (
      reverse-distinct onto [] sorted refl (apart-nil onto),
      ground (arith, reverse-lookup onto [] j sorted, same),
    )

-- Adding an even number of arguments to a set of labels whose keys are distinct gives one whose keys
-- are distinct, in which each key has the last value that the arguments give to it, or else the value
-- that it had.
pub with_labels_lem :
    (hash_of : Pairs → ℕ) (kv : List String) (ps : Pairs) (l : Labels) (j : String)
    → are_distinct l.pairs ≡ true
    → pair_up kv ≡ some ps
    → (m : Labels) × (with_labels hash_of kv l ≡ some m)
      × (are_distinct m.pairs ≡ true)
      × (get_label j m ≡ last_value j ps (get_label j l))
unfolding with_labels build_labels get_label
with_labels_lem hash_of kv [] l j d e = (l, ground (arith, e), d, refl)
with_labels_lem hash_of kv ((k, v) ∷ ps) l j d e =
    let (merged, found) = merge-lookup l.pairs ((k, v) ∷ ps) j d in
    let (sorted, same) = sort_pairs-lookup (merge_pairs l.pairs ((k, v) ∷ ps)) j merged in
    (build_labels hash_of l.pairs ((k, v) ∷ ps), ground (arith, e), sorted, same ∙ found)

pub new_labels-with :
    (hash_of : Pairs → ℕ) (kv : List String)
    → new_labels hash_of kv ≡ with_labels hash_of kv no_labels
unfolding new_labels with_labels
new_labels-with hash_of kv = refl
