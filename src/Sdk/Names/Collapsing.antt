-- ===== src/Sdk/Names/Collapsing.antt =====
-- What the segments of a path that look like identifiers leave of it.
use load_wave.Prelude.{
  ◌≡◌, refl, sym, ap, ◌∙◌, true, false, none, List, [], ◌∷◌, ◌++◌, map, arith, ◌||◌,
}
use load_wave.Text.{Text, codes, same_text, split_at, split_all}
use load_wave.Text.Parts.{split_all-append, split_all-whole}
use load_wave.Sdk.Names.{looks_like_identifier, join, masked, derive_request_name}

-- A path with a segment between two slashes.
abbrev pub through : Text → Text → Text → Text
through before segment after = before ++ (47 ∷ (segment ++ (47 ∷ after)))

map-append : (f : Text → Text) (xs ys : List Text) → map f (xs ++ ys) ≡ map f xs ++ map f ys
map-append f [] ys = refl
map-append f (x ∷ xs) ys = ap (◌∷◌ (f x)) (map-append f xs ys)

segments-through :
    (before segment after : Text)
    → split_at 47 segment ≡ none
    → split_all 47 (through before segment after)
      ≡ split_all 47 before ++ (segment ∷ split_all 47 after)
segments-through before segment after h =
    split_all-append 47 before (segment ++ (47 ∷ after))
    ∙ ap (λ x. split_all 47 before ++ x)
        (split_all-append 47 segment after
          ∙ ap (λ x. x ++ split_all 47 after) (split_all-whole 47 segment h))

masked-identifier : (s : Text) → looks_like_identifier s ≡ true → masked s ≡ codes "*"
unfolding masked
masked-identifier s h = rw (h, masked) refl

through-long :
    (before segment after : Text)
    → (same_text (through before segment after) []
        || same_text (through before segment after) (codes "/"))
      ≡ false
through-long [] [] after = ground arith
through-long [] (c ∷ cs) after = ground arith
through-long (c ∷ []) segment after = ground arith
through-long (c ∷ (d ∷ ds)) segment after = ground arith

derive_request_name-through :
    (method before segment after : Text)
    → looks_like_identifier segment ≡ true
    → split_at 47 segment ≡ none
    → derive_request_name method (through before segment after)
      ≡ method
        ++ (32
            ∷ join
                (map masked (split_all 47 before) ++ (codes "*" ∷ map masked (split_all 47 after))))
unfolding derive_request_name
derive_request_name-through method before segment after h k =
    rw (through-long before segment after, derive_request_name)
      (ap (λ x. method ++ (32 ∷ join x))
        (ap (map masked) (segments-through before segment after k)
          ∙ map-append masked (split_all 47 before) (segment ∷ split_all 47 after)
          ∙ ap (λ x. map masked (split_all 47 before) ++ (x ∷ map masked (split_all 47 after)))
              (masked-identifier segment h)))

-- Two paths that differ in a segment that looks like an identifier in both are reported under one name;
-- a segment stands between two slashes and holds none.
pub derive_request_name-collapses :
    (method before after : Text) (a b : Text)
    → looks_like_identifier a ≡ true
    → looks_like_identifier b ≡ true
    → split_at 47 a ≡ none
    → split_at 47 b ≡ none
    → derive_request_name method (through before a after)
      ≡ derive_request_name method (through before b after)
derive_request_name-collapses method before after a b ha hb ka kb =
    derive_request_name-through method before a after ha ka
    ∙ sym (derive_request_name-through method before b after hb kb)
