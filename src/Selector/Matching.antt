-- ===== src/Selector/Matching.antt =====
-- What the filter says of a resource.
use chutes_miner.Prelude.{
  All, Bool, Bool-cases, List, Option-cases, [], any, ap, arith, false, inl, inr, map, none, not,
  refl, some, true, ℕ, ◌∷◌, ◌≡◌,
}
use chutes_miner.Selector.{
  Labelled, Text, get_label, is_empty, is_value, match_labels, matches_filters, matches_label,
  written,
}
use chutes_miner.Selector.RoundTrip.{are_new, entry, is_plain, parse-selector_of, selector_of}

-- Whether a resource has a label with this value.
abbrev pub has_label : List (Text × Text) → Text × Text → Bool
has_label labels (k, v) = is_value v (get_label k labels)

-- Some pair is not a label of the resource.
abbrev pub lacks_some : List (Text × Text) → List (Text × Text) → Bool
lacks_some labels ps = any (λ p. not (has_label labels p)) ps

matches-has :
    (labels : List (Text × Text)) (p : Text × Text)
    → is_empty p.1 ≡ false
    → matches_label labels (entry p) ≡ has_label labels p
unfolding matches_label
matches-has labels (k, v) filled = elim (Option-cases (get_label k labels)) [
  | inl absent ↦ rw (filled, absent, matches_label) refl
  | inr (w, found) ↦ rw (filled, found, matches_label) (ground arith)
]

match_all :
    (labels : List (Text × Text)) (ps : List (Text × Text))
    → All (λ p. is_empty p.1 ≡ false) ps
    → match_labels labels (map entry ps) ≡ not (lacks_some labels ps)
unfolding match_labels
match_all labels [] h = refl
match_all labels (p ∷ ps) h = ground (arith, matches-has labels p h.0, match_all labels ps h.1)

module _ (is_space : ℕ → Bool) where
  -- With a label selector alone that is written from keys and values, the filter passes a resource
  -- exactly when no pair is missing among its labels. (No key occurs twice, keys have no comma, "="
  -- or space, values have no comma or space and are not empty.)
  pub matches_filters-has_labels :
      (r : Labelled) (ps : List (Text × Text))
      → All (λ p. is_plain is_space p ≡ true) ps
      → All (λ p. is_empty p.1 ≡ false) ps
      → are_new [] ps ≡ true
      → matches_filters is_space r none (some (written (selector_of ps))) none
        ≡ not (lacks_some r.labels ps)
  unfolding matches_filters
  matches_filters-has_labels r ps plain filled new =
      let parsed = parse-selector_of is_space ps plain new in
      let all = match_all r.labels ps filled in
      elim (Bool-cases (lacks_some r.labels ps)) [
        | inl missing ↦ ground (arith, ap (match_labels r.labels) parsed, all, missing)
        | inr there ↦ ground (arith, ap (match_labels r.labels) parsed, all, there)
      ]
