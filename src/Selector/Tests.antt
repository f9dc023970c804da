-- ===== src/Selector/Tests.antt =====
-- Selectors on a resource, and the theorems at inputs that meet them.
use chutes_miner.Prelude.{
  Bool, List, [], false, map, none, not, refl, some, true, ℕ, ◌++◌, ◌==◌, ◌∷◌, ◌≡◌,
}
use chutes_miner.Selector.{
  Labelled, Text, comma, enter_field, enter_fields, enter_label, enter_labels, equals_sign,
  get_pods, match_fields, match_labels, matches_filters, matches_label, parse_field_selector,
  parse_label_selector, put, split, split_once, strip_end, strip_start, written,
}
use chutes_miner.Selector.RoundTrip.{are_new, entry, joined, parse-selector_of, selector_of, term}
use chutes_miner.Selector.Matching.{lacks_some, matches_filters-has_labels}

abbrev is_blank : ℕ → Bool
is_blank c = c == 32

-- `app=x` and `gpu=1`
abbrev app : Text
app = 97 ∷ 112 ∷ 112 ∷ []

abbrev gpu : Text
gpu = 103 ∷ 112 ∷ 117 ∷ []

abbrev x : Text
x = 120 ∷ []

abbrev one : Text
one = 49 ∷ []

abbrev pod_labels : List (Text × Text)
pod_labels = (app, x) ∷ (gpu, one) ∷ []

abbrev some_pod : Labelled
some_pod = record { namespace = x; labels = pod_labels; field = λ path. none }

program : Unit {0}
unfolding split split_once put strip_start strip_end enter_label enter_labels parse_label_selector
    enter_field enter_fields parse_field_selector matches_label match_labels match_fields
    matches_filters joined are_new
program = tt

-- ` app = x` is `app=x`.
strips_terms :
    parse_label_selector is_blank ((32 ∷ app) ++ 32 ∷ equals_sign ∷ 32 ∷ x) ≡ (app, some x) ∷ []
unfolding program
strips_terms = refl

-- `gpu` alone asks for the key.
finds_key : matches_filters is_blank some_pod none (some (written gpu)) none ≡ true
unfolding program
finds_key = refl

-- `app=x,gpu` asks for the key `app=x,gpu`, and misses the pod.
misses_key :
    matches_filters is_blank some_pod none (some (written (term (app, x) ++ comma ∷ gpu))) none
    ≡ false
unfolding program
misses_key = refl

other_namespace : matches_filters is_blank some_pod (some one) none none ≡ false
unfolding program
other_namespace = refl

parses_back : parse_label_selector is_blank (selector_of pod_labels) ≡ map entry pod_labels
unfolding program
parses_back = parse-selector_of is_blank pod_labels (refl, (refl, tt)) refl

matches_filters-has_labels_example :
    matches_filters is_blank some_pod none (some (written (selector_of pod_labels))) none
    ≡ not (lacks_some pod_labels pod_labels)
unfolding program
matches_filters-has_labels_example =
    matches_filters-has_labels is_blank some_pod pod_labels (refl, (refl, tt)) (refl, (refl, tt))
      refl

finds_pods :
    get_pods is_blank
      (some_pod ∷ record some_pod { labels = [] } ∷ [])
      none
      (some (written gpu))
      none
    ≡ some_pod ∷ []
unfolding program
finds_pods = refl
