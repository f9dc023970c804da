-- ===== src/Selector.antt =====
-- Which resources a watch of several clusters passes on: _matches_filters, _parse_label_selector and
-- _parse_field_selector of src/chutes-miner/chutes_miner/api/k8s/operator.py.
--
-- A text is the list of its characters' codes. `is_space` stands for the characters that str.strip
-- removes. A dict is the list of its entries in the order of insertion. What _get_field_value finds
-- along a path is a function.
pub mod RoundTrip
pub mod Matching
pub mod Tests
use chutes_miner.Prelude.{
  Bool, List, Option, [], false, filter, if◌then◌else◌, is_some, none, not, some, true, ℕ, ◌&&◌,
  ◌==◌, ◌||◌, ◌∷◌,
}

abbrev pub Text : Type 0
Text = List ℕ

abbrev pub same_text : Text → Text → Bool
same_text [] [] = true
same_text (x ∷ xs) (y ∷ ys) = (x == y) && same_text xs ys
same_text _ _ = false

abbrev pub is_empty : Text → Bool
is_empty [] = true
is_empty (x ∷ xs) = false

abbrev pub comma : ℕ
comma = 44

abbrev pub equals_sign : ℕ
equals_sign = 61

abbrev pub onto_first : ℕ → List Text → List Text
onto_first x [] = (x ∷ []) ∷ []
onto_first x (t ∷ ts) = (x ∷ t) ∷ ts

-- `selector.split(",")`
unfoldable pub split : ℕ → Text → List Text
split separator [] = [] ∷ []
split separator (x ∷ xs) =
    let rest = split separator xs in if x == separator then [] ∷ rest else onto_first x rest

abbrev pub after_first : ℕ → Option (Text × Text) → Option (Text × Text)
after_first x none = none
after_first x (some (k, v)) = some (x ∷ k, v)

-- `pair.split("=", 1)`, if "=" is in the pair.
unfoldable pub split_once : ℕ → Text → Option (Text × Text)
split_once separator [] = none
split_once separator (x ∷ xs) =
    let rest = split_once separator xs in
    if x == separator then some ([], xs) else after_first x rest

-- A dict, with a value or None at each key.
abbrev pub Dict : Type 0
Dict = List (Text × Option Text)

-- `labels[key] = value`
unfoldable pub put : Text → Option Text → Dict → Dict
put k v [] = (k, v) ∷ []
put k v ((k', v') ∷ rest) =
    let others = put k v rest in if same_text k k' then (k', v) ∷ rest else (k', v') ∷ others

-- `labels.get(key)` and `key in labels`, for the labels of a resource.
abbrev pub get_label : Text → List (Text × Text) → Option Text
get_label k [] = none
get_label k ((k', v) ∷ rest) = if same_text k k' then some v else get_label k rest

module _ (is_space : ℕ → Bool) where
  unfoldable pub strip_start : Text → Text
  strip_start [] = []
  strip_start (x ∷ xs) = let rest = strip_start xs in if is_space x then rest else x ∷ xs

  unfoldable pub strip_end : Text → Text
  strip_end [] = []
  strip_end (x ∷ xs) =
      let rest = strip_end xs in if is_space x && is_empty rest then [] else x ∷ rest

  -- `text.strip()`
  abbrev pub strip : Text → Text
  strip t = strip_end (strip_start t)

  -- The loop of _parse_label_selector. A term without "=" is entered under the whole selector.
  unfoldable pub enter_label : (selector : Text) → Option (Text × Text) → Dict → Dict
  enter_label selector none labels = put (strip selector) none labels
  enter_label selector (some (k, v)) labels = put (strip k) (some (strip v)) labels

  pub enter_labels : (selector : Text) → List Text → Dict → Dict
  enter_labels selector [] labels = labels
  enter_labels selector (pair ∷ pairs) labels =
      enter_labels selector pairs (enter_label selector (split_once equals_sign pair) labels)

  -- K8sOperator._parse_label_selector
  unfoldable pub parse_label_selector : (selector : Text) → Dict
  parse_label_selector selector =
      if is_empty selector then [] else enter_labels selector (split comma selector) []

  -- The loop of _parse_field_selector: a term without "=" is left out.
  unfoldable pub enter_field : Option (Text × Text) → Dict → Dict
  enter_field none fields = fields
  enter_field (some (k, v)) fields = put (strip k) (some (strip v)) fields

  pub enter_fields : List Text → Dict → Dict
  enter_fields [] fields = fields
  enter_fields (pair ∷ pairs) fields =
      enter_fields pairs (enter_field (split_once equals_sign pair) fields)

  -- K8sOperator._parse_field_selector
  unfoldable pub parse_field_selector : (selector : Text) → Dict
  parse_field_selector selector =
      if is_empty selector then [] else enter_fields (split comma selector) []

-- A selector is a text or a dict.
pub data Selector : Type 0 where
  written : Text → Selector
  entries : Dict → Selector

-- A resource: its namespace, its labels and its fields along paths.
pub record Labelled : Type 0 where
  pub namespace : Text
  pub labels : List (Text × Text)
  pub field : Text → Option Text

abbrev pub is_value : Text → Option Text → Bool
is_value v none = false
is_value v (some w) = same_text v w

-- The test of one label: the value, if it is not empty, and that the key is there.
unfoldable pub matches_label : List (Text × Text) → Text × Option Text → Bool
matches_label labels (k, none) = is_some (get_label k labels)
matches_label labels (k, some v) =
    if not (is_empty v) && not (is_value v (get_label k labels))
    then false
    else is_some (get_label k labels)

-- The loop over the labels, with its early return.
pub match_labels : List (Text × Text) → Dict → Bool
match_labels labels [] = true
match_labels labels (entry ∷ rest) =
    let others = match_labels labels rest in if matches_label labels entry then others else false

abbrev pub same_value : Option Text → Option Text → Bool
same_value none none = true
same_value (some v) (some w) = same_text v w
same_value _ _ = false

pub match_fields : (Text → Option Text) → Dict → Bool
match_fields field [] = true
match_fields field ((path, expected) ∷ rest) =
    let others = match_fields field rest in
    if same_value (field path) expected then others else false

module _ (is_space : ℕ → Bool) where
  abbrev pub label_dict : Selector → Dict
  label_dict (written text) = parse_label_selector is_space text
  label_dict (entries d) = d

  abbrev pub field_dict : Selector → Dict
  field_dict (written text) = parse_field_selector is_space text
  field_dict (entries d) = d

  abbrev pub in_namespace : Option Text → Labelled → Bool
  in_namespace none r = true
  in_namespace (some n) r = is_empty n || same_text r.namespace n

  -- K8sOperator._matches_filters
  unfoldable pub matches_filters :
      Labelled
      → (namespace : Option Text) → (label_selector field_selector : Option Selector) → Bool
  matches_filters r namespace label_selector field_selector =
      if not (in_namespace namespace r)
      then false
      else if not (elim label_selector [
        | none ↦ true
        | some selector ↦ match_labels r.labels (label_dict selector)
      ])
      then false
      else elim field_selector [
        | none ↦ true
        | some selector ↦ match_fields r.field (field_dict selector)
      ]

  -- MultiClusterK8sOperator.get_pods, get_deployments and get_jobs, on what the cache holds.
  abbrev pub get_pods :
      List Labelled
      → (namespace : Option Text) → (label_selector field_selector : Option Selector)
      → List Labelled
  get_pods cached namespace labels fields =
      filter (λ r. matches_filters r namespace labels fields) cached

  abbrev pub get_deployments :
      List Labelled
      → (namespace : Option Text) → (label_selector field_selector : Option Selector)
      → List Labelled
  get_deployments cached namespace labels fields =
      filter (λ r. matches_filters r namespace labels fields) cached

  abbrev pub get_jobs :
      List Labelled
      → (namespace : Option Text) → (label_selector field_selector : Option Selector)
      → List Labelled
  get_jobs cached namespace labels fields =
      filter (λ r. matches_filters r namespace labels fields) cached
