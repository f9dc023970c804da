-- ===== src/Selector/RoundTrip.antt =====
-- The selectors that are written from keys and values, and how they are parsed.
use chutes_miner.Prelude.{
  All, Bool, List, Option, [], any, any-append, ap, arith, false, map, not, refl, some, sym, true,
  ℕ, ◌&&◌, ◌++◌, ◌==◌, ◌||◌, ◌∙◌, ◌∷◌, ◌≡◌,
}
use chutes_miner.Selector.{
  Dict, Text, comma, enter_label, enter_labels, equals_sign, is_empty, parse_label_selector, put,
  same_text, split, split_once, strip, strip_end, strip_start,
}

abbrev pub has : ℕ → Text → Bool
has c t = any (λ x. x == c) t

-- `key=value`
abbrev pub term : Text × Text → Text
term (k, v) = k ++ equals_sign ∷ v

-- The terms with commas in between.
unfoldable pub joined : List Text → Text
joined [] = []
joined (t ∷ []) = t
joined (t ∷ u ∷ ts) = t ++ comma ∷ joined (u ∷ ts)

abbrev pub selector_of : List (Text × Text) → Text
selector_of ps = joined (map term ps)

-- A key and a value that do not interfere with the syntax. A value may have "=".
abbrev pub is_plain : (is_space : ℕ → Bool) → Text × Text → Bool
is_plain is_space (k, v) =
    not (has comma k)
    && (not (has equals_sign k)
        && (not (any is_space k) && (not (has comma v) && not (any is_space v))))

-- No key of the pairs is among the entries, or twice among the pairs.
unfoldable pub are_new : Dict → List (Text × Text) → Bool
are_new d [] = true
are_new d ((k, v) ∷ ps) =
    not (any (λ (e : Text × Option Text). same_text k e.0) d) && are_new (d ++ (k, some v) ∷ []) ps

abbrev pub entry : Text × Text → Text × Option Text
entry (k, v) = (k, some v)

split-last : (c : ℕ) (t : Text) → has c t ≡ false → split c t ≡ t ∷ []
unfolding split
split-last c [] h = refl
split-last c (x ∷ xs) h = ground (arith, split-last c xs)

split-next : (c : ℕ) (t u : Text) → has c t ≡ false → split c (t ++ c ∷ u) ≡ t ∷ split c u
unfolding split
split-next c [] u h = ground arith
split-next c (x ∷ xs) u h = ground (arith, split-next c xs u)

split_once-term : (c : ℕ) (k v : Text) → has c k ≡ false → split_once c (k ++ c ∷ v) ≡ some (k, v)
unfolding split_once
split_once-term c [] v h = ground arith
split_once-term c (x ∷ xs) v h = ground (arith, split_once-term c xs v)

has-append : (c : ℕ) (t u : Text) → has c (t ++ u) ≡ (has c t || has c u)
has-append c t u = any-append (λ x. x == c) t u

module _ (is_space : ℕ → Bool) where
  strip_end-plain : (t : Text) → any is_space t ≡ false → strip_end is_space t ≡ t
  unfolding strip_end
  strip_end-plain [] h = refl
  strip_end-plain (x ∷ xs) h = ground (arith, strip_end-plain xs)

  strip_start-plain : (t : Text) → any is_space t ≡ false → strip_start is_space t ≡ t
  unfolding strip_start
  strip_start-plain [] h = refl
  strip_start-plain (x ∷ xs) h = ground arith

  strip-plain : (t : Text) → any is_space t ≡ false → strip is_space t ≡ t
  strip-plain t h = ap (strip_end is_space) (strip_start-plain t h) ∙ strip_end-plain t h

put-new :
    (k : Text) (v : Option Text) (d : Dict)
    → any (λ (e : Text × Option Text). same_text k e.0) d ≡ false
    → put k v d ≡ d ++ (k, v) ∷ []
unfolding put
put-new k v [] h = refl
put-new k v ((k', v') ∷ rest) h = ground (arith, put-new k v rest)

split-joined :
    (t : Text) (ts : List Text)
    → All (λ u. has comma u ≡ false) (t ∷ ts)
    → split comma (joined (t ∷ ts)) ≡ t ∷ ts
unfolding joined
split-joined t [] h = split-last comma t h.0
split-joined t (u ∷ ts) h =
    split-next comma t (joined (u ∷ ts)) h.0 ∙ ap (λ rest. t ∷ rest) (split-joined u ts h.1)

written_term : (p : Text × Text) (ps : List (Text × Text)) → is_empty (selector_of (p ∷ ps)) ≡ false
unfolding joined
written_term ([], v) [] = refl
written_term ([], v) (q ∷ ps) = refl
written_term (x ∷ k, v) [] = refl
written_term (x ∷ k, v) (q ∷ ps) = refl

append_one : (d : Dict) (e : Text × Option Text) (es : Dict) → (d ++ e ∷ []) ++ es ≡ d ++ e ∷ es
append_one [] e es = refl
append_one (x ∷ d) e es = ap (λ rest. x ∷ rest) (append_one d e es)

append_none : (d : Dict) → d ++ [] ≡ d
append_none [] = refl
append_none (x ∷ d) = ap (λ rest. x ∷ rest) (append_none d)

module _ (is_space : ℕ → Bool) where
  term-plain : (p : Text × Text) → is_plain is_space p ≡ true → has comma (term p) ≡ false
  term-plain (k, v) h = ground (arith, has-append comma k (equals_sign ∷ v))

  enter-plain :
      (selector k v : Text) (d : Dict)
      → is_plain is_space (k, v) ≡ true
      → any (λ (e : Text × Option Text). same_text k e.0) d ≡ false
      → enter_label is_space selector (split_once equals_sign (term (k, v))) d
        ≡ d ++ (k, some v) ∷ []
  unfolding enter_label
  enter-plain selector k v d h new =
      let parts = split_once-term equals_sign k v (ground arith) in
      let key = strip-plain is_space k (ground arith) in
      let value = strip-plain is_space v (ground arith) in
      rw (parts, enter_label, key, value) (put-new k (some v) d new)

  enter_all-plain :
      (selector : Text) (ps : List (Text × Text)) (d : Dict)
      → All (λ p. is_plain is_space p ≡ true) ps
      → are_new d ps ≡ true
      → enter_labels is_space selector (map term ps) d ≡ d ++ map entry ps
  unfolding enter_labels are_new
  enter_all-plain selector [] d h new = sym (append_none d)
  enter_all-plain selector ((k, v) ∷ ps) d h new =
      let here = enter-plain selector k v d h.0 (ground arith) in
      rw (enter_labels, here)
        (enter_all-plain selector ps (d ++ (k, some v) ∷ []) h.1 (ground arith)
          ∙ append_one d (k, some v) (map entry ps))

  commas-plain :
      (ps : List (Text × Text))
      → All (λ p. is_plain is_space p ≡ true) ps
      → All (λ u. has comma u ≡ false) (map term ps)
  commas-plain [] h = tt
  commas-plain (p ∷ ps) h = (term-plain p h.0, commas-plain ps h.1)

  -- A selector that is written from keys and values is parsed to these, in order, when no key occurs
  -- twice, keys have no comma, "=" or space, and values have no comma or space.
  pub parse-selector_of :
      (ps : List (Text × Text))
      → All (λ p. is_plain is_space p ≡ true) ps
      → are_new [] ps ≡ true
      → parse_label_selector is_space (selector_of ps) ≡ map entry ps
  unfolding parse_label_selector joined
  parse-selector_of [] h new = refl
  parse-selector_of (p ∷ ps) h new =
      let filled = written_term p ps in
      let terms = split-joined (term p) (map term ps) (commas-plain (p ∷ ps) h) in
      rw (filled, terms, parse_label_selector)
        (enter_all-plain (selector_of (p ∷ ps)) (p ∷ ps) [] h new)
