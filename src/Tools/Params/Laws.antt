-- ===== src/Tools/Params/Laws.antt =====
-- common.js: `T.p` against the list of the parameters that an address spells.
use mathlib.Core.Option
use mq_kafka.Prelude.{
  ℕ, ◌≡◌, refl, ap, Bool, true, false, leb, ◌==◌, ◌&&◌, ◌||◌, ◌≢◌, Option, none, some, List, [],
  ◌∷◌, ◌++◌, map, append_assoc, arith, if◌then◌else◌, All, All-append,
}
use mq_kafka.Text.{Text, codes, eq_text, strip_prefix, join, Free}
use mq_kafka.Tools.Params.{value_at, match_at, match_later, or_else, url}

-- A parameter as it stands in an address, and all of them behind the question mark.
abbrev pub pair : Text × Text → Text
pair (k, v) = k ++ (b'=' ∷ v)

abbrev pub query : List (Text × Text) → Text
query ps = join (codes "&") (map pair ps)

-- Neither separator in the key, and no `&` in the value.
abbrev pub IsParam : Text × Text → Type 0
IsParam (k, v) = Free b'=' k × Free b'&' k × Free b'&' v

-- A letter, a digit or an underscore: none of them is special in a pattern.
abbrev pub is_word_char : ℕ → Bool
is_word_char c = leb 48 c && leb c 57 || leb 65 c && leb c 90 || leb 97 c && leb c 122 || c == 95

abbrev pub is_word : Text → Bool
is_word [] = true
is_word (c ∷ s) = is_word_char c && is_word s

pub is_word-Free : (d : ℕ) (s : Text) → is_word_char d ≡ false → is_word s ≡ true → Free d s
is_word-Free d [] e h = tt
is_word-Free d (c ∷ s) e h = (
  λ same. let here : is_word_char c ≡ is_word_char d = ap is_word_char same in ground arith,
  is_word-Free d s e (ground arith),
)

-- The first value listed under a name.
abbrev pub lookup : Text → List (Text × Text) → Option Text
lookup name [] = none
lookup name ((k, v) ∷ ps) = if eq_text k name then some v else lookup name ps

-- The text that the pattern captures, if it matches.
abbrev pub find : Text → Text → Option Text
find name s = or_else (match_at name s) (match_later name s)

value_at_of_Free : (v : Text) → Free b'&' v → value_at v ≡ v
unfolding value_at
value_at_of_Free [] h = refl
value_at_of_Free (c ∷ v) h = ground (arith, value_at_of_Free v)

value_at-append : (v s : Text) → Free b'&' v → value_at (v ++ (b'&' ∷ s)) ≡ v
unfolding value_at
value_at-append [] s h = ground arith
value_at-append (c ∷ v) s h = ground (arith, value_at-append v s)

strip_prefix_key :
    (name k s : Text)
    → Free b'=' name
    → Free b'=' k
    → strip_prefix (name ++ codes "=") (k ++ (b'=' ∷ s)) ≡ (if eq_text k name then some s else none)
unfolding strip_prefix eq_text
strip_prefix_key [] [] s h g = ground arith
strip_prefix_key [] (c ∷ k) s h g = ground arith
strip_prefix_key (n ∷ name) [] s h g = ground arith
strip_prefix_key (n ∷ name) (c ∷ k) s h g = ground (arith, strip_prefix_key name k s)

match_later_of_Free : (name s : Text) → Free b'&' s → match_later name s ≡ none
unfolding match_later
match_later_of_Free name [] h = refl
match_later_of_Free name (c ∷ s) h = ground (arith, match_later_of_Free name s)

match_later-append :
    (name p s : Text)
    → Free b'&' p
    → match_later name (p ++ (b'&' ∷ s)) ≡ or_else (match_at name s) (match_later name s)
unfolding match_later
match_later-append name [] s h = ground arith
match_later-append name (c ∷ p) s h = ground (arith, match_later-append name p s)

module _ (name : Text) (word : is_word name ≡ true) where
  match_at_last :
      (k v : Text)
      → IsParam (k, v)
      → match_at name (pair (k, v)) ≡ (if eq_text k name then some v else none)
  unfolding match_at
  match_at_last k v h =
      ground
        (arith, strip_prefix_key name k v (is_word-Free b'=' name refl word), value_at_of_Free v)

  match_at_first :
      (k v s : Text)
      → IsParam (k, v)
      → match_at name (pair (k, v) ++ (b'&' ∷ s)) ≡ (if eq_text k name then some v else none)
  unfolding match_at
  match_at_first k v s h = ground (
    arith,
    append_assoc k (b'=' ∷ v) (b'&' ∷ s),
    strip_prefix_key name k (v ++ (b'&' ∷ s)) (is_word-Free b'=' name refl word),
    value_at-append v s,
  )

  Free-pair : (k v : Text) → IsParam (k, v) → Free b'&' (pair (k, v))
  Free-pair k v h = All-append (λ x. x ≢ b'&') k (b'=' ∷ v) h.1 (omega arith, h.2)

  -- The leftmost match, where the first parameter is followed by any text.
  pub find-cons :
      (k v s : Text)
      → IsParam (k, v)
      → find name (pair (k, v) ++ (b'&' ∷ s)) ≡ (if eq_text k name then some v else find name s)
  find-cons k v s h =
      ground
        (arith, match_at_first k v s h, match_later-append name (pair (k, v)) s (Free-pair k v h))

  pub find-query :
      (p : Text × Text) (ps : List (Text × Text))
      → All IsParam (p ∷ ps)
      → find name (query (p ∷ ps)) ≡ lookup name (p ∷ ps)
  unfolding join
  find-query (k, v) [] h =
      ground (arith, match_at_last k v h.0, match_later_of_Free name _ (Free-pair k v h.0))
  find-query (k, v) (q ∷ qs) h =
      ground (arith, find-cons k v (query (q ∷ qs)) h.0, find-query q qs h.1)

  -- `T.p(name)` on an address that spells at least one parameter finds the first of that name,
  -- decoded by `unescape`, and nothing (null) if none has it. The name is made of letters, digits and
  -- underscores, so that the pattern takes it as it is; the keys hold no `=`, and the keys and values
  -- no `&`.
  pub url-query :
      (unescape : Text → Text) (p : Text × Text) (ps : List (Text × Text))
      → All IsParam (p ∷ ps)
      → url unescape name (b'?' ∷ query (p ∷ ps)) ≡ Option.map unescape (lookup name (p ∷ ps))
  unfolding url
  url-query unescape p ps h = ap (Option.map unescape) (find-query p ps h)
