-- ===== src/Generator/Browser.antt =====
-- A `window.location.search` for the examples of the address that generator.js navigates to: on texts
-- whose characters all stand for themselves.
use mq_kafka.Prelude.{
  ◌≡◌, ◌≢◌, refl, ap, [], ◌∷◌, ◌++◌, map, ◌==◌, if◌then◌else◌, All-append, All-imp, All-map, arith,
}
use mq_kafka.Text.{Text, Free}
use mq_kafka.Text.Laws.{Free-join}
use mq_kafka.Tools.Params.Laws.{query, pair, is_word-Free}
use mq_kafka.Generator.Address.{IsPlain-Free, IsPlainParam, IsSearch}

until_hash : Text → Text
until_hash [] = []
until_hash (c ∷ s) = if c == b'#' then [] else c ∷ until_hash s

-- From the question mark on, up to a `#`.
pub search : Text → Text
unfolding until_hash
search [] = []
search (c ∷ s) = if c == b'#' then [] else if c == b'?' then c ∷ until_hash s else search s

until_hash_of_Free : (s : Text) → Free b'#' s → until_hash s ≡ s
unfolding until_hash
until_hash_of_Free [] h = refl
until_hash_of_Free (c ∷ s) h = ground (arith, until_hash_of_Free s)

pair-Free : (p : Text × Text) → IsPlainParam p → Free b'#' (pair p)
pair-Free (k, v) (word, plain) =
    All-append (λ x. x ≢ b'#') k (b'=' ∷ v) (is_word-Free b'#' k refl word)
      (omega arith, IsPlain-Free b'#' v refl plain)

search-append :
    (path s : Text)
    → Free b'?' path
    → Free b'#' path
    → Free b'#' s
    → search (path ++ (b'?' ∷ s)) ≡ b'?' ∷ s
unfolding search
search-append [] s q h k = ap (λ t. b'?' ∷ t) (until_hash_of_Free s k)
search-append (c ∷ path) s q h k = ground (arith, search-append path s)

pub search-IsSearch : IsSearch search
search-IsSearch path p ps q h plain = search-append path (query (p ∷ ps)) q h (
    Free-join b'#' b'&' (map pair (p ∷ ps)) (omega arith)
      (All-map (Free b'#') pair (p ∷ ps) (All-imp pair-Free (p ∷ ps) plain)))
