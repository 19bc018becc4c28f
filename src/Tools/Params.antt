-- ===== src/Tools/Params.antt =====
-- common.js: `url`, which is `T.p`, reads a parameter of the page's address. The name goes into a
-- pattern as it is, so it is one with no character that is special there, such as a word.
pub mod Laws
use mathlib.Core.Option
use mq_kafka.Prelude.{ℕ, Option, none, some, List, [], ◌∷◌, ◌++◌, ◌==◌, if◌then◌else◌, tail}
use mq_kafka.Text.{Text, codes, strip_prefix}

-- `[^&]*`
pub value_at : Text → Text
value_at [] = []
value_at (c ∷ s) = if c == b'&' then [] else c ∷ value_at s

-- `name=([^&]*)(&|$)` at one place.
pub match_at : Text → Text → Option Text
unfolding value_at strip_prefix
match_at name s = Option.map value_at (strip_prefix (name ++ codes "=") s)

abbrev pub or_else {ℓ} : {A : Type ℓ} → Option A → Option A → Option A
or_else none o = o
or_else (some a) o = some a

-- The leftmost match behind an `&`.
pub match_later : Text → Text → Option Text
unfolding match_at
match_later name [] = none
match_later name (c ∷ s) =
    let rest = match_later name s in if c == b'&' then or_else (match_at name s) rest else rest

-- `search` is `window.location.search`, whose first character is the `?`; `unescape` is the built-in
-- of the language.
unfoldable pub url : (Text → Text) → Text → Text → Option Text
unfolding match_later match_at
url unescape name search =
    let r = tail search in Option.map unescape (or_else (match_at name r) (match_later name r))
