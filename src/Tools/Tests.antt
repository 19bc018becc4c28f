-- ===== src/Tools/Tests.antt =====
-- common.js: the theorems at concrete inputs, and runs.
use mathlib.Core.Option
use mq_kafka.Prelude.{◌≡◌, refl, none, some, List, [], ◌∷◌, arith}
use mq_kafka.Text.{Text, codes, eq_text}
use mq_kafka.Tools.Escapes.{unescape}
use mq_kafka.Tools.Params.{url}
use mq_kafka.Tools.Params.Laws.{query, url-query}
use mq_kafka.Tools.Selection.{Grid}
use mq_kafka.Tools.Selection.Laws.{IsConsistent}

abbrev ids : List (Text × Text)
ids = (codes "id", codes "1%202") ∷ (codes "kind", codes "a=b") ∷ (codes "id", codes "9") ∷ []

url-query_example :
    url unescape (codes "id") (b'?' ∷ query ids) ≡ Option.map unescape (some (codes "1%202"))
unfolding eq_text
url-query_example =
    url-query (codes "id") refl unescape (codes "id", codes "1%202")
      ((codes "kind", codes "a=b") ∷ (codes "id", codes "9") ∷ [])
      (
        (omega arith, omega arith, omega arith),
        ((omega arith, omega arith, omega arith), ((omega arith, omega arith, omega arith), tt)),
      )

url_runs : url unescape (codes "id") (codes "?xid=3&id=1%202&id=9") ≡ some (codes "1 2")
unfolding url unescape
url_runs = refl

url_misses : url unescape (codes "id") (codes "?ids=3&xid=4") ≡ none
unfolding url unescape
url_misses = refl

unescape_runs : unescape (codes "%u786e%E9%zz%u12") ≡ 0x786e ∷ 0xe9 ∷ codes "%zz%u12"
unfolding unescape
unescape_runs = refl

abbrev one_row : Grid
one_row = record { selrow = some (codes "user"); selarrrow = codes "user" ∷ [] }

one_row-IsConsistent : IsConsistent one_row
one_row-IsConsistent = record { nothing = λ e. cc; something = λ e. cc; named = λ e. cc }
