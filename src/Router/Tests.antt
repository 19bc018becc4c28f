-- ===== src/Router/Tests.antt =====
-- router.js: runs at concrete tables.
use mq_kafka.Prelude.{ℕ, ◌≡◌, refl, none, some, List, [], ◌∷◌}
use mq_kafka.Text.{codes, eq_text, remove_first, split}
use mq_kafka.Router.{Router, new_router, add, remove, set_index, go, reload, settle, get_cb}
use mq_kafka.Router.Table.{Edit, adds, removes, indexes, run, get_cb-run}
use mq_kafka.Router.Navigation.{settle_total, destination}

abbrev edits : List (Edit ℕ)
edits =
    adds (codes "user/7/edit") 1
    ∷ adds (codes "home") 2
    ∷ adds (codes "gone") 3
    ∷ removes (codes "gone")
    ∷ adds (codes "home") 4
    ∷ indexes (codes "home")
    ∷ []

abbrev routes : Router ℕ
routes = run edits new_router

get_cb-run_example : get_cb (codes "home") routes.hash_list ≡ some 4
unfolding eq_text
get_cb-run_example = get_cb-run (codes "home") edits

settle_total_example :
    settle (λ t. t) 2 routes (codes "#!nowhere") ≡ some (codes "#!home", some (4, []))
unfolding destination get_cb add remove set_index eq_text remove_first go split
settle_total_example = settle_total (λ t. t) 0 routes (codes "#!nowhere") (λ i e. refl)

settle_unknown :
    settle (λ t. t) 1 (remove (codes "home") routes) (codes "#!home") ≡ some (codes "#!home", none)
unfolding settle reload add remove set_index eq_text go
settle_unknown = refl
