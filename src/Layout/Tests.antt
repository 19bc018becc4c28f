-- ===== src/Layout/Tests.antt =====
-- app.js: the layout of a page at concrete heights.
use mq_kafka.Prelude.{◌≡◌, refl, true, false, none, some, [], ◌∷◌}
use mq_kafka.Prelude.Int.{pos, negsuc}
use mq_kafka.Layout.{Heights, log_error, fix, fix_sidebar}

abbrev small : Heights
small = record { header = 50; footer = 51; window = 80; sidebar = 70; control = some 30 }

fix_runs : (fix false small ≡ pos 30) × (fix false (record small { control = none }) ≡ negsuc 20)
unfolding fix
fix_runs = (refl, refl)

fix_sidebar_runs : fix_sidebar true false true true small ≡ log_error ∷ []
unfolding fix_sidebar
fix_sidebar_runs = refl
