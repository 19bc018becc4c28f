-- ===== src/Sidebar/Tests.antt =====
-- app.js: the sidebar of views/index.html.
use mq_kafka.Prelude.{◌≡◌, refl, true, false, none, some, List, [], ◌∷◌}
use mq_kafka.Text.{codes}
use mq_kafka.Sidebar.{Body, Item}
use mq_kafka.Sidebar.Tree.{any_marked}

abbrev mini : Body
mini = record {
  sidebar_collapse = true;
  sidebar_open = false;
  sidebar_mini = true;
  fixed = false;
  expanded_on_hover = false;
}

abbrev sidebar : List Item
sidebar =
    record { active = false; submenu = none }
    ∷ record {
      active = true;
      submenu = some (record {
        visible = true;
        menu_open = true;
        leaves =
            record { href = codes "#main.html"; active = true }
            ∷ record { href = codes "#generator.html"; active = false }
            ∷ [];
      });
    }
    ∷ []

marked_before : any_marked sidebar ≡ true
marked_before = refl
