-- ===== src/Startup/Tests.antt =====
-- app.js: the frame of views/index.html, whose body is small and not fixed.
use mq_kafka.Prelude.{◌≡◌, refl, true, false, List, [], ◌∷◌}
use mq_kafka.Sidebar.{Body}
use mq_kafka.Startup.{
  options, layout, tree, control_sidebar, push_menu, tooltip, box_widget, direct_chat,
  button_toggle, start_up, Action, click_button, enter, leave,
}

abbrev console : Body
console = record {
  sidebar_collapse = false;
  sidebar_open = false;
  sidebar_mini = true;
  fixed = false;
  expanded_on_hover = false;
}

abbrev actions : List Action
actions = click_button 1024 ∷ enter 1024 ∷ leave 1024 ∷ []

start_up_runs :
    start_up options false false
    ≡ layout ∷ tree ∷ control_sidebar ∷ push_menu ∷ tooltip ∷ box_widget ∷ direct_chat
      ∷ button_toggle ∷ []
unfolding start_up
start_up_runs = refl
