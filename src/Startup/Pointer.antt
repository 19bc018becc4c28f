-- ===== src/Startup/Pointer.antt =====
-- app.js: when the pointer moves the sidebar.
use mq_kafka.Prelude.{ℕ, ◌≡◌, refl, ◌∙◌, ap, Bool, false, ◌&&◌, List, [], ◌∷◌, arith}
use mq_kafka.Sidebar.{Body, binds_hover}
use mq_kafka.Startup.{
  Options, start_up, starts_push_menu, Handlers, load, Action, click_button, click_page, enter,
  leave, respond, use_page,
}

abbrev pub only_clicks : List Action → List Action
only_clicks [] = []
only_clicks (click_button width ∷ actions) = click_button width ∷ only_clicks actions
only_clicks (click_page width ∷ actions) = click_page width ∷ only_clicks actions
only_clicks (enter width ∷ actions) = only_clicks actions
only_clicks (leave width ∷ actions) = only_clicks actions

enter_idle :
    (hs : Handlers) (width : ℕ) (b : Body) → hs.hovers ≡ false → respond hs (enter width) b ≡ b
unfolding respond
enter_idle hs width b h = rw h

leave_idle :
    (hs : Handlers) (width : ℕ) (b : Body) → hs.hovers ≡ false → respond hs (leave width) b ≡ b
unfolding respond
leave_idle hs width b h = rw h

use_page-only_clicks :
    (hs : Handlers) (actions : List Action) (b : Body)
    → hs.hovers ≡ false
    → use_page hs actions b ≡ use_page hs (only_clicks actions) b
unfolding respond
use_page-only_clicks hs [] b h = refl
use_page-only_clicks hs (click_button width ∷ actions) b h =
    use_page-only_clicks hs actions (respond hs (click_button width) b) h
use_page-only_clicks hs (click_page width ∷ actions) b h =
    use_page-only_clicks hs actions (respond hs (click_page width) b) h
use_page-only_clicks hs (enter width ∷ actions) b h =
    ap (use_page hs actions) (enter_idle hs width b h) ∙ use_page-only_clicks hs actions b h
use_page-only_clicks hs (leave width ∷ actions) b h =
    ap (use_page hs actions) (leave_idle hs width b h) ∙ use_page-only_clicks hs actions b h

starts_push_menu-start_up :
    (o : Options) (slimscroll fastclick : Bool)
    → starts_push_menu (start_up o slimscroll fastclick) ≡ o.sidebar_push_menu
unfolding starts_push_menu start_up
starts_push_menu-start_up o slimscroll fastclick = ground arith

-- In a frame that is loaded with a body not both fixed and small, and with the option that opens
-- the sidebar on hover off, the pointer over the sidebar has no effect: any sequence of actions
-- leaves the body's classes as the clicks among them alone do. The button is bound where its option
-- is on, whatever the other options are and whichever plugins are loaded.
pub load-pointer :
    (o : Options) (slimscroll fastclick : Bool) (loaded b : Body) (actions : List Action)
    → o.sidebar_expand_on_hover ≡ false
    → loaded.fixed && loaded.sidebar_mini ≡ false
    → let hs = load o slimscroll fastclick loaded in
      (use_page hs actions b ≡ use_page hs (only_clicks actions) b)
      × (hs.clicks ≡ o.sidebar_push_menu)
unfolding load binds_hover
load-pointer o slimscroll fastclick loaded b actions e n = (
  use_page-only_clicks (load o slimscroll fastclick loaded) actions b (ground arith),
  starts_push_menu-start_up o slimscroll fastclick,
)
