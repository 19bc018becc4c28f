-- ===== src/Startup.antt =====
-- What code-generator/src/main/resources/static/libs/app.js does when the console's frame is
-- loaded: its options as they are delivered, the parts that it starts, and the handlers of the
-- sidebar that it binds by then.
pub mod Pointer
mod Tests
use mq_kafka.Prelude.{ℕ, Bool, true, false, ◌&&◌, List, [], ◌∷◌, ◌++◌, if◌then◌else◌}
use mq_kafka.Sidebar.{Body, toggle, click_content, binds_hover, hover_in, hover_out}

-- The options that switch a part on or off.
pub record Options : Type 0 where
  pub navbar_menu_slimscroll : Bool
  pub sidebar_push_menu : Bool
  pub sidebar_slim_scroll : Bool
  pub sidebar_expand_on_hover : Bool
  pub enable_box_refresh : Bool
  pub enable_bs_toppltip : Bool
  pub enable_fastclick : Bool
  pub enable_control_sidebar : Bool
  pub control_sidebar_slide : Bool
  pub enable_box_widget : Bool
  pub direct_chat_enable : Bool

-- As delivered; `AdminLTEOptions` may replace some.
abbrev pub options : Options
options = record {
  navbar_menu_slimscroll = true;
  sidebar_push_menu = true;
  sidebar_slim_scroll = true;
  sidebar_expand_on_hover = false;
  enable_box_refresh = true;
  enable_bs_toppltip = true;
  enable_fastclick = false;
  enable_control_sidebar = true;
  control_sidebar_slide = true;
  enable_box_widget = true;
  direct_chat_enable = true;
}

-- The parts of the script that are started.
pub data Part : Type 0 where
  layout tree control_sidebar navbar_menu push_menu tooltip box_widget : Part
  fast_click direct_chat button_toggle : Part

abbrev when : Bool → Part → List Part
when b p = if b then p ∷ [] else []

-- The last arguments tell whether slimscroll and FastClick are loaded.
pub start_up : Options → Bool → Bool → List Part
start_up o slimscroll fastclick =
    layout ∷ tree ∷ when o.enable_control_sidebar control_sidebar
    ++ (when (o.navbar_menu_slimscroll && slimscroll) navbar_menu
        ++ (when o.sidebar_push_menu push_menu
            ++ (when o.enable_bs_toppltip tooltip
                ++ (when o.enable_box_widget box_widget
                    ++ (when (o.enable_fastclick && fastclick) fast_click
                        ++ (when o.direct_chat_enable direct_chat ++ button_toggle ∷ []))))))

abbrev is_push_menu : Part → Bool
is_push_menu push_menu = true
is_push_menu layout = false
is_push_menu tree = false
is_push_menu control_sidebar = false
is_push_menu navbar_menu = false
is_push_menu tooltip = false
is_push_menu box_widget = false
is_push_menu fast_click = false
is_push_menu direct_chat = false
is_push_menu button_toggle = false

pub starts_push_menu : List Part → Bool
starts_push_menu [] = false
starts_push_menu (p ∷ ps) = if is_push_menu p then true else starts_push_menu ps

-- Which handlers of the sidebar are bound once the page is loaded.
pub record Handlers : Type 0 where
  pub clicks : Bool
  pub hovers : Bool

pub load : Options → Bool → Bool → Body → Handlers
load o slimscroll fastclick b =
    let pushes = starts_push_menu (start_up o slimscroll fastclick) in
    record { clicks = pushes; hovers = pushes && binds_hover o.sidebar_expand_on_hover b }

-- What the user does, on a page of that width: a click on the button or on the content, the pointer
-- enters the sidebar or leaves it.
pub data Action : Type 0 where
  click_button click_page enter leave : ℕ → Action

pub respond : Handlers → Action → Body → Body
respond hs (click_button width) b = if hs.clicks then (toggle width b).0 else b
respond hs (click_page width) b = if hs.clicks then click_content width b else b
respond hs (enter width) b = if hs.hovers then hover_in width b else b
respond hs (leave width) b = if hs.hovers then hover_out width b else b

abbrev pub use_page : Handlers → List Action → Body → Body
use_page hs [] b = b
use_page hs (a ∷ actions) b = use_page hs actions (respond hs a b)
