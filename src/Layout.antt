-- ===== src/Layout.antt =====
-- The layout of the console's frame: `$.AdminLTE.layout` of
-- code-generator/src/main/resources/static/libs/app.js, which sets the least height of the content
-- and the scrolling of the sidebar when the frame is loaded, resized, or a submenu was opened. The
-- heights that the browser reports, in pixels, are the arguments.
mod Tests
use mq_kafka.Prelude.{
  ℕ, ◌+◌, Bool, true, false, not, ◌&&◌, Option, none, some, List, [], ◌∷◌, ◌++◌, leb, if◌then◌else◌,
}
use mq_kafka.Prelude.Int.{ℤ, pos, sub_ℕ, ltb_ℤ}

pub record Heights : Type 0 where
  pub header : ℕ
  pub footer : ℕ
  pub window : ℕ
  pub sidebar : ℕ
  -- Of the control sidebar, if the page has one.
  pub control : Option ℕ

abbrev with_control : Option ℕ → ℤ → ℤ
with_control none set = set
with_control (some c) set = if ltb_ℤ set (pos c) then pos c else set

-- The `min-height` that `fix` leaves behind; the argument tells whether the body has the class
-- `fixed`.
pub fix : Bool → Heights → ℤ
fix fixed h =
    if fixed
    then sub_ℕ h.window h.footer
    else with_control h.control
        (if leb h.sidebar h.window then sub_ℕ h.window (h.header + h.footer) else pos h.sidebar)

-- What `fixSidebar` does.
pub data Action : Type 0 where
  destroy_scroll : Action
  add_scroll : ℤ → Action
  log_error : Action

-- The arguments: the class `fixed`, whether the slimScroll plugin is loaded, whether the window has
-- a console, and the option `sidebarSlimScroll`.
pub fix_sidebar : Bool → Bool → Bool → Bool → Heights → List Action
fix_sidebar fixed plugin logs slim h =
    if not fixed
    then (if plugin then destroy_scroll ∷ [] else [])
    else (if not plugin && logs then log_error ∷ [] else [])
      ++ (if slim && plugin then destroy_scroll ∷ add_scroll (sub_ℕ h.window h.header) ∷ [] else [])
