-- ===== src/Sidebar.antt =====
-- The sidebar of the console's frame: the handlers of
-- code-generator/src/main/resources/static/libs/app.js (AdminLTE's page script) that
-- views/index.html binds to the sidebar's button, to its area and to the links of the menu that
-- js/index.js marks. The classes of the body and of the items are flags; an animation is taken at
-- its end, with no other click before.
pub mod Push
pub mod Tree
mod Tests
use mq_kafka.Prelude.{
  ℕ, zero, suc, ◌-◌, Bool, true, false, not, ◌&&◌, ◌||◌, Option, none, some, List, [], ◌∷◌, map,
  ltb, leb, if◌then◌else◌,
}
use mq_kafka.Text.{Text}

pub record ScreenSizes : Type 0 where
  pub xs : ℕ
  pub sm : ℕ
  pub md : ℕ
  pub lg : ℕ

abbrev screen_sizes : ScreenSizes
screen_sizes = record { xs = 480; sm = 768; md = 992; lg = 1200 }

-- The classes of the body that the sidebar's handlers read or write, and
-- `sidebar-expanded-on-hover`.
pub record Body : Type 0 where
  pub sidebar_collapse : Bool
  pub sidebar_open : Bool
  pub sidebar_mini : Bool
  pub fixed : Bool
  pub expanded_on_hover : Bool

-- The events that `pushMenu` triggers on the body.
pub data PushEvent : Type 0 where
  expanded collapsed : PushEvent

-- `width > screenSizes.sm - 1`
abbrev pub is_wide : ℕ → Bool
is_wide width = ltb (screen_sizes.sm - 1) width

-- A click on the toggle button.
pub toggle : ℕ → Body → Body × PushEvent
toggle width b =
    if is_wide width
    then (if b.sidebar_collapse
        then (record b { sidebar_collapse = false }, expanded)
        else (record b { sidebar_collapse = true }, collapsed))
    else if b.sidebar_open
    then (record b { sidebar_open = false; sidebar_collapse = false }, collapsed)
    else (record b { sidebar_open = true }, expanded)

-- A click on the content.
unfoldable pub click_content : ℕ → Body → Body
click_content width b =
    if leb width (screen_sizes.sm - 1) && b.sidebar_open
    then record b { sidebar_open = false }
    else b

-- Whether `activate` binds the two handlers of the sidebar's area.
unfoldable pub binds_hover : Bool → Body → Bool
binds_hover sidebar_expand_on_hover b = sidebar_expand_on_hover || (b.fixed && b.sidebar_mini)

expand : Body → Body
expand b = record b { sidebar_collapse = false; expanded_on_hover = true }

collapse : Body → Body
collapse b =
    if b.expanded_on_hover
    then record b { expanded_on_hover = false; sidebar_collapse = true }
    else b

-- The pointer enters the sidebar, and leaves it.
pub hover_in : ℕ → Body → Body
unfolding expand
hover_in width b = if b.sidebar_mini && b.sidebar_collapse && is_wide width then expand b else b

pub hover_out : ℕ → Body → Body
unfolding collapse
hover_out width b = if b.sidebar_mini && b.expanded_on_hover && is_wide width then collapse b else b

-- An item of a submenu: its link's address and the class `active`.
pub record Leaf : Type 0 where
  pub href : Text
  pub active : Bool

-- A `.treeview-menu`, with the class `menu-open`.
pub record Submenu : Type 0 where
  pub visible : Bool
  pub menu_open : Bool
  pub leaves : List Leaf

-- An item of the sidebar's list, with the class `active`.
pub record Item : Type 0 where
  pub active : Bool
  pub submenu : Option Submenu

abbrev unmark_leaf : Leaf → Leaf
unmark_leaf l = record l { active = false }

-- `slideUp` and `removeClass('menu-open')`, for what is visible.
abbrev fold : Submenu → Submenu
fold m = if m.visible then record m { visible = false; menu_open = false } else m

-- What opening another item does to an item of the same list.
pub shut_item : Item → Item
shut_item g = record {
  active = false;
  submenu = elim g.submenu [
    | none ↦ none
    | some m ↦ some (record (fold m) { leaves = map unmark_leaf m.leaves })
  ];
}

pub open_item : Item → Item
open_item g = record {
  active = true;
  submenu = elim g.submenu [
    | none ↦ none
    | some m ↦ some (record { visible = true; menu_open = true; leaves = map unmark_leaf m.leaves })
  ];
}

close_item : Item → Item
close_item g = record {
  active = false;
  submenu = elim g.submenu [ none ↦ none | some m ↦ some (fold m) ];
}

pub open_at : ℕ → List Item → List Item
unfolding open_item shut_item
open_at i [] = []
open_at zero (g ∷ gs) = open_item g ∷ map shut_item gs
open_at (suc i) (g ∷ gs) = shut_item g ∷ open_at i gs

pub close_at : ℕ → List Item → List Item
unfolding close_item
close_at i [] = []
close_at zero (g ∷ gs) = close_item g ∷ gs
close_at (suc i) (g ∷ gs) = g ∷ close_at i gs

-- Whether the link of that item has a submenu behind it, and whether it is visible.
pub submenu_at : ℕ → List Item → Option Bool
submenu_at i [] = none
submenu_at zero (g ∷ gs) = elim g.submenu [ none ↦ none | some m ↦ some m.visible ]
submenu_at (suc i) (g ∷ gs) = submenu_at i gs

-- A click on the link of the item of that number, with the body's class `sidebar-collapse`.
pub click : Bool → ℕ → List Item → List Item
unfolding submenu_at
click sidebar_collapse i gs = elim (submenu_at i gs) [
  | none ↦ gs
  | some visible ↦
      if visible && not sidebar_collapse
      then close_at i gs
      else if not visible
      then open_at i gs
      else gs
]
