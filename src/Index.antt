-- ===== src/Index.antt =====
-- code-generator/src/main/resources/static/js/index.js: the frame of the console. It routes the
-- hashes of the menu's pages to one callback, which loads the page into the inner frame and marks
-- it in the menu. The document is the parameter `dom`.
pub mod Menu
mod Tests
use mq_kafka.Prelude.{
  ℕ, ◌-◌, zero, suc, Option, none, some, List, [], ◌∷◌, ◌++◌, map, if◌then◌else◌, ltb,
}
use mq_kafka.Text.{Text, codes, remove_first}
use mq_kafka.Router.{Router, new_router, add, settle}
use mq_kafka.Dom.{Dom, css, link}

-- The closure that `routerList` registers; it is the same for every address.
pub data Callback : Type 0 where
  show_page : Callback

abbrev pub menus : List Text
menus = codes "main.html" ∷ codes "generator.html" ∷ []

pub router_list : Router Callback → List Text → Router Callback
router_list router [] = router
router_list router (menu ∷ menus) = router_list (add (codes "#" ++ menu) show_page router) menus

abbrev pub router : Router Callback
router = router_list new_router menus

-- The heights of the element `.content` and of the frames in it.
pub record Content : Type 0 where
  pub height : ℕ
  pub iframes : List ℕ

-- The handler of `resize`, which also runs at the start, for the height of the window. jQuery sets
-- no height below 0.
unfoldable pub resize : ℕ → Content → Content
resize window content =
    let height = window - 120 in
    record { height = height; iframes = map (λ iframe. height) content.iframes }

-- `vm` and the document.
pub record Frame (D : Type 0) : Type 0 where
  pub main : Text
  pub nav_title : Text
  pub doc : D

abbrev pub menu_items : Text
menu_items = codes ".treeview-menu li"

module _ (dom : Dom) where
  open dom use {Doc, select, parents, text, add_class, remove_class}

  abbrev unmark : Doc → Doc
  unmark d = remove_class (codes "active") (select (css menu_items) d) d

  abbrev mark : Text → Doc → Doc
  mark url d = add_class (codes "active") (parents (codes "li") (select (link url) d) d) d

  -- The callback; `url` is `window.location.hash`.
  pub show : Text → Frame Doc → Frame Doc
  show url f =
      let d = mark url (unmark f.doc) in
      record {
        main = remove_first (codes "#") url;
        nav_title = text (select (link url) d) d;
        doc = d;
      }

  abbrev called : Text × Option (Callback × List Text) → Frame Doc → Frame Doc
  called (hash, none) f = f
  called (hash, some (show_page, args)) f = show hash f

  -- The page is opened at a hash, or the hash changes to it: the router runs until it rests. Two
  -- reloads are enough.
  pub arrive : (Text → Text) → Text → Frame Doc → Frame Doc
  arrive assigned hash f = elim (settle assigned 2 router hash) [
    | none ↦ f
    | some rest ↦ called rest f
  ]
