-- ===== src/Sidebar/Tree.antt =====
-- app.js: the submenus of the sidebar.
use mq_kafka.Prelude.{
  ℕ, zero, suc, ◌≡◌, refl, Bool, true, false, Option-cases, inl, inr, Option, none, some, List, [],
  ◌∷◌, map, arith, if◌then◌else◌,
}
use mq_kafka.Sidebar.{
  Leaf, Submenu, Item, unmark_leaf, shut_item, open_item, open_at, close_at, submenu_at, click,
}

abbrev any_leaf : List Leaf → Bool
any_leaf [] = false
any_leaf (l ∷ ls) = if l.active then true else any_leaf ls

abbrev marked_in : Option Submenu → Bool
marked_in none = false
marked_in (some m) = any_leaf m.leaves

-- Whether some item of a submenu is marked, and whether the item of that number is.
abbrev pub any_marked : List Item → Bool
any_marked [] = false
any_marked (g ∷ gs) = if marked_in g.submenu then true else any_marked gs

abbrev pub active_at : ℕ → List Item → Bool
active_at i [] = false
active_at zero (g ∷ gs) = g.active
active_at (suc i) (g ∷ gs) = active_at i gs

any_leaf-unmark : (ls : List Leaf) → any_leaf (map unmark_leaf ls) ≡ false
any_leaf-unmark [] = refl
any_leaf-unmark (l ∷ ls) = any_leaf-unmark ls

marked_in-shut_item : (g : Item) → marked_in (shut_item g).submenu ≡ false
unfolding shut_item
marked_in-shut_item g = elim (Option-cases g.submenu) [
  | inl e ↦ rw e
  | inr (m, e) ↦ rw e (any_leaf-unmark m.leaves)
]

marked_in-open_item : (g : Item) → marked_in (open_item g).submenu ≡ false
unfolding open_item
marked_in-open_item g = elim (Option-cases g.submenu) [
  | inl e ↦ rw e
  | inr (m, e) ↦ rw e (any_leaf-unmark m.leaves)
]

any_marked-shut_item : (gs : List Item) → any_marked (map shut_item gs) ≡ false
any_marked-shut_item [] = refl
any_marked-shut_item (g ∷ gs) = rw (marked_in-shut_item g) (any_marked-shut_item gs)

any_marked-open_at : (i : ℕ) (gs : List Item) → any_marked (open_at i gs) ≡ false
unfolding open_at
any_marked-open_at i [] = refl
any_marked-open_at zero (g ∷ gs) = rw (marked_in-open_item g) (any_marked-shut_item gs)
any_marked-open_at (suc i) (g ∷ gs) = rw (marked_in-shut_item g) (any_marked-open_at i gs)

submenu_at-close_at :
    (i : ℕ) (gs : List Item)
    → submenu_at i gs ≡ some true
    → submenu_at i (close_at i gs) ≡ some false
unfolding submenu_at close_at
submenu_at-close_at i [] h = cc
submenu_at-close_at zero (g ∷ gs) h = ground arith
submenu_at-close_at (suc i) (g ∷ gs) h = submenu_at-close_at i gs h

submenu_at-open_at :
    (i : ℕ) (gs : List Item) {v : Bool}
    → submenu_at i gs ≡ some v
    → (submenu_at i (open_at i gs) ≡ some true) × (active_at i (open_at i gs) ≡ true)
unfolding submenu_at open_at
submenu_at-open_at i [] h = cc
submenu_at-open_at zero (g ∷ gs) h = ground arith
submenu_at-open_at (suc i) (g ∷ gs) h = submenu_at-open_at i gs h

-- Closing a visible submenu and opening it again leaves it visible with its own item marked, but
-- with no mark on any item of a submenu: the mark that index.js gave to the page shown is gone.
pub click-click :
    (i : ℕ) (gs : List Item)
    → submenu_at i gs ≡ some true
    → let again = click false i (click false i gs) in
      (submenu_at i again ≡ some true) × (active_at i again ≡ true) × (any_marked again ≡ false)
unfolding click
click-click i gs h =
    let closed = submenu_at-close_at i gs h in
    let first : click false i gs ≡ close_at i gs = rw (h, click) in
    let second : click false i (close_at i gs) ≡ open_at i (close_at i gs) = rw (closed, click) in
    let back = submenu_at-open_at i (close_at i gs) closed in
    rw (first, second) (back.0, back.1, any_marked-open_at i (close_at i gs))
