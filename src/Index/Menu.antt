-- ===== src/Index/Menu.antt =====
-- index.js: which page is shown and which items of the menu are marked.
use mq_kafka.Prelude.{
  ℕ, ◌≡◌, refl, ◌∙◌, ap, ◌≢◌, inl, inr, Bool, true, false, not, ◌&&◌, ◌||◌, Bool-cases, none, some,
  List, [], ◌∷◌, ◌++◌, map, if◌then◌else◌, arith,
}
use mq_kafka.Text.{Text, codes, eq_text, remove_first, contains_text, Free}
use mq_kafka.Text.Laws.{remove_first-append, remove_first_of_Free_second}
use mq_kafka.Router.{Router, new_router, add, get_cb, go, address, settle}
use mq_kafka.Router.Table.{get_cb-assign}
use mq_kafka.Router.Navigation.{settle_total, destination, address-go}
use mq_kafka.Dom.{Dom, css, link, contains}
use mq_kafka.Index.{
  Callback, show_page, menus, router_list, router, Frame, menu_items, show, arrive,
}

-- The hashes of the menus, in the order of their registration.
abbrev pub routes : List Text → List Text
routes = map (λ menu. codes "#" ++ menu)

get_cb-add :
    (a addr : Text) (r : Router Callback)
    → get_cb a (add addr show_page r).hash_list
      ≡ (if eq_text addr a then some show_page else get_cb a r.hash_list)
unfolding add
get_cb-add a addr r = get_cb-assign a addr show_page r.hash_list

get_cb-router_list :
    (a : Text) (ms : List Text) (r : Router Callback)
    → get_cb a (router_list r ms).hash_list
      ≡ (if contains_text a (routes ms) then some show_page else get_cb a r.hash_list)
unfolding router_list contains_text
get_cb-router_list a [] r = refl
get_cb-router_list a (m ∷ ms) r = ground (
  arith,
  get_cb-router_list a ms (add (codes "#" ++ m) show_page r),
  get_cb-add a (codes "#" ++ m) r,
)

router_list-index : (ms : List Text) (r : Router Callback) → (router_list r ms).index ≡ r.index
unfolding router_list add
router_list-index [] r = refl
router_list-index (m ∷ ms) r = router_list-index ms (add (codes "#" ++ m) show_page r)

router_list-key : (ms : List Text) (r : Router Callback) → (router_list r ms).key ≡ r.key
unfolding router_list add
router_list-key [] r = refl
router_list-key (m ∷ ms) r = router_list-key ms (add (codes "#" ++ m) show_page r)

router-index : router.index ≡ none
router-index = router_list-index menus new_router

abbrev is_route : Text → Bool
is_route addr = contains_text addr (routes menus)

get_cb-router :
    (a : Text) → get_cb a router.hash_list ≡ (if is_route a then some show_page else none)
unfolding get_cb
get_cb-router a = get_cb-router_list a menus new_router

address-router : (hash : Text) → Free b'!' hash → address router hash ≡ hash
address-router hash h =
    ap (λ k. remove_first (codes "#" ++ k) hash) (router_list-key menus new_router)
    ∙ remove_first_of_Free_second b'#' b'!' [] hash h

module _ (dom : Dom) (assigned : Text → Text) (hash : Text) (f : Frame dom.Doc) where
  settle-router : settle assigned 2 router hash ≡ some (destination router hash)
  settle-router = settle_total assigned 0 router hash (λ i e. cc router-index)

  arrive_at :
      arrive dom assigned hash f ≡ (if is_route (address router hash) then show dom hash f else f)
  unfolding arrive destination
  arrive_at = elim (Bool-cases (is_route (address router hash))) [
    | inl known ↦
        rw (settle-router, arrive) (rw (get_cb-router (address router hash), known, destination))
    | inr other ↦
        rw (settle-router, arrive)
          (rw (get_cb-router (address router hash), other, destination, router-index))
  ]

contains_text-routes :
    (c : ℕ) (s : Text) (ms : List Text) → c ≢ b'#' → contains_text (c ∷ s) (routes ms) ≡ false
unfolding contains_text
contains_text-routes c s [] n = refl
contains_text-routes c s (m ∷ ms) n = ground (arith, contains_text-routes c s ms n)

module _ (dom : Dom) (f : Frame dom.Doc) where
  open dom use {select, parents, text, has_class}

  module _ (url : Text) where
    select-show :
        (d : dom.Doc)
        → select (link url) (dom.remove_class (codes "active") (select (css menu_items) d) d)
          ≡ select (link url) d
    select-show d = dom.select_removed (link url) _ _ d tt

    unmarked : dom.Doc
    unmarked = dom.remove_class (codes "active") (select (css menu_items) f.doc) f.doc

    doc-show :
        (show dom url f).doc
        ≡ dom.add_class
            (codes "active")
            (parents (codes "li") (select (link url) f.doc) f.doc)
            unmarked
    unfolding show unmarked
    doc-show =
        ap (λ ls. dom.add_class (codes "active") (parents (codes "li") ls unmarked) unmarked)
          (select-show f.doc)
        ∙ ap (λ ps. dom.add_class (codes "active") ps unmarked) (dom.parents_removed _ _ _ _ _)

    show-marks :
        (k : Text) (n : ℕ)
        → has_class k (show dom url f).doc n ≡ (
            if eq_text (codes "active") k
            then contains n (parents (codes "li") (select (link url) f.doc) f.doc)
              || (has_class k f.doc n && not (contains n (select (css menu_items) f.doc)))
            else has_class k f.doc n)
    unfolding unmarked
    show-marks k n =
        ap (λ d. has_class k d n) doc-show
        ∙ dom.has_class_added (codes "active") k _ _ n
        ∙ rw (dom.has_class_removed (codes "active") k _ _ n) (ground arith)

    show-title : (show dom url f).nav_title ≡ text (select (link url) f.doc) f.doc
    unfolding show
    show-title =
        rw (
          dom.select_added (link url) _ _ _ tt,
          select-show f.doc,
          dom.text_added,
          dom.text_removed,
        )

module _ (dom : Dom) (assigned : Text → Text) (f : Frame dom.Doc) where
  open dom use {select, parents, text, has_class}

  -- Opening a page of the menu by its hash loads that page into the frame, takes the title from the
  -- links to it, marks the items around those links, unmarks the other items of the menu, and
  -- changes no other mark and no other class. The page's name holds no `!`.
  pub arrive_route :
      (page : Text)
      → Free b'!' page
      → contains_text (codes "#" ++ page) (routes menus) ≡ true
      → let url : Text = codes "#" ++ page in
        let g = arrive dom assigned url f in
        (g.main ≡ page)
        × (g.nav_title ≡ text (select (link url) f.doc) f.doc)
        × ((k : Text) (n : ℕ)
            → has_class k g.doc n ≡ (
                if eq_text (codes "active") k
                then contains n (parents (codes "li") (select (link url) f.doc) f.doc)
                  || (has_class k f.doc n && not (contains n (select (css menu_items) f.doc)))
                else has_class k f.doc n))
  unfolding show
  arrive_route page h known =
      let url : Text = codes "#" ++ page in
      let e : arrive dom assigned url f ≡ show dom url f =
        arrive_at dom assigned url f ∙ rw (address-router url ((λ p. cc p), h), known) in
      (
        ap (λ g. g.main) e ∙ remove_first-append b'#' [] page,
        ap (λ g. g.nav_title) e ∙ show-title dom f url,
        λ k n. ap (λ g. has_class k g.doc n) e ∙ show-marks dom f url k n,
      )

  -- A hash that is no page of the menu and holds no `!` changes nothing.
  pub arrive_other :
      (hash : Text)
      → Free b'!' hash
      → contains_text hash (routes menus) ≡ false
      → arrive dom assigned hash f ≡ f
  arrive_other hash h other = arrive_at dom assigned hash f ∙ rw (address-router hash h, other)

  -- Nor does the hash that `go` writes for an address without a leading `#`, such as that of a page
  -- of the menu: the pages are registered under addresses with one.
  pub arrive-go :
      (c : ℕ) (addr : Text) → c ≢ b'#' → arrive dom assigned (go (c ∷ addr) router) f ≡ f
  arrive-go c addr n =
      arrive_at dom assigned (go (c ∷ addr) router) f
      ∙ rw (address-go (c ∷ addr) router, contains_text-routes c addr menus n)
