-- ===== src/Index/Tests.antt =====
-- index.js on the document of views/index.html: a group (item 1) around the menu's two items, 2 and
-- 3, with the links 12 and 13.
use mq_kafka.Prelude.{
  ℕ, ◌-◌, ◌≡◌, refl, Bool, true, false, not, ◌&&◌, ◌||◌, List, [], ◌∷◌, ◌++◌, ◌==◌, if◌then◌else◌,
  arith,
}
use mq_kafka.Text.{Text, codes, eq_text, contains_text}
use mq_kafka.Dom.{Dom, Selector, css, link, contains}
use mq_kafka.Index.{resize, Frame, menu_items, arrive}
use mq_kafka.Index.Menu.{arrive_route}

abbrev Classes : Type 0
Classes = Text → ℕ → Bool

abbrev links_to : Text → List ℕ
links_to url =
    if eq_text url (codes "#main.html")
    then 12 ∷ []
    else if eq_text url (codes "#generator.html")
    then 13 ∷ []
    else []

abbrev chosen : Selector → List ℕ
chosen (css s) = if eq_text s menu_items then 2 ∷ 3 ∷ [] else []
chosen (link url) = links_to url

abbrev around : List ℕ → List ℕ
around [] = []
around (n ∷ ns) = (n - 10) ∷ 1 ∷ around ns

abbrev label : List ℕ → Text
label [] = []
label (n ∷ ns) = (if n == 12 then codes " 介绍" else codes "生成代码") ++ label ns

abbrev console : Dom
console = record {
  Doc = Classes;
  select = λ s d. chosen s;
  parents = λ t ns d. around ns;
  text = λ ns d. label ns;
  has_class = λ k d n. d k n;
  add_class = λ c ns d k n. if eq_text c k && contains n ns then true else d k n;
  remove_class = λ c ns d k n. if eq_text c k && contains n ns then false else d k n;
  has_class_added = λ c k ns d n. refl;
  has_class_removed = λ c k ns d n. refl;
  select_added = λ s c ns d i. refl;
  select_removed = λ s c ns d i. refl;
  parents_removed = λ t c ms ns d. refl;
  text_added = λ c ms ns d. refl;
  text_removed = λ c ms ns d. refl;
}

-- The page as it is delivered, with the group and its first item marked.
abbrev delivered : Frame Classes
delivered = record {
  main = codes "main.html";
  nav_title = codes "介绍页";
  doc = λ k n. eq_text (codes "active") k && (n == 1 || n == 2);
}

abbrev at_generator : Frame Classes
at_generator = arrive console (λ t. t) (codes "#generator.html") delivered

arrive_route_example :
    (at_generator.main ≡ codes "generator.html")
    × (at_generator.nav_title ≡ codes "生成代码")
    × ((k : Text) (n : ℕ)
        → at_generator.doc k n ≡ (
            if eq_text (codes "active") k
            then contains n (3 ∷ 1 ∷ [])
              || ((eq_text (codes "active") k && (n == 1 || n == 2))
                  && not (contains n (2 ∷ 3 ∷ [])))
            else eq_text (codes "active") k && (n == 1 || n == 2)))
unfolding eq_text contains_text
arrive_route_example =
    arrive_route console (λ t. t) delivered (codes "generator.html") (omega arith) refl

resize_768 :
    resize 768 (record { height = 0; iframes = 150 ∷ [] })
    ≡ record { height = 648; iframes = 648 ∷ [] }
unfolding resize
resize_768 = refl
