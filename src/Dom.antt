-- ===== src/Dom.antt =====
-- The document of a page and the jQuery calls by which the console's scripts read and change it.
-- The browser and jQuery are not part of the program: this record is what the scripts use of them,
-- with the documented behaviour that the theorems rest on. An element is a number.
use mq_kafka.Prelude.{ℕ, ◌≡◌, Bool, true, false, ◌&&◌, ◌||◌, List, [], ◌∷◌, ◌==◌, if◌then◌else◌}
use mq_kafka.Text.{Text, eq_text, occurs}

unfoldable pub contains : ℕ → List ℕ → Bool
contains n [] = false
contains n (m ∷ ms) = m == n || contains n ms

-- What the scripts pass to `$`: a selector of tags and classes, or the links to an address,
-- `a[href='…']`.
pub data Selector : Type 0 where
  css : Text → Selector
  link : Text → Selector

-- The selector does not mention the class.
abbrev pub Ignores : Text → Selector → Type 0
Ignores c (css s) = occurs c s ≡ false
Ignores c (link url) = Unit

pub record Dom : Type 1 where
  pub Doc : Type 0
  pub select : Selector → Doc → List ℕ
  pub parents : Text → List ℕ → Doc → List ℕ
  pub text : List ℕ → Doc → Text
  pub has_class : Text → Doc → ℕ → Bool
  pub add_class : Text → List ℕ → Doc → Doc
  pub remove_class : Text → List ℕ → Doc → Doc
  pub has_class_added :
      (c k : Text) (ns : List ℕ) (d : Doc) (n : ℕ)
      → has_class k (add_class c ns d) n
        ≡ (if eq_text c k && contains n ns then true else has_class k d n)
  pub has_class_removed :
      (c k : Text) (ns : List ℕ) (d : Doc) (n : ℕ)
      → has_class k (remove_class c ns d) n
        ≡ (if eq_text c k && contains n ns then false else has_class k d n)
  pub select_added :
      (s : Selector) (c : Text) (ns : List ℕ) (d : Doc)
      → Ignores c s
      → select s (add_class c ns d) ≡ select s d
  pub select_removed :
      (s : Selector) (c : Text) (ns : List ℕ) (d : Doc)
      → Ignores c s
      → select s (remove_class c ns d) ≡ select s d
  pub parents_removed :
      (t c : Text) (ms ns : List ℕ) (d : Doc) → parents t ms (remove_class c ns d) ≡ parents t ms d
  pub text_added : (c : Text) (ms ns : List ℕ) (d : Doc) → text ms (add_class c ns d) ≡ text ms d
  pub text_removed :
      (c : Text) (ms ns : List ℕ) (d : Doc) → text ms (remove_class c ns d) ≡ text ms d
