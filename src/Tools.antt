-- ===== src/Tools.antt =====
-- code-generator/src/main/resources/static/js/common.js: the helpers that every page of the console
-- loads. `Params` models `T.p`, `Selection` the two row selectors, and this file
-- `hasPermission`, the dialogs and `isBlank`.
pub mod Escapes
pub mod Params
pub mod Selection
pub mod Laws
mod Tests
use mathlib.Core.Option
use mq_kafka.Prelude.{
  ℕ, suc, Bool, true, false, not, ◌&&◌, ◌||◌, Option, none, some, List, [], ◌∷◌, ◌++◌, ◌==◌, leb,
  if◌then◌else◌,
}
use mq_kafka.Text.{Text, codes, eq_text}

-- `texts.indexOf(t)`; `none` is -1.
index_of : Text → List Text → Option ℕ
index_of t [] = none
index_of t (x ∷ xs) = if eq_text x t then some 0 else Option.map suc (index_of t xs)

-- `window.parent.permissions` is the argument.
pub has_permission : List Text → Text → Bool
unfolding index_of
has_permission permissions permission = elim (index_of permission permissions) [
  | none ↦ false
  | some i ↦ true
]

-- What a button of a dialog does: close the dialog of that number, or call the page's callback.
pub data Effect {ℓ} (C : Type ℓ) : Type ℓ where
  close : ℕ → Effect C
  call_back : C → Text → Effect C

-- A dialog that the scripts hand to `parent.layer`: its text, its buttons where the script names
-- them, and the effects of the confirming button, given the dialog's number.
pub record Dialog {ℓ} (C : Type ℓ) : Type ℓ where
  pub message : Text
  pub buttons : List Text
  pub on_ok : ℕ → List (Effect C)

module _ {ℓ} {C : Type ℓ} where
  -- `if (typeof(callback) === "function") callback("ok")`; `none` is any other value.
  abbrev pub notify : Option C → List (Effect C)
  notify none = []
  notify (some callback) = call_back callback (codes "ok") ∷ []

  pub alert : Text → Option C → Dialog C
  alert msg callback = record {
    message = msg;
    buttons = [];
    on_ok = λ index. close index ∷ notify callback;
  }

  pub confirm : Text → Option C → Dialog C
  confirm msg callback = record {
    message = msg;
    buttons = codes "确定" ∷ codes "取消" ∷ [];
    on_ok = λ index. notify callback;
  }

-- The class `\s` of a JavaScript pattern.
pub is_space : ℕ → Bool
is_space c =
    (leb 0x9 c && leb c 0xd)
    || c == 0x20
    || c == 0xa0
    || c == 0x1680
    || (leb 0x2000 c && leb c 0x200a)
    || c == 0x2028
    || c == 0x2029
    || c == 0x202f
    || c == 0x205f
    || c == 0x3000
    || c == 0xfeff

-- `/\S/.test(text)`
pub has_non_space : Text → Bool
unfolding is_space
has_non_space [] = false
has_non_space (c ∷ s) = not (is_space c) || has_non_space s

-- `!value || !/\S/.test(value)`, where a field holds null or a text.
unfoldable pub is_blank : Option Text → Bool
unfolding has_non_space
is_blank none = true
is_blank (some []) = true
is_blank (some (c ∷ s)) = not (has_non_space (c ∷ s))
