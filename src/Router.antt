-- ===== src/Router.antt =====
-- code-generator/src/main/resources/static/libs/router.js: the hash router of the console.
-- A callback is a value of any type `C`; addresses and hashes are texts. The router is created
-- with an empty table, no index and the key "!". Addresses are those that a JavaScript object
-- takes as a key of its own (all but "__proto__").
pub mod Table
pub mod Navigation
mod Tests
use mq_kafka.Prelude.{
  ℕ, zero, suc, Bool, Option, none, some, List, [], ◌∷◌, ◌++◌, if◌then◌else◌, tail,
}
use mq_kafka.Text.{Text, codes, eq_text, remove_first, split}

module _ {ℓ} {C : Type ℓ} where
  -- `self.hashList[addr] = callback`
  pub assign : Text → C → List (Text × C) → List (Text × C)
  assign addr cb [] = (addr, cb) ∷ []
  assign addr cb ((key, old) ∷ table) =
      if eq_text key addr then (key, cb) ∷ table else (key, old) ∷ assign addr cb table

  -- `delete self.hashList[addr]`
  pub discard : Text → List (Text × C) → List (Text × C)
  discard addr [] = []
  discard addr ((key, cb) ∷ table) =
      if eq_text key addr then table else (key, cb) ∷ discard addr table

  -- The loop over the keys; `none` is its result `false`.
  unfoldable pub get_cb : Text → List (Text × C) → Option C
  get_cb addr [] = none
  get_cb addr ((key, cb) ∷ table) = if eq_text key addr then some cb else get_cb addr table

pub record Router {ℓ} (C : Type ℓ) : Type ℓ where
  pub hash_list : List (Text × C)
  pub index : Option Text
  pub key : Text

-- What one `reload` does: call a callback with arguments, write the hash, or nothing.
pub data Outcome {ℓ} (C : Type ℓ) : Type ℓ where
  call : C → List Text → Outcome C
  jump : Text → Outcome C
  stay : Outcome C

module _ {ℓ} {C : Type ℓ} where
  abbrev pub new_router : Router C
  new_router = record { hash_list = []; index = none; key = codes "!" }

  unfoldable pub add : Text → C → Router C → Router C
  unfolding assign
  add addr cb r = record r { hash_list = assign addr cb r.hash_list }

  pub remove : Text → Router C → Router C
  unfolding discard
  remove addr r = record r { hash_list = discard addr r.hash_list }

  pub set_index : Text → Router C → Router C
  set_index addr r = record r { index = some addr }

  abbrev marker : Router C → Text
  marker r = codes "#" ++ r.key

  -- The text that `go` writes to `window.location.hash`.
  pub go : Text → Router C → Text
  go addr r = marker r ++ addr

  -- `self.index && self.go(self.index)`: neither null nor "" leads anywhere.
  pub go_index : Option Text → Router C → Outcome C
  unfolding go
  go_index none r = stay
  go_index (some []) r = stay
  go_index (some (c ∷ addr)) r = jump (go (c ∷ addr) r)

  abbrev pub address : Router C → Text → Text
  address r hash = remove_first (marker r) hash

  unfoldable pub reload : Router C → Text → Outcome C
  unfolding go_index get_cb remove_first split
  reload r hash = elim (get_cb (address r hash) r.hash_list) [
    | none ↦ go_index r.index r
    | some cb ↦ call cb (tail (split b'/' (address r hash)))
  ]

  unfoldable pub start : Router C → Text → Outcome C
  unfolding reload
  start r hash = reload r hash

  -- The browser's part: `assigned t` is what `window.location.hash` reads after `t` was written to
  -- it, and `onhashchange` runs `reload` if that differs from the hash before. The result is the
  -- last hash and the callback that ran, if one did; `none` means that the fuel ran out.
  pub settle : (Text → Text) → ℕ → Router C → Text → Option (Text × Option (C × List Text))
  settle assigned zero r hash = none
  settle assigned (suc fuel) r hash = elim (reload r hash) [
    | call cb args ↦ some (hash, some (cb, args))
    | jump t ↦
        let next = settle assigned fuel r (assigned t) in
        if eq_text (assigned t) hash then some (hash, none) else next
    | stay ↦ some (hash, none)
  ]
