-- ===== src/Router/Navigation.antt =====
-- router.js: `go`, `reload` and the browser's hashchange events.
use mq_kafka.Prelude.{
  ℕ, suc, ◌≡◌, refl, sym, ◌∙◌, ap, Option, none, some, List, [], ◌∷◌, arith, if◌then◌else◌, All,
  tail, Option-cases, inl, inr, Bool-cases,
}
use mathlib.Core.Option
use mq_kafka.Text.{Text, codes, eq_text, split, join, Free}
use mq_kafka.Text.Laws.{eq_text_iff, eq_text_refl, remove_first-append, split-join}
use mq_kafka.Router.{Router, call, jump, stay, get_cb, go, go_index, address, reload, settle}

module _ {ℓ} {C : Type ℓ} where
  pub address-go : (addr : Text) (r : Router C) → address r (go addr r) ≡ addr
  unfolding go
  address-go addr r = remove_first-append b'#' r.key addr

  reload_found :
      (r : Router C) (hash : Text) {cb : C}
      → get_cb (address r hash) r.hash_list ≡ some cb
      → reload r hash ≡ call cb (tail (split b'/' (address r hash)))
  unfolding reload
  reload_found r hash e = ground arith

  reload_missing :
      (r : Router C) (hash : Text)
      → get_cb (address r hash) r.hash_list ≡ none
      → reload r hash ≡ go_index r.index r
  unfolding reload
  reload_missing r hash e = ground arith

  -- Whatever the key is, after `go(addr)` a reload calls the callback registered at `addr` with
  -- the parts of `addr` behind its first slash.
  pub reload-go :
      (r : Router C) (p : Text) (ps : List Text) (cb : C)
      → All (Free b'/') (p ∷ ps)
      → get_cb (join (codes "/") (p ∷ ps)) r.hash_list ≡ some cb
      → reload r (go (join (codes "/") (p ∷ ps)) r) ≡ call cb ps
  reload-go r p ps cb h e =
      let addr = join (codes "/") (p ∷ ps) in
      let found = reload_found r (go addr r) {cb = cb} (rw (address-go addr r) e) in
      rw (found, address-go addr r, split-join b'/' p ps h)

  -- The callback that an address leads to, with its arguments.
  abbrev pub called : Router C → Text → Option (C × List Text)
  called r addr = Option.map (λ cb. (cb, tail (split b'/' addr))) (get_cb addr r.hash_list)

  abbrev home : Router C → Option Text → Text → Text × Option (C × List Text)
  home r none hash = (hash, none)
  home r (some []) hash = (hash, none)
  home r (some (c ∷ i)) hash = (go (c ∷ i) r, called r (c ∷ i))

  -- Where a visit of `hash` ends: at its own callback; else at the index, if there is one.
  unfoldable pub destination : Router C → Text → Text × Option (C × List Text)
  destination r hash = elim (get_cb (address r hash) r.hash_list) [
    | none ↦ home r r.index hash
    | some cb ↦ (hash, some (cb, tail (split b'/' (address r hash))))
  ]

  -- The browser reads the index's hash back as it was written.
  abbrev KeepsIndex : (Text → Text) → Router C → Type 0
  KeepsIndex assigned r = (i : Text) → r.index ≡ some i → assigned (go i r) ≡ go i r

  module _ (assigned : Text → Text) (fuel : ℕ) (r : Router C) where
    settle-call :
        (hash : Text) {cb : C}
        → get_cb (address r hash) r.hash_list ≡ some cb
        → settle assigned (suc fuel) r hash
          ≡ some (hash, some (cb, tail (split b'/' (address r hash))))
    unfolding settle
    settle-call hash e = rw (reload_found r hash e, settle)

    settle-stay :
        (hash : Text) → reload r hash ≡ stay → settle assigned (suc fuel) r hash ≡ some (hash, none)
    unfolding settle
    settle-stay hash e = rw (e, settle)

    settle-jump :
        (hash t : Text)
        → reload r hash ≡ jump t
        → assigned t ≡ t
        → settle assigned (suc fuel) r hash
          ≡ (if eq_text t hash then some (hash, none) else settle assigned fuel r t)
    unfolding settle
    settle-jump hash t e k = rw (e, settle) (rw k)

  module _ (assigned : Text → Text) (fuel : ℕ) (r : Router C) (hash : Text) where
    -- At the index's own hash the router calls the index's callback or does nothing more.
    settle-go_index :
        (c : ℕ) (i : Text)
        → r.index ≡ some (c ∷ i)
        → assigned (go (c ∷ i) r) ≡ go (c ∷ i) r
        → settle assigned (suc fuel) r (go (c ∷ i) r) ≡ some (go (c ∷ i) r, called r (c ∷ i))
    unfolding go_index
    settle-go_index c i e k = elim (Option-cases (get_cb (c ∷ i) r.hash_list)) [
      | inl missing ↦
          let at = reload_missing r (go (c ∷ i) r) (rw (address-go (c ∷ i) r) missing) in
          let again = settle-jump assigned fuel r _ _ (at ∙ rw e) k in
          again ∙ rw (eq_text_refl (go (c ∷ i) r), missing)
      | inr (cb, found) ↦
          let at =
            settle-call assigned fuel r (go (c ∷ i) r) {cb = cb}
              (rw (address-go (c ∷ i) r) found) in
          at ∙ rw (address-go (c ∷ i) r, found)
    ]

    settle-home :
        (index : Option Text)
        → r.index ≡ index
        → KeepsIndex assigned r
        → get_cb (address r hash) r.hash_list ≡ none
        → settle assigned (suc (suc fuel)) r hash ≡ some (home r index hash)
    unfolding go_index
    settle-home none e k missing =
        settle-stay assigned (suc fuel) r hash (reload_missing r hash missing ∙ rw e)
    settle-home (some []) e k missing =
        settle-stay assigned (suc fuel) r hash (reload_missing r hash missing ∙ rw e)
    settle-home (some (c ∷ i)) e k missing =
        let there = go (c ∷ i) r in
        let moved =
          settle-jump assigned (suc fuel) r hash there (reload_missing r hash missing ∙ rw e)
            (k (c ∷ i) e) in
        elim (Bool-cases (eq_text there hash)) [
          | inl same ↦
              let at : there ≡ hash = (eq_text_iff there hash).0 same in
              let unknown : get_cb (c ∷ i) r.hash_list ≡ none =
                rw (← address-go (c ∷ i) r, at) missing in
              moved ∙ rw (same, unknown) (ap (λ h. some (h, none)) (sym at))
          | inr other ↦ moved ∙ rw other (settle-go_index c i e (k (c ∷ i) e))
        ]

  -- Navigation always comes to rest after at most two reloads, whatever the hash, the table and the
  -- index are, if the browser reads the index's hash back as it was written. It rests at the hash's
  -- own callback where one is registered; otherwise at the index's hash, with the index's callback
  -- if there is one; and with no index, at the hash itself with no call.
  pub settle_total :
      (assigned : Text → Text) (fuel : ℕ) (r : Router C) (hash : Text)
      → KeepsIndex assigned r
      → settle assigned (suc (suc fuel)) r hash ≡ some (destination r hash)
  unfolding destination
  settle_total assigned fuel r hash k = elim (Option-cases (get_cb (address r hash) r.hash_list)) [
    | inl missing ↦
        settle-home assigned fuel r hash r.index refl k missing ∙ rw (missing, destination)
    | inr (cb, found) ↦ settle-call assigned (suc fuel) r hash found ∙ rw (found, destination)
  ]
