-- ===== src/Router/Table.antt =====
-- router.js: the route table (`add`, `remove`, `setIndex`, `getCb`) as a map from addresses.
use mq_kafka.Prelude.{◌≡◌, refl, ◌∙◌, Option, none, some, List, [], ◌∷◌, arith, if◌then◌else◌, ap}
use mq_kafka.Text.{Text, eq_text}
use mq_kafka.Text.Laws.{eq_text_iff}
use mq_kafka.Router.{Router, assign, discard, get_cb, add, remove, set_index, new_router}

module _ {ℓ} {C : Type ℓ} where
  -- No key stands twice, as in any JavaScript object.
  abbrev IsDistinct : List (Text × C) → Type ℓ
  IsDistinct [] = Unit
  IsDistinct ((key, cb) ∷ table) = (get_cb key table ≡ none) × IsDistinct table

  pub get_cb-assign :
      (a addr : Text) (cb : C) (table : List (Text × C))
      → get_cb a (assign addr cb table) ≡ (if eq_text addr a then some cb else get_cb a table)
  unfolding get_cb assign
  get_cb-assign a addr cb [] = refl
  get_cb-assign a addr cb ((key, old) ∷ table) = ground (
    arith,
    eq_text_iff key addr,
    eq_text_iff key a,
    eq_text_iff addr a,
    get_cb-assign a addr cb table,
  )

  get_cb-discard :
      (a addr : Text) (table : List (Text × C))
      → IsDistinct table
      → get_cb a (discard addr table) ≡ (if eq_text addr a then none else get_cb a table)
  unfolding get_cb discard
  get_cb-discard a addr [] d = ground arith
  get_cb-discard a addr ((key, old) ∷ table) d = ground (
    arith,
    eq_text_iff key addr,
    eq_text_iff key a,
    eq_text_iff addr a,
    get_cb-discard a addr table d.1,
  )

  assign-IsDistinct :
      (addr : Text) (cb : C) (table : List (Text × C))
      → IsDistinct table
      → IsDistinct (assign addr cb table)
  unfolding get_cb assign
  assign-IsDistinct addr cb [] d = (refl, tt)
  assign-IsDistinct addr cb ((key, old) ∷ table) d = ground (
    arith,
    eq_text_iff addr key,
    eq_text_iff key addr,
    get_cb-assign key addr cb table,
    assign-IsDistinct addr cb table d.1,
  )

  discard-IsDistinct :
      (addr : Text) (table : List (Text × C)) → IsDistinct table → IsDistinct (discard addr table)
  unfolding get_cb discard
  discard-IsDistinct addr [] d = tt
  discard-IsDistinct addr ((key, old) ∷ table) d =
      ground (arith, get_cb-discard key addr table d.1, discard-IsDistinct addr table d.1)

-- The calls that change the table.
pub data Edit {ℓ} (C : Type ℓ) : Type ℓ where
  adds : Text → C → Edit C
  removes : Text → Edit C
  indexes : Text → Edit C

module _ {ℓ} {C : Type ℓ} where
  abbrev apply : Edit C → Router C → Router C
  apply (adds addr cb) r = add addr cb r
  apply (removes addr) r = remove addr r
  apply (indexes addr) r = set_index addr r

  abbrev pub run : List (Edit C) → Router C → Router C
  run [] r = r
  run (e ∷ es) r = run es (apply e r)

  -- What a map from addresses holds at `a` after the same calls.
  abbrev pub held : Text → List (Edit C) → Option C → Option C
  held a [] o = o
  held a (adds addr cb ∷ es) o = held a es (if eq_text addr a then some cb else o)
  held a (removes addr ∷ es) o = held a es (if eq_text addr a then none else o)
  held a (indexes addr ∷ es) o = held a es o

  apply-IsDistinct :
      (e : Edit C) (r : Router C) → IsDistinct r.hash_list → IsDistinct (apply e r).hash_list
  unfolding add remove set_index
  apply-IsDistinct (adds addr cb) r d = assign-IsDistinct addr cb r.hash_list d
  apply-IsDistinct (removes addr) r d = discard-IsDistinct addr r.hash_list d
  apply-IsDistinct (indexes addr) r d = d

  get_cb-run_from :
      (a : Text) (es : List (Edit C)) (r : Router C)
      → IsDistinct r.hash_list
      → get_cb a (run es r).hash_list ≡ held a es (get_cb a r.hash_list)
  unfolding add remove set_index
  get_cb-run_from a [] r d = refl
  get_cb-run_from a (adds addr cb ∷ es) r d =
      get_cb-run_from a es (add addr cb r) (apply-IsDistinct (adds addr cb) r d)
      ∙ ap (held a es) (get_cb-assign a addr cb r.hash_list)
  get_cb-run_from a (removes addr ∷ es) r d =
      get_cb-run_from a es (remove addr r) (apply-IsDistinct (removes addr) r d)
      ∙ ap (held a es) (get_cb-discard a addr r.hash_list d)
  get_cb-run_from a (indexes addr ∷ es) r d = get_cb-run_from a es (set_index addr r) d

  -- After any sequence of `add`, `remove` and `setIndex` calls on a new router, `getCb` finds at
  -- each address what a map holds after the same calls: the last callback added there, unless it
  -- was removed since.
  pub get_cb-run :
      (a : Text) (es : List (Edit C)) → get_cb a (run es new_router).hash_list ≡ held a es none
  unfolding get_cb
  get_cb-run a es = get_cb-run_from a es new_router tt
