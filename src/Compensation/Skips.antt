-- ===== src/Compensation/Skips.antt =====
-- KakaMQMessageTask.java, `onWork`: the pages behind one whose messages the run has moved away.
use mq_kafka.Prelude.{
  ℕ, suc, ◌+◌, ◌-◌, ◌*◌, ◌<◌, ◌≤◌, ◌≡◌, ◌≢◌, refl, sym, subst, ap, ◌∙◌, inl, inr, Bool, false,
  Bool-cases, Option, none, some, List, [], ◌∷◌, ◌++◌, map, append_assoc, append-nil, length, ◌==◌,
  if◌then◌else◌, arith, All,
}
use mq_kafka.Compensation.{MsgLog, Store, World, handle_msg_log, is_some}
use mq_kafka.Compensation.Paging.{
  take, drop, row, logs_in_process, find_by_page, answered, set, Run, handle_rows, is_empty, pages,
}
use mq_kafka.Compensation.Held.{
  All-of, Distinct, Distinct-held, Distinct-take, drop-long, drop-zero, held, held-left,
  is_empty-take, left, length-drop, length-map, member,
}
use mq_kafka.Compensation.Coverage.{in_process, All-take, map-take}

pub set-other : (m k : ℕ) (s : Store) (db : ℕ → Store) → k ≢ m → set m s db k ≡ db k
set-other m k s db n = let e : (m == k) ≡ false = ground (arith, n) in rw e refl

-- The messages of the first database that are among those are not in process in the second, and the
-- others are as before.
abbrev Gone : List ℕ → (ℕ → Store) → (ℕ → Store) → Type 0
Gone ids db db' =
    (k : ℕ) → is_some (db' k).process ≡ (if member k ids then false else is_some (db k).process)

-- A row as it stands in the database, which its handling takes out of process.
abbrev Leaves : (ℕ → World) → (ℕ → ℕ) → (ℕ → Store) → ℕ × MsgLog → Type 0
Leaves w now db e = is_some (handle_msg_log (w e.0) (now e.0) e.1 (db e.0)).process ≡ false

Leaves-set :
    (w : ℕ → World) (now : ℕ → ℕ) (db : ℕ → Store) (m : ℕ) (s : Store) (rows : List (ℕ × MsgLog))
    → All (λ k. k ≢ m) (map (λ e. e.0) rows)
    → All (Leaves w now db) rows
    → All (Leaves w now (set m s db)) rows
Leaves-set w now db m s [] n h = tt
Leaves-set w now db m s (e ∷ es) n h = (
  ap (λ x. is_some (handle_msg_log (w e.0) (now e.0) e.1 x).process) (set-other m e.0 s db n.0)
      ∙ h.0,
  Leaves-set w now db m s es n.1 h.1,
)

set-Gone :
    (m : ℕ) (s : Store) (db : ℕ → Store) (ids : List ℕ) (k : ℕ)
    → is_some s.process ≡ false
    → (if member k ids then false else is_some (set m s db k).process)
      ≡ (if member k (m ∷ ids) then false else is_some (db k).process)
set-Gone m s db ids k e = elim (Bool-cases (m == k)) [
  | inl same ↦ elim (Bool-cases (member k ids)) [
    | inl inside ↦ rw (same, inside) refl
    | inr outside ↦ rw (same, outside) e
  ]
  | inr other ↦ rw other refl
]

module _ (w : ℕ → World) (now : ℕ → ℕ) where
  handle_rows-Gone :
      (rows : List (ℕ × MsgLog)) (r : Run)
      → Distinct (map (λ e. e.0) rows)
      → All (Leaves w now r.db) rows
      → ((handle_rows w now rows r).handled ≡ r.handled ++ map (λ e. e.0) rows)
        × Gone (map (λ e. e.0) rows) r.db (handle_rows w now rows r).db
  unfolding handle_rows
  handle_rows-Gone [] r d h = (sym (append-nil r.handled), λ k. refl)
  handle_rows-Gone ((m, it) ∷ rows) r d h =
      let s = handle_msg_log (w m) (now m) it (r.db m) in
      let ids = map (λ (e : ℕ × MsgLog). e.0) rows in
      let next : Run = record { handled = r.handled ++ m ∷ []; db = set m s r.db } in
      let rest = handle_rows-Gone rows next d.1 (Leaves-set w now r.db m s rows d.0 h.1) in
      (rest.0 ∙ append_assoc r.handled (m ∷ []) ids, λ k. rest.1 k ∙ set-Gone m s r.db ids k h.0)

row-held :
    (m : ℕ) (o : Option MsgLog) (rows : List (ℕ × MsgLog))
    → map (λ e. e.0) (row m o rows)
      ≡ (if is_some o then m ∷ map (λ e. e.0) rows else map (λ e. e.0) rows)
row-held m none rows = refl
row-held m (some it) rows = refl

pub in_process-held :
    (order : List ℕ) (db : ℕ → Store)
    → in_process order db ≡ held (λ m. is_some (db m).process) order
unfolding in_process logs_in_process held
in_process-held [] db = refl
in_process-held (m ∷ ms) db =
    row-held m (db m).process (logs_in_process ms db)
    ∙ ap (λ ids. if is_some (db m).process then m ∷ ids else ids) (in_process-held ms db)

ids-logs :
    (order : List ℕ) (db : ℕ → Store)
    → map (λ e. e.0) (logs_in_process order db) ≡ in_process order db
unfolding in_process
ids-logs order db = refl

module _ (w : ℕ → World) (now : ℕ → ℕ) (db : ℕ → Store)
    (leaves : (m : ℕ) (it : MsgLog)
      → (db m).process ≡ some it
      → is_some (handle_msg_log (w m) (now m) it (db m)).process ≡ false) where
  row-Leaves :
      (m : ℕ) (o : Option MsgLog) (rows : List (ℕ × MsgLog))
      → (db m).process ≡ o
      → All (Leaves w now db) rows
      → All (Leaves w now db) (row m o rows)
  row-Leaves m none rows e h = h
  row-Leaves m (some it) rows e h = (leaves m it e, h)

  logs_in_process-Leaves : (order : List ℕ) → All (Leaves w now db) (logs_in_process order db)
  unfolding logs_in_process
  logs_in_process-Leaves [] = tt
  logs_in_process-Leaves (m ∷ ms) =
      row-Leaves m (db m).process (logs_in_process ms db) refl (logs_in_process-Leaves ms)

  -- After the first page the messages of that page are not in process, and the others are.
  first_page :
      (size : ℕ) (order : List ℕ)
      → Distinct order
      → let start : Run = record { handled = []; db = db } in
        let after = handle_rows w now (take size (logs_in_process order db)) start in
        (after.handled ≡ take size (in_process order db))
        × (in_process order after.db ≡ drop size (in_process order db))
  first_page size order d =
      let rows = take size (logs_in_process order db) in
      let there : ℕ → Bool = λ m. is_some (db m).process in
      let same : in_process order db ≡ held there order = in_process-held order db in
      let ids : map (λ (e : ℕ × MsgLog). e.0) rows ≡ take size (held there order) =
        map-take (λ (e : ℕ × MsgLog). e.0) size (logs_in_process order db)
        ∙ ap (take size) (ids-logs order db ∙ same) in
      let apart : Distinct (map (λ (e : ℕ × MsgLog). e.0) rows) =
        subst Distinct (sym ids)
          (Distinct-take size (held there order) (Distinct-held there order d)) in
      let gone =
        handle_rows-Gone w now rows (record { handled = []; db = db }) apart
          (All-take (Leaves w now db) size (logs_in_process order db)
            (logs_in_process-Leaves order)) in
      let after = handle_rows w now rows (record { handled = []; db = db }) in
      let q : ℕ → Bool = λ m. is_some (after.db m).process in
      (
        gone.0 ∙ ids ∙ ap (take size) (sym same),
        in_process-held order after.db
            ∙ held-left size there q order d (
                All-of (λ k. q k ≡ left size there order k)
                  (λ k. gone.1 k ∙ ap (λ l. if member k l then false else there k) ids) order)
            ∙ ap (drop size) (sym same),
      )

length-ids :
    (order : List ℕ) (db : ℕ → Store)
    → length (logs_in_process order db) ≡ length (in_process order db)
length-ids order db =
    sym (length-map (λ (e : ℕ × MsgLog). e.0) (logs_in_process order db))
    ∙ ap length (ids-logs order db)

module _ (w : ℕ → World) (now : ℕ → ℕ) (size : ℕ) (order : List ℕ) where
  -- A pass on these rows, with answers and without other processes.
  pages-more :
      (fuel page : ℕ) (r : Run) (rows : List (ℕ × MsgLog))
      → find_by_page size page (logs_in_process order r.db) ≡ rows
      → is_empty rows ≡ false
      → pages (λ n. answered) (λ n db. db) w now size (λ n. order) (suc fuel) page r
        ≡ pages
            (λ n. answered)
            (λ n db. db)
            w
            now
            size
            (λ n. order)
            fuel
            (suc page)
            (handle_rows w now rows r)
  unfolding pages
  pages-more fuel page r rows e f = rw (e, f) refl

  pages-end :
      (fuel page : ℕ) (r : Run)
      → find_by_page size page (logs_in_process order r.db) ≡ []
      → pages (λ n. answered) (λ n db. db) w now size (λ n. order) (suc fuel) page r ≡ some r
  unfolding pages
  pages-end fuel page r e = rw e refl

-- If every message in process is taken out by its handling, and there are more messages than one
-- page holds but not more than two, then a run handles those of the first page only, although its
-- queries are answered and no other process changes the database: the others are still in process
-- when it ends.
pub pages-skip :
    (w : ℕ → World) (now : ℕ → ℕ) (db : ℕ → Store) (order : List ℕ) (size fuel : ℕ)
    → Distinct order
    → ((m : ℕ) (it : MsgLog)
        → (db m).process ≡ some it
        → is_some (handle_msg_log (w m) (now m) it (db m)).process ≡ false)
    → suc size < length (in_process order db)
    → length (in_process order db) ≤ suc size + suc size
    → (end : Run) × (pages
          (λ n. answered)
          (λ n db. db)
          w
          now
          (suc size)
          (λ n. order)
          (suc (suc fuel))
          1
          (record { handled = []; db = db })
        ≡ some end)
      × (end.handled ≡ take (suc size) (in_process order db))
      × (in_process order end.db ≡ drop (suc size) (in_process order db))
unfolding find_by_page
pages-skip w now db order size fuel d leaves l u =
    let logs = logs_in_process order db in
    let ids = in_process order db in
    let start : Run = record { handled = []; db = db } in
    let after = handle_rows w now (take (suc size) logs) start in
    let first = first_page w now db leaves (suc size) order d in
    let none_before : drop ((1 - 1) * suc size) logs ≡ logs =
      let z : 0 * suc size ≡ 0 = omega arith in rw z (drop-zero logs) in
    let full : is_empty (take (suc size) logs) ≡ false =
      is_empty-take size logs (omega (arith, l, length-ids order db)) in
    let rest : drop ((2 - 1) * suc size) (logs_in_process order after.db) ≡ [] =
      let one : 1 * suc size ≡ suc size = omega arith in
      rw one (
        drop-long (suc size) (logs_in_process order after.db) (
          omega (
            arith,
            u,
            length-ids order after.db,
            ap length first.1,
            length-drop (suc size) ids,
          ))) in
    (
      after,
      pages-more w now (suc size) order (suc fuel) 1 start (take (suc size) logs)
            (ap (take (suc size)) none_before) full
          ∙ pages-end w now (suc size) order fuel 2 after (ap (take (suc size)) rest),
      first.0,
      first.1,
    )
