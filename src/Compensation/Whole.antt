-- ===== src/Compensation/Whole.antt =====
-- KakaMQMessageTask.java, `onWork`: the run that handles every message.
use mq_kafka.Prelude.{
  ℕ, zero, suc, ◌+◌, ◌-◌, ◌*◌, ◌≡◌, ◌≢◌, refl, sym, subst, ap, ap₂, ◌∙◌, Bool, true, false, Option,
  none, some, List, [], ◌∷◌, ◌++◌, append_assoc, append-nil, length, arith, All, All-imp, All-both,
}
use mq_kafka.Compensation.{MsgLog, Store, World, handle_msg_log, is_some}
use mq_kafka.Compensation.Paging.{
  take, drop, logs_in_process, find_by_page, answered, set, Run, handle_rows, is_empty, next_page,
  pages, on_work, on_work_total,
}
use mq_kafka.Compensation.Held.{Distinct, Distinct-held, Distinct-take}
use mq_kafka.Compensation.Coverage.{
  in_process, Same, in_process-Same, set-Same, All-take, All-drop, take-drop, take-all, take-zero,
  map-take, map-drop, is_empty-map,
}
use mq_kafka.Compensation.Skips.{set-other, in_process-held}
use mq_kafka.Compensation.Rows.{
  ids_of, IsStored, IsUntouched, logs_in_process-IsStored, drop-drop, Distinct-drop,
  behind-Distinct, logs-drop,
}

set-IsUntouched :
    (m : ℕ) (s : Store) (db db' : ℕ → Store) (rows : List (ℕ × MsgLog))
    → All (λ k. k ≢ m) (ids_of rows)
    → All (IsUntouched db db') rows
    → All (IsUntouched db (set m s db')) rows
set-IsUntouched m s db db' [] n h = tt
set-IsUntouched m s db db' (e ∷ es) n h =
    (set-other m e.0 s db' n.0 ∙ h.0, set-IsUntouched m s db db' es n.1 h.1)

module _ (w : ℕ → World) (now : ℕ → ℕ) (db : ℕ → Store)
    (stays : (m : ℕ) (it : MsgLog)
      → (db m).process ≡ some it
      → is_some (handle_msg_log (w m) (now m) it (db m)).process ≡ true) where
  -- The rows of a page, which are untouched: all are handled, the same messages stay in process, and
  -- the stores of others are not touched.
  handle_rows-stays :
      (rows : List (ℕ × MsgLog)) (r : Run)
      → Distinct (ids_of rows)
      → All (IsStored db) rows
      → All (IsUntouched db r.db) rows
      → ((handle_rows w now rows r).handled ≡ r.handled ++ ids_of rows)
        × Same r.db (handle_rows w now rows r).db
        × ((k : ℕ) → All (λ m. k ≢ m) (ids_of rows) → (handle_rows w now rows r).db k ≡ r.db k)
  unfolding handle_rows
  handle_rows-stays [] r d h u = (sym (append-nil r.handled), λ m. refl, λ k n. refl)
  handle_rows-stays ((m, it) ∷ rows) r d h u =
      let s = handle_msg_log (w m) (now m) it (r.db m) in
      let next : Run = record { handled = r.handled ++ m ∷ []; db = set m s r.db } in
      let there : is_some (r.db m).process ≡ true =
        ap (λ x. is_some x.process) u.0 ∙ ap is_some h.0 in
      let kept : is_some s.process ≡ true =
        ap (λ x. is_some (handle_msg_log (w m) (now m) it x).process) u.0 ∙ stays m it h.0 in
      let same = set-Same m s r.db there kept in
      let rest = handle_rows-stays rows next d.1 h.1 (set-IsUntouched m s db r.db rows d.0 u.1) in
      (
        rest.0 ∙ append_assoc r.handled (m ∷ []) (ids_of rows),
        λ k. rest.1 k ∙ same k,
        λ k n. rest.2 k n.1 ∙ set-other m k s r.db n.0,
      )

  module _ (order : List ℕ) (apart : Distinct order) where
    abbrev logs : List (ℕ × MsgLog)
    logs = logs_in_process order db

    -- What holds behind `n` pages.
    abbrev IsBehind : ℕ → ℕ → Run → Type 0
    IsBehind size n r =
        (r.handled ≡ take (n * size) (ids_of logs))
        × Same db r.db
        × All (IsUntouched db r.db) (drop (n * size) logs)

    ids-Distinct : Distinct (ids_of logs)
    unfolding in_process
    ids-Distinct =
        let there : ℕ → Bool = λ m. is_some (db m).process in
        subst Distinct (sym (in_process-held order db)) (Distinct-held there order apart)

    page-IsBehind :
        (size n : ℕ) (r : Run)
        → IsBehind size n r
        → IsBehind size (suc n) (handle_rows w now (take size (drop (n * size) logs)) r)
    page-IsBehind size n r (h, s, u) =
        let rest = drop (n * size) logs in
        let page = take size rest in
        let ids_rest : Distinct (ids_of rest) =
          subst Distinct (sym (map-drop (λ e. e.0) (n * size) logs))
            (Distinct-drop (n * size) (ids_of logs) ids-Distinct) in
        let ids_page : Distinct (ids_of page) =
          subst Distinct (sym (map-take (λ e. e.0) size rest))
            (Distinct-take size (ids_of rest) ids_rest) in
        let stored =
          All-take (IsStored db) size rest
            (All-drop (IsStored db) (n * size) logs (logs_in_process-IsStored order db)) in
        let done =
          handle_rows-stays page r ids_page stored (All-take (IsUntouched db r.db) size rest u) in
        let further : n * size + size ≡ suc n * size = omega arith in
        let db' = (handle_rows w now page r).db in
        let apart_behind : All (λ e. All (λ m. e.0 ≢ m) (ids_of page)) (drop size rest) =
          behind-Distinct size rest ids_rest in
        let untouched : All (IsUntouched db db') (drop size rest) =
          All-imp (λ e b. done.2 e.0 b.0 ∙ b.1) (drop size rest)
            (All-both (λ e. All (λ m. e.0 ≢ m) (ids_of page)) (IsUntouched db r.db) (drop size rest)
              apart_behind (All-drop (IsUntouched db r.db) size rest u)) in
        (
          done.0
              ∙ ap₂ (λ xs ys. xs ++ ys) h
                  (map-take (λ e. e.0) size rest
                    ∙ ap (take size) (map-drop (λ e. e.0) (n * size) logs))
              ∙ take-drop (n * size) size (ids_of logs)
              ∙ ap (λ k. take k (ids_of logs)) further,
          λ k. done.1 k ∙ s k,
          subst (All (IsUntouched db db'))
              (drop-drop (n * size) size logs ∙ ap (λ k. drop k logs) further) untouched,
        )

    -- Every message was handled, in order, and the same ones are in process.
    abbrev IsWhole : Option Run → Type 0
    IsWhole none = Unit
    IsWhole (some end) = (end.handled ≡ ids_of logs) × Same db end.db

    next_page-IsWhole :
        (b : Bool) (r : Run) (rest : Option Run)
        → (b ≡ true → IsWhole (some r))
        → (b ≡ false → IsWhole rest)
        → IsWhole (next_page answered b r r rest)
    next_page-IsWhole true r rest f g = f refl
    next_page-IsWhole false r rest f g = g refl

    pages-IsWhole :
        (size fuel n : ℕ) (r : Run)
        → IsBehind (suc size) n r
        → IsWhole (pages (λ k. answered) (λ k d. d) w now (suc size) (λ k. order) fuel (suc n) r)
    unfolding pages find_by_page
    pages-IsWhole size zero n r behind = tt
    pages-IsWhole size (suc fuel) n r behind =
        let before : suc n - 1 ≡ n = omega arith in
        let rows = find_by_page (suc size) (suc n) (logs_in_process order r.db) in
        let page : rows ≡ take (suc size) (drop (n * suc size) logs) =
          rw before
            (ap (take (suc size)) (logs-drop order (n * suc size) db r.db behind.1 behind.2)) in
        next_page-IsWhole (is_empty rows) r _
          (λ e. (
            behind.0
                ∙ take-all (n * suc size) size (ids_of logs) (
                    sym (
                      ap is_empty (
                        map-take (λ e. e.0) (suc size) (drop (n * suc size) logs)
                        ∙ ap (take (suc size)) (map-drop (λ e. e.0) (n * suc size) logs)))
                    ∙ sym (is_empty-map (λ e. e.0) (take (suc size) (drop (n * suc size) logs)))
                    ∙ sym (ap is_empty page)
                    ∙ e),
            behind.1,
          ))
          (λ e. pages-IsWhole size fuel (suc n) (handle_rows w now rows r) (
            subst (λ p. IsBehind (suc size) (suc n) (handle_rows w now p r)) (sym page)
              (page-IsBehind (suc size) n r behind)))

All-IsUntouched : (db : ℕ → Store) (rows : List (ℕ × MsgLog)) → All (IsUntouched db db) rows
All-IsUntouched db [] = tt
All-IsUntouched db (e ∷ es) = (refl, All-IsUntouched db es)

-- A run of the task that has the lock, whose queries are answered and during which no other process
-- changes the database, handles exactly the messages in process, each once and in the order of the
-- database, and ends with the same messages in process, if the handling of no message, with its log as
-- it is at the start, takes it out of them.
pub on_work-all :
    (w : ℕ → World) (now : ℕ → ℕ) (db : ℕ → Store) (order : List ℕ)
    → Distinct order
    → ((m : ℕ) (it : MsgLog)
        → (db m).process ≡ some it
        → is_some (handle_msg_log (w m) (now m) it (db m)).process ≡ true)
    → (end : Run) × (on_work
          (λ n. answered)
          (λ n db. db)
          w
          now
          (λ n. order)
          (suc (length order))
          true
          db
        ≡ some end)
      × (end.handled ≡ in_process order db)
      × (in_process order end.db ≡ in_process order db)
unfolding on_work in_process
on_work-all w now db order apart stays =
    let start : Run = record { handled = []; db = db } in
    let logs = logs_in_process order db in
    let (end, e) =
      on_work_total (λ n. answered) (λ n db. db) w now (λ n. order) (length order) (omega arith)
        true db in
    let covered = pages-IsWhole w now db stays order apart 999 (suc (length order)) 0 start (
      take-zero (ids_of logs),
      λ m. refl,
      All-drop (IsUntouched db db) (0 * 1000) logs (All-IsUntouched db logs),
    ) in
    let all = subst (IsWhole w now db stays order apart) e covered in
    (end, e, all.0, in_process-Same order db end.db all.1)
