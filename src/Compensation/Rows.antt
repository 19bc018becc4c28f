-- ===== src/Compensation/Rows.antt =====
-- KakaMQMessageTask.java, `onWork`: the rows that a run has not come to yet.
use mq_kafka.Prelude.{
  ℕ, zero, suc, ◌+◌, ◌≡◌, ◌≢◌, refl, sym, ap, ap₂, ◌∙◌, Option, none, some, List, [], ◌∷◌, map,
  arith, All, All-both,
}
use mq_kafka.Compensation.{MsgLog, Store, is_some}
use mq_kafka.Compensation.Paging.{take, drop, row, logs_in_process}
use mq_kafka.Compensation.Held.{Distinct}
use mq_kafka.Compensation.Coverage.{Same, All-drop}

abbrev pub ids_of : List (ℕ × MsgLog) → List ℕ
ids_of rows = map (λ e. e.0) rows

-- A row as the database has it.
abbrev pub IsStored : (ℕ → Store) → ℕ × MsgLog → Type 0
IsStored db e = (db e.0).process ≡ some e.1

row-IsStored :
    (db : ℕ → Store) (m : ℕ) (o : Option MsgLog) (rows : List (ℕ × MsgLog))
    → (db m).process ≡ o
    → All (IsStored db) rows
    → All (IsStored db) (row m o rows)
row-IsStored db m none rows e h = h
row-IsStored db m (some it) rows e h = (e, h)

pub logs_in_process-IsStored :
    (order : List ℕ) (db : ℕ → Store) → All (IsStored db) (logs_in_process order db)
unfolding logs_in_process
logs_in_process-IsStored [] db = tt
logs_in_process-IsStored (m ∷ ms) db =
    row-IsStored db m (db m).process (logs_in_process ms db) refl (logs_in_process-IsStored ms db)

-- The second database has the row's store as the first has it.
abbrev pub IsUntouched : (ℕ → Store) → (ℕ → Store) → ℕ × MsgLog → Type 0
IsUntouched db db' e = db' e.0 ≡ db e.0

module _ {A : Type 0} where
  pub drop-drop : (a n : ℕ) (xs : List A) → drop n (drop a xs) ≡ drop (a + n) xs
  drop-drop a zero [] = refl
  drop-drop a (suc n) [] = refl
  drop-drop zero n (x ∷ xs) = let e : 0 + n ≡ n = omega arith in rw e refl
  drop-drop (suc a) n (x ∷ xs) =
      let e : suc a + n ≡ suc (a + n) = omega arith in rw e (drop-drop a n xs)

pub Distinct-drop : (n : ℕ) (ids : List ℕ) → Distinct ids → Distinct (drop n ids)
Distinct-drop n [] d = tt
Distinct-drop zero (m ∷ ms) d = d
Distinct-drop (suc n) (m ∷ ms) d = Distinct-drop n ms d.1

-- The rows behind a page are none of the page's.
pub behind-Distinct :
    (n : ℕ) (rows : List (ℕ × MsgLog))
    → Distinct (ids_of rows)
    → All (λ e. All (λ m. e.0 ≢ m) (ids_of (take n rows))) (drop n rows)
behind-Distinct n [] d = tt
behind-Distinct zero (e ∷ es) d = nothing (e ∷ es)
  where
    nothing : (rows : List (ℕ × MsgLog)) → All (λ x. All (λ m. x.0 ≢ m) []) rows
    nothing [] = tt
    nothing (x ∷ xs) = (tt, nothing xs)
behind-Distinct (suc n) (e ∷ es) d =
    All-both (λ (x : ℕ × MsgLog). x.0 ≢ e.0) (λ x. All (λ m. x.0 ≢ m) (ids_of (take n es)))
      (drop n es) (All-drop (λ (x : ℕ × MsgLog). x.0 ≢ e.0) n es (apart es d.0))
      (behind-Distinct n es d.1)
  where
    apart : (xs : List (ℕ × MsgLog)) → All (λ k. k ≢ e.0) (ids_of xs) → All (λ x. x.0 ≢ e.0) xs
    apart [] h = tt
    apart (x ∷ xs) h = (h.0, apart xs h.1)

-- Rows that are untouched stand at the same places.
row-drop :
    (n m : ℕ) (o o' : Option MsgLog) (rows rows' : List (ℕ × MsgLog)) (db db' : ℕ → Store)
    → (db m).process ≡ o
    → (db' m).process ≡ o'
    → is_some o' ≡ is_some o
    → ((k : ℕ) → All (IsUntouched db db') (drop k rows) → drop k rows' ≡ drop k rows)
    → All (IsUntouched db db') (drop n (row m o rows))
    → drop n (row m o' rows') ≡ drop n (row m o rows)
row-drop n m none none rows rows' db db' e e' s f h = f n h
row-drop n m none (some b) rows rows' db db' e e' s f h = absurd (cc s)
row-drop n m (some a) none rows rows' db db' e e' s f h = absurd (cc s)
row-drop (suc n) m (some a) (some b) rows rows' db db' e e' s f h = f n h
row-drop zero m (some a) (some b) rows rows' db db' e e' s f h =
    let same : some b ≡ some a = sym e' ∙ ap (λ x. x.process) h.0 ∙ e in
    let it : b ≡ a = cc same in
    ap₂ (λ x xs. (m, x) ∷ xs) it (whole rows' rows (f 0 (from_start rows h.1)))
  where
    from_start :
        (xs : List (ℕ × MsgLog))
        → All (IsUntouched db db') xs
        → All (IsUntouched db db') (drop 0 xs)
    from_start [] k = tt
    from_start (x ∷ xs) k = k

    whole : (xs ys : List (ℕ × MsgLog)) → drop 0 xs ≡ drop 0 ys → xs ≡ ys
    whole [] [] k = refl
    whole [] (y ∷ ys) k = k
    whole (x ∷ xs) [] k = k
    whole (x ∷ xs) (y ∷ ys) k = k

pub logs-drop :
    (order : List ℕ) (n : ℕ) (db db' : ℕ → Store)
    → Same db db'
    → All (IsUntouched db db') (drop n (logs_in_process order db))
    → drop n (logs_in_process order db') ≡ drop n (logs_in_process order db)
unfolding logs_in_process
logs-drop [] n db db' s h = refl
logs-drop (m ∷ ms) n db db' s h =
    row-drop n m (db m).process (db' m).process (logs_in_process ms db) (logs_in_process ms db') db
      db' refl refl (s m) (λ k. logs-drop ms k db db' s) h
