-- ===== src/Compensation/Paging.antt =====
-- KakaMQMessageTask.java, `onWork` with `queryKafkaProcessMsgLogs` and `handeMsgLog`, and the query
-- of mq-mongo-integration/src/main/java/com/mq/mongo/dao/BaseMongoDao.java that it pages with: one
-- run of the task, behind the lock, over all messages. A message is given by its number; a list of
-- numbers is the order in which the database lists the messages.
use mq_kafka.Prelude.{
  ℕ, zero, suc, ◌+◌, ◌-◌, ◌*◌, ◌<◌, ◌≤◌, ◌≡◌, refl, subst, Bool, true, false, Bool-cases, inl, inr,
  ltb, Option, none, some, List, [], ◌∷◌, ◌++◌, length, ◌==◌, if◌then◌else◌, arith,
}
use mq_kafka.Compensation.{MsgLog, Store, World, handle_msg_log}

abbrev pub take {ℓ} : {A : Type ℓ} → ℕ → List A → List A
take n [] = []
take zero (x ∷ xs) = []
take (suc n) (x ∷ xs) = x ∷ take n xs

abbrev pub drop {ℓ} : {A : Type ℓ} → ℕ → List A → List A
drop n [] = []
drop zero (x ∷ xs) = x ∷ xs
drop (suc n) (x ∷ xs) = drop n xs

abbrev pub row : ℕ → Option MsgLog → List (ℕ × MsgLog) → List (ℕ × MsgLog)
row m none rows = rows
row m (some it) rows = (m, it) ∷ rows

-- The messages in process.
unfoldable pub logs_in_process : List ℕ → (ℕ → Store) → List (ℕ × MsgLog)
logs_in_process [] db = []
logs_in_process (m ∷ ms) db = row m (db m).process (logs_in_process ms db)

-- `skip((pageNum - 1) * pageSize).limit(pageSize)`
unfoldable pub find_by_page : ℕ → ℕ → List (ℕ × MsgLog) → List (ℕ × MsgLog)
unfolding logs_in_process
find_by_page size page rows = take size (drop ((page - 1) * size) rows)

-- How a pass of the loop finds the world: the thread is interrupted, the query ends in an
-- exception, or it answers.
pub data Query : Type 0 where
  interrupted failed answered : Query

abbrev pub set {ℓ} : {A : Type ℓ} → ℕ → A → (ℕ → A) → ℕ → A
set n a f m = if n == m then a else f m

-- What a run has done: the messages that it handled, in order, and what the database holds.
pub record Run : Type 0 where
  pub handled : List ℕ
  pub db : ℕ → Store

-- `handeMsgLog`, with the calls that end as `w` says for each message, at the time that `now` says.
unfoldable pub handle_rows : (ℕ → World) → (ℕ → ℕ) → List (ℕ × MsgLog) → Run → Run
handle_rows w now [] r = r
handle_rows w now ((m, it) ∷ rows) r = handle_rows w now rows (record {
  handled = r.handled ++ m ∷ [];
  db = set m (handle_msg_log (w m) (now m) it (r.db m)) r.db;
})

abbrev pub is_empty {ℓ} : {A : Type ℓ} → List A → Bool
is_empty [] = true
is_empty (x ∷ xs) = false

-- Whether the loop goes on, from what it found before and behind the query.
abbrev pub next_page : Query → Bool → Run → Run → Option Run → Option Run
next_page interrupted no_rows r found rest = some r
next_page failed no_rows r found rest = some r
next_page answered true r found rest = some found
next_page answered false r found rest = rest

abbrev pub page_size : ℕ
page_size = 1000

-- The loop of `onWork` from a page on; `none` means that the fuel ran out. Between two pages other
-- processes change the database as `meanwhile` says, and `orders` lists for each page the messages that
-- there are when it is asked for, so that new ones can come.
module _ (queries : ℕ → Query) (meanwhile : ℕ → (ℕ → Store) → ℕ → Store) (w : ℕ → World)
    (now : ℕ → ℕ) where
  unfoldable pub pages : ℕ → (ℕ → List ℕ) → ℕ → ℕ → Run → Option Run
  unfolding find_by_page handle_rows
  pages size orders zero page r = none
  pages size orders (suc fuel) page r =
      let found = record r { db = meanwhile page r.db } in
      let rows = find_by_page size page (logs_in_process (orders page) found.db) in
      let rest = pages size orders fuel (suc page) (handle_rows w now rows found) in
      next_page (queries page) (is_empty rows) r found rest

  -- `onWork`, which pages only if `tryLock` has given the lock.
  unfoldable pub on_work : (ℕ → List ℕ) → ℕ → Bool → (ℕ → Store) → Option Run
  unfolding pages
  on_work orders fuel acquired db =
      let start : Run = record { handled = []; db = db } in
      let worked = pages page_size orders fuel 1 start in if acquired then worked else some start

length-row :
    (m : ℕ) (o : Option MsgLog) (rows : List (ℕ × MsgLog))
    → length (row m o rows) ≤ suc (length rows)
length-row m none rows = omega arith
length-row m (some it) rows = omega arith

length-logs_in_process :
    (order : List ℕ) (db : ℕ → Store) → length (logs_in_process order db) ≤ length order
unfolding logs_in_process
length-logs_in_process [] db = omega arith
length-logs_in_process (m ∷ ms) db =
    omega (arith, length-logs_in_process ms db, length-row m (db m).process (logs_in_process ms db))

is_empty-page :
    {A : Type 0} (size n : ℕ) (rows : List A)
    → is_empty (take size (drop n rows)) ≡ false
    → n < length rows
is_empty-page size n [] e = cc
is_empty-page size zero (x ∷ xs) e = omega arith
is_empty-page size (suc n) (x ∷ xs) e = omega (arith, is_empty-page size n xs e)

next_page-total :
    (q : Query) (b : Bool) (r found : Run) (rest : Option Run)
    → (b ≡ false → (end : Run) × (rest ≡ some end))
    → (end : Run) × (next_page q b r found rest ≡ some end)
next_page-total interrupted b r found rest f = (r, refl)
next_page-total failed b r found rest f = (r, refl)
next_page-total answered true r found rest f = (found, refl)
next_page-total answered false r found rest f = f refl

module _ (queries : ℕ → Query) (meanwhile : ℕ → (ℕ → Store) → ℕ → Store) (w : ℕ → World)
    (now : ℕ → ℕ) (orders : ℕ → List ℕ) (last : ℕ)
    (few : length (orders (suc last)) ≤ last * page_size) where
  -- From a page to the last one, behind `n` pages.
  pages_total :
      (fuel n : ℕ) (r : Run)
      → n + fuel ≡ suc last
      → 0 < fuel
      → (end : Run) × (pages queries meanwhile w now page_size orders fuel (suc n) r ≡ some end)
  unfolding pages find_by_page
  pages_total zero n r e p = absurd (omega arith)
  pages_total (suc fuel) n r e p =
      let found = record r { db = meanwhile (suc n) r.db } in
      let rows = logs_in_process (orders (suc n)) found.db in
      let page = take page_size (drop ((suc n - 1) * page_size) rows) in
      next_page-total (queries (suc n)) (is_empty page) r found _ (λ full.
        let some_left = is_empty-page page_size ((suc n - 1) * page_size) rows full in
        let before : suc n - 1 ≡ n = omega arith in
        let reach : n * page_size < length (orders (suc n)) =
          let left = subst (λ k. k * page_size < length rows) before some_left in
          omega (arith, left, length-logs_in_process (orders (suc n)) found.db) in
        pages_total fuel (suc n) (handle_rows w now page found) (omega arith)
          (elim (Bool-cases (ltb 0 fuel)) [
            | inl more ↦ ground arith
            | inr none_left ↦
                let here : n ≡ last = ground arith in
                let too_many = subst (λ k. k * page_size < length (orders (suc k))) here reach in
                absurd (omega (arith, few, too_many))
          ]))

  -- A run of the task ends, whatever the calls of the database answer and whatever other processes
  -- do between its pages, new messages among it, as long as the messages do not come faster than it
  -- pages: if at some pass there are no more messages than the pages before it hold, a thousand each,
  -- then the run ends with this pass at the latest.
  pub on_work_total :
      (acquired : Bool) (db : ℕ → Store)
      → (end : Run) × (on_work queries meanwhile w now orders (suc last) acquired db ≡ some end)
  unfolding on_work
  on_work_total true db = pages_total (suc last) 0 _ (omega arith) (omega arith)
  on_work_total false db = (record { handled = []; db = db }, refl)
