-- ===== src/Consumer.antt =====
-- The consumers of one group on one topic: mq-consumer/src/main/java/com/mq/consumer/kafka/
-- KafkaConsumerManager.java, with offset/GeneralOffsetCommitCallback.java and
-- partition/HandleRebalance.java. `Group` is what all consumers share (the offsets in Kafka and in
-- the database, the log of consumed messages), the tasks that wait in the executors, and what each
-- consumer's thread holds. Kafka and MongoDB are not part of the program: how each call of them
-- ends is an argument. A digest stands for the key of a message's log.
pub mod Offsets
pub mod Progress
pub mod Workers
pub mod Deliveries
mod Tests
use mq_kafka.Prelude.{
  ℕ, zero, suc, ◌+◌, ◌%◌, Bool, true, false, not, ◌&&◌, ◌||◌, Option, none, some, List, [], ◌∷◌,
  ◌++◌, ◌==◌, if◌then◌else◌, pick,
}

-- A map from partitions to offsets, as a list.
module _ where
  pub offset_of : ℕ → List (ℕ × ℕ) → Option ℕ
  offset_of p [] = none
  offset_of p ((q, x) ∷ m) = if q == p then some x else offset_of p m

  pub put_offset : ℕ → ℕ → List (ℕ × ℕ) → List (ℕ × ℕ)
  put_offset p x [] = (p, x) ∷ []
  put_offset p x ((q, y) ∷ m) = if q == p then (q, x) ∷ m else (q, y) ∷ put_offset p x m

  pub drop_offset : ℕ → List (ℕ × ℕ) → List (ℕ × ℕ)
  drop_offset p [] = []
  drop_offset p ((q, y) ∷ m) = if q == p then m else (q, y) ∷ drop_offset p m

  abbrev is_logged : ℕ → List ℕ → Bool
  is_logged d [] = false
  is_logged d (e ∷ ds) = if e == d then true else is_logged d ds

-- What came of a record, for the trace: the business code ran (without an error or not), the
-- message was known already, or it is not valid.
pub data Fate : Type 0 where
  delivered : Bool → Fate
  duplicate : Fate
  invalid : Fate

pub record Entry : Type 0 where
  pub partition : ℕ
  pub offset : ℕ
  pub digest : Option ℕ
  pub fate : Fate

-- A record that a poll returned: its message's digest (`none` if it has no message), and whether
-- `checkKafkaMessage` accepts it.
pub record Record : Type 0 where
  pub partition : ℕ
  pub offset : ℕ
  pub digest : Option ℕ
  pub is_valid : Bool

-- The values of a function at other numbers stay.
abbrev pub at {ℓ} : {A : Type ℓ} → ℕ → A → (ℕ → A) → ℕ → A
at n a f m = if n == m then a else f m

pub record Group : Type 0 where
  -- The next record of a partition for a thread, `currentOffsets` and `dataCount` of a thread.
  pub cursor : ℕ → ℕ → ℕ
  pub current : ℕ → List (ℕ × ℕ)
  pub data_count : ℕ → ℕ
  -- The offsets in Kafka, the asynchronous commits that are not answered, each with its thread, the
  -- offsets in the database, and the tasks that will write some.
  pub committed : ℕ → Option ℕ
  pub flights : List (ℕ × List (ℕ × ℕ))
  pub db : ℕ → Option ℕ
  pub writes : List (ℕ × ℕ)
  -- The log of consumed messages and the tasks that will write to it.
  pub logged : List ℕ
  pub log_tasks : List ℕ
  -- For the theorems: what came of which record, and the ends to which Kafka set a partition that
  -- had no offset.
  pub trace : List Entry
  pub resets : List (ℕ × ℕ)

-- How the calls for one record end: whether the log is found, the business code runs without an
-- error, and the asynchronous commit is sent; whether the record is the last of its poll, and
-- `running` after it.
pub record Turn : Type 0 where
  pub finds : Bool
  pub works : Bool
  pub sends : Bool
  pub last : Bool
  pub running : Bool

abbrev known : Turn → Option ℕ → List ℕ → Bool
known turn none logged = false
known turn (some d) logged = turn.finds && is_logged d logged

pub fate_of : Turn → Record → List ℕ → Fate
fate_of turn r logged =
    if not r.is_valid
    then invalid
    else if known turn r.digest logged
    then duplicate
    else delivered turn.works

-- `++dataCount % batchCommitSize == 0 || !hasNext || !running`, which throws for a size of 0.
pub is_due : ℕ → Turn → ℕ → Option Bool
is_due zero turn count = none
is_due (suc size) turn count = some (count % suc size == 0 || turn.last || not turn.running)

-- The offsets go to the database by tasks, and to Kafka by an asynchronous commit; an exception of
-- the commit leaves the count.
abbrev flush : Turn → ℕ → Group → Group
flush turn t g =
    let stored = record g { writes = g.writes ++ g.current t } in
    if turn.sends
    then record stored {
      flights = g.flights ++ (t, g.current t) ∷ [];
      data_count = at t 0 g.data_count;
    }
    else stored

abbrev flush_if : Option Bool → Turn → ℕ → Group → Group
flush_if none turn t g = g
flush_if (some false) turn t g = g
flush_if (some true) turn t g = flush turn t g

-- The offset of the record is put into `currentOffsets`, and all are flushed if it is time.
pub keep_offset : ℕ → Turn → ℕ → Record → Group → Group
unfolding put_offset is_due
keep_offset size turn t r g =
    let count = g.data_count t + 1 in
    flush_if (is_due size turn count) turn t (record g {
      current = at t (put_offset r.partition (r.offset + 1) (g.current t)) g.current;
      data_count = at t count g.data_count;
    })

abbrev log_task : Option ℕ → List ℕ
log_task none = []
log_task (some d) = d ∷ []

-- One round of the inner loop. Behind all of it the log of the message is written by a task.
pub process : ℕ → Turn → ℕ → Record → Group → Group
unfolding fate_of keep_offset
process size turn t r g =
    let fate = fate_of turn r g.logged in
    let seen = record g {
      cursor = at t (at r.partition (r.offset + 1) (g.cursor t)) g.cursor;
      trace =
          record { partition = r.partition; offset = r.offset; digest = r.digest; fate = fate }
          ∷ g.trace;
    } in
    let kept = keep_offset size turn t r seen in
    record kept { log_tasks = kept.log_tasks ++ log_task r.digest }

-- A poll that returns records clears `currentOffsets` and starts a new count.
pub start_batch : ℕ → Group → Group
start_batch t g = record g { current = at t [] g.current; data_count = at t 0 g.data_count }

abbrev put_all : List (ℕ × ℕ) → (ℕ → Option ℕ) → ℕ → Option ℕ
put_all [] f = f
put_all ((p, x) ∷ m) f = put_all m (at p (some x) f)

-- The end of `startup`: a synchronous commit, and the offsets to the database whether it succeeds
-- or not.
pub stop : Bool → ℕ → Group → Group
stop commits t g = record g {
  committed = if commits then put_all (g.current t) g.committed else g.committed;
  writes = g.writes ++ g.current t;
  current = at t [] g.current;
}

abbrev is_offset : ℕ → Option ℕ → Bool
is_offset x none = false
is_offset x (some y) = x == y

-- The callback of a commit that succeeded drops the offsets that have not changed since.
pub drop_same : List (ℕ × ℕ) → List (ℕ × ℕ) → List (ℕ × ℕ)
unfolding offset_of drop_offset
drop_same [] c = c
drop_same ((p, x) ∷ m) c = drop_same m (if is_offset x (offset_of p c) then drop_offset p c else c)

abbrev land : Bool → Option ((ℕ × List (ℕ × ℕ)) × List (ℕ × List (ℕ × ℕ))) → Group → Group
land succeeds none g = g
land succeeds (some ((t, m), rest)) g =
    let left = record g { flights = rest } in
    if succeeds
    then record left {
      committed = put_all m g.committed;
      current = at t (drop_same m (g.current t)) g.current;
    }
    else left

-- One of the asynchronous commits is answered.
pub answer_commit : ℕ → Bool → Group → Group
unfolding drop_same
answer_commit n succeeds g = land succeeds (pick n g.flights) g

abbrev write : Bool → Option ((ℕ × ℕ) × List (ℕ × ℕ)) → Group → Group
write succeeds none g = g
write succeeds (some ((p, x), rest)) g = record g {
  writes = rest;
  db = if succeeds then at p (some x) g.db else g.db;
}

-- One of the tasks that write an offset runs, or is lost.
pub write_offset : ℕ → Bool → Group → Group
write_offset n succeeds g = write succeeds (pick n g.writes) g

abbrev write_digest : Bool → Option (ℕ × List ℕ) → Group → Group
write_digest succeeds none g = g
write_digest succeeds (some (d, rest)) g = record g {
  log_tasks = rest;
  logged = if succeeds then d ∷ g.logged else g.logged;
}

-- One of the tasks that write to the log runs, or is lost.
pub write_log : ℕ → Bool → Group → Group
write_log n succeeds g = write_digest succeeds (pick n g.log_tasks) g

-- What `commitOffset` does for one partition that is taken away: `held` is `offsetAndMetadataMap`,
-- which keeps an offset whose commit failed for the next one, and the Booleans tell how the commit
-- and the save end.
pub revoke_one : ℕ → List (ℕ × ℕ) → ℕ → Option ℕ → Bool → Bool → Group → List (ℕ × ℕ) × Group
unfolding put_offset drop_offset
revoke_one t held p none commits saves g = (held, g)
revoke_one t held p (some x) true saves g = (
  drop_offset p (put_offset p x held),
  record g {
    committed = put_all (put_offset p x held) g.committed;
    current = at t (drop_offset p (g.current t)) g.current;
    db = if saves then at p (some x) g.db else g.db;
  },
)
revoke_one t held p (some x) false saves g = (put_offset p x held, g)

-- `commitOffset` of the rebalance handler, over all of them.
pub revoke : ℕ → List (ℕ × ℕ) → List (ℕ × Bool × Bool) → Group → Group
unfolding revoke_one offset_of
revoke t held [] g = g
revoke t held ((p, commits, saves) ∷ ps) g =
    let after = revoke_one t held p (offset_of p (g.current t)) commits saves g in
    revoke t after.0 ps after.1

abbrev or_committed : Option ℕ → Option ℕ → Option ℕ
or_committed none o = o
or_committed (some x) o = some x

abbrev set_cursor : ℕ → ℕ → ℕ → Group → Group
set_cursor t p x g = record g { cursor = at t (at p x (g.cursor t)) g.cursor }

-- Where Kafka itself lets a consumer start: `auto.offset.reset` is `latest`.
abbrev start_at : ℕ → ℕ → ℕ → Option ℕ → Group → Group
start_at t p latest none g = set_cursor t p latest (record g { resets = (p, latest) ∷ g.resets })
start_at t p latest (some x) g = set_cursor t p x g

abbrev seek : ℕ → ℕ → ℕ → Bool → Option ℕ → Group → Group
seek t p latest seeks none g = start_at t p latest (g.committed p) g
seek t p latest seeks (some x) g =
    if seeks then set_cursor t p x g else start_at t p latest (g.committed p) g

-- `onPartitionsAssigned`, for one partition: whether the offset is found in the database and the
-- consumer takes it.
pub assign_partition : ℕ → ℕ → ℕ → Bool → Bool → Group → Group
assign_partition t p latest finds seeks g =
    seek t p latest seeks (or_committed (if finds then g.db p else none) (g.committed p)) g

-- The thread's process dies.
pub crash : ℕ → Group → Group
crash t g = record g { current = at t [] g.current; data_count = at t 0 g.data_count }
