-- ===== src/Compensation/Bound.antt =====
-- KakaMQMessageTask.java and SenderCallback.java: how often a message is sent again.
use mq_kafka.Prelude.{
  ℕ, ◌+◌, ◌≤◌, ◌≡◌, refl, Bool, true, false, Option, none, some, List, [], ◌∷◌, arith,
}
use mq_kafka.Calls.{Reply, done, applied}
use mq_kafka.Compensation.{
  MsgLog, ready, fail, dead, FullLog, Store, World, retries, minutes, check_message_deaded,
  should_resend, do_resend, process_normal_message, save_deaded_message, retry_message,
  handle_msg_log, full_log, delete_sent, mark_sent, save_full_log, send_failed,
}

-- What happens to a message: a round of the task on the row that it finds; the three calls by which a
-- callback tells that Kafka took the message, each at a time of its own; and a callback of a send that
-- failed.
pub data Event : Type 0 where
  round : World → ℕ → Event
  deletes : Reply → Event
  marks : Reply → Event
  saves : Reply → FullLog → Event
  fails : Bool → Reply → Event

abbrev pub round_on : World → ℕ → Option MsgLog → Store → Store
round_on w now none s = s
round_on w now (some it) s = handle_msg_log w now it s

abbrev pub happen : Event → Store → Store
happen (round w now) s = round_on w now s.process s
happen (deletes reply) s = (delete_sent reply s).1
happen (marks reply) s = mark_sent reply s
happen (saves reply log) s = save_full_log reply log s
happen (fails has_metadata updates) s = send_failed has_metadata updates s

abbrev pub history : List Event → Store → Store
history [] s = s
history (e ∷ es) s = history es (happen e s)

-- The save of the counted log takes effect whenever the task makes it.
abbrev Counts : List Event → Type 0
Counts [] = Unit
Counts (round w now ∷ es) = (applied w.save_process ≡ true) × Counts es
Counts (deletes reply ∷ es) = Counts es
Counts (marks reply ∷ es) = Counts es
Counts (saves reply log ∷ es) = Counts es
Counts (fails has_metadata updates ∷ es) = Counts es

abbrev IsCounted : ℕ → Option MsgLog → Type 0
IsCounted n none = n ≤ 6
IsCounted n (some it) = (n ≤ retries it) × (retries it ≤ 6) × (it.status ≡ ready → retries it ≡ 0)

check_message_deaded_lem :
    (now : ℕ) (it : MsgLog)
    → it.status ≡ fail
    → check_message_deaded now it ≡ false
    → retries it ≤ 5
unfolding check_message_deaded
check_message_deaded_lem now it e h = ground arith

should_resend-retries :
    (now : ℕ) (it : MsgLog)
    → should_resend now it ≡ true
    → (it.status ≡ ready → retries it ≡ 0)
    → retries it ≤ 5
unfolding should_resend
should_resend-retries now it h r = ground (arith, check_message_deaded_lem now it)

module _ (w : World) (now : ℕ) (it : MsgLog) (s : Store) where
  do_resend-IsCounted :
      applied w.save_process ≡ true
      → s.process ≡ some it
      → retries it ≤ 5
      → IsCounted s.sent s.process
      → IsCounted (do_resend w now it s).1.sent (do_resend w now it s).1.process
  unfolding do_resend
  do_resend-IsCounted k p r c = ground arith

  save_deaded_message-IsCounted :
      IsCounted s.sent s.process
      → IsCounted (save_deaded_message w now it s).sent (save_deaded_message w now it s).process
  unfolding save_deaded_message
  save_deaded_message-IsCounted c = ground arith

  process_normal_message-IsCounted :
      IsCounted s.sent s.process
      → IsCounted
          (process_normal_message w now it s).sent
          (process_normal_message w now it s).process
  unfolding process_normal_message
  process_normal_message-IsCounted c = ground arith

retry_message-IsCounted :
    (w : World) (now : ℕ) (it : MsgLog) (s : Store)
    → applied w.save_process ≡ true
    → s.process ≡ some it
    → IsCounted s.sent s.process
    → IsCounted (retry_message w now it s).sent (retry_message w now it s).process
unfolding retry_message
retry_message-IsCounted w now it s k p c =
    let after = do_resend w now it s in
    ground (
      arith,
      should_resend-retries now it,
      do_resend-IsCounted w now it s k p,
      save_deaded_message-IsCounted w now it s c,
      save_deaded_message-IsCounted w now after.0 after.1,
    )

handle_msg_log-IsCounted :
    (w : World) (now : ℕ) (it : MsgLog) (s : Store)
    → applied w.save_process ≡ true
    → s.process ≡ some it
    → IsCounted s.sent s.process
    → IsCounted (handle_msg_log w now it s).sent (handle_msg_log w now it s).process
unfolding handle_msg_log
handle_msg_log-IsCounted w now it s k p c = ground (
  arith,
  retry_message-IsCounted w now it s k p c,
  save_deaded_message-IsCounted w now it s c,
  process_normal_message-IsCounted w now it s c,
)

delete_sent-IsCounted :
    (reply : Reply) (s : Store)
    → IsCounted s.sent s.process
    → IsCounted (delete_sent reply s).1.sent (delete_sent reply s).1.process
delete_sent-IsCounted reply s c = ground arith

mark_sent-IsCounted :
    (reply : Reply) (s : Store)
    → IsCounted s.sent s.process
    → IsCounted (mark_sent reply s).sent (mark_sent reply s).process
mark_sent-IsCounted reply s c = ground arith

send_failed-IsCounted :
    (has_metadata : Bool) (updates : Reply) (s : Store)
    → IsCounted s.sent s.process
    → let t = send_failed has_metadata updates s in IsCounted t.sent t.process
unfolding send_failed
send_failed-IsCounted has_metadata updates s c = ground arith

round_on-IsCounted :
    (w : World) (now : ℕ) (p : Option MsgLog) (s : Store)
    → applied w.save_process ≡ true
    → s.process ≡ p
    → IsCounted s.sent s.process
    → IsCounted (round_on w now p s).sent (round_on w now p s).process
round_on-IsCounted w now none s k e c = c
round_on-IsCounted w now (some it) s k e c = handle_msg_log-IsCounted w now it s k e c

history-IsCounted :
    (es : List Event) (s : Store)
    → Counts es
    → IsCounted s.sent s.process
    → IsCounted (history es s).sent (history es s).process
history-IsCounted [] s k c = c
history-IsCounted (round w now ∷ es) s k c =
    history-IsCounted es (round_on w now s.process s) k.1
      (round_on-IsCounted w now s.process s k.0 refl c)
history-IsCounted (deletes reply ∷ es) s k c =
    history-IsCounted es (delete_sent reply s).1 k (delete_sent-IsCounted reply s c)
history-IsCounted (marks reply ∷ es) s k c =
    history-IsCounted es (mark_sent reply s) k (mark_sent-IsCounted reply s c)
history-IsCounted (saves reply log ∷ es) s k c =
    history-IsCounted es (save_full_log reply log s) k c
history-IsCounted (fails has_metadata updates ∷ es) s k c =
    history-IsCounted es (send_failed has_metadata updates s) k
      (send_failed-IsCounted has_metadata updates s c)

IsCounted-le : (n : ℕ) (p : Option MsgLog) → IsCounted n p → n ≤ 6
IsCounted-le n none c = c
IsCounted-le n (some it) c = omega arith

-- The task sends a message again six times at most, over any sequence of its rounds and of
-- the callbacks' calls, whatever the clock says and however the calls end, as long as each save of the counted
-- log takes effect: from a new log that is ready and was not sent again yet.
pub history-sent :
    (es : List Event) (it : MsgLog) (s : Store)
    → s.process ≡ some it
    → it.status ≡ ready
    → retries it ≡ 0
    → s.sent ≡ 0
    → Counts es
    → (history es s).sent ≤ 6
history-sent es it s p r z n k =
    IsCounted-le _ (history es s).process (history-IsCounted es s k (rw (p, n) (omega arith)))

-- The sixth time the message goes to the producer and, in the same round, to the dead letters,
-- before the producer can answer: where the log failed with five retries, is not overdue, is still
-- in process, and the database and the producer take every call.
pub handle_msg_log_sixth :
    (w : World) (now : ℕ) (it : MsgLog) (s : Store)
    → w.parses ≡ true
    → w.finds ≡ true
    → w.takes ≡ true
    → w.save_dead ≡ done
    → w.delete_process ≡ done
    → s.process ≡ some it
    → it.status ≡ fail
    → it.retrytimes ≡ some 5
    → now ≤ it.createtime + minutes 15
    → let t = handle_msg_log w now it s in
      (t.sent ≡ s.sent + 1)
      × (t.process ≡ none)
      × ((m : FullLog) × (t.dead_letters ≡ some m) × (m.status ≡ dead))
unfolding handle_msg_log retry_message should_resend check_message_deaded do_resend
    save_deaded_message
handle_msg_log_sixth w now it s a b c d e p f r late =
    let buried : MsgLog = record it {
      status = dead;
      retrytimes = some 6;
      update_time = now;
      version = it.version + 1;
      deaded = 1;
    } in
    (ground arith, ground arith, (full_log now buried, ground arith, refl))
