-- ===== src/Client/Kept.antt =====
-- A message from the client to its end: the advice around the call, the rounds of the compensation task
-- and the callbacks of the producer, in any order.
use mq_kafka.Prelude.{
  either, ℕ, ◌≡◌, Bool, true, false, not, ◌&&◌, ◌||◌, Option, none, some, List, [], ◌∷◌, arith,
  if◌then◌else◌,
}
use mq_kafka.Calls.{Reply, applied, answered}
use mq_kafka.Compensation.{
  MsgStatus, MsgLog, FullLog, Store, World, delete_sent, mark_sent, save_full_log, send_failed,
}
use mq_kafka.Compensation.Bound.{
  Event, round, deletes, marks, saves, fails, round_on, happen, history,
}
use mq_kafka.Compensation.Keeps.{is_held, handle_msg_log-is_held}
use mq_kafka.Client.{
  SentMessage, AdvisedCall, make_log_from_message, is_ready, save_log, counted, mark_log,
  settle_log, request_status, do_around,
}

-- Whether the full log of the message is saved, with effect.
abbrev pub is_saved : List Event → Bool
is_saved [] = false
is_saved (round w now ∷ es) = is_saved es
is_saved (fails has_metadata updates ∷ es) = is_saved es
is_saved (deletes reply ∷ es) = is_saved es
is_saved (marks reply ∷ es) = is_saved es
is_saved (saves reply log ∷ es) = applied reply || is_saved es

-- Each deletion of a callback that takes effect is followed by such a save, in these events or in those
-- that come behind them.
abbrev AreSafe : List Event → Bool → Type 0
AreSafe [] later = Unit
AreSafe (round w now ∷ es) later = AreSafe es later
AreSafe (fails has_metadata updates ∷ es) later = AreSafe es later
AreSafe (deletes reply ∷ es) later =
    (applied reply ≡ true → (is_saved es || later) ≡ true) × AreSafe es later
AreSafe (marks reply ∷ es) later = AreSafe es later
AreSafe (saves reply log ∷ es) later = AreSafe es later

or_assoc : (a b c d : Bool) → (a || ((b || c) || d)) ≡ true → (a || (b || (c || d))) ≡ true
or_assoc a b c d h = ground arith

or_false : (a : Bool) → (a || false) ≡ true → a ≡ true
or_false a h = ground arith

or_later : (a b : Bool) → (a || b) ≡ true → (a || (b || false)) ≡ true
or_later a b h = ground arith

send_failed-is_held :
    (has_metadata : Bool) (updates : Reply) (s : Store)
    → is_held s ≡ true
    → is_held (send_failed has_metadata updates s) ≡ true
unfolding send_failed
send_failed-is_held has_metadata updates s h = ground arith

round-is_held :
    (w : World) (now : ℕ) (s : Store) → is_held s ≡ true → is_held (happen (round w now) s) ≡ true
round-is_held w now s h = by s.process
  where
    by : (o : Option MsgLog) → is_held (round_on w now o s) ≡ true
    by none = h
    by (some it) = handle_msg_log-is_held w now it s h

kept_or : (a b c : Bool) → (a ≡ true → b ≡ true) → (a || c) ≡ true → (b || c) ≡ true
kept_or a b c f h = ground arith

delete_sent-is_held :
    (reply : Reply) (s : Store) (later : Bool)
    → (applied reply ≡ true → later ≡ true)
    → (is_held s || later) ≡ true
    → (is_held (delete_sent reply s).1 || later) ≡ true
delete_sent-is_held reply s later f h = ground arith

mark_sent-is_held :
    (reply : Reply) (s : Store) → is_held s ≡ true → is_held (mark_sent reply s) ≡ true
mark_sent-is_held reply s h = ground arith

save_full_log-is_held :
    (reply : Reply) (log : FullLog) (s : Store) (later : Bool)
    → (is_held s || (applied reply || later)) ≡ true
    → (is_held (save_full_log reply log s) || later) ≡ true
save_full_log-is_held reply log s later h = ground arith

-- What is held stays so, or is saved later.
pub history-is_held :
    (es : List Event) (s : Store) (later : Bool)
    → AreSafe es later
    → (is_held s || (is_saved es || later)) ≡ true
    → (is_held (history es s) || later) ≡ true
history-is_held [] s later safe h = h
history-is_held (round w now ∷ es) s later safe h =
    let t = happen (round w now) s in
    history-is_held es t later safe
      (kept_or (is_held s) (is_held t) (is_saved es || later) (round-is_held w now s) h)
history-is_held (fails has_metadata updates ∷ es) s later safe h =
    let t = send_failed has_metadata updates s in
    history-is_held es t later safe (
      kept_or (is_held s) (is_held t) (is_saved es || later)
        (send_failed-is_held has_metadata updates s) h)
history-is_held (deletes reply ∷ es) s later safe h =
    history-is_held es (delete_sent reply s).1 later safe.1
      (delete_sent-is_held reply s (is_saved es || later) safe.0 h)
history-is_held (marks reply ∷ es) s later safe h =
    let t = mark_sent reply s in
    history-is_held es t later safe
      (kept_or (is_held s) (is_held t) (is_saved es || later) (mark_sent-is_held reply s) h)
history-is_held (saves reply log ∷ es) s later safe h =
    history-is_held es (save_full_log reply log s) later safe (
      save_full_log-is_held reply log s (is_saved es || later)
        (or_assoc (is_held s) (applied reply) (is_saved es) later h))

-- The advice keeps what is held, and holds what it has saved.
mark_log-is_held :
    (run : AdvisedCall) (status : MsgStatus) (has_id : Bool) (s : Store)
    → is_held s ≡ true
    → is_held (mark_log run status has_id s) ≡ true
unfolding mark_log
mark_log-is_held run status has_id s h = ground arith

save_log-is_held :
    (reply : Reply) (log : MsgLog) (s : Store)
    → is_held s ≡ true
    → is_held (save_log reply log s) ≡ true
save_log-is_held reply log s h = ground arith

settle_log-is_held :
    (run : AdvisedCall) (m : SentMessage) (status : MsgStatus) (s : Store)
    → is_held s ≡ true
    → is_held (settle_log run m status s) ≡ true
unfolding settle_log
settle_log-is_held run m status s h =
    let marked = mark_log run status m.has_id s in
    let log : MsgLog = record (counted (make_log_from_message m)) { status = status } in
    let K : Store → Type 0 = λ (t : Store). is_held t ≡ true in
    let kept = mark_log-is_held run status m.has_id s h in
    let again = save_log run.second_save log marked in
    let rest = if answered run.first_save then marked else again in
    either K (is_ready status) s (if m.has_id && not (answered run.update) then marked else rest) h
      (either K (m.has_id && not (answered run.update)) marked rest kept (
        either K (answered run.first_save) marked again kept
          (save_log-is_held run.second_save log marked kept)))

-- A message is not lost on its way: once the first save of a client's advice took effect, some
-- collection holds its log at every later time at which no callback stands between its deletion and
-- its save, through the call and after it; in whatever order the task's rounds and the single calls of
-- the callbacks work on it, and however the call, the update and the second save end. Each deletion
-- of a callback that takes effect is followed by a save of the full log that does, which may come
-- after the call.
pub do_around-is_held :
    (run : AdvisedCall) (during after : List Event) (m : SentMessage) (s : Store)
    → applied run.first_save ≡ true
    → AreSafe during (is_saved after)
    → AreSafe after false
    → is_held (history after (do_around (record run { meanwhile = history during }) (some m) s).1)
      ≡ true
unfolding do_around
do_around-is_held run during after m s a d e =
    let advised : AdvisedCall = record run { meanwhile = history during } in
    let saved = save_log run.first_save (make_log_from_message m) s in
    let first : (is_held saved || (is_saved during || is_saved after)) ≡ true = rw a in
    let called = history-is_held during saved (is_saved after) d first in
    let status = request_status run.outcome m.status in
    let t = settle_log advised m status (history during saved) in
    let settled =
      kept_or (is_held (history during saved)) (is_held t) (is_saved after)
        (settle_log-is_held advised m status (history during saved)) called in
    or_false (is_held (history after t))
      (history-is_held after t false e (or_later (is_held t) (is_saved after) settled))
