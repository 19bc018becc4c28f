-- ===== src/Compensation.antt =====
-- The compensation task of the message service: mq-service/src/main/java/com/mq/kafka/scheduler/
-- KakaMQMessageTask.java, with the producer's callback that it works against,
-- mq-service/src/main/java/com/mq/kafka/callback/SenderCallback.java. A `Store` is what the three
-- log collections hold under one message's id, and how often the message was handed to the producer
-- again. MongoDB and Kafka are not part of the program: a `World` says how each call of them ends.
-- Times are milliseconds.
pub mod Keeps
pub mod Bound
pub mod Deadline
pub mod Paging
pub mod Coverage
pub mod Held
pub mod Skips
pub mod Rows
pub mod Whole
mod Tests
use mq_kafka.Prelude.{
  ℕ, suc, ◌+◌, ◌*◌, Bool, true, false, not, ◌&&◌, ◌||◌, Option, none, some, ltb, if◌then◌else◌,
}
use mq_kafka.Calls.{Reply, done, refused, unanswered, applied, answered}

pub data MsgStatus : Type 0 where
  ready normal fail compensate dead : MsgStatus

-- The fields of a `KafkaProcessMsgLog` that the task reads or writes.
pub record MsgLog : Type 0 where
  pub status : MsgStatus
  pub retrytimes : Option ℕ
  pub createtime : ℕ
  pub update_time : ℕ
  pub version : ℕ
  pub deaded : ℕ

-- Those of them that a `KafkaMsgLog` has as well: the log of a message that was sent, or a dead letter,
-- whose class `KafkaDeadedMsgLog` adds no field.
pub record FullLog : Type 0 where
  pub status : MsgStatus
  pub createtime : ℕ
  pub update_time : ℕ
  pub deaded : ℕ

pub record Store : Type 0 where
  pub process : Option MsgLog
  pub full : Option FullLog
  pub dead_letters : Option FullLog
  pub sent : ℕ

-- For one message in one round: whether its text parses, whether it is found without an exception,
-- how the saves and the deletion end, and whether the send service takes the message.
pub record World : Type 0 where
  pub parses : Bool
  pub finds : Bool
  pub save_process : Reply
  pub save_full : Reply
  pub save_dead : Reply
  pub delete_process : Reply
  pub takes : Bool

abbrev pub minutes : ℕ → ℕ
minutes n = n * 60000

abbrev pub retries : MsgLog → ℕ
retries it = elim it.retrytimes [ none ↦ 0 | some n ↦ n ]

abbrev is_overdue : ℕ → ℕ → MsgLog → Bool
is_overdue n now it = ltb (it.createtime + minutes n) now

abbrev check_status : MsgStatus → ℕ → MsgLog → Bool
check_status ready now it = is_overdue 15 now it
check_status normal now it = false
check_status fail now it = ltb 5 (retries it) || is_overdue 15 now it
check_status compensate now it = ltb 5 (retries it) || is_overdue 15 now it
check_status dead now it = false

unfoldable pub check_message_deaded : ℕ → MsgLog → Bool
check_message_deaded now it = check_status it.status now it

abbrev resend_status : MsgStatus → ℕ → MsgLog → Bool
resend_status fail now it = not (check_message_deaded now it)
resend_status ready now it = not (check_message_deaded now it) && is_overdue 6 now it
resend_status normal now it = false
resend_status compensate now it = false
resend_status dead now it = false

unfoldable pub should_resend : ℕ → MsgLog → Bool
unfolding check_message_deaded
should_resend now it = resend_status it.status now it

abbrev is_normal : MsgStatus → Bool
is_normal normal = true
is_normal ready = false
is_normal fail = false
is_normal compensate = false
is_normal dead = false

-- The part of `doReSend` behind the second look at the status. `saveLog` counts the version up.
abbrev send_again : World → ℕ → MsgLog → Store → MsgLog × Store
send_again w now it s =
    let again : MsgLog = record it {
      status = compensate;
      update_time = now;
      version = it.version + 1;
    } in
    (
      again,
      record s {
        process = if applied w.save_process then some again else s.process;
        sent = if w.takes then s.sent + 1 else s.sent;
      },
    )

abbrev look_again : World → ℕ → MsgLog → Option MsgLog → Store → MsgLog × Store
look_again w now it none s = (it, s)
look_again w now it (some current) s =
    if is_normal current.status then (it, s) else send_again w now it s

-- The log as the method leaves it in memory, and the collections.
pub do_resend : World → ℕ → MsgLog → Store → MsgLog × Store
do_resend w now it s =
    let counted : MsgLog = record it { retrytimes = some (retries it + 1) } in
    if w.parses
    then (if w.finds then look_again w now counted s.process s else (counted, s))
    else (it, s)

abbrev delete_process_message : World → Store → Store
delete_process_message w s = record s {
  process = if applied w.delete_process then none else s.process;
}

-- `BeanUtils.copyProperties`, then the time of the copy.
abbrev pub full_log : ℕ → MsgLog → FullLog
full_log now it = record {
  status = it.status;
  createtime = it.createtime;
  update_time = now;
  deaded = it.deaded;
}

pub process_normal_message : World → ℕ → MsgLog → Store → Store
process_normal_message w now it s =
    let copied = record s {
      full = if applied w.save_full then some (full_log now it) else s.full;
    } in
    if answered w.save_full then delete_process_message w copied else copied

pub save_deaded_message : World → ℕ → MsgLog → Store → Store
save_deaded_message w now it s =
    let copied = record s {
      dead_letters =
          if applied w.save_dead
          then some (full_log now (record it { status = dead; deaded = 1 }))
          else s.dead_letters;
    } in
    if answered w.save_dead then delete_process_message w copied else copied

-- The branch for the statuses that may be sent again.
pub retry_message : World → ℕ → MsgLog → Store → Store
retry_message w now it s =
    let (it', s') = if should_resend now it then do_resend w now it s else (it, s) in
    if check_message_deaded now it' then save_deaded_message w now it' s' else s'

abbrev handle_status : MsgStatus → World → ℕ → MsgLog → Store → Store
handle_status ready w now it s = retry_message w now it s
handle_status fail w now it s = retry_message w now it s
handle_status compensate w now it s = retry_message w now it s
handle_status dead w now it s = save_deaded_message w now it s
handle_status normal w now it s = process_normal_message w now it s

-- The body of the loop of `handeMsgLog`, for one row.
pub handle_msg_log : World → ℕ → MsgLog → Store → Store
handle_msg_log w now it s = handle_status it.status w now it s

abbrev set_status : MsgStatus → Option MsgLog → Option MsgLog
set_status status none = none
set_status status (some m) = some (record m { status = status })

abbrev is_some : Option MsgLog → Bool
is_some none = false
is_some (some m) = true

-- `saveLog` of the log that the callback makes from the message.
abbrev pub save_full_log : Reply → FullLog → Store → Store
save_full_log saves log s = record s {
  full = if applied saves then some (record log { status = normal }) else s.full;
}

-- `deleteById` of the callback: whether it answers that the log was there, and the collections.
abbrev pub delete_sent : Reply → Store → Bool × Store
delete_sent deletes s = (
  answered deletes && is_some s.process,
  record s { process = if applied deletes then none else s.process },
)

-- Its update of the status.
abbrev pub mark_sent : Reply → Store → Store
mark_sent updates s = record s {
  process = if applied updates then set_status normal s.process else s.process;
}

-- The callback's work when Kafka took the message, with the replies of the deletion, the update and
-- the save, and nothing else between them. An update that ends in an exception ends the work.
unfoldable pub acknowledged : Reply → Reply → Reply → FullLog → Store → Store
acknowledged deletes updates saves log s =
    let (gone, left) = delete_sent deletes s in
    let marked = mark_sent updates left in
    if gone
    then save_full_log saves log left
    else if answered updates
    then save_full_log saves log marked
    else marked

-- The callback's work when the send failed. Without metadata it ends in an exception at once.
unfoldable pub send_failed : Bool → Reply → Store → Store
send_failed has_metadata updates s =
    if has_metadata && applied updates then record s { process = set_status fail s.process } else s
