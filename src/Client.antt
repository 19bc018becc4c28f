-- ===== src/Client.antt =====
-- The advice around a client's call of the message service: mq-service-api/src/main/java/com/mq/
-- interceptor/KafkaMQClientIntercepter.java, with util/MsgHandleUtil.java and the making and saving
-- of logs by KafkaProcessMsgLogService.java. The call itself, the database and what others do to
-- the message's logs during the call are an `AdvisedCall`; the store is that of the compensation task.
pub mod Hands
pub mod Kept
mod Tests
use mq_kafka.Prelude.{
  ℕ, ◌+◌, Bool, true, false, not, ◌&&◌, ◌||◌, Option, none, some, List, [], ◌∷◌, map, if◌then◌else◌,
}
use mq_kafka.Text.{Text, codes, occurs}
use mq_kafka.Calls.{Reply, applied, answered}
use mq_kafka.Text.Case.{to_lower}
use mq_kafka.Compensation.{MsgStatus, ready, normal, fail, compensate, dead, MsgLog, Store}

-- What `checkSendMessageFail` reads of an exception: the simple names of its class and of its
-- cause's, and `ExceptionFormatUtil.getTrace(error, 5)`, which is never null.
pub record Failure : Type 0 where
  pub class_name : Text
  pub cause_name : Option Text
  pub trace : Text

-- How the call ends: with null, with an object that carries no exception, with a ResultHandleT that
-- carries one, or with an exception.
pub data CallOutcome : Type 0 where
  null : CallOutcome
  answer : CallOutcome
  answer_with : Failure → CallOutcome
  throws : Failure → CallOutcome

abbrev key_words : List Text
key_words =
    codes "load balancer does not have available server for client"
    ∷ codes "Connection refused"
    ∷ codes "Hystrix circuit short-circuited and is OPEN"
    ∷ []

abbrev name_or_empty : Option Text → Text
name_or_empty none = []
name_or_empty (some name) = name

-- One key word in one exception; the trace is looked at twice.
unfoldable pub mentions : Text → Failure → Bool
unfolding occurs
mentions key_word error =
    let word = to_lower key_word in
    occurs word (to_lower error.class_name)
    || occurs word (to_lower (name_or_empty error.cause_name))
    || occurs word (to_lower error.trace)
    || occurs word (to_lower error.trace)

-- The loop over the key words.
unfoldable pub mentions_any : List Text → Failure → Bool
unfolding mentions
mentions_any [] error = false
mentions_any (word ∷ words) error =
    let later = mentions_any words error in if mentions word error then true else later

unfoldable pub check_send_message_fail : CallOutcome → Bool
unfolding mentions_any
check_send_message_fail null = false
check_send_message_fail answer = false
check_send_message_fail (answer_with error) = mentions_any key_words error
check_send_message_fail (throws error) = mentions_any key_words error

-- What the logs take of a message; `has_id` tells whether its digest is not empty.
pub record SentMessage : Type 0 where
  pub status : MsgStatus
  pub createtime : ℕ
  pub has_id : Bool

-- The times are those of the header. A status is a text, so that `DEAD.equals` of it is false.
abbrev pub make_log_from_message : SentMessage → MsgLog
make_log_from_message m = record {
  status = m.status;
  retrytimes = some 0;
  createtime = m.createtime;
  update_time = m.createtime;
  version = 0;
  deaded = 0;
}

-- How the calls of the database end, how the advised call ends, and what happens to the message's
-- logs from the first save to the end of the call.
pub record AdvisedCall : Type 0 where
  pub first_save : Reply
  pub outcome : CallOutcome
  pub meanwhile : Store → Store
  pub update : Reply
  pub second_save : Reply

abbrev pub is_ready : MsgStatus → Bool
is_ready ready = true
is_ready normal = false
is_ready fail = false
is_ready compensate = false
is_ready dead = false

abbrev pub is_normal_status : MsgStatus → Bool
is_normal_status ready = false
is_normal_status normal = true
is_normal_status fail = false
is_normal_status compensate = false
is_normal_status dead = false

-- `where("status").ne(NORMAL)`
abbrev pub set_unless_normal : MsgStatus → Option MsgLog → Option MsgLog
set_unless_normal status none = none
set_unless_normal status (some log) =
    if is_normal_status log.status then some log else some (record log { status = status })

-- `saveLog`, which counts the version of the log in memory up, whether it is saved or not.
abbrev pub counted : MsgLog → MsgLog
counted log = record log { version = log.version + 1 }

abbrev pub save_log : Reply → MsgLog → Store → Store
save_log reply log s = record s {
  process = if applied reply then some (counted log) else s.process;
}

-- `requestLog.getStatus()` behind `handMessageStatus`.
unfoldable pub request_status : CallOutcome → MsgStatus → MsgStatus
unfolding check_send_message_fail
request_status outcome status = if check_send_message_fail outcome then fail else status

unfoldable pub mark_log : AdvisedCall → MsgStatus → Bool → Store → Store
mark_log run status has_id s =
    if has_id && applied run.update
    then record s { process = set_unless_normal status s.process }
    else s

-- The `try` of the `finally` block: an update that ends in an exception ends it.
unfoldable pub settle_log : AdvisedCall → SentMessage → MsgStatus → Store → Store
unfolding mark_log
settle_log run m status s =
    let marked = mark_log run status m.has_id s in
    let log : MsgLog = record (counted (make_log_from_message m)) { status = status } in
    if is_ready status
    then s
    else if m.has_id && not (answered run.update)
    then marked
    else if answered run.first_save
    then marked
    else save_log run.second_save log marked

-- What the caller gets: the call's answer, or an exception.
pub data CallEnding : Type 0 where
  returned thrown : CallEnding

abbrev ending_of : CallOutcome → CallEnding
ending_of null = returned
ending_of answer = returned
ending_of (answer_with error) = returned
ending_of (throws error) = thrown

-- `doAround`; without a message among the arguments it fails before the call.
unfoldable pub do_around : AdvisedCall → Option SentMessage → Store → CallEnding × Store
unfolding settle_log request_status
do_around run none s = (thrown, s)
do_around run (some m) s =
    let saved = save_log run.first_save (make_log_from_message m) s in
    let called = run.meanwhile saved in
    (ending_of run.outcome, settle_log run m (request_status run.outcome m.status) called)
