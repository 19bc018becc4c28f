-- ===== src/Producer.antt =====
-- The sending of a message by the service: mq-service/src/main/java/com/mq/kafka/biz/impl/
-- KafkaMQServiceImpl.java on
-- mq-service/src/main/java/com/mq/kafka/producer/KafkaProducerManager.java, which chooses one of
-- its producers by the message's key (Balance/Hash). Kafka is not part of the program: which
-- producers take a message, and how the future of a send ends, are arguments. The callback that a
-- producer runs itself is in Compensation.
pub mod Answers
mod Tests
use mq_kafka.Prelude.{
  ℕ, Bool, true, false, not, ◌||◌, Option, none, some, List, [], ◌∷◌, if◌then◌else◌,
}
use mq_kafka.Text.{Text}
use mq_kafka.Calls.{Reply}
use mq_kafka.Compensation.{FullLog, Store, acknowledged, send_failed}
use mq_kafka.Balance.Hash.{Choice, null, exception, target, get}

pub record Header : Type 0 where
  pub msg_id : Option Text
  pub source_system : Option Text

-- What the sending reads of a message; `none` is null. The key stands for its hash.
pub record Message : Type 0 where
  pub msg_type : Option Text
  pub header : Option Header
  pub topic : Option Text
  pub message_body : Option (Option ℕ)

-- `StringUtils.isBlank`
abbrev is_blank_id : Option Text → Bool
is_blank_id none = true
is_blank_id (some []) = true
is_blank_id (some (c ∷ s)) = false

abbrev is_header_valid : Option Header → Option Text → Bool
is_header_valid none topic = false
is_header_valid (some header) topic =
    not (is_blank_id header.msg_id || is_blank_id header.source_system || is_blank_id topic)

-- Whether `checkParam` finds no error.
pub check_param : Option Message → Bool
check_param none = false
check_param (some m) = if is_blank_id m.msg_type then false else is_header_valid m.header m.topic

-- How the future of a send ends within the timeout.
pub data Ending : Type 0 where
  taken failed late : Ending

-- A run of `SenderCallback.onCompletion`: with the metadata, or with null and an exception.
pub data Completion : Type 0 where
  with_metadata with_error : Completion

abbrev complete : Ending → Completion
complete taken = with_metadata
complete failed = with_error
complete late = with_error

-- Without a producer the balancer does not look at the key.
abbrev if_empty : List ℕ → Choice
if_empty [] = null
if_empty (t ∷ ts) = exception

-- `loadBalancer.get`, which throws for a null key, as does a null message body.
abbrev choice : List ℕ → Option (Option ℕ) → Choice
choice producers none = exception
choice producers (some none) = if_empty producers
choice producers (some (some hash)) = get hash producers

-- The producer's `send`, and the callback that a synchronous send runs itself; `none` is an
-- exception.
abbrev sent_by : (ℕ → Bool) → Choice → Bool → Ending → Option (List Completion)
sent_by takes null is_async answer = none
sent_by takes exception is_async answer = none
sent_by takes (target t) is_async answer =
    if takes t then some (if is_async then [] else complete answer ∷ []) else none

pub send_mq : (ℕ → Bool) → List ℕ → Message → Bool → Ending → Option (List Completion)
send_mq takes producers m is_async answer =
    sent_by takes (choice producers m.message_body) is_async answer

pub data Result : Type 0 where
  ok mq_param_error mq_send_error : Result

abbrev result_of : Option (List Completion) → Result × List Completion
result_of none = (mq_send_error, [])
result_of (some completions) = (ok, completions)

abbrev checked : Bool → Result × List Completion → Result × List Completion
checked true r = r
checked false r = (mq_param_error, [])

abbrev send_any : Bool → (ℕ → Bool) → List ℕ → Option Message → Ending → Result × List Completion
send_any is_async takes producers none answer = (mq_param_error, [])
send_any is_async takes producers (some m) answer =
    checked (check_param (some m)) (result_of (send_mq takes producers m is_async answer))

-- `sendMQSync`: the answer to the caller, and the callbacks it has run.
pub send_mq_sync : (ℕ → Bool) → List ℕ → Option Message → Ending → Result × List Completion
unfolding check_param send_mq
send_mq_sync takes producers m answer = send_any false takes producers m answer

-- `sendMQAsync`, and `compensateSendMQ`, which does the same.
pub send_mq_async : (ℕ → Bool) → List ℕ → Option Message → Result × List Completion
unfolding check_param send_mq
send_mq_async takes producers m = send_any true takes producers m late

-- What the callbacks do to the message's logs, with the replies of the database.
pub complete_all : Reply → Reply → Reply → FullLog → List Completion → Store → Store
complete_all deletes updates saves log [] s = s
complete_all deletes updates saves log (with_metadata ∷ cs) s =
    complete_all deletes updates saves log cs (acknowledged deletes updates saves log s)
complete_all deletes updates saves log (with_error ∷ cs) s =
    complete_all deletes updates saves log cs (send_failed false updates s)
