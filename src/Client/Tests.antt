-- ===== src/Client/Tests.antt =====
-- KafkaMQClientIntercepter.java: a message that a client sends while the service is down.
use mq_kafka.Prelude.{◌≡◌, refl, inr, true, false, none, some, arith, [], ◌∷◌}
use mq_kafka.Text.{codes}
use mq_kafka.Text.Case.{lower_case}
use mq_kafka.Calls.{done, unanswered}
use mq_kafka.Compensation.{ready, normal, fail, MsgLog, FullLog, World, Store, should_resend}
use mq_kafka.Client.{Failure, throws, check_send_message_fail, SentMessage, AdvisedCall, do_around}
use mq_kafka.Compensation.Bound.{round, deletes, saves, history}
use mq_kafka.Compensation.Keeps.{is_held}
use mq_kafka.Client.Kept.{do_around-is_held}
use mq_kafka.Client.Hands.{do_around-should_resend, do_around-keeps_normal}

abbrev refused_connection : Failure
refused_connection = record {
  class_name = codes "RetryableException";
  cause_name = some (codes "ConnectException");
  trace = codes "feign.RetryableException: Connection refused executing POST";
}

abbrev timed_out : Failure
timed_out = record {
  class_name = codes "RetryableException";
  cause_name = some (codes "SocketTimeoutException");
  trace = codes "feign.RetryableException: Read timed out executing POST";
}

refused_fails : check_send_message_fail (throws refused_connection) ≡ true
unfolding check_send_message_fail lower_case
refused_fails = refl

timed_out_passes : check_send_message_fail (throws timed_out) ≡ false
unfolding check_send_message_fail lower_case
timed_out_passes = refl

abbrev message : SentMessage
message = record { status = ready; createtime = 1000; has_id = true }

abbrev nothing : Store
nothing = record { process = none; full = none; dead_letters = none; sent = 0 }

-- The service is down, and the first save is not answered either.
abbrev down : AdvisedCall
down = record {
  first_save = unanswered;
  outcome = throws refused_connection;
  meanwhile = λ x. x;
  update = done;
  second_save = done;
}

do_around-should_resend_example :
    (log : MsgLog) × ((do_around down (some message) nothing).1.process ≡ some log)
    × (log.status ≡ fail)
    × (should_resend 2000 log ≡ true)
do_around-should_resend_example =
    do_around-should_resend down message nothing 2000 refl refused_fails (λ x. refl)
      (inr (refl, refl, refl)) (omega arith)

-- The service takes the message and Kafka acknowledges it, but the answer is lost.
abbrev acknowledged_log : MsgLog
acknowledged_log = record {
  status = normal;
  retrytimes = some 0;
  createtime = 1000;
  update_time = 1000;
  version = 1;
  deaded = 0;
}

abbrev lost_answer : AdvisedCall
lost_answer = record {
  first_save = done;
  outcome = throws refused_connection;
  meanwhile = λ (x : Store). record x { process = some acknowledged_log };
  update = done;
  second_save = done;
}

do_around-keeps_normal_example :
    (do_around lost_answer (some message) nothing).1.process ≡ some acknowledged_log
do_around-keeps_normal_example =
    do_around-keeps_normal lost_answer message nothing acknowledged_log refl refl refl

-- The answer of the database to a round of the task: all calls are done.
abbrev all_done : World
all_done = record {
  parses = true;
  finds = true;
  save_process = done;
  save_full = done;
  save_dead = done;
  delete_process = done;
  takes = true;
}

abbrev sent_log : FullLog
sent_log = record { status = ready; createtime = 1000; update_time = 1000; deaded = 0 }

-- Kafka's acknowledgement comes while the client waits: the callback deletes the log in process, and
-- saves the full log after the call and a round of the task.
do_around-is_held_example :
    is_held (
      history
        (round all_done 5000 ∷ saves done sent_log ∷ [])
        (do_around
          (record down { meanwhile = history (deletes done ∷ []) })
          (some message)
          nothing).1)
    ≡ true
do_around-is_held_example =
    do_around-is_held down (deletes done ∷ []) (round all_done 5000 ∷ saves done sent_log ∷ [])
      message nothing refl ((λ e. refl), tt) tt
