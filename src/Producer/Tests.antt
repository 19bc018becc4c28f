-- ===== src/Producer/Tests.antt =====
-- The sending at concrete messages.
use mq_kafka.Prelude.{◌≡◌, ◌↔◌, refl, true, none, some, [], ◌∷◌}
use mq_kafka.Text.{codes}
use mq_kafka.Balance.Hash.{get, key_index}
use mq_kafka.Producer.{
  Message, check_param, late, with_error, choice, ok, mq_param_error, send_mq, send_mq_sync,
}
use mq_kafka.Producer.Answers.{IsTaken, send_mq_sync_iff}

abbrev order_message : Message
order_message = record {
  msg_type = some (codes "order");
  header = some (record { msg_id = some (codes "1"); source_system = some (codes "shop") });
  topic = some (codes "orders");
  message_body = some (some 5);
}

send_mq_sync_iff_example :
    ((send_mq_sync (λ t. true) (7 ∷ []) (some order_message) late).0 ≡ ok) ↔ (
      (check_param (some order_message) ≡ true)
      × IsTaken (λ t. true) (choice (7 ∷ []) (some (some 5))))
send_mq_sync_iff_example = send_mq_sync_iff (λ t. true) (7 ∷ []) order_message late

late-ok : (send_mq_sync (λ t. true) (7 ∷ []) (some order_message) late) ≡ (ok, with_error ∷ [])
unfolding send_mq_sync send_mq check_param get key_index
late-ok = refl

no_topic :
    (send_mq_sync (λ t. true) (7 ∷ []) (some (record order_message { topic = none })) late).0
    ≡ mq_param_error
unfolding send_mq_sync send_mq check_param
no_topic = refl
