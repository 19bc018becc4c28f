-- ===== src/Producer/Answers.antt =====
-- KafkaMQServiceImpl.java and KafkaProducerManager.java: what the caller of a send is told.
use mq_kafka.Prelude.{
  ℕ, ◌≡◌, ◌≢◌, ◌↔◌, refl, ap, ◌∙◌, inl, inr, Bool, true, false, Bool-cases, Option, none, some,
  List, [], ◌∷◌, if◌then◌else◌,
}
use mq_kafka.Calls.{Reply}
use mq_kafka.Compensation.{FullLog, Store, send_failed}
use mq_kafka.Balance.Hash.{Choice, null, exception, target}
use mq_kafka.Producer.{
  Message, check_param, Ending, taken, failed, late, Completion, complete, choice, sent_by, send_mq,
  Result, ok, result_of, checked, send_mq_sync, complete_all,
}

-- The balancer gives a producer, and that producer takes the message.
abbrev pub IsTaken : (ℕ → Bool) → Choice → Type 0
IsTaken takes c = (t : ℕ) × (c ≡ target t) × (takes t ≡ true)

result_of-ok :
    (b : Bool) (answer : Ending)
    → (result_of (if b then some (complete answer ∷ []) else none)).0 ≡ ok
    → b ≡ true
result_of-ok true answer e = refl
result_of-ok false answer e = cc

sent_by-ok :
    (takes : ℕ → Bool) (c : Choice) (answer : Ending)
    → ((result_of (sent_by takes c false answer)).0 ≡ ok) ↔ IsTaken takes c
sent_by-ok takes null answer = (λ e. cc, λ k. let e = k.1 in cc)
sent_by-ok takes exception answer = (λ e. cc, λ k. let e = k.1 in cc)
sent_by-ok takes (target t) answer = (
  λ e. (t, refl, result_of-ok (takes t) answer e),
  λ k.
      let same : target t ≡ target k.0 = k.1 in
      let e : t ≡ k.0 = cc in let yes : takes t ≡ true = ap takes e ∙ k.2 in rw yes refl,
)

checked-ok :
    (b : Bool) (r : Result × List Completion) → (checked b r).0 ≡ ok → (b ≡ true) × (r.0 ≡ ok)
checked-ok true r e = (refl, e)
checked-ok false r e = cc

-- A synchronous send answers OK exactly if the message's parameters are valid, the balancer gives a
-- producer for its key, and that producer takes the message: whether Kafka then takes it, fails or
-- does not answer in time makes no difference.
pub send_mq_sync_iff :
    (takes : ℕ → Bool) (producers : List ℕ) (m : Message) (answer : Ending)
    → ((send_mq_sync takes producers (some m) answer).0 ≡ ok)
      ↔ ((check_param (some m) ≡ true) × IsTaken takes (choice producers m.message_body))
unfolding send_mq_sync send_mq
send_mq_sync_iff takes producers m answer =
    let sent = sent_by-ok takes (choice producers m.message_body) answer in
    let r = result_of (send_mq takes producers m false answer) in
    (
      λ e. let both = checked-ok (check_param (some m)) r e in (both.0, sent.0 both.1),
      λ k.
          let valid : check_param (some m) ≡ true = k.0 in
          ap (λ b. (checked b r).0) valid ∙ sent.1 k.1,
    )

module _ (deletes updates saves : Reply) (log : FullLog) (s : Store) where
  complete_all-one :
      (answer : Ending)
      → answer ≢ taken
      → complete_all deletes updates saves log (complete answer ∷ []) s ≡ s
  unfolding complete_all send_failed
  complete_all-one taken n = absurd (n refl)
  complete_all-one failed n = refl
  complete_all-one late n = refl

  complete_all-sent :
      (takes : ℕ → Bool) (c : Choice) (answer : Ending)
      → answer ≢ taken
      → complete_all deletes updates saves log (result_of (sent_by takes c false answer)).1 s ≡ s
  unfolding complete_all
  complete_all-sent takes null answer n = refl
  complete_all-sent takes exception answer n = refl
  complete_all-sent takes (target t) answer n = elim (Bool-cases (takes t)) [
    | inl yes_taken ↦ rw yes_taken (complete_all-one answer n)
    | inr refused ↦ rw refused refl
  ]

  complete_all-checked :
      (b : Bool) (r : Result × List Completion)
      → complete_all deletes updates saves log r.1 s ≡ s
      → complete_all deletes updates saves log (checked b r).1 s ≡ s
  unfolding complete_all
  complete_all-checked true r e = e
  complete_all-checked false r e = refl

-- If Kafka fails to take the message of a synchronous send, or does not answer in time, the
-- callback that the send runs itself changes no log: the message is not marked as failed.
pub send_mq_sync_fails :
    (takes : ℕ → Bool) (producers : List ℕ) (m : Option Message) (answer : Ending)
    (deletes updates saves : Reply) (log : FullLog) (s : Store)
    → answer ≢ taken
    → complete_all deletes updates saves log (send_mq_sync takes producers m answer).1 s ≡ s
unfolding send_mq_sync send_mq complete_all
send_mq_sync_fails takes producers none answer deletes updates saves log s n = refl
send_mq_sync_fails takes producers (some m) answer deletes updates saves log s n =
    complete_all-checked deletes updates saves log s (check_param (some m))
      (result_of (send_mq takes producers m false answer))
      (complete_all-sent deletes updates saves log s takes (choice producers m.message_body) answer
        n)
