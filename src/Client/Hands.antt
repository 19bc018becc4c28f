-- ===== src/Client/Hands.antt =====
-- What the advice leaves for the compensation task.
use mq_kafka.Prelude.{
  either, ℕ, ◌+◌, ◌≤◌, ◌≡◌, refl, ap, ◌∙◌, true, false, Bool-cases, not, ◌&&◌, ◌⊎◌, inl, inr,
  Option, some, arith, if◌then◌else◌,
}
use mq_kafka.Calls.{applied, answered}
use mq_kafka.Compensation.{
  MsgStatus, ready, normal, fail, MsgLog, Store, minutes, should_resend, check_message_deaded,
}
use mq_kafka.Client.{
  SentMessage, AdvisedCall, check_send_message_fail, make_log_from_message, request_status,
  mark_log, settle_log, do_around, counted, is_ready, is_normal_status, save_log, set_unless_normal,
}

-- The first save and the update took effect, or the second save did and nothing kept it back.
abbrev pub IsLogged : AdvisedCall → SentMessage → Type 0
IsLogged run m =
    ((applied run.first_save ≡ true) × (m.has_id ≡ true) × (applied run.update ≡ true))
    ⊎ ((answered run.first_save ≡ false)
        × ((m.has_id && not (answered run.update)) ≡ false)
        × (applied run.second_save ≡ true))

-- A log that says of the message that it has failed, and was not retried.
abbrev HasFailed : SentMessage → Option MsgLog → Type 0
HasFailed m process =
    (log : MsgLog) × (process ≡ some log)
    × (log.status ≡ fail)
    × (log.retrytimes ≡ some 0)
    × (log.createtime ≡ m.createtime)

module _ (run : AdvisedCall) (m : SentMessage) (s : Store) where
  abbrev saved : Store
  saved = save_log run.first_save (make_log_from_message m) s

  -- The update marks the log that the first save left.
  mark_log-HasFailed :
      m.status ≡ ready
      → applied run.first_save ≡ true
      → m.has_id ≡ true
      → applied run.update ≡ true
      → HasFailed m (mark_log run fail m.has_id saved).process
  unfolding mark_log
  mark_log-HasFailed r a h u = rw (h, u, a, r) (_, refl, refl, refl, refl)

  settle_log-HasFailed :
      m.status ≡ ready → IsLogged run m → HasFailed m (settle_log run m fail saved).process
  unfolding settle_log
  settle_log-HasFailed r (inl (a, h, u)) =
      let marked = mark_log-HasFailed r a h u in
      let K : Store → Type 0 = λ (t : Store). HasFailed m t.process in
      let left = mark_log run fail m.has_id saved in
      let log : MsgLog = record (counted (make_log_from_message m)) { status = fail } in
      let again = save_log run.second_save log left in
      let rest = if answered run.first_save then left else again in
      let saved_again : K again = elim (Bool-cases (applied run.second_save)) [
        | inl e ↦ rw e (_, refl, refl, refl, refl)
        | inr e ↦ rw e marked
      ] in
      either K (m.has_id && not (answered run.update)) left rest marked
        (either K (answered run.first_save) left again marked saved_again)
  settle_log-HasFailed r (inr (a, h, u)) = rw (a, h, u) (_, refl, refl, refl, refl)

do_around-HasFailed :
    (run : AdvisedCall) (m : SentMessage) (s : Store)
    → m.status ≡ ready
    → check_send_message_fail run.outcome ≡ true
    → ((x : Store) → run.meanwhile x ≡ x)
    → IsLogged run m
    → HasFailed m (do_around run (some m) s).1.process
unfolding do_around request_status
do_around-HasFailed run m s r f q logged = rw (f, q) (settle_log-HasFailed run m s r logged)

failed_resends :
    (log : MsgLog) (now : ℕ)
    → log.status ≡ fail
    → log.retrytimes ≡ some 0
    → now ≤ log.createtime + minutes 15
    → should_resend now log ≡ true
unfolding should_resend check_message_deaded
failed_resends log now failed retried young = rw (failed, retried) (ground arith)

-- A message whose call fails because the service cannot be reached is left to the compensation task,
-- which sends it again at its next look, as long as the message is not 15 minutes old: if the first
-- save and the update took effect, or the first save was not answered, nothing kept the second back
-- and that took effect. The message is ready when the client sends it, and nothing else changes its
-- logs meanwhile.
pub do_around-should_resend :
    (run : AdvisedCall) (m : SentMessage) (s : Store) (now : ℕ)
    → m.status ≡ ready
    → check_send_message_fail run.outcome ≡ true
    → ((x : Store) → run.meanwhile x ≡ x)
    → IsLogged run m
    → now ≤ m.createtime + minutes 15
    → (log : MsgLog) × ((do_around run (some m) s).1.process ≡ some log)
      × (log.status ≡ fail)
      × (should_resend now log ≡ true)
do_around-should_resend run m s now r f q logged young =
    let (log, held, failed, retried, created) = do_around-HasFailed run m s r f q logged in
    (log, held, failed, failed_resends log now failed retried (omega (arith, created, young)))

module _ (run : AdvisedCall) (m : SentMessage) (log : MsgLog) where
  abbrev Keeps : Store → Type 0
  Keeps t = t.process ≡ some log

  mark_log-Keeps :
      (status : MsgStatus) (t : Store)
      → Keeps t
      → log.status ≡ normal
      → Keeps (mark_log run status m.has_id t)
  unfolding mark_log
  mark_log-Keeps status t held n =
      let marked : Store = record t { process = set_unless_normal status t.process } in
      let same : Keeps marked =
        ap (set_unless_normal status) held
        ∙ ap (λ b. if is_normal_status b then some log else some (record log { status = status }))
            n in
      either Keeps (m.has_id && applied run.update) marked t same held

  settle_log-Keeps :
      (status : MsgStatus) (t : Store)
      → answered run.first_save ≡ true
      → Keeps t
      → log.status ≡ normal
      → Keeps (settle_log run m status t)
  unfolding settle_log
  settle_log-Keeps status t a held n =
      let marked = mark_log run status m.has_id t in
      let kept = mark_log-Keeps status t held n in
      rw a (
        either Keeps (is_ready status) t _ held
          (either Keeps (m.has_id && not (answered run.update)) marked marked kept kept))

-- A message that the service has marked NORMAL by the end of the call stays marked, whatever else goes
-- wrong, if the first save was answered.
pub do_around-keeps_normal :
    (run : AdvisedCall) (m : SentMessage) (s : Store) (log : MsgLog)
    → answered run.first_save ≡ true
    → (run.meanwhile (save_log run.first_save (make_log_from_message m) s)).process ≡ some log
    → log.status ≡ normal
    → (do_around run (some m) s).1.process ≡ some log
unfolding do_around
do_around-keeps_normal run m s log a held n =
    settle_log-Keeps run m log _
      (run.meanwhile (save_log run.first_save (make_log_from_message m) s)) a held n

quiet_status :
    (run : AdvisedCall) (m : SentMessage)
    → m.status ≡ ready
    → check_send_message_fail run.outcome ≡ false
    → request_status run.outcome m.status ≡ ready
unfolding request_status
quiet_status run m r f = rw f r

-- If the call does not fail in one of the three ways that the key words tell, the advice does nothing
-- to the logs of a ready message but the first save, whatever the call returns or throws.
pub do_around-quiet :
    (run : AdvisedCall) (m : SentMessage) (s : Store)
    → m.status ≡ ready
    → check_send_message_fail run.outcome ≡ false
    → (do_around run (some m) s).1
      ≡ run.meanwhile (save_log run.first_save (make_log_from_message m) s)
unfolding do_around settle_log
do_around-quiet run m s r f =
    ap
      (λ status.
        settle_log run m status
          (run.meanwhile (save_log run.first_save (make_log_from_message m) s)))
      (quiet_status run m r f)
