-- ===== src/Compensation/Deadline.antt =====
-- KakaMQMessageTask.java: what a round does when the database works.
use mq_kafka.Prelude.{ℕ, ◌≡◌, true, none, some, arith}
use mq_kafka.Calls.{done}
use mq_kafka.Compensation.{
  full_log, MsgLog, normal, Store, World, process_normal_message, handle_msg_log,
}

-- The database answers every call.
abbrev Works : World → Type 0
Works w =
    (w.finds ≡ true)
    × (w.save_process ≡ done)
    × (w.save_full ≡ done)
    × (w.save_dead ≡ done)
    × (w.delete_process ≡ done)

-- A message that was sent successfully is moved by the next round to the full log.
handle_msg_log_normal :
    (w : World) (now : ℕ) (it : MsgLog) (s : Store)
    → Works w
    → it.status ≡ normal
    → handle_msg_log w now it s ≡ record s { process = none; full = some (full_log now it) }
unfolding handle_msg_log process_normal_message
handle_msg_log_normal w now it s works e = ground arith
