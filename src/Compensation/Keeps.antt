-- ===== src/Compensation/Keeps.antt =====
-- KakaMQMessageTask.java: no message is lost from the logs.
use mq_kafka.Prelude.{ℕ, ◌≡◌, Bool, true, false, none, some, arith}
use mq_kafka.Calls.{Reply, done, refused}
use mq_kafka.Compensation.{
  MsgLog, FullLog, Store, World, do_resend, process_normal_message, save_deaded_message,
  retry_message, handle_msg_log, acknowledged,
}

-- Some collection holds a log of the message.
abbrev pub is_held : Store → Bool
is_held s = elim s.process [
  | some m ↦ true
  | none ↦ elim s.full [
    | some m ↦ true
    | none ↦ elim s.dead_letters [ some m ↦ true | none ↦ false ]
  ]
]

process_normal_message-is_held :
    (w : World) (now : ℕ) (it : MsgLog) (s : Store)
    → is_held s ≡ true
    → is_held (process_normal_message w now it s) ≡ true
unfolding process_normal_message
process_normal_message-is_held w now it s h = ground arith

save_deaded_message-is_held :
    (w : World) (now : ℕ) (it : MsgLog) (s : Store)
    → is_held s ≡ true
    → is_held (save_deaded_message w now it s) ≡ true
unfolding save_deaded_message
save_deaded_message-is_held w now it s h = ground arith

do_resend-is_held :
    (w : World) (now : ℕ) (it : MsgLog) (s : Store)
    → is_held s ≡ true
    → is_held (do_resend w now it s).1 ≡ true
unfolding do_resend
do_resend-is_held w now it s h = ground arith

retry_message-is_held :
    (w : World) (now : ℕ) (it : MsgLog) (s : Store)
    → is_held s ≡ true
    → is_held (retry_message w now it s) ≡ true
unfolding retry_message
retry_message-is_held w now it s h =
    let after = do_resend w now it s in
    ground (
      arith,
      do_resend-is_held w now it s h,
      save_deaded_message-is_held w now it s h,
      save_deaded_message-is_held w now after.0 after.1,
    )

-- However the calls of the database and of the producer end, and whatever row the task works from,
-- a round of the task keeps a message in the logs: it is deleted from one collection only after it
-- was saved to another.
pub handle_msg_log-is_held :
    (w : World) (now : ℕ) (it : MsgLog) (s : Store)
    → is_held s ≡ true
    → is_held (handle_msg_log w now it s) ≡ true
unfolding handle_msg_log
handle_msg_log-is_held w now it s h = ground (
  arith,
  retry_message-is_held w now it s h,
  save_deaded_message-is_held w now it s h,
  process_normal_message-is_held w now it s h,
)

-- The callback deletes first: where a log stands only among the messages in process, and is deleted
-- but the save of the full log is refused, no collection holds the message any more.
pub acknowledged_loses :
    (updates : Reply) (log : FullLog) (it : MsgLog) (s : Store)
    → s.process ≡ some it
    → s.full ≡ none
    → s.dead_letters ≡ none
    → is_held (acknowledged done updates refused log s) ≡ false
unfolding acknowledged
acknowledged_loses updates log it s p f d = ground arith
