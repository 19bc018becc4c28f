-- ===== src/Calls.antt =====
-- The calls of a database or of another server, which are not part of the program.
use mq_kafka.Prelude.{Bool, true, false}

-- How a call that writes ends: done and answered; refused, with an exception or the answer false;
-- or done although it ends in an exception.
pub data Reply : Type 0 where
  done refused unanswered : Reply

abbrev pub applied : Reply → Bool
applied done = true
applied refused = false
applied unanswered = true

abbrev pub answered : Reply → Bool
answered done = true
answered refused = false
answered unanswered = false
