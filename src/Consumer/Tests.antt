-- ===== src/Consumer/Tests.antt =====
-- The consumers at concrete inputs.
use mq_kafka.Prelude.{
  ℕ, ◌≤◌, ◌≡◌, refl, Bool, true, false, some, [], ◌∷◌, none, List, ◌<◌, length, arith,
}
use mq_kafka.Consumer.Workers.{
  TopicGroup, new_topic_group, Worker, new_worker, do_configure, build_consumers,
}
use mq_kafka.Consumer.Workers.Starts.{do_configure-build_consumers}
use mq_kafka.Consumer.{
  Group, Record, Turn, offset_of, keep_offset, put_offset, is_due, fate_of, process, start_batch,
  write_log, answer_commit, assign_partition, drop_same, drop_offset,
}
use mq_kafka.Consumer.Offsets.{KnownUpto, Upto, is_settled}
use mq_kafka.Consumer.Offsets.Reach.{
  start, Reach, here, next, polls, handles, answers, logs, assigns, Reach-settled,
}
use mq_kafka.Consumer.Deliveries.{deliveries, Prompt, Prompt-deliveries}

-- Two records of partition 0 with the same message.
abbrev record_at : ℕ → Record
record_at o = record { partition = 0; offset = o; digest = some 7; is_valid = true }

abbrev going : Bool → Turn
going last = record { finds = true; works = true; sends = true; last = last; running = true }

abbrev polled : Group
polled = start_batch 0 (assign_partition 0 0 0 false false start)

abbrev turned : Group
turned = write_log 0 true (process 5 (going false) 0 (record_at 0) polled)

abbrev ended : Group
ended = answer_commit 0 true (process 5 (going true) 0 (record_at 1) turned)

ended-committed : ended.committed 0 ≡ some 2
unfolding assign_partition start_batch process keep_offset put_offset is_due write_log answer_commit
ended-committed = refl

ended-current : ended.current 0 ≡ []
unfolding assign_partition start_batch process keep_offset put_offset is_due write_log answer_commit
    drop_same offset_of drop_offset
ended-current = refl

polled-Reach : Reach 5 polled
polled-Reach =
    next (next here (assigns 0 0 0 false false start))
      (polls 0 (assign_partition 0 0 0 false false start))

ended-Reach : Reach 5 ended
unfolding assign_partition start_batch process keep_offset put_offset is_due write_log
ended-Reach =
    let once = process 5 (going false) 0 (record_at 0) polled in
    let twice = process 5 (going true) 0 (record_at 1) turned in
    next
      (next
        (next (next polled-Reach (handles (going false) 0 (record_at 0) polled refl))
          (logs 0 true once))
        (handles (going true) 0 (record_at 1) turned refl))
      (answers 0 true twice)

Reach-settled_example :
    KnownUpto (is_settled ended) ended.committed
    × KnownUpto (is_settled ended) ended.db
    × ((t p latest : ℕ) (finds seeks : Bool)
        → let h = assign_partition t p latest finds seeks ended in
          Upto (is_settled h) p (h.cursor t p))
Reach-settled_example = Reach-settled ended-Reach

ended-Prompt : Prompt 5 (write_log 0 true (process 5 (going true) 0 (record_at 1) turned))
unfolding assign_partition start_batch
ended-Prompt = Prompt.handles (going true) 0 (record_at 1) refl (
    Prompt.handles (going false) 0 (record_at 0) refl (
      Prompt.others (polls 0 (assign_partition 0 0 0 false false start)) refl refl refl
        (Prompt.others (assigns 0 0 0 false false start) refl refl refl Prompt.here)))

Prompt-deliveries_example :
    deliveries 7 (write_log 0 true (process 5 (going true) 0 (record_at 1) turned)).trace ≤ 1
Prompt-deliveries_example = Prompt-deliveries ended-Prompt 7

-- Without the log task between them both turns run the business code.
late-deliveries :
    deliveries 7
      (process 5
        (going true)
        0
        (record_at 1)
        (process 5 (going false) 0 (record_at 0) polled)).trace
    ≡ 2
unfolding assign_partition start_batch process keep_offset put_offset is_due fate_of deliveries
late-deliveries = refl

-- A topic with two groups, one of them twice, and an entry without a group.
abbrev order_groups : List TopicGroup
order_groups =
    new_topic_group (some 1) (some 7) 3
    ∷ new_topic_group (some 1) (some 8) 0
    ∷ new_topic_group (some 1) (some 7) 3
    ∷ new_topic_group (some 2) none 5
    ∷ []

abbrev order_worker : Worker
order_worker = do_configure order_groups 0 0 0 10 new_worker

built : build_consumers order_worker.topic_group_map ≡ (1, 7) ∷ (1, 7) ∷ (1, 7) ∷ (1, 8) ∷ []
unfolding do_configure build_consumers
built = refl

built_some : 0 < length (build_consumers order_worker.topic_group_map)
built_some = rw built (omega arith)

built_few : length (build_consumers order_worker.topic_group_map) < 2147483648
built_few = rw built (omega arith)

do_configure-build_consumers_example :
    length (build_consumers order_worker.topic_group_map) ≡ order_worker.total_consumer_size
do_configure-build_consumers_example =
    do_configure-build_consumers order_groups 0 0 0 10 new_worker built_some built_few
