-- ===== src/Compensation/Tests.antt =====
-- KakaMQMessageTask.java and SenderCallback.java: the theorems at concrete logs.
use mq_kafka.Prelude.{
  ℕ, zero, suc, ◌≤◌, ◌≡◌, refl, subst, true, false, none, some, List, [], ◌∷◌, arith,
}
use mq_kafka.Calls.{done, refused}
use mq_kafka.Compensation.{
  is_some, full_log, MsgLog, ready, normal, fail, Store, World, minutes, check_message_deaded,
  should_resend, do_resend, retry_message, handle_msg_log, process_normal_message, acknowledged,
  send_failed,
}
use mq_kafka.Compensation.Paging.{answered, Run, logs_in_process, pages, on_work, on_work_total}
use mq_kafka.Compensation.Coverage.{in_process}
use mq_kafka.Compensation.Whole.{on_work-all}
use mq_kafka.Compensation.Skips.{pages-skip}
use mq_kafka.Compensation.Keeps.{is_held, handle_msg_log-is_held}
use mq_kafka.Compensation.Bound.{Event, round, deletes, saves, fails, history, history-sent}

abbrev working : World
working = record {
  parses = true;
  finds = true;
  save_process = done;
  save_full = done;
  save_dead = done;
  delete_process = done;
  takes = true;
}

abbrev new_log : MsgLog
new_log = record {
  status = ready;
  retrytimes = some 0;
  createtime = 1000;
  update_time = 1000;
  version = 0;
  deaded = 0;
}

abbrev failed_log : MsgLog
failed_log = record new_log { status = fail; retrytimes = some 5 }

abbrev holding : MsgLog → Store
holding it = record { process = some it; full = none; dead_letters = none; sent = 0 }

handle_msg_log-is_held_example :
    is_held (
      handle_msg_log
        (record working { save_dead = refused })
        (minutes 20)
        failed_log
        (holding failed_log))
    ≡ true
handle_msg_log-is_held_example =
    handle_msg_log-is_held (record working { save_dead = refused }) (minutes 20) failed_log
      (holding failed_log) refl

abbrev sent_log : MsgLog
sent_log = record new_log { status = normal }

abbrev busy : List Event
busy =
    round working (minutes 7)
    ∷ fails true done
    ∷ round working (minutes 8)
    ∷ fails true done
    ∷ round working (minutes 9)
    ∷ deletes done
    ∷ saves done (full_log 1000 new_log)
    ∷ []

history-sent_example : (history busy (holding new_log)).sent ≤ 6
history-sent_example =
    history-sent busy new_log (holding new_log) refl refl refl refl (refl, (refl, (refl, tt)))

history_runs : (history busy (holding new_log)).sent ≡ 3
unfolding handle_msg_log retry_message should_resend do_resend check_message_deaded acknowledged
    send_failed
history_runs = refl

-- Three messages, of which the first is not in process, and a database that deletes nothing.
abbrev stored : ℕ → Store
stored zero = record (holding new_log) { process = none }
stored (suc m) = holding sent_log

abbrev keeping : ℕ → World
keeping m = record working { delete_process = refused }

-- A third message comes before the second page is asked for.
abbrev coming : ℕ → List ℕ
coming zero = 0 ∷ 1 ∷ []
coming (suc zero) = 0 ∷ 1 ∷ []
coming (suc (suc n)) = 0 ∷ 1 ∷ 2 ∷ []

on_work_total_example :
    (end : Run) × (on_work (λ n. answered) (λ n db. db) keeping (λ m. 5) coming 2 true stored
      ≡ some end)
on_work_total_example =
    on_work_total (λ n. answered) (λ n db. db) keeping (λ m. 5) coming 1 (omega arith) true stored

-- New messages, too young to be sent again.
abbrev young : ℕ → Store
young zero = record (holding new_log) { process = none }
young (suc m) = holding new_log

young-stays :
    (m : ℕ) (it : MsgLog)
    → (young m).process ≡ some it
    → is_some (handle_msg_log working 5 it (young m)).process ≡ true
unfolding handle_msg_log retry_message should_resend check_message_deaded
young-stays zero it e = cc
young-stays (suc m) it e =
    let same : new_log ≡ it = cc in
    subst (λ l. is_some (handle_msg_log working 5 l (holding new_log)).process ≡ true) same refl

on_work-all_example :
    (end : Run) × (on_work
        (λ n. answered)
        (λ n db. db)
        (λ m. working)
        (λ m. 5)
        (λ n. 0 ∷ 1 ∷ 2 ∷ [])
        4
        true
        young
      ≡ some end)
    × (end.handled ≡ 1 ∷ 2 ∷ [])
    × (in_process (0 ∷ 1 ∷ 2 ∷ []) end.db ≡ 1 ∷ 2 ∷ [])
unfolding in_process logs_in_process
on_work-all_example =
    on_work-all (λ m. working) (λ m. 5) young (0 ∷ 1 ∷ 2 ∷ [])
      (((λ e. omega arith), ((λ e. omega arith), tt)), (((λ e. omega arith), tt), (tt, tt)))
      young-stays

-- With two messages to a page and a database that deletes, the third message is left out.
abbrev deleting : ℕ → World
deleting m = working

deleting-leaves :
    (m : ℕ) (it : MsgLog)
    → (stored m).process ≡ some it
    → is_some (handle_msg_log (deleting m) 5 it (stored m)).process ≡ false
unfolding handle_msg_log process_normal_message
deleting-leaves zero it e = cc
deleting-leaves (suc m) it e =
    let same : sent_log ≡ it = cc in
    subst (λ l. is_some (handle_msg_log working 5 l (holding sent_log)).process ≡ false) same refl

pages-skip_example :
    (end : Run) × (pages
        (λ n. answered)
        (λ n db. db)
        deleting
        (λ m. 5)
        2
        (λ n. 1 ∷ 2 ∷ 3 ∷ [])
        4
        1
        (record { handled = []; db = stored })
      ≡ some end)
    × (end.handled ≡ 1 ∷ 2 ∷ [])
    × (in_process (1 ∷ 2 ∷ 3 ∷ []) end.db ≡ 3 ∷ [])
unfolding in_process logs_in_process
pages-skip_example =
    pages-skip deleting (λ m. 5) stored (1 ∷ 2 ∷ 3 ∷ []) 1 2
      (((λ e. omega arith), ((λ e. omega arith), tt)), (((λ e. omega arith), tt), (tt, tt)))
      deleting-leaves (omega arith) (omega arith)
