-- ===== src/GlobalLock/Factory.antt =====
-- The factory of locks in mq-redis-integration/src/main/java/com/mq/redis/lock/
-- GlobalLockRedisFactory.java: its table of locks, and the tasks that clear them. Keys are numbers; a
-- time that is not positive is taken like 0. `now` is the clock, in milliseconds.
pub mod Owners
pub mod Alive
mod Tests
use mq_kafka.Prelude.{
  ℕ, zero, suc, ◌+◌, ◌≤◌, ◌<◌, ◌≡◌, refl, ap, Bool, true, false, not, ◌&&◌, ◌||◌, Bool-cases, inl,
  inr, Option, none, some, List, [], ◌∷◌, pick, ltb, leb, ◌==◌, if◌then◌else◌, arith,
}

-- A lock, with the number of its construction.
pub record Lock : Type 0 where
  pub number : ℕ
  pub key : ℕ
  pub expired : ℕ

-- A task that clears a lock: when it was made, and when it is due.
pub record CleanLockTask : Type 0 where
  pub key : ℕ
  pub current_mill : ℕ
  pub wait_mill : ℕ
  pub delay_mill : ℕ
  pub due : ℕ

pub record Factory : Type 0 where
  pub now : ℕ
  pub made : ℕ
  pub locks : ℕ → Option Lock
  pub tasks : List CleanLockTask
  -- The locks whose `unlock` the tasks called, the last one first.
  pub unlocked : List Lock

abbrev pub new_factory : Factory
new_factory = record { now = 0; made = 0; locks = λ k. none; tasks = []; unlocked = [] }

abbrev put_lock : ℕ → Option Lock → (ℕ → Option Lock) → ℕ → Option Lock
put_lock key lock locks k = if k == key then lock else locks k

abbrev new_clean_lock_task : ℕ → ℕ → ℕ → CleanLockTask
new_clean_lock_task key alive_mill now = record {
  key = key;
  current_mill = now;
  wait_mill = alive_mill;
  delay_mill = 1000;
  due = now;
}

-- The branch of `computeIfAbsent` in which the key has no lock.
abbrev make_lock : ℕ → ℕ → Factory → Lock × Factory
make_lock key alive_mill f =
    let lock : Lock = record { number = f.made; key = key; expired = alive_mill } in
    (
      lock,
      record {
        now = f.now;
        made = suc f.made;
        locks = put_lock key (some lock) f.locks;
        tasks = new_clean_lock_task key alive_mill f.now ∷ f.tasks;
        unlocked = f.unlocked;
      },
    )

unfoldable pub get_lock : ℕ → ℕ → Factory → Lock × Factory
get_lock key alive_mill f = elim (f.locks key) [
  | some lock ↦ (lock, f)
  | none ↦ make_lock key alive_mill f
]

abbrev pub remove_lock : ℕ → Factory → Factory
remove_lock key f = record f { locks = put_lock key none f.locks }

abbrev add_unlocked : Option Lock → List Lock → List Lock
add_unlocked none locks = locks
add_unlocked (some lock) locks = lock ∷ locks

-- A task whose key has no lock any more ends with an exception, and is not run again either.
unfoldable pub run_task : CleanLockTask → List CleanLockTask → Factory → Factory
run_task t others f =
    let delay = t.delay_mill + 100 in
    if not (ltb 0 t.wait_mill)
    then record f { tasks = others }
    else if ltb (t.current_mill + t.wait_mill) f.now
    then record f {
      locks = put_lock t.key none f.locks;
      tasks = others;
      unlocked = add_unlocked (f.locks t.key) f.unlocked;
    }
    else record f { tasks = record t { delay_mill = delay; due = f.now + delay } ∷ others }

-- What happens to the factory: a call, a removal, time that passes, the scheduler at one of its tasks.
pub data Event : Type 0 where
  gets : ℕ → ℕ → Event
  removes : ℕ → Event
  waits : ℕ → Event
  runs : ℕ → Event

-- The scheduler runs a task when it is due, or later.
unfoldable pub step : Event → Factory → Factory
unfolding get_lock run_task
step (gets key alive_mill) f = (get_lock key alive_mill f).1
step (removes key) f = remove_lock key f
step (waits n) f = record f { now = f.now + n }
step (runs i) f = elim (pick i f.tasks) [
  | none ↦ f
  | some (t, others) ↦ if leb t.due f.now then run_task t others f else f
]

unfoldable pub run : List Event → Factory → Factory
unfolding step
run [] f = f
run (e ∷ es) f = run es (step e f)
