-- ===== src/GlobalLock.antt =====
-- The lock that the compensation task takes, so that one instance of the service runs it at a time:
-- mq-redis-integration/src/main/java/com/mq/redis/lock/GlobalLock.java, GlobalLockLuaExecuter.java
-- (its two scripts, at the lock's key) and the value that a thread keeps by GlobalLockValue.java.
-- Redis is the parameter `redis`; times are milliseconds.
pub mod Exclusion
pub mod Attempts
pub mod Values
pub mod Factory
pub mod Waiting
mod Tests
use mq_kafka.Prelude.{
  ℕ, zero, suc, ◌+◌, ◌%◌, ◌-◌, ◌≡◌, Bool, true, false, not, ◌&&◌, ◌||◌, Option, none, some, List,
  [], ◌∷◌, ltb, leb, ◌==◌, if◌then◌else◌,
}
use mq_kafka.Calls.{Reply, applied, answered}

-- The server at the lock's key, and what the scripts use of its commands.
pub record Redis : Type 1 where
  pub Key : Type 0
  pub get : Key → Option ℕ
  pub setnx : ℕ → Key → Key × Bool
  pub expire : ℕ → Key → Key
  pub del : Key → Key
  pub setnx_free :
      (v : ℕ) (k : Key) → get k ≡ none → (get (setnx v k).0 ≡ some v) × ((setnx v k).1 ≡ true)
  pub setnx_taken :
      (v w : ℕ) (k : Key) → get k ≡ some w → (get (setnx v k).0 ≡ some w) × ((setnx v k).1 ≡ false)
  pub get_expire : (n : ℕ) (k : Key) → get (expire (suc n) k) ≡ get k
  pub get_del : (k : Key) → get (del k) ≡ none

-- `LOCK_EXPIRED` of the factory, which the constructor takes as `expired`.
abbrev pub expired : ℕ
expired = 900000

-- The server, the value that each thread keeps, and the permits of the lock object of each process.
pub record System (K : Type 0) : Type 0 where
  pub key : K
  pub value : ℕ → Option ℕ
  pub permits : ℕ → ℕ

-- The function with another value at that number.
abbrev pub put {ℓ} : {A : Type ℓ} → ℕ → A → (ℕ → A) → ℕ → A
put n a f m = if n == m then a else f m

abbrev max_permits : ℕ
max_permits = 1

module _ (redis : Redis) where
  open redis use {Key, get, setnx, expire, del}

  pub acquire_lock_script : ℕ → ℕ → Key → Key × Bool
  acquire_lock_script v n k =
      let (k', fresh) = setnx v k in if fresh then (expire n k', true) else (k', false)

  pub unlock_script : ℕ → Key → Key
  unlock_script v k = elim (get k) [ none ↦ k | some w ↦ if w == v then del k else k ]

  -- One round of the loop of `lock` or `tryLock`, by a thread with its new value: whether it won.
  pub attempt : Reply → ℕ → ℕ → System Key → System Key × Bool
  attempt reply v t s =
      let (k, won) = acquire_lock_script v expired s.key in
      let after = record s { key = if applied reply then k else s.key } in
      if answered reply && won
      then (record after { value = put t (some v) s.value }, true)
      else (after, false)

  abbrev unlock_key : Reply → Option ℕ → Key → Key
  unlock_key reply none k = k
  unlock_key reply (some v) k = if applied reply then unlock_script v k else k

  -- By a thread of that process, whether it holds the lock or not.
  pub unlock : Reply → ℕ → ℕ → System Key → System Key
  unlock reply process t s = record s {
    key = unlock_key reply (s.value t) s.key;
    permits =
        put process
          (if ltb (s.permits process) max_permits then s.permits process + 1 else s.permits process)
          s.permits;
    value = put t none s.value;
  }

  -- `sema.tryAcquire`, if a permit is there before the time is over.
  pub acquire_permit : ℕ → System Key → Option (System Key)
  acquire_permit process s =
      if ltb 0 (s.permits process)
      then some (record s { permits = put process (s.permits process - 1) s.permits })
      else none

-- What comes of a round of the loop of `tryLock`: the lock, another round, or an interrupted sleep.
pub data Answer : Type 0 where
  won busy interrupted : Answer

-- `GET_LOCK_WAIT_TIMEOUT`: 150, or the period that the last constructor with one has set, for every
-- lock, since the field is static.
abbrev pub get_lock_wait_timeout : Option ℕ → ℕ
get_lock_wait_timeout none = 150
get_lock_wait_timeout (some period) = if ltb 0 period then period else 150

-- `GET_LOCK_WAIT_TIMEOUT > timeoutMillis ? timeoutMillis : GET_LOCK_WAIT_TIMEOUT`
abbrev pub wait_of : ℕ → ℕ → ℕ
wait_of period timeout = if ltb timeout period then timeout else period

-- `(count += wait) <= timeoutMillis`: `count` is an int of 32 bits, and a negative one is below.
abbrev pub is_time_left : ℕ → ℕ → Bool
is_time_left timeout count = leb 2147483648 count || leb count timeout

-- The loop of `tryLock` from a count of milliseconds and of rounds: its answer and the rounds it
-- took. `none` means that the fuel ran out.
pub try_lock_loop : (ℕ → Answer) → ℕ → ℕ → ℕ → ℕ → ℕ → Option (Bool × ℕ)
try_lock_loop answers period timeout zero count n = none
try_lock_loop answers period timeout (suc fuel) count n =
    let next = (count + wait_of period timeout) % 4294967296 in
    let rest = try_lock_loop answers period timeout fuel next (suc n) in
    if is_time_left timeout next
    then elim (answers n) [
      | won ↦ some (true, suc n)
      | busy ↦ rest
      | interrupted ↦ some (false, suc n)
    ]
    else some (false, n)

-- `tryLock` behind the semaphore, with a timeout that is not negative.
abbrev pub try_lock : (ℕ → Answer) → ℕ → ℕ → ℕ → Option (Bool × ℕ)
try_lock answers period fuel timeout = try_lock_loop answers period timeout fuel 0 0
