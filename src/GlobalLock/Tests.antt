-- ===== src/GlobalLock/Tests.antt =====
-- GlobalLock.java: the lock with a key that is a number or missing.
use mq_kafka.Prelude.{
  ℕ, zero, suc, ◌≡◌, ◌==◌, AllDifferent, refl, Bool, true, false, Option, none, some, List, [], ◌∷◌,
  arith,
}
use mq_kafka.Calls.{done}
use mq_kafka.GlobalLock.{
  Redis, System, put, attempt, unlock, acquire_permit, acquire_lock_script, unlock_script, Answer,
  won, busy, interrupted, try_lock_loop, try_lock, get_lock_wait_timeout,
}
use mq_kafka.GlobalLock.Exclusion.{
  Event, attempts, unlocks, waits, history, IsExclusive, history-IsExclusive, stale-keeps_owner,
}
use mq_kafka.GlobalLock.Values.{Use, reads, counts, set_to, new_values, new_values-AllDifferent}
use mq_kafka.GlobalLock.Waiting.{lock}
use mq_kafka.GlobalLock.Attempts.{Tells, try_lock_total}

abbrev setnx_at : ℕ → Option ℕ → Option ℕ × Bool
setnx_at v none = (some v, true)
setnx_at v (some w) = (some w, false)

abbrev expire_at : ℕ → Option ℕ → Option ℕ
expire_at zero k = none
expire_at (suc n) k = k

setnx_at_free :
    (v : ℕ) (k : Option ℕ) → k ≡ none → ((setnx_at v k).0 ≡ some v) × ((setnx_at v k).1 ≡ true)
setnx_at_free v none e = (refl, refl)
setnx_at_free v (some w) e = cc

setnx_at_taken :
    (v w : ℕ) (k : Option ℕ) → k ≡ some w → ((setnx_at v k).0 ≡ some w) × ((setnx_at v k).1 ≡ false)
setnx_at_taken v w none e = cc
setnx_at_taken v w (some x) e = (e, refl)

abbrev server : Redis
server = record {
  Key = Option ℕ;
  get = λ k. k;
  setnx = setnx_at;
  expire = expire_at;
  del = λ k. none;
  setnx_free = setnx_at_free;
  setnx_taken = setnx_at_taken;
  get_expire = λ n k. refl;
  get_del = λ k. refl;
}

abbrev idle : System (Option ℕ)
idle = record { key = none; value = λ t. none; permits = λ p. 1 }

abbrev contended : List Event
contended =
    waits 0
    ∷ attempts done 71 1
    ∷ attempts done 72 2
    ∷ unlocks done 1 2
    ∷ unlocks done 0 1
    ∷ attempts done 73 2
    ∷ []

history-IsExclusive_example : IsExclusive server (history server contended idle)
history-IsExclusive_example = history-IsExclusive server contended idle (λ t. refl)

contended_runs : (history server contended idle).key ≡ some 73
unfolding attempt unlock acquire_permit acquire_lock_script unlock_script
contended_runs = refl

abbrev stale : System (Option ℕ)
stale = record idle { key = some 72; value = put 1 (some 71) (put 2 (some 72) (λ t. none)) }

stale-keeps_owner_example :
    let unlocked = unlock server done 0 1 stale in
    let (tried, answer) = attempt server done 74 1 unlocked in
    (tried.key ≡ some 72) × (tried.value 2 ≡ some 72) × (answer ≡ false)
stale-keeps_owner_example =
    stale-keeps_owner server done 0 1 2 71 72 74 stale (omega arith) refl refl refl (omega arith)

abbrev held : System (Option ℕ)
held = record idle { key = some 71; value = put 1 (some 71) (λ t. none) }

abbrev third : ℕ → Answer
third zero = busy
third (suc zero) = busy
third (suc (suc n)) = won

abbrev default_wait : ℕ
default_wait = get_lock_wait_timeout none

try_lock_total_example :
    (r : Bool × ℕ) × (try_lock third default_wait 501 500 ≡ some r)
    × Tells third default_wait 500 0 r
try_lock_total_example =
    try_lock_total third default_wait 500 (omega arith) (omega arith) (omega arith) 501
      (omega arith)

try_lock_runs :
    (try_lock third default_wait 5 500 ≡ some (true, 3))
    × (try_lock (λ n. busy) default_wait 5 500 ≡ some (false, 3))
    × (try_lock (λ n. interrupted) default_wait 5 500 ≡ some (false, 1))
unfolding try_lock_loop
try_lock_runs = (refl, refl, refl)

-- Two threads whose calls overlap, and a third call; the first thread counts first.
abbrev three_calls : List Use
three_calls = reads 1 5000 ∷ reads 2 5001 ∷ counts 1 ∷ counts 2 ∷ reads 1 5001 ∷ counts 1 ∷ []

abbrev no_clock : ℕ → ℕ
no_clock t = 0

new_values-AllDifferent_example : AllDifferent (new_values 17 three_calls no_clock 9)
new_values-AllDifferent_example =
    new_values-AllDifferent 17 6000 three_calls no_clock 5000 9 (omega arith) (omega arith)

-- Set back in between, the counter makes one value twice.
same_value_twice :
    new_values 17 (reads 1 5000 ∷ counts 1 ∷ set_to 3 ∷ reads 1 5006 ∷ counts 1 ∷ []) no_clock 9
    ≡ 5027 ∷ 5027 ∷ []
unfolding new_values
same_value_twice = refl

-- So do two threads of which the second reads the clock later and counts first.
same_value_overlapping :
    new_values 17 (reads 1 100 ∷ reads 2 101 ∷ counts 2 ∷ counts 1 ∷ []) no_clock 0 ≡ 119 ∷ 119 ∷ []
unfolding new_values
same_value_overlapping = refl

-- And so do two processes with one time and one counter more.
same_value_elsewhere :
    new_values 17 (reads 1 5000 ∷ counts 1 ∷ []) no_clock 9
    ≡ new_values 18 (reads 1 5000 ∷ counts 1 ∷ []) no_clock 8
unfolding new_values
same_value_elsewhere = refl

abbrev second_wins : ℕ → Bool
second_wins n = n == 1

lock_runs : lock second_wins 7 ≡ some 2
unfolding lock
lock_runs = refl
