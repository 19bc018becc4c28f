-- ===== src/GlobalLock/Factory/Tests.antt =====
-- The factory of locks at concrete calls.
use mq_kafka.Prelude.{◌≤◌, ◌≡◌, refl, none, List, [], ◌∷◌, map, arith}
use mq_kafka.GlobalLock.Factory.{Event, gets, removes, waits, runs, run, new_factory, get_lock}
use mq_kafka.GlobalLock.Factory.Alive.{first_call, later, get_lock-later}

-- A lock of a second, another key's lock made and removed, and the first key's task run too early.
abbrev busy_second : List Event
busy_second = gets 4 50 ∷ waits 900 ∷ runs 1 ∷ removes 4 ∷ []

free_before : (run (waits 10 ∷ []) new_factory).locks 3 ≡ none
unfolding run
free_before = refl

in_time : (later (waits 10 ∷ []) busy_second 3 1000).now ≤ 1010
unfolding run
in_time = omega arith

get_lock-later_example :
    (get_lock 3 0 (later (waits 10 ∷ []) busy_second 3 1000)).0
    ≡ (first_call (waits 10 ∷ []) 3 1000).0
unfolding run
get_lock-later_example =
    get_lock-later (waits 10 ∷ []) busy_second 3 1000 0 (refl, tt)
      (refl, (refl, (refl, (refl, tt)))) free_before (λ p. in_time)

-- When the lock was removed by hand and made again, the first lock's task takes the second one away,
-- long before its time, and calls its unlock.
removed_early :
    let h =
      run
        (gets 3 1000 ∷ removes 3 ∷ waits 900 ∷ gets 3 1000 ∷ waits 101 ∷ runs 1 ∷ [])
        new_factory in
    (h.locks 3 ≡ none) × (map (λ l. l.number) h.unlocked ≡ 1 ∷ [])
unfolding run
removed_early = (refl, refl)
