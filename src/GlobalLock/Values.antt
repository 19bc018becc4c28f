-- ===== src/GlobalLock/Values.antt =====
-- The values by which threads know their lock: mq-redis-integration/src/main/java/com/mq/redis/lock/
-- GlobalLockValue.java. Times are milliseconds; a value is a long of 64 bits.
use mq_kafka.Prelude.{ℕ, ◌+◌, ◌%◌, ◌≤◌, ◌<◌, ◌≢◌, List, [], ◌∷◌, All, AllDifferent, length, arith}
use mq_kafka.GlobalLock.{put}

-- What uses the counter of a process: a thread that reads the clock in `newValue`, the same thread
-- when it counts later on, and the task that sets the counter to a random number every two seconds.
pub data Use : Type 0 where
  reads : ℕ → ℕ → Use
  counts : ℕ → Use
  set_to : ℕ → Use

-- `incrementAndGet`, and the sum with the time that was read.
unfoldable pub gen : ℕ → ℕ → ℕ → ℕ × ℕ
gen process_id now incr = ((now + process_id + (incr + 1)) % 18446744073709551616, incr + 1)

-- The values that the calls return, with the time that each thread has read.
unfoldable pub new_values : ℕ → List Use → (ℕ → ℕ) → ℕ → List ℕ
unfolding gen
new_values process_id [] clocks incr = []
new_values process_id (reads t now ∷ uses) clocks incr =
    new_values process_id uses (put t now clocks) incr
new_values process_id (counts t ∷ uses) clocks incr =
    let (value, next) = gen process_id (clocks t) incr in
    value ∷ new_values process_id uses clocks next
new_values process_id (set_to n ∷ uses) clocks incr = new_values process_id uses clocks n

-- The calls count in the order of the times that they have read, from a time on and up to a last one,
-- and nothing else uses the counter.
abbrev pub AreInOrder : List Use → (ℕ → ℕ) → ℕ → ℕ → Type 0
AreInOrder [] clocks from last = Unit
AreInOrder (reads t now ∷ uses) clocks from last = AreInOrder uses (put t now clocks) from last
AreInOrder (counts t ∷ uses) clocks from last =
    (from ≤ clocks t) × (clocks t ≤ last) × AreInOrder uses clocks (clocks t) last
AreInOrder (set_to n ∷ uses) clocks from last = ⊥

module _ (process_id last : ℕ) where
  above-All :
      (uses : List Use) (clocks : ℕ → ℕ) (from incr v : ℕ)
      → AreInOrder uses clocks from last
      → last + process_id + (incr + length uses) < 18446744073709551616
      → v < from + process_id + (incr + 1)
      → All (λ w. v ≢ w) (new_values process_id uses clocks incr)
  unfolding new_values gen
  above-All [] clocks from incr v h b l = tt
  above-All (reads t now ∷ uses) clocks from incr v h b l =
      above-All uses (put t now clocks) from incr v h (omega arith) l
  above-All (counts t ∷ uses) clocks from incr v h b l =
      let (low, high, rest) = h in
      (ground arith, above-All uses clocks (clocks t) (incr + 1) v rest (omega arith) (omega arith))
  above-All (set_to n ∷ uses) clocks from incr v h b l = absurd h

  -- The values that the calls of one process return are all different, if the calls count in the order
  -- of the times that they have read, the counter is not set anew, and the sums fit into 64 bits. The
  -- threads read and count in any order with this.
  pub new_values-AllDifferent :
      (uses : List Use) (clocks : ℕ → ℕ) (from incr : ℕ)
      → AreInOrder uses clocks from last
      → last + process_id + (incr + length uses) < 18446744073709551616
      → AllDifferent (new_values process_id uses clocks incr)
  unfolding new_values gen
  new_values-AllDifferent [] clocks from incr h b = tt
  new_values-AllDifferent (reads t now ∷ uses) clocks from incr h b =
      new_values-AllDifferent uses (put t now clocks) from incr h (omega arith)
  new_values-AllDifferent (counts t ∷ uses) clocks from incr h b =
      let (low, high, rest) = h in
      (
        above-All uses clocks (clocks t) (incr + 1)
            ((clocks t + process_id + (incr + 1)) % 18446744073709551616) rest (omega arith)
            (ground arith),
        new_values-AllDifferent uses clocks (clocks t) (incr + 1) rest (omega arith),
      )
  new_values-AllDifferent (set_to n ∷ uses) clocks from incr h b = absurd h
