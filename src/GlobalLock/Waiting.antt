-- ===== src/GlobalLock/Waiting.antt =====
-- The loop of `lock` in mq-redis-integration/src/main/java/com/mq/redis/lock/GlobalLock.java, and the
-- task that clears old locks out of GlobalLockRedisFactory.java. Times are milliseconds.
use mq_kafka.Prelude.{
  ℕ, zero, suc, ◌+◌, ◌*◌, ◌≤◌, ◌<◌, ◌≡◌, ◌↔◌, ◌∙◌, ◌==◌, ap, subst, Bool, true, false, Bool-cases,
  inl, inr, Option, none, some, ltb, if◌then◌else◌, arith,
}

-- The loop of `lock`, whose rounds win or not: an exception or a wait that is interrupted is a round
-- that does not. It gives the number of rounds; `none` means that the fuel ran out.
unfoldable pub lock_loop : (ℕ → Bool) → ℕ → ℕ → Option ℕ
lock_loop wins zero n = none
lock_loop wins (suc fuel) n =
    let rest = lock_loop wins fuel (suc n) in if wins n then some (suc n) else rest

unfoldable pub lock : (ℕ → Bool) → ℕ → Option ℕ
unfolding lock_loop
lock wins fuel = lock_loop wins fuel 0

-- `wins` for the first time at that round, from another on.
abbrev pub IsFirst : (ℕ → Bool) → ℕ → ℕ → Type 0
IsFirst wins n k = (n ≤ k) × (wins k ≡ true) × ((m : ℕ) → n ≤ m → m < k → wins m ≡ false)

IsFirst-is_here : (wins : ℕ → Bool) (n k : ℕ) → IsFirst wins n k → wins n ≡ true → k ≡ n
IsFirst-is_here wins n k h e = elim (Bool-cases (ltb n k)) [
  | inl l ↦ let lost = h.2 n (omega arith) (ground arith) in cc
  | inr l ↦ let from = h.0 in ground arith
]

IsFirst-is_later :
    (wins : ℕ → Bool) (n k : ℕ) → IsFirst wins n k → wins n ≡ false → IsFirst wins (suc n) k
IsFirst-is_later wins n k h e = elim (Bool-cases (ltb n k)) [
  | inl l ↦ (ground arith, h.1, λ m a b. h.2 m (omega arith) b)
  | inr l ↦
      let from = h.0 in
      let same : n ≡ k = ground arith in
      let won : wins k ≡ true = h.1 in let here : wins n ≡ wins k = ap wins same in cc
]

IsFirst-from_before :
    (wins : ℕ → Bool) (n k : ℕ) → IsFirst wins (suc n) k → wins n ≡ false → IsFirst wins n k
IsFirst-from_before wins n k h e = (
  omega (arith, h.0),
  h.1,
  λ m a b. elim (Bool-cases (m == n)) [
    | inl same ↦ let here : m ≡ n = ground arith in ap wins here ∙ e
    | inr other ↦ h.2 m (ground arith) b
  ],
)

lock_loop-IsFirst :
    (wins : ℕ → Bool) (fuel n k : ℕ)
    → IsFirst wins n k
    → k < n + fuel
    → lock_loop wins fuel n ≡ some (suc k)
unfolding lock_loop
lock_loop-IsFirst wins zero n k h b = absurd (omega arith)
lock_loop-IsFirst wins (suc fuel) n k h b = elim (Bool-cases (wins n)) [
  | inl e ↦ rw (e, IsFirst-is_here wins n k h e)
  | inr e ↦
      rw e (lock_loop-IsFirst wins fuel (suc n) k (IsFirst-is_later wins n k h e) (omega arith))
]

lock_loop_sound :
    (wins : ℕ → Bool) (fuel n r : ℕ)
    → lock_loop wins fuel n ≡ some r
    → (k : ℕ) × (r ≡ suc k) × IsFirst wins n k
unfolding lock_loop
lock_loop_sound wins zero n r h = absurd (cc h)
lock_loop_sound wins (suc fuel) n r h = elim (Bool-cases (wins n)) [
  | inl e ↦ (
    n,
    let taken : some (suc n) ≡ some r =
          subst (λ b. (if b then some (suc n) else lock_loop wins fuel (suc n)) ≡ some r) e h in
        cc taken,
    (omega arith, e, λ m a b. absurd (omega arith)),
  )
  | inr e ↦
      let rest : lock_loop wins fuel (suc n) ≡ some r =
        subst (λ b. (if b then some (suc n) else lock_loop wins fuel (suc n)) ≡ some r) e h in
      let (k, same, later) = lock_loop_sound wins fuel (suc n) r rest in
      (k, same, IsFirst-from_before wins n k later e)
]

-- `lock` returns after just as many rounds as it takes for one to win: with more fuel than that
-- round's number it gives this many rounds exactly if the round wins and none before it does.
pub lock_iff :
    (wins : ℕ → Bool) (k fuel : ℕ) → k < fuel → (lock wins fuel ≡ some (suc k)) ↔ IsFirst wins 0 k
unfolding lock
lock_iff wins k fuel b = (
  λ h.
      let (j, same, first) = lock_loop_sound wins fuel 0 (suc k) h in
      let e : j ≡ k = omega (arith, same) in subst (IsFirst wins 0) e first,
  λ h. lock_loop-IsFirst wins fuel 0 k h (omega arith),
)

-- The runs of the task that clears a lock, from a time and a delay on, with how late each run comes:
-- the age at which it takes the lock out of the factory's table. `none` means that the fuel ran out.
unfoldable pub clean_loop : (ℕ → ℕ) → ℕ → ℕ → ℕ → ℕ → ℕ → Option ℕ
clean_loop late wait_mill zero age delay n = none
clean_loop late wait_mill (suc fuel) age delay n =
    let next = delay + 100 in
    let rest = clean_loop late wait_mill fuel (age + (next + late n)) next (suc n) in
    if ltb wait_mill age then some age else rest

abbrev cleared : Option ℕ → Option (Option ℕ)
cleared none = none
cleared (some age) = some (some age)

-- The first run is submitted when the lock is made. With a time of 0 the lock is never cleared, which
-- is the inner `none`.
unfoldable pub clean : (ℕ → ℕ) → ℕ → ℕ → Option (Option ℕ)
unfolding clean_loop
clean late wait_mill fuel =
    let age = clean_loop late wait_mill fuel (late 0) 1000 1 in
    if ltb 0 wait_mill then cleared age else some none

clean_loop_total :
    (late : ℕ → ℕ) (wait_mill fuel age delay n : ℕ)
    → 1000 ≤ delay
    → wait_mill < age + fuel * 1000
    → (t : ℕ) × (clean_loop late wait_mill (suc fuel) age delay n ≡ some t) × (wait_mill < t)
unfolding clean_loop
clean_loop_total late wait_mill zero age delay n d b = (age, ground arith, omega (arith, b))
clean_loop_total late wait_mill (suc fuel) age delay n d b =
    let next = age + ((delay + 100) + late n) in
    let (t, runs, old) =
      clean_loop_total late wait_mill fuel next (delay + 100) (suc n) (omega arith) (omega arith) in
    elim (Bool-cases (ltb wait_mill age)) [
      | inl e ↦ (age, rw e, ground arith)
      | inr e ↦ (t, rw e runs, old)
    ]

-- The task that clears a lock with a time above 0 comes to its end, however late its runs are, and takes the lock out of
-- the table when it is older than its time: after one run for each second of that time and one more.
pub clean_total :
    (late : ℕ → ℕ) (wait_mill fuel : ℕ)
    → 0 < wait_mill
    → wait_mill < fuel * 1000
    → (t : ℕ) × (clean late wait_mill (suc fuel) ≡ some (some t)) × (wait_mill < t)
unfolding clean
clean_total late wait_mill fuel p b =
    let (t, runs, old) =
      clean_loop_total late wait_mill fuel (late 0) 1000 1 (omega arith) (omega arith) in
    let timed : ltb 0 wait_mill ≡ true = ground arith in (t, rw (timed, runs), old)
