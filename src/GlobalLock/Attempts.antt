-- ===== src/GlobalLock/Attempts.antt =====
-- GlobalLock.java: how often `tryLock` asks Redis.
use mq_kafka.Prelude.{
  ℕ, zero, suc, ◌+◌, ◌*◌, ◌%◌, ◌≤◌, ◌<◌, ◌≡◌, refl, ◌∙◌, ap, inl, inr, ◌⊎◌, Bool, true, false,
  Bool-cases, Option, none, some, leb, ◌==◌, arith,
}
use mq_kafka.GlobalLock.{
  Answer, won, busy, interrupted, wait_of, is_time_left, try_lock_loop, try_lock,
}

-- The rounds from `n` to before `k` found the lock taken.
abbrev AllBusy : (ℕ → Answer) → ℕ → ℕ → Type 0
AllBusy answers n k = (m : ℕ) → n ≤ m → m < k → answers m ≡ busy

-- What an answer after `k` rounds, from round `n` on, says.
abbrev pub Tells : (ℕ → Answer) → ℕ → ℕ → ℕ → Bool × ℕ → Type 0
Tells answers period timeout n (true, k) =
    (j : ℕ) × (k ≡ suc j)
    × AllBusy answers n j
    × (answers j ≡ won)
    × (k * wait_of period timeout ≤ timeout)
Tells answers period timeout n (false, k) =
    (AllBusy answers n k
      × (k * wait_of period timeout ≤ timeout)
      × (timeout < suc k * wait_of period timeout))
    ⊎ ((j : ℕ) × (k ≡ suc j)
        × AllBusy answers n j
        × (answers j ≡ interrupted)
        × (k * wait_of period timeout ≤ timeout))

AllBusy-suc :
    (answers : ℕ → Answer) (n k : ℕ)
    → answers n ≡ busy
    → AllBusy answers (suc n) k
    → AllBusy answers n k
AllBusy-suc answers n k b all m l h = elim (Bool-cases (m == n)) [
  | inl e ↦ let same : m ≡ n = ground arith in ap answers same ∙ b
  | inr e ↦ all m (ground arith) h
]

Tells-suc :
    (answers : ℕ → Answer) (period timeout n : ℕ) (r : Bool × ℕ)
    → answers n ≡ busy
    → Tells answers period timeout (suc n) r
    → Tells answers period timeout n r
Tells-suc answers period timeout n (true, k) b (j, e, all, w, t) =
    (j, e, AllBusy-suc answers n j b all, w, t)
Tells-suc answers period timeout n (false, k) b (inl (all, s, t)) =
    inl (AllBusy-suc answers n k b all, s, t)
Tells-suc answers period timeout n (false, k) b (inr (j, e, all, w, t)) =
    inr (j, e, AllBusy-suc answers n j b all, w, t)

count-fits :
    (period timeout count : ℕ)
    → timeout + period < 2147483648
    → count ≤ timeout
    → (count + wait_of period timeout) % 4294967296 ≡ count + wait_of period timeout
count-fits period timeout count b l = ground arith

time_left :
    (timeout count : ℕ) → count < 2147483648 → is_time_left timeout count ≡ leb count timeout
time_left timeout count b = ground arith

next-count : (w n count : ℕ) → count ≡ n * w → count + w ≡ suc n * w
next-count w n count e = omega arith

within :
    (period n count timeout : ℕ)
    → count ≡ n * wait_of period timeout
    → count ≤ timeout
    → n * wait_of period timeout ≤ timeout
within period n count timeout e l = omega arith

still_left : (next count timeout : ℕ) → next ≡ count → leb next timeout ≡ true → count ≤ timeout
still_left next count timeout e h = ground arith

used_up : (next count timeout : ℕ) → next ≡ count → leb next timeout ≡ false → timeout < count
used_up next count timeout e h = ground arith

fuel-next :
    (period timeout fuel count next : ℕ)
    → 0 < timeout
    → 0 < period
    → next ≡ count + wait_of period timeout
    → timeout < suc fuel + count
    → timeout < fuel + next
fuel-next period timeout fuel count next p q e f = ground arith

none_before : (answers : ℕ → Answer) (n : ℕ) → AllBusy answers n n
none_before answers n m l h = absurd (omega arith)

module _ (answers : ℕ → Answer) (period timeout : ℕ) (pos : 0 < timeout) (some_wait : 0 < period)
    (small : timeout + period < 2147483648) where
  Ends : ℕ → Option (Bool × ℕ) → Type 0
  Ends n o = (r : Bool × ℕ) × (o ≡ some r) × Tells answers period timeout n r

  round :
      (n : ℕ) (rest : Option (Bool × ℕ)) (a : Answer)
      → answers n ≡ a
      → suc n * wait_of period timeout ≤ timeout
      → Ends (suc n) rest
      → Ends n
          (elim a [ won ↦ some (true, suc n) | busy ↦ rest | interrupted ↦ some (false, suc n) ])
  unfolding Ends
  round n rest won e l later = ((true, suc n), refl, (n, refl, none_before answers n, e, l))
  round n rest busy e l (r, same, tells) = (r, same, Tells-suc answers period timeout n r e tells)
  round n rest interrupted e l later =
      ((false, suc n), refl, inr (n, refl, none_before answers n, e, l))

  loop_total :
      (fuel n count : ℕ)
      → count ≡ n * wait_of period timeout
      → count ≤ timeout
      → timeout < fuel + count
      → Ends n (try_lock_loop answers period timeout fuel count n)
  unfolding try_lock_loop Ends
  loop_total zero n count e l f = absurd (omega arith)
  loop_total (suc fuel) n count e l f =
      let next = (count + wait_of period timeout) % 4294967296 in
      let fits = count-fits period timeout count small l in
      let e' = fits ∙ next-count (wait_of period timeout) n count e in
      let in_time = time_left timeout next (ground arith) in
      elim (Bool-cases (leb next timeout)) [
        | inl left ↦
            rw (in_time, left)
              (round n (try_lock_loop answers period timeout fuel next (suc n)) (answers n) refl
                (still_left next _ timeout e' left)
                (loop_total fuel (suc n) next e' (still_left next next timeout refl left)
                  (fuel-next period timeout fuel count next pos some_wait fits f)))
        | inr over ↦
            rw (in_time, over)
              (
                (false, n),
                refl,
                inl (
                  none_before answers n,
                  within period n count timeout e l,
                  used_up next _ timeout e' over,
                ),
              )
      ]

  -- With a positive timeout that an int holds, with the period of the rounds to spare, the loop comes
  -- to an answer, whatever positive period is set: after at most timeout / wait rounds. Yes means that the last round won the lock and all rounds
  -- before found it taken; no means either that all of them did and the time for another round is
  -- over, or that the sleep behind the last round was interrupted.
  pub try_lock_total :
      (fuel : ℕ)
      → timeout < fuel
      → (r : Bool × ℕ) × (try_lock answers period fuel timeout ≡ some r)
        × Tells answers period timeout 0 r
  unfolding Ends
  try_lock_total fuel f = loop_total fuel 0 0 (omega arith) (omega arith) (omega arith)

try_lock_loop-zero : (period fuel n : ℕ) → try_lock_loop (λ n. busy) period 0 fuel 0 n ≡ none
unfolding try_lock_loop
try_lock_loop-zero period zero n = refl
try_lock_loop-zero period (suc fuel) n =
    let no_wait : wait_of period 0 ≡ 0 = ground arith in
    rw no_wait (try_lock_loop-zero period fuel (suc n))

-- With a timeout of 0 the loop never gives up: while the lock is taken, no number of rounds is
-- enough for an answer.
pub try_lock-zero : (period fuel : ℕ) → try_lock (λ n. busy) period fuel 0 ≡ none
try_lock-zero period fuel = try_lock_loop-zero period fuel 0
