-- ===== src/GlobalLock/Factory/Owners.antt =====
-- GlobalLockRedisFactory.java: the tasks that a key has.
use mq_kafka.Prelude.{
  ℕ, zero, suc, ◌+◌, ◌≤◌, ◌≡◌, refl, ap, subst, ◌∙◌, Bool, true, false, not, Bool-cases, branches,
  either, inl, inr, Option, none, some, List, [], ◌∷◌, All, pick, beside, ltb, leb, ◌==◌,
  if◌then◌else◌, arith,
}
use mq_kafka.GlobalLock.Factory.{
  Lock, CleanLockTask, Factory, put_lock, get_lock, make_lock, run_task, Event, gets, removes,
  waits, runs, step, run,
}

abbrev pub one_if : Bool → ℕ
one_if true = 1
one_if false = 0

-- How many tasks a key has.
abbrev pub tasks_of : ℕ → List CleanLockTask → ℕ
tasks_of key [] = 0
tasks_of key (t ∷ ts) = one_if (t.key == key) + tasks_of key ts

abbrev pub locks_of : Option Lock → ℕ
locks_of none = 0
locks_of (some l) = 1

-- A key without a lock has no task, and one with a lock has one at most.
abbrev pub HasOwner : ℕ → Factory → Type 0
HasOwner key f = tasks_of key f.tasks ≤ locks_of (f.locks key)

-- The events that do not remove the key's lock by hand.
abbrev pub leaves : ℕ → Event → Bool
leaves key (gets k alive_mill) = true
leaves key (removes k) = not (k == key)
leaves key (waits n) = true
leaves key (runs i) = true

abbrev pub AllLeave : ℕ → List Event → Type 0
AllLeave key es = All (λ e. leaves key e ≡ true) es

-- What is taken out of the tasks is one of them, with all the others.
abbrev Splits : ℕ → List CleanLockTask → Option (CleanLockTask × List CleanLockTask) → Type 0
Splits key ts none = Unit
Splits key ts (some (t, others)) = tasks_of key ts ≡ tasks_of key (t ∷ others)

Splits-cons :
    (key : ℕ) (u : CleanLockTask) (us : List CleanLockTask)
    (x : Option (CleanLockTask × List CleanLockTask))
    → Splits key us x
    → Splits key (u ∷ us) (beside u x)
Splits-cons key u us none h = tt
Splits-cons key u us (some (t, others)) h = omega (arith, h)

pick-Splits : (key i : ℕ) (ts : List CleanLockTask) → Splits key ts (pick i ts)
pick-Splits key i [] = tt
pick-Splits key zero (u ∷ us) = refl
pick-Splits key (suc i) (u ∷ us) = Splits-cons key u us (pick i us) (pick-Splits key i us)

locks_of-few : (x : Option Lock) → locks_of x ≤ 1
locks_of-few none = omega arith
locks_of-few (some l) = omega arith

-- With a task taken away, a lock that goes with it leaves the key without a task.
HasOwner-put_lock :
    (key k : ℕ) (locks : ℕ → Option Lock) (n : ℕ)
    → one_if (k == key) + n ≤ locks_of (locks key)
    → n ≤ locks_of (put_lock k none locks key)
HasOwner-put_lock key k locks n h =
    let few = locks_of-few (locks key) in
    elim (Bool-cases (key == k)) [ inl e ↦ rw e (ground arith) | inr e ↦ rw e (ground arith) ]

-- What holds of the factory as it is, and with a lock made, holds after getLock.
pub get_lock_branches :
    (P : Factory → Type 0) (k alive_mill : ℕ) (f : Factory)
    → P f
    → (f.locks k ≡ none → P (make_lock k alive_mill f).1)
    → P (get_lock k alive_mill f).1
unfolding get_lock
get_lock_branches P k alive_mill f p q = by (f.locks k) q
  where
    by :
        (x : Option Lock)
        → (x ≡ none → P (make_lock k alive_mill f).1)
        → P
            (elim x as (λ y. Lock × Factory) [
              | some lock ↦ (lock, f)
              | none ↦ make_lock k alive_mill f
            ]).1
    by (some l) h = p
    by none h = h refl

-- And so for the scheduler.
pub runs_branches :
    (P : Factory → Type 0) (i : ℕ) (f : Factory)
    → P f
    → ((t : CleanLockTask) (others : List CleanLockTask)
        → pick i f.tasks ≡ some (t, others)
        → P (run_task t others f))
    → P (step (runs i) f)
unfolding step
runs_branches P i f p q = by (pick i f.tasks) q
  where
    by :
        (x : Option (CleanLockTask × List CleanLockTask))
        → ((t : CleanLockTask) (others : List CleanLockTask)
            → x ≡ some (t, others)
            → P (run_task t others f))
        → P (elim x as (λ y. Factory) [
          | none ↦ f
          | some (t, others) ↦ if leb t.due f.now then run_task t others f else f
        ])
    by none h = p
    by (some (t, others)) h = either P (leb t.due f.now) (run_task t others f) f (h t others refl) p

HasOwner-get_lock :
    (key k alive_mill : ℕ) (f : Factory) → HasOwner key f → HasOwner key (get_lock k alive_mill f).1
HasOwner-get_lock key k alive_mill f h = get_lock_branches (HasOwner key) k alive_mill f h (λ e.
    elim (Bool-cases (key == k)) [
      | inl s ↦
          let here : key ≡ k = ground arith in
          let free : locks_of (f.locks key) ≡ 0 =
            ap (λ j. locks_of (f.locks j)) here ∙ ap locks_of e in
          rw s (ground arith)
      | inr s ↦ rw s (ground arith)
    ])

HasOwner-run_task :
    (key : ℕ) (t : CleanLockTask) (others : List CleanLockTask) (f : Factory)
    → tasks_of key (t ∷ others) ≤ locks_of (f.locks key)
    → HasOwner key (run_task t others f)
unfolding run_task
HasOwner-run_task key t others f h =
    branches (HasOwner key) (not (ltb 0 t.wait_mill)) _ _ (λ e. omega (arith, h))
      (λ e.
        branches (HasOwner key) (ltb (t.current_mill + t.wait_mill) f.now) _ _
          (λ a. HasOwner-put_lock key t.key f.locks (tasks_of key others) h) (λ a. h))

HasOwner-step :
    (key : ℕ) (e : Event) (f : Factory)
    → leaves key e ≡ true
    → HasOwner key f
    → HasOwner key (step e f)
unfolding step
HasOwner-step key (gets k alive_mill) f l h = HasOwner-get_lock key k alive_mill f h
HasOwner-step key (removes k) f l h = elim (Bool-cases (key == k)) [
  | inl s ↦ absurd (ground arith)
  | inr s ↦ rw s h
]
HasOwner-step key (waits n) f l h = h
HasOwner-step key (runs i) f l h = runs_branches (HasOwner key) i f h (λ t others e.
    HasOwner-run_task key t others f (
      subst (λ n. n ≤ locks_of (f.locks key))
        (subst (Splits key f.tasks) e (pick-Splits key i f.tasks)) h))

pub HasOwner-run :
    (key : ℕ) (es : List Event) (f : Factory)
    → AllLeave key es
    → HasOwner key f
    → HasOwner key (run es f)
unfolding run
HasOwner-run key [] f l h = h
HasOwner-run key (e ∷ es) f l h = HasOwner-run key es (step e f) l.1 (HasOwner-step key e f l.0 h)
