-- ===== src/GlobalLock/Factory/Alive.antt =====
-- GlobalLockRedisFactory.java: which lock a key has for how long.
use mq_kafka.Prelude.{
  ℕ, ◌+◌, ◌≤◌, ◌<◌, ◌≡◌, refl, sym, ap, subst, ◌∙◌, true, not, Bool-cases, branches, inl, inr, none,
  some, List, [], ◌∷◌, All, Picked, Picked-pick, ltb, ◌==◌, arith,
}
use mq_kafka.GlobalLock.Factory.{
  Lock, CleanLockTask, Factory, new_factory, get_lock, make_lock, run_task, Event, gets, removes,
  waits, runs, step, run,
}
use mq_kafka.GlobalLock.Factory.Owners.{
  tasks_of, locks_of, HasOwner, leaves, AllLeave, get_lock_branches, runs_branches, HasOwner-run,
}

abbrev IsSince : ℕ → ℕ → ℕ → CleanLockTask → Type 0
IsSince key made alive_mill t = t.key ≡ key → (t.current_mill ≡ made) × (t.wait_mill ≡ alive_mill)

-- The key has that lock, and each of its tasks was made at that time for that long.
abbrev IsKept : ℕ → Lock → ℕ → ℕ → Factory → Type 0
IsKept key lock made alive_mill f =
    (f.locks key ≡ some lock) × All (λ t. IsSince key made alive_mill t) f.tasks

-- Time has not passed that lock's end, if it has one.
abbrev pub InTime : ℕ → ℕ → Factory → Type 0
InTime made alive_mill f = 0 < alive_mill → f.now ≤ made + alive_mill

module _ (key : ℕ) (lock : Lock) (made alive_mill : ℕ) where
  IsKept-get_lock :
      (k other : ℕ) (f : Factory)
      → IsKept key lock made alive_mill f
      → IsKept key lock made alive_mill (get_lock k other f).1
  IsKept-get_lock k other f (there, since) =
      get_lock_branches (IsKept key lock made alive_mill) k other f (there, since)
        (λ e. elim (Bool-cases (key == k)) [
          | inl s ↦
              let here : key ≡ k = ground arith in
              let free : f.locks key ≡ none = ap f.locks here ∙ e in absurd (cc (free, there))
          | inr s ↦ (rw s there, (λ same. absurd (ground arith), since))
        ])

  IsKept-run_task :
      (t : CleanLockTask) (others : List CleanLockTask) (f : Factory)
      → InTime made alive_mill f
      → f.locks key ≡ some lock
      → IsSince key made alive_mill t
      → All (λ u. IsSince key made alive_mill u) others
      → IsKept key lock made alive_mill (run_task t others f)
  unfolding run_task
  IsKept-run_task t others f b there own since =
      branches (IsKept key lock made alive_mill) (not (ltb 0 t.wait_mill)) _ _ (λ e. (there, since))
        (λ e.
          branches (IsKept key lock made alive_mill) (ltb (t.current_mill + t.wait_mill) f.now) _ _
            (λ a. (
              elim (Bool-cases (key == t.key)) [
                | inl s ↦
                    let (at, long) = own (ground arith) in
                    let early = b (ground arith) in absurd (ground arith)
                | inr s ↦ rw s there
              ],
              since,
            ))
            (λ a. (there, (own, since))))

  IsKept-step :
      (e : Event) (f : Factory)
      → leaves key e ≡ true
      → InTime made alive_mill f
      → IsKept key lock made alive_mill f
      → IsKept key lock made alive_mill (step e f)
  unfolding step
  IsKept-step (gets k other) f l b h = IsKept-get_lock k other f h
  IsKept-step (removes k) f l b (there, since) = elim (Bool-cases (key == k)) [
    | inl s ↦ absurd (ground arith)
    | inr s ↦ (rw s there, since)
  ]
  IsKept-step (waits n) f l b h = h
  IsKept-step (runs i) f l b (there, since) =
      runs_branches (IsKept key lock made alive_mill) i f (there, since)
        (λ t others e.
          let (own, rest) =
            subst (Picked (λ u. IsSince key made alive_mill u)) e
              (Picked-pick (λ u. IsSince key made alive_mill u) i f.tasks since) in
          IsKept-run_task t others f b there own rest)

now-run_task :
    (t : CleanLockTask) (others : List CleanLockTask) (f : Factory)
    → (run_task t others f).now ≡ f.now
unfolding run_task
now-run_task t others f = ground arith

now-step : (e : Event) (f : Factory) → f.now ≤ (step e f).now
unfolding step
now-step (gets k alive_mill) f =
    get_lock_branches (λ g. f.now ≤ g.now) k alive_mill f (omega arith) (λ e. omega arith)
now-step (removes k) f = omega arith
now-step (waits n) f = omega arith
now-step (runs i) f =
    runs_branches (λ g. f.now ≤ g.now) i f (omega arith)
      (λ t others e. omega (arith, now-run_task t others f))

now-run : (es : List Event) (f : Factory) → f.now ≤ (run es f).now
unfolding run
now-run [] f = omega arith
now-run (e ∷ es) f = omega (arith, now-step e f, now-run es (step e f))

IsKept-run :
    (key : ℕ) (lock : Lock) (made alive_mill : ℕ) (es : List Event) (f : Factory)
    → AllLeave key es
    → InTime made alive_mill (run es f)
    → IsKept key lock made alive_mill f
    → IsKept key lock made alive_mill (run es f)
unfolding run
IsKept-run key lock made alive_mill [] f l b h = h
IsKept-run key lock made alive_mill (e ∷ es) f l b h =
    let soon : InTime made alive_mill f =
      λ p. let late = b p in omega (arith, late, now-step e f, now-run es (step e f)) in
    IsKept-run key lock made alive_mill es (step e f) l.1 b
      (IsKept-step key lock made alive_mill e f l.0 soon h)

-- A key without tasks.
tasks_of-IsSince :
    (key made alive_mill : ℕ) (ts : List CleanLockTask)
    → tasks_of key ts ≡ 0
    → All (λ t. IsSince key made alive_mill t) ts
tasks_of-IsSince key made alive_mill [] h = tt
tasks_of-IsSince key made alive_mill (t ∷ ts) h = elim (Bool-cases (t.key == key)) [
  | inl s ↦ absurd (ground arith)
  | inr s ↦ (λ same. absurd (ground arith), tasks_of-IsSince key made alive_mill ts (ground arith))
]

make_lock-IsKept :
    (key alive_mill : ℕ) (f : Factory)
    → f.locks key ≡ none
    → HasOwner key f
    → IsKept key (make_lock key alive_mill f).0 f.now alive_mill (make_lock key alive_mill f).1
make_lock-IsKept key alive_mill f free owner =
    let same : (key == key) ≡ true = ground arith in
    let none_left : locks_of (f.locks key) ≡ 0 = ap locks_of free in
    (
      rw same refl,
      (
        λ e. (refl, refl),
        tasks_of-IsSince key f.now alive_mill f.tasks (omega (arith, owner, none_left)),
      ),
    )

get_lock-there :
    (key alive_mill : ℕ) (f : Factory) (lock : Lock)
    → f.locks key ≡ some lock
    → (get_lock key alive_mill f).0 ≡ lock
unfolding get_lock
get_lock-there key alive_mill f lock e = rw (get_lock, e) refl

get_lock-free :
    (key alive_mill : ℕ) (f : Factory)
    → f.locks key ≡ none
    → get_lock key alive_mill f ≡ make_lock key alive_mill f
unfolding get_lock
get_lock-free key alive_mill f e = rw (get_lock, e) refl

-- The first call of `getLock`, after some events, and the factory some more events later.
abbrev pub first_call : List Event → ℕ → ℕ → Lock × Factory
first_call before key alive_mill = get_lock key alive_mill (run before new_factory)

abbrev pub later : List Event → List Event → ℕ → ℕ → Factory
later before after key alive_mill = run after (first_call before key alive_mill).1

-- A key's lock stays the same for the time that it was made with, whatever is called for this and
-- other keys meanwhile and however late the tasks run: getLock gives again the lock that it made when
-- the key had none. A time of 0 has no end. Neither before nor after is the key's lock removed by
-- hand.
pub get_lock-later :
    (before after : List Event) (key alive_mill again : ℕ)
    → AllLeave key before
    → AllLeave key after
    → (run before new_factory).locks key ≡ none
    → InTime (run before new_factory).now alive_mill (later before after key alive_mill)
    → (get_lock key again (later before after key alive_mill)).0
      ≡ (first_call before key alive_mill).0
get_lock-later before after key alive_mill again l m free b =
    let f = run before new_factory in
    let owner = HasOwner-run key before new_factory l (omega arith) in
    let (lock, g) = get_lock key alive_mill f in
    let kept : IsKept key lock f.now alive_mill g =
      subst (λ r. IsKept key r.0 f.now alive_mill r.1) (sym (get_lock-free key alive_mill f free))
        (make_lock-IsKept key alive_mill f free owner) in
    get_lock-there key again (run after g) lock
      (IsKept-run key lock f.now alive_mill after g m b kept).0
