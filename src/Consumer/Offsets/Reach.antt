-- ===== src/Consumer/Offsets/Reach.antt =====
-- The steps of a group's consumers, in any order, and what holds of the offsets after them.
use mq_kafka.Prelude.{
  ℕ, ◌≡◌, refl, sym, subst, ◌∙◌, Bool, true, false, Option, none, some, List, [], ◌∷◌, pick,
  Picked-pick, arith,
}
use mq_kafka.Consumer.{
  at, offset_of, land, write, write_digest, revoke_one, Group, Record, Turn, process, start_batch,
  stop, answer_commit, write_offset, write_log, revoke, assign_partition, crash,
}
use mq_kafka.Consumer.Offsets.{is_settled, Upto, KnownUpto, IsSafe}
use mq_kafka.Consumer.Offsets.Calls.{
  clear-IsSafe, stop-IsSafe, land-IsSafe, write-IsSafe, write_digest-IsSafe, revoke-IsSafe,
}
use mq_kafka.Consumer.Offsets.Turns.{Safe, Safe-process, Safe-assign_partition}

-- No offset is known anywhere, and no consumer holds one.
abbrev pub start : Group
start = record {
  cursor = λ t p. 0;
  current = λ t. [];
  data_count = λ t. 0;
  committed = λ p. none;
  flights = [];
  db = λ p. none;
  writes = [];
  logged = [];
  log_tasks = [];
  trace = [];
  resets = [];
}

-- What the threads, the executors and Kafka do, one at a time. A poll returns the records of a
-- partition in order, without leaving one out.
pub data Step (size : ℕ) : Group → Group → Type 0 where
  polls : (t : ℕ) (g : Group) → Step size g (start_batch t g)
  handles :
      (turn : Turn) (t : ℕ) (r : Record) (g : Group)
      → r.offset ≡ g.cursor t r.partition
      → Step size g (process size turn t r g)
  answers : (n : ℕ) (succeeds : Bool) (g : Group) → Step size g (answer_commit n succeeds g)
  writes : (n : ℕ) (succeeds : Bool) (g : Group) → Step size g (write_offset n succeeds g)
  logs : (n : ℕ) (succeeds : Bool) (g : Group) → Step size g (write_log n succeeds g)
  revokes : (t : ℕ) (ps : List (ℕ × Bool × Bool)) (g : Group) → Step size g (revoke t [] ps g)
  assigns :
      (t p latest : ℕ) (finds seeks : Bool) (g : Group)
      → Step size g (assign_partition t p latest finds seeks g)
  stops : (commits : Bool) (t : ℕ) (g : Group) → Step size g (stop commits t g)
  crashes : (t : ℕ) (g : Group) → Step size g (crash t g)

pub data Reach (size : ℕ) : Group → Type 0 where
  here : Reach size start
  next : {g h : Group} → Reach size g → Step size g h → Reach size h

Safe-start : Safe start
Safe-start = record {
  cursors = λ t p o l. absurd (omega arith);
  currents = λ t. tt;
  commits = λ p x e. cc;
  flying = tt;
  stored = λ p x e. cc;
  writing = tt;
}

-- A call that leaves the trace and the resets.
Safe-of : (g h : Group) → is_settled h ≡ is_settled g → IsSafe (is_settled g) h → Safe h
Safe-of g h e s = subst (λ settled. IsSafe settled h) (sym e) s

land-settled :
    (ok : Bool) (o : Option ((ℕ × List (ℕ × ℕ)) × List (ℕ × List (ℕ × ℕ)))) (g : Group)
    → is_settled (land ok o g) ≡ is_settled g
land-settled ok none g = refl
land-settled true (some f) g = refl
land-settled false (some f) g = refl

write-settled :
    (ok : Bool) (o : Option ((ℕ × ℕ) × List (ℕ × ℕ))) (g : Group)
    → is_settled (write ok o g) ≡ is_settled g
write-settled ok none g = refl
write-settled ok (some w) g = refl

write_digest-settled :
    (ok : Bool) (o : Option (ℕ × List ℕ)) (g : Group)
    → is_settled (write_digest ok o g) ≡ is_settled g
write_digest-settled ok none g = refl
write_digest-settled ok (some d) g = refl

revoke_one-settled :
    (t : ℕ) (held : List (ℕ × ℕ)) (p : ℕ) (o : Option ℕ) (commits saves : Bool) (g : Group)
    → is_settled (revoke_one t held p o commits saves g).1 ≡ is_settled g
unfolding revoke_one
revoke_one-settled t held p none commits saves g = refl
revoke_one-settled t held p (some x) true saves g = refl
revoke_one-settled t held p (some x) false saves g = refl

revoke-settled :
    (t : ℕ) (held : List (ℕ × ℕ)) (ps : List (ℕ × Bool × Bool)) (g : Group)
    → is_settled (revoke t held ps g) ≡ is_settled g
unfolding revoke
revoke-settled t held [] g = refl
revoke-settled t held ((p, commits, saves) ∷ ps) g =
    let o = offset_of p (g.current t) in
    let next = revoke_one t held p o commits saves g in
    revoke-settled t next.0 ps next.1 ∙ revoke_one-settled t held p o commits saves g

Step-Safe : {size : ℕ} {g h : Group} → Step size g h → Safe g → Safe h
unfolding start_batch stop crash answer_commit write_offset write_log
Step-Safe (polls t g) s = clear-IsSafe (is_settled g) t (at t 0 g.data_count) g s
Step-Safe (handles turn t r g e) s = Safe-process _ turn t r g e s
Step-Safe (answers n ok g) s =
    let one = pick n g.flights in
    Safe-of g (land ok one g) (land-settled ok one g)
      (land-IsSafe (is_settled g) ok one g (Picked-pick _ n g.flights s.flying) s)
Step-Safe (writes n ok g) s =
    let one = pick n g.writes in
    Safe-of g (write ok one g) (write-settled ok one g)
      (write-IsSafe (is_settled g) ok one g (Picked-pick _ n g.writes s.writing) s)
Step-Safe (logs n ok g) s =
    let one = pick n g.log_tasks in
    Safe-of g (write_digest ok one g) (write_digest-settled ok one g)
      (write_digest-IsSafe (is_settled g) ok one g s)
Step-Safe (revokes t ps g) s =
    Safe-of g (revoke t [] ps g) (revoke-settled t [] ps g)
      (revoke-IsSafe (is_settled g) t [] ps g tt s)
Step-Safe (assigns t p latest finds seeks g) s = Safe-assign_partition t p latest finds seeks g s
Step-Safe (stops ok t g) s = stop-IsSafe (is_settled g) ok t g s
Step-Safe (crashes t g) s = clear-IsSafe (is_settled g) t (at t 0 g.data_count) g s

Reach-Safe : {size : ℕ} {g : Group} → Reach size g → Safe g
Reach-Safe here = Safe-start
Reach-Safe (next r st) = Step-Safe st (Reach-Safe r)

-- In every state that the consumers of a group can reach, in any order of their steps, with tasks
-- and commits that run late, fail or are lost, and with consumers that die: all records below an
-- offset that Kafka or the database has of a partition are settled, and so are those below the
-- place where a consumer starts on it, also after one more assignment. A record is settled if it
-- was handed to the business code, was found to be known or not valid, or lay before an end to
-- which Kafka set the partition for want of an offset.
pub Reach-settled :
    {size : ℕ} {g : Group}
    → Reach size g
    → KnownUpto (is_settled g) g.committed
      × KnownUpto (is_settled g) g.db
      × ((t p latest : ℕ) (finds seeks : Bool)
          → let h = assign_partition t p latest finds seeks g in
            Upto (is_settled h) p (h.cursor t p))
Reach-settled {g} r =
    let s = Reach-Safe r in
    (
      s.commits,
      s.stored,
      λ t p latest finds seeks. (Safe-assign_partition t p latest finds seeks g s).cursors t p,
    )
