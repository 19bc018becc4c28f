-- ===== src/Consumer/Progress.antt =====
-- KafkaConsumerManager.java: what a business error changes.
use mq_kafka.Prelude.{
  ℕ, zero, suc, ◌+◌, ◌≡◌, refl, none, Option, inl, inr, Bool, true, false, Bool-cases, some, List,
  ◌∷◌, ◌++◌,
}
use mq_kafka.Consumer.{
  Entry, flush_if, log_task, Group, Record, Turn, at, put_offset, is_due, fate_of, keep_offset,
  process,
}

-- Everything but the trace of a turn, where `due` tells whether it hands the offsets on.
abbrev kept : Option Bool → Turn → ℕ → Option ℕ → List Entry → List Entry → Group → Group
kept due turn t d before es g =
    let after = flush_if due turn t (record g { trace = es }) in
    record after { log_tasks = after.log_tasks ++ log_task d; trace = before }

kept-works :
    (due : Option Bool) (turn : Turn) (w v : Bool) (t : ℕ) (d : Option ℕ)
    (before es fs : List Entry) (g : Group)
    → kept due (record turn { works = w }) t d before es g
      ≡ kept due (record turn { works = v }) t d before fs g
kept-works none turn w v t d before es fs g = refl
kept-works (some false) turn w v t d before es fs g = refl
kept-works (some true) turn w v t d before es fs g = elim (Bool-cases turn.sends) [
  | inl sent ↦ rw sent refl
  | inr lost ↦ rw lost refl
]

is_due-works :
    (size : ℕ) (turn : Turn) (w v : Bool) (count : ℕ)
    → is_due size (record turn { works = w }) count ≡ is_due size (record turn { works = v }) count
unfolding is_due
is_due-works zero turn w v count = refl
is_due-works (suc size) turn w v count = refl

-- A business error changes nothing but the trace: the offset is handed on and the message is logged
-- as consumed as if the code had run through.
pub process-works :
    (size : ℕ) (turn : Turn) (t : ℕ) (r : Record) (g : Group)
    → record (process size (record turn { works = false }) t r g) { trace = g.trace }
      ≡ record (process size (record turn { works = true }) t r g) { trace = g.trace }
unfolding process keep_offset is_due
process-works size turn t r g =
    let count = g.data_count t + 1 in
    let entry : Bool → Entry = λ b. record {
      partition = r.partition;
      offset = r.offset;
      digest = r.digest;
      fate = fate_of (record turn { works = b }) r g.logged;
    } in
    let next : Group = record g {
      cursor = at t (at r.partition (r.offset + 1) (g.cursor t)) g.cursor;
      current = at t (put_offset r.partition (r.offset + 1) (g.current t)) g.current;
      data_count = at t count g.data_count;
    } in
    rw (is_due-works size turn false true count) (
      kept-works (is_due size (record turn { works = true }) count) turn false true t r.digest
        g.trace (entry false ∷ g.trace) (entry true ∷ g.trace) next)
