-- ===== src/Consumer/Deliveries.antt =====
-- KafkaConsumerManager.java and biz/impl/KafkaConsumerMsgLogService.java: how often a message is
-- handed to the business code.
use mq_kafka.Prelude.{
  ℕ, ◌+◌, ◌≤◌, ◌≡◌, refl, sym, subst₂, ap, ◌∙◌, inl, inr, Bool, true, false, not, Bool-cases,
  Option, none, some, List, [], ◌∷◌, ◌++◌, ◌==◌, if◌then◌else◌, arith,
}
use mq_kafka.Consumer.{
  Group, Entry, Fate, delivered, duplicate, invalid, Record, Turn, at, put_offset, is_due, flush_if,
  fate_of, known, is_logged, log_task, keep_offset, process, write_log,
}
use mq_kafka.Consumer.Offsets.Reach.{Step, start}

abbrev is_digest : ℕ → Option ℕ → Bool
is_digest d none = false
is_digest d (some e) = e == d

abbrev once : Fate → ℕ
once (delivered b) = 1
once duplicate = 0
once invalid = 0

-- How many turns handed a message of the digest to the business code.
unfoldable pub deliveries : ℕ → List Entry → ℕ
deliveries d [] = 0
deliveries d (e ∷ es) =
    let rest = deliveries d es in if is_digest d e.digest then once e.fate + rest else rest

-- The states that are reached when each lookup in the log of a message goes well and each task that
-- writes to it runs before the next turn. The other steps are any that leave the log and the trace.
pub data Prompt (size : ℕ) : Group → Type 0 where
  here : Prompt size start
  handles :
      {g : Group} (turn : Turn) (t : ℕ) (r : Record)
      → turn.finds ≡ true
      → Prompt size g
      → Prompt size (write_log 0 true (process size turn t r g))
  others :
      {g h : Group}
      → Step size g h
      → h.logged ≡ g.logged
      → h.log_tasks ≡ g.log_tasks
      → h.trace ≡ g.trace
      → Prompt size g
      → Prompt size h

flush_if-logs :
    (due : Option Bool) (turn : Turn) (t : ℕ) (g : Group)
    → ((flush_if due turn t g).logged ≡ g.logged)
      × ((flush_if due turn t g).log_tasks ≡ g.log_tasks)
      × ((flush_if due turn t g).trace ≡ g.trace)
flush_if-logs none turn t g = (refl, refl, refl)
flush_if-logs (some false) turn t g = (refl, refl, refl)
flush_if-logs (some true) turn t g = elim (Bool-cases turn.sends) [
  | inl sent ↦ rw sent (refl, refl, refl)
  | inr lost ↦ rw lost (refl, refl, refl)
]

-- A message is delivered at most once, and only logged messages were.
record IsOnce (g : Group) : Type 0 where
  most : (d : ℕ) → deliveries d g.trace ≤ (if is_logged d g.logged then 1 else 0)
  idle : g.log_tasks ≡ []

process-logs :
    (size : ℕ) (turn : Turn) (t : ℕ) (r : Record) (g : Group)
    → let h = process size turn t r g in
      (h.logged ≡ g.logged)
      × (h.log_tasks ≡ g.log_tasks ++ log_task r.digest)
      × (h.trace
          ≡ record {
            partition = r.partition;
            offset = r.offset;
            digest = r.digest;
            fate = fate_of turn r g.logged;
          }
            ∷ g.trace)
unfolding process keep_offset
process-logs size turn t r g =
    let count = g.data_count t + 1 in
    let entry : Entry = record {
      partition = r.partition;
      offset = r.offset;
      digest = r.digest;
      fate = fate_of turn r g.logged;
    } in
    let same = flush_if-logs (is_due size turn count) turn t (record g {
      cursor = at t (at r.partition (r.offset + 1) (g.cursor t)) g.cursor;
      trace = entry ∷ g.trace;
      current = at t (put_offset r.partition (r.offset + 1) (g.current t)) g.current;
      data_count = at t count g.data_count;
    }) in
    (same.0, ap (λ l. l ++ log_task r.digest) same.1, same.2)

write_log-first :
    (o : Option ℕ) (g : Group)
    → g.log_tasks ≡ log_task o
    → let h = write_log 0 true g in
      (h.logged ≡ log_task o ++ g.logged) × (h.log_tasks ≡ []) × (h.trace ≡ g.trace)
unfolding write_log
write_log-first none g e = rw e (refl, refl, refl)
write_log-first (some d) g e = rw e (refl, refl, refl)

once-if :
    (v k w : Bool)
    → once (if not v then invalid else if k then duplicate else delivered w) ≤ (if k then 0 else 1)
once-if false true w = omega arith
once-if false false w = omega arith
once-if true true w = omega arith
once-if true false w = omega arith

once-fate_of :
    (turn : Turn) (r : Record) (logged : List ℕ)
    → once (fate_of turn r logged) ≤ (if known turn r.digest logged then 0 else 1)
unfolding fate_of
once-fate_of turn r logged = once-if r.is_valid (known turn r.digest logged) turn.works

once-more : (b : Bool) (n m : ℕ) → n ≤ (if b then 0 else 1) → m ≤ (if b then 1 else 0) → n + m ≤ 1
once-more true n m h k = omega arith
once-more false n m h k = omega arith

deliveries-turn :
    (turn : Turn) (r : Record) (o : Option ℕ) (logged : List ℕ) (es : List Entry) (d : ℕ)
    → turn.finds ≡ true
    → r.digest ≡ o
    → deliveries d es ≤ (if is_logged d logged then 1 else 0)
    → deliveries d (
        record {
          partition = r.partition;
          offset = r.offset;
          digest = o;
          fate = fate_of turn r logged;
        }
        ∷ es)
      ≤ (if is_logged d (log_task o ++ logged) then 1 else 0)
unfolding deliveries
deliveries-turn turn r none logged es d f e m = m
deliveries-turn turn r (some c) logged es d f e m =
    let l = once-fate_of turn r logged in
    elim (Bool-cases (c == d)) [
      | inl same ↦
          let e' : c ≡ d = ground arith in
          let k : known turn r.digest logged ≡ is_logged d logged = rw (e, f, e') refl in
          let l' : once (fate_of turn r logged) ≤ (if is_logged d logged then 0 else 1) =
            rw⁻¹ k l in
          rw same (once-more (is_logged d logged) _ _ l' m)
      | inr other ↦ rw other m
    ]

IsOnce-handles :
    (size : ℕ) (turn : Turn) (t : ℕ) (r : Record) (g : Group)
    → turn.finds ≡ true
    → IsOnce g
    → IsOnce (write_log 0 true (process size turn t r g))
IsOnce-handles size turn t r g f i =
    let turned = process-logs size turn t r g in
    let written =
      write_log-first r.digest (process size turn t r g)
        (turned.1 ∙ ap (λ l. l ++ log_task r.digest) i.idle) in
    let more = λ (d : ℕ). deliveries-turn turn r r.digest g.logged g.trace d f refl (i.most d) in
    record {
      most =
          subst₂
            (λ trace logged. (d : ℕ) → deliveries d trace ≤ (if is_logged d logged then 1 else 0))
            (sym (written.2 ∙ turned.2))
            (sym (written.0 ∙ ap (λ l. log_task r.digest ++ l) turned.0)) more;
      idle = written.1;
    }

Prompt-IsOnce : {size : ℕ} {g : Group} → Prompt size g → IsOnce g
unfolding deliveries
Prompt-IsOnce here = record { most = λ d. omega arith; idle = refl }
Prompt-IsOnce (handles turn t r f p) = IsOnce-handles _ turn t r _ f (Prompt-IsOnce p)
Prompt-IsOnce (others st l k e p) =
    let i = Prompt-IsOnce p in record { most = λ d. rw (l, e) (i.most d); idle = k ∙ i.idle }

-- However often Kafka hands a message out, to whichever consumer, it is handed to the business code
-- at most once, if each lookup in the log goes well and each task that writes to the log runs
-- before the next turn.
pub Prompt-deliveries : {size : ℕ} {g : Group} → Prompt size g → (d : ℕ) → deliveries d g.trace ≤ 1
Prompt-deliveries {g} p d = let m = (Prompt-IsOnce p).most d in ground arith
