-- ===== src/Consumer/Offsets/Turns.antt =====
-- A turn of the loop on one record, and the start of a partition.
use mq_kafka.Prelude.{
  ℕ, ◌+◌, ◌≡◌, refl, sym, subst, ◌∙◌, inl, inr, Bool, true, false, Bool-cases, Option, none, some,
  List, [], ◌∷◌, ◌++◌, if◌then◌else◌, arith, All-append, All-imp, Option-cases,
}
use mq_kafka.Consumer.{
  Group, Entry, Record, Turn, at, put_offset, keep_offset, process, or_committed, set_cursor,
  start_at, seek, flush_if, is_due, fate_of, log_task, assign_partition,
}
use mq_kafka.Consumer.Offsets.{is_settled, Upto, AllUpto, IsSafe, AllUpto-put}
use mq_kafka.Consumer.Offsets.Calls.{currents-at, set_cursor-IsSafe}

module _ (settled : ℕ → ℕ → Bool) where
  flushed-IsSafe :
      (t : ℕ) (counts : ℕ → ℕ) (g : Group)
      → IsSafe settled g
      → IsSafe settled (record g {
        writes = g.writes ++ g.current t;
        flights = g.flights ++ (t, g.current t) ∷ [];
        data_count = counts;
      })
  flushed-IsSafe t counts g s = record {
    cursors = s.cursors;
    currents = s.currents;
    commits = s.commits;
    flying = All-append _ g.flights ((t, g.current t) ∷ []) s.flying (s.currents t, tt);
    stored = s.stored;
    writing = All-append _ g.writes (g.current t) s.writing (s.currents t);
  }

  written-IsSafe :
      (t : ℕ) (g : Group)
      → IsSafe settled g
      → IsSafe settled (record g { writes = g.writes ++ g.current t })
  written-IsSafe t g s = record {
    cursors = s.cursors;
    currents = s.currents;
    commits = s.commits;
    flying = s.flying;
    stored = s.stored;
    writing = All-append _ g.writes (g.current t) s.writing (s.currents t);
  }

  flush_if-IsSafe :
      (due : Option Bool) (turn : Turn) (t : ℕ) (g : Group)
      → IsSafe settled g
      → IsSafe settled (flush_if due turn t g)
  flush_if-IsSafe none turn t g s = s
  flush_if-IsSafe (some false) turn t g s = s
  flush_if-IsSafe (some true) turn t g s = elim (Bool-cases turn.sends) [
    | inl sent ↦ rw sent (flushed-IsSafe t (at t 0 g.data_count) g s)
    | inr failed ↦ rw failed (written-IsSafe t g s)
  ]

  put-IsSafe :
      (t p x : ℕ) (counts : ℕ → ℕ) (g : Group)
      → Upto settled p x
      → IsSafe settled g
      → IsSafe settled (record g {
        current = at t (put_offset p x (g.current t)) g.current;
        data_count = counts;
      })
  put-IsSafe t p x counts g u s = record {
    cursors = s.cursors;
    currents =
        currents-at settled t (put_offset p x (g.current t)) g.current
          (AllUpto-put settled p x (g.current t) u (s.currents t)) s.currents;
    commits = s.commits;
    flying = s.flying;
    stored = s.stored;
    writing = s.writing;
  }

  keep_offset-IsSafe :
      (size : ℕ) (turn : Turn) (t : ℕ) (r : Record) (g : Group)
      → Upto settled r.partition (r.offset + 1)
      → IsSafe settled g
      → IsSafe settled (keep_offset size turn t r g)
  unfolding keep_offset
  keep_offset-IsSafe size turn t r g u s =
      flush_if-IsSafe (is_due size turn (g.data_count t + 1)) turn t _
        (put-IsSafe t r.partition (r.offset + 1) (at t (g.data_count t + 1) g.data_count) g u s)

IsSafe-mono :
    {settled settled' : ℕ → ℕ → Bool} (g : Group)
    → ((p o : ℕ) → settled p o ≡ true → settled' p o ≡ true)
    → IsSafe settled g
    → IsSafe settled' g
IsSafe-mono {settled} {settled'} g m s = record {
  cursors = λ t p. up (s.cursors t p);
  currents = λ t. all_up (g.current t) (s.currents t);
  commits = λ p x e. up (s.commits p x e);
  flying = All-imp (λ f. all_up f.1) g.flights s.flying;
  stored = λ p x e. up (s.stored p x e);
  writing = all_up g.writes s.writing;
}
  where
    up : {p x : ℕ} → Upto settled p x → Upto settled' p x
    up {p} u o l = m p o (u o l)

    all_up : (c : List (ℕ × ℕ)) → AllUpto settled c → AllUpto settled' c
    all_up c h = All-imp (λ e u. up u) c h

-- The group with what it has settled itself.
abbrev pub Safe : Group → Type 0
Safe g = IsSafe (is_settled g) g

-- The trace and the logs are not part of what is kept.
logs-IsSafe :
    {settled : ℕ → ℕ → Bool} (trace : List Entry) (resets : List (ℕ × ℕ))
    (logged log_tasks : List ℕ) (g : Group)
    → IsSafe settled g
    → IsSafe settled
        (record g { trace = trace; resets = resets; logged = logged; log_tasks = log_tasks })
logs-IsSafe trace resets logged log_tasks g s = record {
  cursors = s.cursors;
  currents = s.currents;
  commits = s.commits;
  flying = s.flying;
  stored = s.stored;
  writing = s.writing;
}

is_settled-reset :
    (q latest : ℕ) (g : Group) (p o : ℕ)
    → is_settled g p o ≡ true
    → is_settled (record g { resets = (q, latest) ∷ g.resets }) p o ≡ true
is_settled-reset q latest g p o h = ground arith

is_settled-reset_below :
    (p latest : ℕ) (g : Group)
    → Upto (is_settled (record g { resets = (p, latest) ∷ g.resets })) p latest
is_settled-reset_below p latest g o l = ground arith

Safe-start_at :
    (t p latest : ℕ) (o : Option ℕ) (g : Group)
    → g.committed p ≡ o
    → Safe g
    → Safe (start_at t p latest o g)
Safe-start_at t p latest none g e s =
    let after = record g { resets = (p, latest) ∷ g.resets } in
    set_cursor-IsSafe (is_settled after) t p latest after (is_settled-reset_below p latest g) (
      logs-IsSafe g.trace ((p, latest) ∷ g.resets) g.logged g.log_tasks g
        (IsSafe-mono g (is_settled-reset p latest g) s))
Safe-start_at t p latest (some x) g e s =
    set_cursor-IsSafe (is_settled g) t p x g (s.commits p x e) s

Safe-seek :
    (t p latest : ℕ) (seeks : Bool) (o : Option ℕ) (g : Group)
    → ((x : ℕ) → o ≡ some x → Upto (is_settled g) p x)
    → Safe g
    → Safe (seek t p latest seeks o g)
Safe-seek t p latest seeks none g h s = Safe-start_at t p latest (g.committed p) g refl s
Safe-seek t p latest true (some x) g h s = set_cursor-IsSafe (is_settled g) t p x g (h x refl) s
Safe-seek t p latest false (some x) g h s = Safe-start_at t p latest (g.committed p) g refl s

found-Upto :
    (p : ℕ) (finds : Bool) (g : Group)
    → Safe g
    → (x : ℕ) → or_committed (if finds then g.db p else none) (g.committed p) ≡ some x
    → Upto (is_settled g) p x
found-Upto p false g s x e = s.commits p x e
found-Upto p true g s x e = elim (Option-cases (g.db p)) [
  | inl missing ↦ s.commits p x (rw missing at e)
  | inr (y, found) ↦ s.stored p x (found ∙ rw found at e)
]

pub Safe-assign_partition :
    (t p latest : ℕ) (finds seeks : Bool) (g : Group)
    → Safe g
    → Safe (assign_partition t p latest finds seeks g)
unfolding assign_partition
Safe-assign_partition t p latest finds seeks g s =
    Safe-seek t p latest seeks _ g (found-Upto p finds g s) s

flush_if-settled :
    (due : Option Bool) (turn : Turn) (t : ℕ) (g : Group)
    → is_settled (flush_if due turn t g) ≡ is_settled g
flush_if-settled none turn t g = refl
flush_if-settled (some false) turn t g = refl
flush_if-settled (some true) turn t g = elim (Bool-cases turn.sends) [
  | inl sent ↦ rw sent
  | inr failed ↦ rw failed
]

keep_offset-settled :
    (size : ℕ) (turn : Turn) (t : ℕ) (r : Record) (g : Group)
    → is_settled (keep_offset size turn t r g) ≡ is_settled g
unfolding keep_offset
keep_offset-settled size turn t r g =
    flush_if-settled (is_due size turn (g.data_count t + 1)) turn t _

is_settled-seen :
    (e : Entry) (g : Group) (p o : ℕ)
    → is_settled g p o ≡ true
    → is_settled (record g { trace = e ∷ g.trace }) p o ≡ true
is_settled-seen e g p o h = ground arith

Upto-seen :
    (e : Entry) (g : Group)
    → Upto (is_settled g) e.partition e.offset
    → Upto (is_settled (record g { trace = e ∷ g.trace })) e.partition (e.offset + 1)
Upto-seen e g u o l = ground (arith, u o)

pub Safe-process :
    (size : ℕ) (turn : Turn) (t : ℕ) (r : Record) (g : Group)
    → r.offset ≡ g.cursor t r.partition
    → Safe g
    → Safe (process size turn t r g)
unfolding process
Safe-process size turn t r g e s =
    let entry : Entry = record {
      partition = r.partition;
      offset = r.offset;
      digest = r.digest;
      fate = fate_of turn r g.logged;
    } in
    let traced = record g { trace = entry ∷ g.trace } in
    let here : Upto (is_settled traced) r.partition (r.offset + 1) =
      Upto-seen entry g (rw e (s.cursors t r.partition)) in
    let moved = set_cursor-IsSafe (is_settled traced) t r.partition (r.offset + 1) traced here (
      logs-IsSafe (entry ∷ g.trace) g.resets g.logged g.log_tasks g
        (IsSafe-mono g (is_settled-seen entry g) s)) in
    let kept =
      keep_offset-IsSafe (is_settled traced) size turn t r
        (set_cursor t r.partition (r.offset + 1) traced) here moved in
    let kept_group = keep_offset size turn t r (set_cursor t r.partition (r.offset + 1) traced) in
    logs-IsSafe kept_group.trace kept_group.resets kept_group.logged
      (kept_group.log_tasks ++ log_task r.digest) kept_group
      (subst (λ settled. IsSafe settled kept_group)
        (sym (keep_offset-settled size turn t r (set_cursor t r.partition (r.offset + 1) traced)))
        kept)
