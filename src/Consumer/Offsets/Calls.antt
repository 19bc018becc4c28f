-- ===== src/Consumer/Offsets/Calls.antt =====
-- The calls that change what is kept, without a record: each keeps all offsets behind the records.
use mq_kafka.Prelude.{
  ℕ, ◌≡◌, refl, inl, inr, Bool, true, false, Bool-cases, Option, none, some, List, [], ◌∷◌, ◌==◌,
  if◌then◌else◌, arith, All-append, Picked,
}
use mq_kafka.Consumer.{
  Group, at, offset_of, put_offset, drop_offset, put_all, stop, drop_same, set_cursor, land, write,
  write_digest, revoke, revoke_one,
}
use mq_kafka.Consumer.Offsets.{
  Upto, AllUpto, KnownUpto, IsSafe, AllUpto-put, AllUpto-drop, Upto-offset_of, AllUpto-drop_same,
  KnownUpto-at, KnownUpto-put_all,
}

module _ (settled : ℕ → ℕ → Bool) where
  -- What a thread holds, replaced for one thread.
  pub currents-at :
      (t : ℕ) (m : List (ℕ × ℕ)) (c : ℕ → List (ℕ × ℕ))
      → AllUpto settled m
      → ((u : ℕ) → AllUpto settled (c u))
      → (u : ℕ) → AllUpto settled (at t m c u)
  currents-at t m c h k u = elim (Bool-cases (t == u)) [
    | inl same ↦ rw same h
    | inr other ↦ rw other (k u)
  ]

  cursors-at :
      (t p x : ℕ) (c : ℕ → ℕ → ℕ)
      → Upto settled p x
      → ((u q : ℕ) → Upto settled q (c u q))
      → (u q : ℕ) → Upto settled q (at t (at p x (c t)) c u q)
  cursors-at t p x c h k u q = elim (Bool-cases (t == u)) [
    | inr other ↦ rw other (k u q)
    | inl same ↦ rw same (elim (Bool-cases (p == q)) [
      | inl here ↦ let e : p ≡ q = ground arith in rw here (rw (← e) h)
      | inr there ↦ rw there (k t q)
    ])
  ]

  -- A thread that gives its offsets up.
  pub clear-IsSafe :
      (t : ℕ) (counts : ℕ → ℕ) (g : Group)
      → IsSafe settled g
      → IsSafe settled (record g { current = at t [] g.current; data_count = counts })
  clear-IsSafe t counts g s = record {
    cursors = s.cursors;
    currents = currents-at t [] g.current tt s.currents;
    commits = s.commits;
    flying = s.flying;
    stored = s.stored;
    writing = s.writing;
  }

  pub stop-IsSafe :
      (ok : Bool) (t : ℕ) (g : Group) → IsSafe settled g → IsSafe settled (stop ok t g)
  unfolding stop
  stop-IsSafe ok t g s = record {
    cursors = s.cursors;
    currents = currents-at t [] g.current tt s.currents;
    commits =
        elim ok
          as (λ b.
            KnownUpto settled (if b then put_all (g.current t) g.committed else g.committed)) [
              | true ↦ KnownUpto-put_all settled (g.current t) g.committed (s.currents t) s.commits
              | false ↦ s.commits
            ];
    flying = s.flying;
    stored = s.stored;
    writing = All-append _ g.writes (g.current t) s.writing (s.currents t);
  }

  pub land-IsSafe :
      (ok : Bool) (o : Option ((ℕ × List (ℕ × ℕ)) × List (ℕ × List (ℕ × ℕ)))) (g : Group)
      → Picked (λ f. AllUpto settled f.1) o
      → IsSafe settled g
      → IsSafe settled (land ok o g)
  land-IsSafe ok none g h s = s
  land-IsSafe true (some ((t, m), rest)) g (h, k) s = record {
    cursors = s.cursors;
    currents =
        currents-at t (drop_same m (g.current t)) g.current
          (AllUpto-drop_same settled m (g.current t) (s.currents t)) s.currents;
    commits = KnownUpto-put_all settled m g.committed h s.commits;
    flying = k;
    stored = s.stored;
    writing = s.writing;
  }
  land-IsSafe false (some ((t, m), rest)) g (h, k) s = record {
    cursors = s.cursors;
    currents = s.currents;
    commits = s.commits;
    flying = k;
    stored = s.stored;
    writing = s.writing;
  }

  pub write-IsSafe :
      (ok : Bool) (o : Option ((ℕ × ℕ) × List (ℕ × ℕ))) (g : Group)
      → Picked (λ e. Upto settled e.0 e.1) o
      → IsSafe settled g
      → IsSafe settled (write ok o g)
  write-IsSafe ok none g h s = s
  write-IsSafe ok (some ((p, x), rest)) g (h, k) s = record {
    cursors = s.cursors;
    currents = s.currents;
    commits = s.commits;
    flying = s.flying;
    stored = elim ok as (λ b. KnownUpto settled (if b then at p (some x) g.db else g.db)) [
      | true ↦ KnownUpto-at settled p x g.db h s.stored
      | false ↦ s.stored
    ];
    writing = k;
  }

  pub write_digest-IsSafe :
      (ok : Bool) (o : Option (ℕ × List ℕ)) (g : Group)
      → IsSafe settled g
      → IsSafe settled (write_digest ok o g)
  write_digest-IsSafe ok none g s = s
  write_digest-IsSafe ok (some (d, rest)) g s = record {
    cursors = s.cursors;
    currents = s.currents;
    commits = s.commits;
    flying = s.flying;
    stored = s.stored;
    writing = s.writing;
  }

  pub set_cursor-IsSafe :
      (t p x : ℕ) (g : Group)
      → Upto settled p x
      → IsSafe settled g
      → IsSafe settled (set_cursor t p x g)
  set_cursor-IsSafe t p x g h s = record {
    cursors = cursors-at t p x g.cursor h s.cursors;
    currents = s.currents;
    commits = s.commits;
    flying = s.flying;
    stored = s.stored;
    writing = s.writing;
  }

  revoke_one-IsSafe :
      (t : ℕ) (held : List (ℕ × ℕ)) (p : ℕ) (o : Option ℕ) (commits saves : Bool) (g : Group)
      → AllUpto settled held
      → offset_of p (g.current t) ≡ o
      → IsSafe settled g
      → AllUpto settled (revoke_one t held p o commits saves g).0
        × IsSafe settled (revoke_one t held p o commits saves g).1
  unfolding revoke_one
  revoke_one-IsSafe t held p none commits saves g h e s = (h, s)
  revoke_one-IsSafe t held p (some x) false saves g h e s = (
    AllUpto-put settled p x held (Upto-offset_of settled p x (g.current t) (s.currents t) e) h,
    s,
  )
  revoke_one-IsSafe t held p (some x) true saves g h e s =
      let u = Upto-offset_of settled p x (g.current t) (s.currents t) e in
      let more = AllUpto-put settled p x held u h in
      (
        AllUpto-drop settled p (put_offset p x held) more,
        record {
          cursors = s.cursors;
          currents =
              currents-at t (drop_offset p (g.current t)) g.current
                (AllUpto-drop settled p (g.current t) (s.currents t)) s.currents;
          commits = KnownUpto-put_all settled (put_offset p x held) g.committed more s.commits;
          flying = s.flying;
          stored = elim saves as (λ b. KnownUpto settled (if b then at p (some x) g.db else g.db)) [
            | true ↦ KnownUpto-at settled p x g.db u s.stored
            | false ↦ s.stored
          ];
          writing = s.writing;
        },
      )

  pub revoke-IsSafe :
      (t : ℕ) (held : List (ℕ × ℕ)) (ps : List (ℕ × Bool × Bool)) (g : Group)
      → AllUpto settled held
      → IsSafe settled g
      → IsSafe settled (revoke t held ps g)
  unfolding revoke
  revoke-IsSafe t held [] g h s = s
  revoke-IsSafe t held ((p, commits, saves) ∷ ps) g h s =
      let next = revoke_one t held p (offset_of p (g.current t)) commits saves g in
      let after = revoke_one-IsSafe t held p (offset_of p (g.current t)) commits saves g h refl s in
      revoke-IsSafe t next.0 ps next.1 after.0 after.1
