-- ===== src/Consumer/Offsets.antt =====
-- KafkaConsumerManager.java and HandleRebalance.java: no offset runs ahead of the records.
pub mod Calls
pub mod Turns
pub mod Reach
use mq_kafka.Prelude.{
  ℕ, zero, suc, ◌+◌, ◌<◌, ◌≡◌, refl, sym, ap, ◌∙◌, ◌⊎◌, inl, inr, Bool, true, false, ◌&&◌, ◌||◌,
  Bool-cases, Option, none, some, List, [], ◌∷◌, ◌++◌, ◌==◌, if◌then◌else◌, ltb, arith, All,
  All-append, Picked, Picked-pick, All-imp, Option-cases,
}
use mq_kafka.Consumer.{
  Group, Entry, Record, Turn, at, offset_of, put_offset, drop_offset, keep_offset, process,
  start_batch, put_all, stop, drop_same, is_offset, or_committed, set_cursor, start_at, seek, land,
  write, write_digest, flush_if, is_due, fate_of, log_task, answer_commit, write_offset, write_log,
  revoke, revoke_one, assign_partition, crash,
}

-- The trace has an entry for the record.
abbrev pub seen : ℕ → ℕ → List Entry → Bool
seen p o [] = false
seen p o (e ∷ es) = (e.partition == p && e.offset == o) || seen p o es

abbrev passed : ℕ → ℕ → List (ℕ × ℕ) → Bool
passed p o [] = false
passed p o ((q, end) ∷ es) = (q == p && ltb o end) || passed p o es

-- The record was handed to the business code, or found to be a duplicate or not valid, or it lay in
-- front of an end to which Kafka set the partition.
abbrev pub is_settled : Group → ℕ → ℕ → Bool
is_settled g p o = seen p o g.trace || passed p o g.resets

abbrev pub Upto : (ℕ → ℕ → Bool) → ℕ → ℕ → Type 0
Upto settled p x = (o : ℕ) → o < x → settled p o ≡ true

abbrev pub AllUpto : (ℕ → ℕ → Bool) → List (ℕ × ℕ) → Type 0
AllUpto settled m = All (λ e. Upto settled e.0 e.1) m

abbrev pub KnownUpto : (ℕ → ℕ → Bool) → (ℕ → Option ℕ) → Type 0
KnownUpto settled f = (p x : ℕ) → f p ≡ some x → Upto settled p x

-- Every offset that is kept anywhere has only settled records below it.
pub record IsSafe (settled : ℕ → ℕ → Bool) (g : Group) : Type 0 where
  pub cursors : (t p : ℕ) → Upto settled p (g.cursor t p)
  pub currents : (t : ℕ) → AllUpto settled (g.current t)
  pub commits : KnownUpto settled g.committed
  pub flying : All (λ f. AllUpto settled f.1) g.flights
  pub stored : KnownUpto settled g.db
  pub writing : AllUpto settled g.writes

module _ (settled : ℕ → ℕ → Bool) where
  pub AllUpto-put :
      (p x : ℕ) (m : List (ℕ × ℕ))
      → Upto settled p x
      → AllUpto settled m
      → AllUpto settled (put_offset p x m)
  unfolding put_offset
  AllUpto-put p x [] u h = (u, tt)
  AllUpto-put p x ((q, y) ∷ m) u h = elim (Bool-cases (q == p)) [
    | inl same ↦ let e : q ≡ p = ground arith in rw same (rw e u, h.1)
    | inr other ↦ rw other (h.0, AllUpto-put p x m u h.1)
  ]

  pub AllUpto-drop :
      (p : ℕ) (m : List (ℕ × ℕ)) → AllUpto settled m → AllUpto settled (drop_offset p m)
  unfolding drop_offset
  AllUpto-drop p [] h = h
  AllUpto-drop p ((q, y) ∷ m) h = elim (Bool-cases (q == p)) [
    | inl same ↦ rw same h.1
    | inr other ↦ rw other (h.0, AllUpto-drop p m h.1)
  ]

  pub Upto-offset_of :
      (p x : ℕ) (m : List (ℕ × ℕ)) → AllUpto settled m → offset_of p m ≡ some x → Upto settled p x
  unfolding offset_of
  Upto-offset_of p x [] h e = cc
  Upto-offset_of p x ((q, y) ∷ m) h e = elim (Bool-cases (q == p)) [
    | inl same ↦
        let e' : q ≡ p = ground arith in let e'' : y ≡ x = ground arith in rw (← e', ← e'') h.0
    | inr other ↦ Upto-offset_of p x m h.1 (ground arith)
  ]

  pub AllUpto-drop_same : (m c : List (ℕ × ℕ)) → AllUpto settled c → AllUpto settled (drop_same m c)
  unfolding drop_same
  AllUpto-drop_same [] c h = h
  AllUpto-drop_same ((p, x) ∷ m) c h = elim (Bool-cases (is_offset x (offset_of p c))) [
    | inl same ↦ rw same (AllUpto-drop_same m (drop_offset p c) (AllUpto-drop p c h))
    | inr changed ↦ rw changed (AllUpto-drop_same m c h)
  ]

  pub KnownUpto-at :
      (p x : ℕ) (f : ℕ → Option ℕ)
      → Upto settled p x
      → KnownUpto settled f
      → KnownUpto settled (at p (some x) f)
  KnownUpto-at p x f u k q y e = elim (Bool-cases (p == q)) [
    | inl same ↦
        let e' : p ≡ q = ground arith in let e'' : x ≡ y = ground arith in rw (← e', ← e'') u
    | inr other ↦ k q y (ground arith)
  ]

  pub KnownUpto-put_all :
      (m : List (ℕ × ℕ)) (f : ℕ → Option ℕ)
      → AllUpto settled m
      → KnownUpto settled f
      → KnownUpto settled (put_all m f)
  KnownUpto-put_all [] f h k = k
  KnownUpto-put_all ((p, x) ∷ m) f h k =
      KnownUpto-put_all m (at p (some x) f) h.1 (KnownUpto-at p x f h.0 k)
