-- ===== src/Balance/Shares.antt =====
-- WeightLoadBalancer.java: in a whole round each target is chosen in proportion to its weight.
use mq_kafka.Prelude.{
  ℕ, suc, ◌+◌, ◌%◌, ◌<◌, ◌≤◌, ◌≡◌, refl, sym, ap, ◌∙◌, inl, inr, Bool, true, false, Bool-cases,
  Option, some, List, [], ◌∷◌, ◌++◌, length, mod-eq_of_lt, mod_self, ◌==◌, leb, if◌then◌else◌,
  arith, length-append, All,
}
use mq_kafka.Balance.{
  Balancer, PassResult, found, again, lower, get_elem?, pass, get_loop, unless_few, get,
}

-- The balancer at another place of its round.
abbrev pub spot : Balancer → ℕ → ℕ → Balancer
spot b i c = record b { current_index = i; current_weight = c }

-- One call after the other chooses these targets; each of them ends.
pub data Draws : List ℕ → Balancer → Balancer → Type 0 where
  done : {b : Balancer} → Draws [] b b
  draw :
      {b c d : Balancer} {t : ℕ} {ts : List ℕ} (fuel : ℕ)
      → get fuel b ≡ some (some t, c)
      → Draws ts c d
      → Draws (t ∷ ts) b d

unless_few-many :
    (ts : List (ℕ × ℕ)) (b : Balancer) (r : Option (Option ℕ × Balancer))
    → 1 < length ts
    → unless_few ts b r ≡ r
unless_few-many [] b r l = absurd (omega arith)
unless_few-many (t ∷ []) b r l = absurd (omega arith)
unless_few-many (t ∷ u ∷ ts) b r l = refl

pub get-many : (fuel : ℕ) (b : Balancer) → 1 < length b.targets → get fuel b ≡ get_loop fuel b
unfolding get
get-many fuel b l = unless_few-many b.targets b (get_loop fuel b) l

Draws-again :
    (b c d : Balancer) (ts : List ℕ)
    → 1 < length b.targets
    → 1 < length c.targets
    → pass b ≡ (again, c)
    → 0 < length ts
    → Draws ts c d
    → Draws ts b d
unfolding get_loop
Draws-again b c d [] m m' e l h = absurd (omega arith)
Draws-again b c d (t ∷ ts) m m' e l (draw fuel e' h) =
    draw (suc fuel) (get-many (suc fuel) b m ∙ rw e (sym (get-many fuel c m') ∙ e')) h

Draws-found :
    (b c d : Balancer) (t : ℕ) (ts : List ℕ)
    → 1 < length b.targets
    → pass b ≡ (found (some t), c)
    → Draws ts c d
    → Draws (t ∷ ts) b d
unfolding get_loop
Draws-found b c d t ts m e h = draw 1 (get-many 1 b m ∙ rw e refl) h

pass-next :
    (b : Balancer) (i c t w : ℕ)
    → suc i < b.total_target
    → get_elem? (suc i) b.targets ≡ some (t, w)
    → pass (spot b i c) ≡ (if leb c w then found (some t) else again, spot b (suc i) c)
unfolding pass
pass-next b i c t w l e =
    let m : (i + 1) % b.total_target ≡ suc i =
      let n : i + 1 ≡ suc i = omega arith in rw n (mod-eq_of_lt l) in
    let z : (suc i == 0) ≡ false = ground arith in rw (m, e, z) refl

pass-wrap :
    (b : Balancer) (i c c' t w : ℕ)
    → suc i ≡ b.total_target
    → lower (spot b i c) ≡ suc c'
    → get_elem? 0 b.targets ≡ some (t, w)
    → pass (spot b i c) ≡ (if leb (suc c') w then found (some t) else again, spot b 0 (suc c'))
unfolding pass
pass-wrap b i c c' t w l lo e =
    let m : (i + 1) % b.total_target ≡ 0 =
      let n : i + 1 ≡ b.total_target = omega arith in rw n (mod_self b.total_target) in
    let z : (suc c' == 0) ≡ false = ground arith in rw (m, lo, e, z) refl

-- The targets of at least that weight.
unfoldable pub at_least : ℕ → List (ℕ × ℕ) → List ℕ
at_least c [] = []
at_least c ((t, w) ∷ ts) = let rest = at_least c ts in if leb c w then t ∷ rest else rest

module _ (b : Balancer) (many : 1 < length b.targets) (c : ℕ) where
  -- The targets from an index on, as the suffix of all of them.
  abbrev pub From : ℕ → List (ℕ × ℕ) → Type 0
  From i ts =
      ((k : ℕ) → get_elem? (i + k) b.targets ≡ get_elem? k ts) × (b.total_target ≡ i + length ts)

  pub From-suc : (i : ℕ) (e : ℕ × ℕ) (ts : List (ℕ × ℕ)) → From i (e ∷ ts) → From (suc i) ts
  From-suc i e ts f =
      (λ k. let n : suc i + k ≡ i + suc k = omega arith in rw n (f.0 (suc k)), omega (arith, f.1))

  -- A pass behind the first of a round.
  pub pass-From :
      (i t w : ℕ) (ts : List (ℕ × ℕ))
      → From (suc i) ((t, w) ∷ ts)
      → pass (spot b i c) ≡ (if leb c w then found (some t) else again, spot b (suc i) c)
  pass-From i t w ts f =
      let n : suc i + 0 ≡ suc i = omega arith in
      pass-next b i c t w (omega (arith, f.1)) (ap (λ k. get_elem? k b.targets) (sym n) ∙ f.0 0)

  -- What the rest of a round chooses, in front of the next choices.
  Draws-scan :
      (i j : ℕ) (ts : List (ℕ × ℕ)) (ys : List ℕ) (d : Balancer)
      → From (suc i) ts
      → j ≡ i + length ts
      → 0 < length ys
      → Draws ys (spot b j c) d
      → Draws (at_least c ts ++ ys) (spot b i c) d
  unfolding at_least
  Draws-scan i j [] ys d f e l h = let e' : j ≡ i = omega arith in rw⁻¹ e' h
  Draws-scan i j ((t, w) ∷ ts) ys d f e l h =
      let rest = Draws-scan (suc i) j ts ys d (From-suc (suc i) (t, w) ts f) (omega arith) l h in
      let here : Bool → PassResult × Balancer =
        λ q. (if q then found (some t) else again, spot b (suc i) c) in
      elim (Bool-cases (leb c w)) [
        | inl taken ↦ rw taken (
            Draws-found (spot b i c) (spot b (suc i) c) d t _ many
              (pass-From i t w ts f ∙ ap here taken) rest)
        | inr left ↦ rw left (
            Draws-again (spot b i c) (spot b (suc i) c) d _ many many
              (pass-From i t w ts f ∙ ap here left)
              (omega (arith, length-append {A = ℕ} (at_least c ts) ys)) rest)
      ]

  -- All targets are taken if none has a lower weight; there need be no choice behind them.
  Draws-scan_whole :
      (i j : ℕ) (ts : List (ℕ × ℕ))
      → From (suc i) ts
      → j ≡ i + length ts
      → All (λ e. c ≤ e.1) ts
      → Draws (at_least c ts) (spot b i c) (spot b j c)
  unfolding at_least
  Draws-scan_whole i j [] f e a = let e' : j ≡ i = omega arith in rw e' done
  Draws-scan_whole i j ((t, w) ∷ ts) f e a =
      let rest = Draws-scan_whole (suc i) j ts (From-suc (suc i) (t, w) ts f) (omega arith) a.1 in
      let taken : leb c w ≡ true = ground (arith, a.0) in
      let here : Bool → PassResult × Balancer =
        λ q. (if q then found (some t) else again, spot b (suc i) c) in
      rw taken (
        Draws-found (spot b i c) (spot b (suc i) c) _ t _ many
          (pass-From i t w ts f ∙ ap here taken) rest)

-- A level: the weight is lowered to `c` by the wrap, and then the round goes through all targets.
module _ (b : Balancer) (many : 1 < length b.targets) (t w : ℕ) (ts : List (ℕ × ℕ)) where
  abbrev pub Holds : Type 0
  Holds = (b.targets ≡ (t, w) ∷ ts) × (b.total_target ≡ suc (length ts))

  pub Holds-From : Holds → (c : ℕ) → From b many c 1 ts
  Holds-From h c =
      (λ k. let n : 1 + k ≡ suc k = omega arith in rw (h.0, n) refl, omega (arith, h.1))

  pub pass-first :
      (c c' : ℕ)
      → Holds
      → lower (spot b (length ts) c) ≡ suc c'
      → pass (spot b (length ts) c)
        ≡ (if leb (suc c') w then found (some t) else again, spot b 0 (suc c'))
  pass-first c c' h lo = pass-wrap b (length ts) c c' t w (sym h.1) lo (ap (get_elem? 0) h.0)

  pub Draws-level :
      (c c' : ℕ) (ys : List ℕ) (d : Balancer)
      → Holds
      → lower (spot b (length ts) c) ≡ suc c'
      → 0 < length ys
      → Draws ys (spot b (length ts) (suc c')) d
      → Draws (at_least (suc c') ((t, w) ∷ ts) ++ ys) (spot b (length ts) c) d
  unfolding at_least
  Draws-level c c' ys d h lo l next =
      let rest =
        Draws-scan b many (suc c') 0 (length ts) ts ys d (Holds-From h (suc c')) (omega arith) l
          next in
      let here : Bool → PassResult × Balancer =
        λ q. (if q then found (some t) else again, spot b 0 (suc c')) in
      elim (Bool-cases (leb (suc c') w)) [
        | inl taken ↦ rw taken (
            Draws-found (spot b (length ts) c) (spot b 0 (suc c')) d t _ many
              (pass-first c c' h lo ∙ ap here taken) rest)
        | inr left ↦ rw left (
            Draws-again (spot b (length ts) c) (spot b 0 (suc c')) d _ many many
              (pass-first c c' h lo ∙ ap here left)
              (omega (arith, length-append {A = ℕ} (at_least (suc c') ts) ys)) rest)
      ]

  pub Draws-level_whole :
      (c c' : ℕ)
      → Holds
      → lower (spot b (length ts) c) ≡ suc c'
      → All (λ e. suc c' ≤ e.1) ((t, w) ∷ ts)
      → Draws (at_least (suc c') ((t, w) ∷ ts)) (spot b (length ts) c) (spot b (length ts) (suc c'))
  unfolding at_least
  Draws-level_whole c c' h lo a =
      let rest =
        Draws-scan_whole b many (suc c') 0 (length ts) ts (Holds-From h (suc c')) (omega arith)
          a.1 in
      let taken : leb (suc c') w ≡ true = ground (arith, a.0) in
      let here : Bool → PassResult × Balancer =
        λ q. (if q then found (some t) else again, spot b 0 (suc c')) in
      rw taken (
        Draws-found (spot b (length ts) c) (spot b 0 (suc c')) _ t _ many
          (pass-first c c' h lo ∙ ap here taken) rest)
