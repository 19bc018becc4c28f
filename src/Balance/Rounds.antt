-- ===== src/Balance/Rounds.antt =====
-- WeightLoadBalancer.java: whole rounds, and the shares of the targets in them.
use mq_kafka.Prelude.{
  ℕ, zero, suc, ◌+◌, ◌*◌, ◌/◌, ◌∣◌, ◌<◌, ◌≤◌, ◌≡◌, refl, sym, mul-add, ap₂, ◌↔◌, ap, ◌∙◌, inl, inr,
  true, Bool-cases, List, [], ◌∷◌, ◌++◌, append-nil, length, ◌==◌, leb, if◌then◌else◌, arith,
  length-append, All, mul-div_cancel', le-div_iff_mul-le,
}
use mq_kafka.Balance.{Balancer, lower}
use mq_kafka.Balance.Shares.{spot, Draws, at_least, Holds, Draws-level, Draws-level_whole}

-- The choices of a round whose `n` levels are the multiples of `g`, from the highest one on.
pub round : ℕ → ℕ → List (ℕ × ℕ) → List ℕ
round g zero ts = []
round g (suc n) ts = at_least (suc n * g) ts ++ round g n ts

-- How often a target is in a list of choices, and the weight that it has in all its entries.
unfoldable pub tally : ℕ → List ℕ → ℕ
tally x [] = 0
tally x (t ∷ ts) = let rest = tally x ts in if t == x then suc rest else rest

unfoldable pub weight_of : ℕ → List (ℕ × ℕ) → ℕ
weight_of x [] = 0
weight_of x ((t, w) ∷ ts) = let rest = weight_of x ts in if t == x then w + rest else rest

tally-append : (x : ℕ) (ts us : List ℕ) → tally x (ts ++ us) ≡ tally x ts + tally x us
unfolding tally
tally-append x [] us = omega arith
tally-append x (t ∷ ts) us = ground (arith, tally-append x ts us)

-- At how many of the levels a weight is high enough.
levels : ℕ → ℕ → ℕ → ℕ
levels g zero w = 0
levels g (suc n) w = let rest = levels g n w in if leb (suc n * g) w then suc rest else rest

levels-div : (g n w : ℕ) → 0 < g → levels g n w ≡ (if leb n (w / g) then n else w / g)
unfolding levels
levels-div g zero w p = ground arith
levels-div g (suc n) w p =
    let both : (suc n ≤ w / g) ↔ (suc n * g ≤ w) = le-div_iff_mul-le p in
    let ih = levels-div g n w p in
    elim (Bool-cases (leb (suc n * g) w)) [
      | inl high ↦ let m : suc n ≤ w / g = both.1 (ground arith) in ground arith
      | inr low ↦ elim (Bool-cases (leb (suc n) (w / g))) [
        | inl m ↦ let h : suc n * g ≤ w = both.0 (ground arith) in absurd (ground arith)
        | inr m ↦ ground arith
      ]
    ]

tally-at_least :
    (x c t w : ℕ) (ts : List (ℕ × ℕ))
    → tally x (at_least c ((t, w) ∷ ts))
      ≡ (if t == x then (if leb c w then 1 else 0) else 0) + tally x (at_least c ts)
unfolding tally at_least
tally-at_least x c t w ts = ground arith

tally-round_item :
    (x g n t w : ℕ) (ts : List (ℕ × ℕ))
    → tally x (round g n ((t, w) ∷ ts))
      ≡ (if t == x then levels g n w else 0) + tally x (round g n ts)
unfolding round levels tally
tally-round_item x g zero t w ts = ground arith
tally-round_item x g (suc n) t w ts = ground (
  arith,
  tally-round_item x g n t w ts,
  tally-at_least x (suc n * g) t w ts,
  tally-append x (at_least (suc n * g) ts) (round g n ts),
  tally-append x (at_least (suc n * g) ((t, w) ∷ ts)) (round g n ((t, w) ∷ ts)),
)

tally-round_nil : (x g n : ℕ) → tally x (round g n []) ≡ 0
unfolding round tally at_least
tally-round_nil x g zero = refl
tally-round_nil x g (suc n) = tally-round_nil x g n

pub tally-round :
    (x g n : ℕ) (ts : List (ℕ × ℕ))
    → 0 < g
    → All (λ e. (g ∣ e.1) × (e.1 / g ≤ n)) ts
    → g * tally x (round g n ts) ≡ weight_of x ts
unfolding weight_of
tally-round x g n [] p a = rw (tally-round_nil x g n) (omega arith)
tally-round x g n ((t, w) ∷ ts) p a =
    let whole : g * (w / g) ≡ w = mul-div_cancel' g a.0.0 in
    let share : levels g n w ≡ w / g = ground (arith, levels-div g n w p, a.0.1) in
    let ih = tally-round x g n ts p a.1 in
    elim (Bool-cases (t == x)) [
      | inl same ↦
          rw (tally-round_item x g n t w ts, same, share)
            (mul-add g (w / g) (tally x (round g n ts)) ∙ ap₂ ◌+◌ whole ih)
      | inr other ↦ rw (tally-round_item x g n t w ts, other) (ground (arith, ih))
    ]

-- The rest of a round, behind a wrap that lowers the weight to the level `suc n`.
module _ (b : Balancer) (many : 1 < length b.targets) (t w : ℕ) (ts : List (ℕ × ℕ)) where
  length-round : (g n : ℕ) → g ≤ w → 0 < length (round g (suc n) ((t, w) ∷ ts))
  unfolding round at_least
  length-round g zero l =
      let taken : leb (1 * g) w ≡ true = ground (arith, l) in rw taken (omega arith)
  length-round g (suc n) l = omega (
    arith,
    length-round g n l,
    length-append {A = ℕ} (at_least (suc (suc n) * g) ((t, w) ∷ ts))
        (round g (suc n) ((t, w) ∷ ts)),
  )

  lower-level :
      (n g : ℕ)
      → b.gcd_weight ≡ g
      → 0 < g
      → lower (spot b (length ts) (suc (suc n) * g)) ≡ suc n * g
  lower-level n g e p =
      let next : suc (suc n) * g ≡ suc n * g + g = omega arith in
      let more : 0 < suc n * g = omega arith in rw (e, next) (ground arith)

  pub Draws-round :
      (n g c : ℕ)
      → Holds b many t w ts
      → b.gcd_weight ≡ suc g
      → All (λ e. suc g ≤ e.1) ((t, w) ∷ ts)
      → lower (spot b (length ts) c) ≡ suc n * suc g
      → Draws
          (round (suc g) (suc n) ((t, w) ∷ ts))
          (spot b (length ts) c)
          (spot b (length ts) (suc g))
  unfolding round
  Draws-round zero g c h e a lo =
      let one : 1 * suc g ≡ suc g = omega arith in
      rw (one, append-nil (at_least (suc g) ((t, w) ∷ ts)))
        (Draws-level_whole b many t w ts c g h (lo ∙ one) a)
  Draws-round (suc n) g c h e a lo =
      let top : suc (suc n) * suc g ≡ suc (suc n * suc g + g) = omega arith in
      let back =
        ap (λ x. lower (spot b (length ts) x)) (sym top) ∙ lower-level n (suc g) e (omega arith) in
      rw top (
        Draws-level b many t w ts c (suc n * suc g + g) (round (suc g) (suc n) ((t, w) ∷ ts)) _ h
          (lo ∙ top) (length-round (suc g) n a.0)
          (Draws-round n g (suc (suc n * suc g + g)) h e a back))
