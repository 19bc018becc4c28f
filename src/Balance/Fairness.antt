-- ===== src/Balance/Fairness.antt =====
-- WeightLoadBalancer.java: what `reloadWeightParams` sets, and the choices of a whole round.
use mq_kafka.Prelude.{
  ℕ, zero, suc, ◌*◌, ◌/◌, ◌∣◌, ◌<◌, ◌≤◌, ◌≡◌, ◌⊎◌, refl, sym, subst, subst₂, ap, ◌∙◌, inl, inr,
  true, Bool-cases, List, [], ◌∷◌, length, ◌==◌, ltb, if◌then◌else◌, arith, All, mul-div_cancel',
  dvd_trans, dvd-zero, dvd_refl, le_of_dvd, le-div_iff_mul-le, ◌↔◌, pos_of_dvd_of_pos,
}
use mq_kafka.Balance.{Balancer, Gcd, lower, max_from, max_weight_of, target_gcd, gcd_from}
use mq_kafka.Balance.Shares.{spot, Draws}
use mq_kafka.Balance.Rounds.{round, tally, weight_of, tally-round, Draws-round}

max_from-bound :
    (m : ℕ) (ts : List (ℕ × ℕ)) → (m ≤ max_from m ts) × All (λ e. e.1 ≤ max_from m ts) ts
max_from-bound m [] = (omega arith, tt)
max_from-bound m ((t, w) ∷ ts) =
    let bound = max_from-bound (if ltb m w then w else m) ts in
    (ground (arith, bound.0), (ground (arith, bound.0), bound.1))

pub max_from-attains :
    (P : ℕ → Type 0) (m : ℕ) (ts : List (ℕ × ℕ)) → P m → All (λ e. P e.1) ts → P (max_from m ts)
max_from-attains P m [] p a = p
max_from-attains P m ((t, w) ∷ ts) p a = elim (Bool-cases (ltb m w)) [
  | inl more ↦ rw more (max_from-attains P w ts a.0 a.1)
  | inr less ↦ rw less (max_from-attains P m ts p a.1)
]

base-divides :
    (r divisor last : ℕ)
    → (divisor ≡ 0) ⊎ (divisor ∣ last)
    → r ∣ (if divisor == 0 then last else divisor)
    → (r ∣ divisor) × (r ∣ last)
base-divides r divisor last (inl z) d =
    let e : (divisor == 0) ≡ true = ground arith in
    let d' : r ∣ last = subst (λ b. r ∣ (if b then last else divisor)) e d in
    (rw z (dvd-zero r), d')
base-divides r divisor last (inr h) d = elim (Bool-cases (divisor == 0)) [
  | inl e ↦
      let d' : r ∣ last = subst (λ b. r ∣ (if b then last else divisor)) e d in
      let z : divisor ≡ 0 = ground arith in (rw z (dvd-zero r), d')
  | inr e ↦
      let d' : r ∣ divisor = subst (λ b. r ∣ (if b then last else divisor)) e d in
      (d', dvd_trans r d' h)
]

module _ (math : Gcd) where
  open math use {gcd, gcd_left, gcd_right}

  gcd_from-divides :
      (divisor last : ℕ) (ts : List (ℕ × ℕ))
      → (divisor ≡ 0) ⊎ (divisor ∣ last)
      → let r = gcd_from math divisor last ts in
        (r ∣ divisor) × All (λ e. r ∣ e.1) ts × (0 < length ts → r ∣ last)
  unfolding gcd_from
  gcd_from-divides divisor last [] h = (dvd_refl divisor, tt, λ l. absurd (omega arith))
  gcd_from-divides divisor last ((t, w) ∷ ts) h =
      let base = if divisor == 0 then last else divisor in
      let r = gcd_from math (gcd base w) w ts in
      let ih = gcd_from-divides (gcd base w) w ts (inr (gcd_right base w)) in
      let own = base-divides r divisor last h (dvd_trans r ih.0 (gcd_left base w)) in
      (own.0, (dvd_trans r ih.0 (gcd_right base w), ih.1), λ l. own.1)

  -- The balancer holds more than one target, all of a weight above 0, and its parameters are those
  -- of the targets.
  pub record IsLoaded (b : Balancer) : Type 0 where
    pub many : 1 < length b.targets
    pub positive : All (λ e. 0 < e.1) b.targets
    pub total : b.total_target ≡ length b.targets
    pub place : b.current_index < b.total_target
    pub max : b.max_weight ≡ max_weight_of b.targets
    pub divisor : b.gcd_weight ≡ target_gcd math b.targets

  -- The next pass of the loop also starts a round.
  pub record IsFresh (b : Balancer) : Type 0 where
    pub loaded : IsLoaded b
    pub index : suc b.current_index ≡ b.total_target
    pub low : b.current_weight ≤ b.gcd_weight

  target_gcd-divides : (ts : List (ℕ × ℕ)) → 1 < length ts → All (λ e. target_gcd math ts ∣ e.1) ts
  unfolding target_gcd
  target_gcd-divides [] l = tt
  target_gcd-divides ((t, w) ∷ ts) l =
      let d = gcd_from-divides 0 w ts (inl refl) in (d.2 (omega arith), d.1)

  max_weight_of-divides : (d : ℕ) (ts : List (ℕ × ℕ)) → All (λ e. d ∣ e.1) ts → d ∣ max_weight_of ts
  unfolding max_weight_of
  max_weight_of-divides d [] a = dvd-zero d
  max_weight_of-divides d ((t, w) ∷ ts) a = max_from-attains (λ m. d ∣ m) w ts a.0 a.1

  max_weight_of-bound : (ts : List (ℕ × ℕ)) → All (λ e. e.1 ≤ max_weight_of ts) ts
  unfolding max_weight_of
  max_weight_of-bound [] = tt
  max_weight_of-bound ((t, w) ∷ ts) = max_from-bound w ts

  quotients : (g w m : ℕ) → 0 < g → w ≤ m → w / g ≤ m / g
  quotients g w m p l =
      let both : (w / g ≤ m / g) ↔ (w / g * g ≤ m) = le-div_iff_mul-le p in
      let own : (w / g ≤ w / g) ↔ (w / g * g ≤ w) = le-div_iff_mul-le p in
      let back : w / g * g ≤ w = own.0 (omega arith) in both.1 (omega arith)

  suits-All :
      (g m : ℕ) (ts : List (ℕ × ℕ))
      → 0 < g
      → All (λ e. 0 < e.1) ts
      → All (λ e. g ∣ e.1) ts
      → All (λ e. e.1 ≤ m) ts
      → All (λ e. (g ∣ e.1) × (e.1 / g ≤ m / g)) ts × All (λ e. g ≤ e.1) ts
  suits-All g m [] p l d b = (tt, tt)
  suits-All g m ((t, w) ∷ ts) p l d b =
      let rest = suits-All g m ts p l.1 d.1 b.1 in
      (((d.0, quotients g w m p b.0), rest.0), (le_of_dvd l.0 d.0, rest.1))

  -- The choices of the round, from what `suits-All` tells of the targets.
  abbrev Shares : Balancer → Type 0
  Shares b =
      (picks : List ℕ) × Draws picks b (spot b b.current_index b.gcd_weight)
      × ((x : ℕ) → b.gcd_weight * tally x picks ≡ weight_of x b.targets)

  Shares-levels :
      (b : Balancer) (t w : ℕ) (ts : List (ℕ × ℕ)) (n g : ℕ)
      → IsFresh b
      → b.targets ≡ (t, w) ∷ ts
      → b.gcd_weight ≡ suc g
      → b.max_weight ≡ suc n * suc g
      → All (λ e. (suc g ∣ e.1) × (e.1 / suc g ≤ suc n)) ((t, w) ∷ ts)
      → All (λ e. suc g ≤ e.1) ((t, w) ∷ ts)
      → Shares b
  Shares-levels b t w ts n g f e d m a l =
      let picks = round (suc g) (suc n) ((t, w) ∷ ts) in
      let size : b.total_target ≡ suc (length ts) = f.loaded.total ∙ ap length e in
      let place : length ts ≡ b.current_index = omega (arith, f.index) in
      let first : lower (spot b (length ts) b.current_weight) ≡ suc n * suc g =
        ground (arith, f.low) in
      let moves = Draws-round b f.loaded.many t w ts n g b.current_weight (e, size) d l first in
      (
        picks,
        subst (λ c. Draws picks b (spot b b.current_index c)) (sym d)
            (subst (λ i. Draws picks (spot b i b.current_weight) (spot b i (suc g))) place moves),
        λ x. rw (d, e) (tally-round x (suc g) (suc n) ((t, w) ∷ ts) (omega arith) a),
      )

  pub facts :
      (b : Balancer) (t w : ℕ) (ts : List (ℕ × ℕ)) (g : ℕ)
      → IsLoaded b
      → b.targets ≡ (t, w) ∷ ts
      → b.gcd_weight ≡ g
      → (0 < b.max_weight)
        × (g * (b.max_weight / g) ≡ b.max_weight)
        × All (λ e. (g ∣ e.1) × (e.1 / g ≤ b.max_weight / g)) ((t, w) ∷ ts)
        × All (λ e. g ≤ e.1) ((t, w) ∷ ts)
        × (0 < g)
  facts b t w ts g f e d =
      let us = (t, w) ∷ ts in
      let common : All (λ i. g ∣ i.1) us =
        subst₂ (λ k vs. All (λ i. k ∣ i.1) vs) (sym f.divisor ∙ d) e
          (target_gcd-divides b.targets f.many) in
      let above = subst (λ vs. All (λ i. 0 < i.1) vs) e f.positive in
      let highest : b.max_weight ≡ max_weight_of us = f.max ∙ ap max_weight_of e in
      let bound : All (λ i. i.1 ≤ b.max_weight) us =
        subst (λ m. All (λ i. i.1 ≤ m) us) (sym highest) (max_weight_of-bound us) in
      let whole = subst (λ m. g ∣ m) (sym highest) (max_weight_of-divides g us common) in
      let some_g = pos_of_dvd_of_pos common.0 above.0 in
      let suits = suits-All g b.max_weight us some_g above common bound in
      (omega (arith, above.0, bound.0), mul-div_cancel' g whole, suits.0, suits.1, some_g)

  Shares-cons :
      (b : Balancer) (t w : ℕ) (ts : List (ℕ × ℕ)) (n g : ℕ)
      → IsFresh b
      → b.targets ≡ (t, w) ∷ ts
      → b.gcd_weight ≡ g
      → b.max_weight / g ≡ n
      → Shares b
  Shares-cons b t w ts n zero f e d q =
      let none = (facts b t w ts 0 f.loaded e d).4 in absurd (omega arith)
  Shares-cons b t w ts zero (suc g) f e d q =
      let known = facts b t w ts (suc g) f.loaded e d in
      let no_level : suc g * 0 ≡ b.max_weight = ap (λ k. suc g * k) (sym q) ∙ known.1 in
      absurd (omega (arith, known.0))
  Shares-cons b t w ts (suc n) (suc g) f e d q =
      let known = facts b t w ts (suc g) f.loaded e d in
      let us = (t, w) ∷ ts in
      let share = λ (k : ℕ). All (λ i. (suc g ∣ i.1) × (i.1 / suc g ≤ k)) us in
      let whole : suc g * suc n ≡ b.max_weight = ap (λ k. suc g * k) (sym q) ∙ known.1 in
      Shares-levels b t w ts n g f e d (omega arith) (subst share q known.2) known.3

  Shares-any : (b : Balancer) → IsFresh b → (ts : List (ℕ × ℕ)) → b.targets ≡ ts → Shares b
  Shares-any b f [] e =
      let few : length b.targets ≡ 0 = ap length e in absurd (omega (arith, f.loaded.many))
  Shares-any b f ((t, w) ∷ ts) e = Shares-cons b t w ts _ b.gcd_weight f e refl refl

  -- A whole round of calls, from a balancer that is ready for one: every call ends with a target,
  -- each target is chosen as often as its weight holds the greatest common divisor of the weights,
  -- and the balancer is ready for the next round.
  pub get-shares :
      (b : Balancer)
      → IsFresh b
      → let c = spot b b.current_index b.gcd_weight in
        ((picks : List ℕ) × Draws picks b c
          × ((x : ℕ) → b.gcd_weight * tally x picks ≡ weight_of x b.targets))
        × IsFresh c
  get-shares b f = (
    Shares-any b f b.targets refl,
    record {
      loaded = record {
        many = f.loaded.many;
        positive = f.loaded.positive;
        total = f.loaded.total;
        place = f.loaded.place;
        max = f.loaded.max;
        divisor = f.loaded.divisor;
      };
      index = f.index;
      low = omega arith;
    },
  )
