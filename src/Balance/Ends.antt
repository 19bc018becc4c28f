-- ===== src/Balance/Ends.antt =====
-- WeightLoadBalancer.java: when a call of `get` ends.
use mq_kafka.Prelude.{
  ℕ, zero, suc, ◌+◌, ◌-◌, ◌*◌, ◌<◌, ◌≤◌, ◌≡◌, ◌⊎◌, refl, sym, subst, ap, ◌∙◌, inl, inr, Bool,
  Bool-cases, some, List, [], ◌∷◌, length, leb, if◌then◌else◌, arith, All,
}
use mq_kafka.Balance.{
  Balancer, Gcd, PassResult, found, again, get_elem?, get_loop, get, pass, lower, max_weight_of,
}
use mq_kafka.Balance.Shares.{
  spot, From, From-suc, pass-From, Holds, Holds-From, pass-first, get-many,
}
use mq_kafka.Balance.Fairness.{max_from-attains, facts, IsLoaded}

-- The loop ends with a target.
abbrev pub Ends : ℕ → Balancer → Type 0
Ends fuel b = (t : ℕ) × (c : Balancer) × (get_loop fuel b ≡ some (some t, c))

-- Or it comes to another place, behind targets whose weights are too low.
abbrev Passes : ℕ → ℕ → Balancer → Balancer → ℕ → List (ℕ × ℕ) → Type 0
Passes fuel left b b' c ts =
    Ends fuel b ⊎ ((get_loop fuel b ≡ get_loop left b') × All (λ e. e.1 < c) ts)

Ends-found : (fuel : ℕ) (b c : Balancer) (t : ℕ) → pass b ≡ (found (some t), c) → Ends (suc fuel) b
unfolding get_loop
Ends-found fuel b c t e = (t, c, rw e refl)

get_loop-again :
    (fuel : ℕ) (b c : Balancer) → pass b ≡ (again, c) → get_loop (suc fuel) b ≡ get_loop fuel c
unfolding get_loop
get_loop-again fuel b c e = rw e refl

Ends-again : (fuel : ℕ) (b c : Balancer) → pass b ≡ (again, c) → Ends fuel c → Ends (suc fuel) b
Ends-again fuel b c e (t, d, h) = (t, d, get_loop-again fuel b c e ∙ h)

module _ (b : Balancer) (many : 1 < length b.targets) where
  -- One pass in front of others.
  Passes-more :
      (fuel left t w c : ℕ) (x y z : Balancer) (ts : List (ℕ × ℕ))
      → pass x ≡ (if leb c w then found (some t) else again, y)
      → Passes fuel left y z c ts
      → Passes (suc fuel) left x z c ((t, w) ∷ ts)
  Passes-more fuel left t w c x y z ts e p =
      let here : Bool → PassResult × Balancer = λ q. (if q then found (some t) else again, y) in
      elim (Bool-cases (leb c w)) [
        | inl high ↦ inl (Ends-found fuel x y t (e ∙ ap here high))
        | inr low ↦
            let on = e ∙ ap here low in
            elim p [
              | inl ends ↦ inl (Ends-again fuel x y on ends)
              | inr (same, all) ↦ inr (get_loop-again fuel x y on ∙ same, (ground arith, all))
            ]
      ]

  Passes-walk :
      (left c i j : ℕ) (ts : List (ℕ × ℕ))
      → From b many c (suc i) ts
      → j ≡ i + length ts
      → Passes (length ts + left) left (spot b i c) (spot b j c) c ts
  Passes-walk left c i j [] f e =
      let n : 0 + left ≡ left = omega arith in
      let here : i ≡ j = omega arith in inr (rw (n, here) refl, tt)
  Passes-walk left c i j ((t, w) ∷ ts) f e =
      let n : suc (length ts) + left ≡ suc (length ts + left) = omega arith in
      rw n (
        Passes-more (length ts + left) left t w c (spot b i c) (spot b (suc i) c) (spot b j c) ts
          (pass-From b many c i t w ts f)
          (Passes-walk left c (suc i) j ts (From-suc b many c (suc i) (t, w) ts f) (omega arith)))

  Passes-level :
      (left c c' t w : ℕ) (ts : List (ℕ × ℕ))
      → Holds b many t w ts
      → lower (spot b (length ts) c) ≡ suc c'
      → Passes
          (suc (length ts) + left)
          left
          (spot b (length ts) c)
          (spot b (length ts) (suc c'))
          (suc c')
          ((t, w) ∷ ts)
  Passes-level left c c' t w ts h lo =
      let n : suc (length ts) + left ≡ suc (length ts + left) = omega arith in
      rw n (
        Passes-more (length ts + left) left t w (suc c') (spot b (length ts) c) (spot b 0 (suc c'))
          (spot b (length ts) (suc c')) ts (pass-first b many t w ts c c' h lo)
          (Passes-walk left (suc c') 0 (length ts) ts (Holds-From b many t w ts h (suc c'))
            (omega arith)))

-- The list behind its first items.
suffix :
    (n : ℕ) (xs : List (ℕ × ℕ))
    → n ≤ length xs
    → (ys : List (ℕ × ℕ)) × ((k : ℕ) → get_elem? (n + k) xs ≡ get_elem? k ys)
      × (length xs ≡ n + length ys)
suffix zero xs l = (xs, λ k. let n : 0 + k ≡ k = omega arith in rw n refl, omega arith)
suffix (suc n) [] l = absurd (omega arith)
suffix (suc n) (x ∷ xs) l =
    let (ys, at, size) = suffix n xs (omega arith) in
    (ys, λ k. let m : suc n + k ≡ suc (n + k) = omega arith in rw m (at k), omega arith)

module _ (b : Balancer) (many : 1 < length b.targets) (t w : ℕ) (ts : List (ℕ × ℕ)) where
  module _ (holds : Holds b many t w ts) (divisor_pos : 0 < b.gcd_weight)
      (max_pos : 0 < b.max_weight)
      (top : All (λ e. e.1 < b.max_weight) ((t, w) ∷ ts) → b.max_weight < b.max_weight) where
    -- Behind the last target of a round at a weight that is not above the divisor.
    Ends-top :
        (left c : ℕ) → c ≤ b.gcd_weight → Ends (suc (length ts) + left) (spot b (length ts) c)
    Ends-top left c l =
        let lo : lower (spot b (length ts) c) ≡ suc (b.max_weight - 1) = ground arith in
        let m : suc (b.max_weight - 1) ≡ b.max_weight = omega arith in
        elim (Passes-level b many left c (b.max_weight - 1) t w ts holds lo) [
          | inl ends ↦ ends
          | inr (same, all) ↦
              let over = top (subst (λ k. All (λ e. e.1 < k) ((t, w) ∷ ts)) m all) in
              absurd (omega arith)
        ]

    Ends-rounds :
        (k left c : ℕ) → c ≤ k → Ends (suc k * suc (length ts) + left) (spot b (length ts) c)
    Ends-rounds zero left c l =
        let n : 1 * suc (length ts) + left ≡ suc (length ts) + left = omega arith in
        rw n (Ends-top left c (omega arith))
    Ends-rounds (suc k) left c l =
        let rest = suc k * suc (length ts) + left in
        let n : suc (suc k) * suc (length ts) + left ≡ suc (length ts) + rest = omega arith in
        elim (Bool-cases (leb c b.gcd_weight)) [
          | inl low ↦ rw n (Ends-top rest c (ground arith))
          | inr high ↦
              let c' = c - b.gcd_weight - 1 in
              let lo : lower (spot b (length ts) c) ≡ suc c' = ground arith in
              let ih = Ends-rounds k left (suc c') (ground arith) in
              rw n (elim (Passes-level b many rest c c' t w ts holds lo) [
                | inl ends ↦ ends
                | inr (same, all) ↦ (ih.0, ih.1, same ∙ ih.2)
              ])
        ]

fuel-split :
    (c n k total : ℕ)
    → total ≡ suc n
    → k ≤ total
    → (c + 2) * total ≡ k + (suc c * suc n + (total - k))
fuel-split c n k total e l =
    let one : (c + 2) * suc n ≡ suc c * suc n + suc n = omega arith in rw e (omega (arith, one, l))

Ends-anywhere :
    (math : Gcd) (b : Balancer) (t w : ℕ) (ts : List (ℕ × ℕ))
    → IsLoaded math b
    → b.targets ≡ (t, w) ∷ ts
    → Ends ((b.current_weight + 2) * b.total_target) b
unfolding max_weight_of
Ends-anywhere math b t w ts f e =
    let many = f.many in
    let known = facts math b t w ts b.gcd_weight f e refl in
    let size : b.total_target ≡ suc (length ts) = f.total ∙ ap length e in
    let (ys, at, long) = suffix (suc b.current_index) b.targets (omega (arith, f.place, f.total)) in
    let from : From b many b.current_weight (suc b.current_index) ys =
      (at, omega (arith, f.total, long)) in
    let left = suc b.current_weight * suc (length ts) + (b.total_target - length ys) in
    let fuel : (b.current_weight + 2) * b.total_target ≡ length ys + left =
      fuel-split b.current_weight (length ts) (length ys) b.total_target size
        (omega (arith, f.total, long)) in
    let top : All (λ i. i.1 < b.max_weight) ((t, w) ∷ ts) → b.max_weight < b.max_weight = λ all.
      subst (λ m. m < b.max_weight) (sym (f.max ∙ ap max_weight_of e))
        (max_from-attains (λ m. m < b.max_weight) w ts all.0 all.1) in
    let end =
      Ends-rounds b many t w ts (e, size) known.4 known.0 top b.current_weight
        (b.total_target - length ys) b.current_weight (omega arith) in
    let j : length ts ≡ b.current_index + length ys = omega (arith, long, f.total) in
    rw fuel (elim (Passes-walk b many left b.current_weight b.current_index (length ts) ys from j) [
      | inl ends ↦ ends
      | inr (same, all) ↦ (end.0, end.1, same ∙ end.2)
    ])

ends-any :
    (math : Gcd) (b : Balancer)
    → IsLoaded math b
    → (us : List (ℕ × ℕ)) → b.targets ≡ us
    → Ends ((b.current_weight + 2) * b.total_target) b
ends-any math b f [] e =
    let few : length b.targets ≡ 0 = ap length e in absurd (omega (arith, f.many))
ends-any math b f ((t, w) ∷ ts) e = Ends-anywhere math b t w ts f e

-- With more than one target, all of a weight above 0, a call returns a target within as many passes
-- as the present weight, plus 2, times the number of targets, from whichever place of a round and
-- whatever weight an earlier list of targets has left.
pub get_total :
    (math : Gcd) (b : Balancer)
    → IsLoaded math b
    → (t : ℕ) × (c : Balancer) × (get ((b.current_weight + 2) * b.total_target) b
        ≡ some (some t, c))
get_total math b f =
    let fuel = (b.current_weight + 2) * b.total_target in
    let end = ends-any math b f b.targets refl in (end.0, end.1, get-many fuel b f.many ∙ end.2)
