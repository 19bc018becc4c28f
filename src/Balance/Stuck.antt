-- ===== src/Balance/Stuck.antt =====
-- WeightLoadBalancer.java: a call of `get` that never ends.
use mq_kafka.Prelude.{
  ℕ, zero, suc, ◌+◌, ◌%◌, ◌<◌, ◌≡◌, refl, ◌∙◌, inl, inr, false, Bool-cases, none, List, [], ◌∷◌,
  length, ◌==◌, leb, arith, All,
}
use mq_kafka.Balance.{
  Balancer, Gcd, again, look, get_elem?, get_loop, get, pass, lower, target_gcd, gcd_from,
  remove_target, reload_weight_params,
}
use mq_kafka.Balance.Shares.{get-many}

-- All weights are 0 and so is their divisor, but the weight of the round is not.
record IsStuck (b : Balancer) : Type 0 where
  no_weight : All (λ e. e.1 ≡ 0) b.targets
  total : b.total_target ≡ length b.targets
  place : b.current_index < b.total_target
  divisor : b.gcd_weight ≡ 0
  left : 0 < b.current_weight

look-none :
    (n : ℕ) (ts : List (ℕ × ℕ)) (b : Balancer)
    → All (λ e. e.1 ≡ 0) ts
    → n < length ts
    → 0 < b.current_weight
    → look (get_elem? n ts) b ≡ (again, b)
look-none n [] b a l p = absurd (omega arith)
look-none zero ((t, w) ∷ ts) b a l p =
    let low : leb b.current_weight w ≡ false = ground (arith, a.0) in rw low refl
look-none (suc n) ((t, w) ∷ ts) b a l p = look-none n ts b a.1 (omega arith) p

pass-IsStuck : (b : Balancer) → IsStuck b → (c : Balancer) × (pass b ≡ (again, c)) × IsStuck c
unfolding pass
pass-IsStuck b s =
    let i = (b.current_index + 1) % b.total_target in
    let moved = record b { current_index = i } in
    let lo : lower b ≡ b.current_weight = ground (arith, s.left, s.divisor) in
    let inside : i < b.total_target = ground (arith, s.place) in
    let on = look-none i b.targets moved s.no_weight (omega (arith, s.total)) s.left in
    (
      moved,
      elim (Bool-cases (i == 0)) [
        | inl wraps ↦
            let some_left : (b.current_weight == 0) ≡ false = ground (arith, s.left) in
            rw (wraps, lo, some_left) on
        | inr inner ↦ rw inner on
      ],
      record {
        no_weight = s.no_weight;
        total = s.total;
        place = inside;
        divisor = s.divisor;
        left = s.left;
      },
    )

get_loop-IsStuck : (fuel : ℕ) (b : Balancer) → IsStuck b → get_loop fuel b ≡ none
unfolding get_loop
get_loop-IsStuck zero b s = refl
get_loop-IsStuck (suc fuel) b s =
    let next = pass-IsStuck b s in rw next.1 (get_loop-IsStuck fuel next.0 next.2)

gcd_from-zero : (math : Gcd) (ts : List (ℕ × ℕ)) → All (λ e. e.1 ≡ 0) ts → gcd_from math 0 0 ts ≡ 0
unfolding gcd_from
gcd_from-zero math [] a = refl
gcd_from-zero math ((t, w) ∷ ts) a = rw (a.0, math.gcd_zero) (gcd_from-zero math ts a.1)

target_gcd-zero : (math : Gcd) (ts : List (ℕ × ℕ)) → All (λ e. e.1 ≡ 0) ts → target_gcd math ts ≡ 0
unfolding target_gcd
target_gcd-zero math [] a = refl
target_gcd-zero math ((t, w) ∷ ts) a = rw a.0 (gcd_from-zero math ts a.1)

-- If the targets that a removal leaves are more than one and all have the weight 0, and the last
-- choice was made at a weight above 0, then the next call of `get` never ends: it keeps that
-- weight.
pub remove_target-get :
    (math : Gcd) (x : ℕ) (b : Balancer)
    → 0 < b.current_weight
    → 1 < length (remove_target math x b).targets
    → All (λ e. e.1 ≡ 0) (remove_target math x b).targets
    → (fuel : ℕ) → get fuel (remove_target math x b) ≡ none
unfolding remove_target reload_weight_params
remove_target-get math x b p m a fuel =
    let after = remove_target math x b in
    get-many fuel after m
    ∙ get_loop-IsStuck fuel after (record {
      no_weight = a;
      total = refl;
      place = omega (arith, m);
      divisor = target_gcd-zero math after.targets a;
      left = p;
    })
