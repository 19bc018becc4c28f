-- ===== src/Balance/Built.antt =====
-- WeightLoadBalancer.java: the balancers that its operations make.
use mq_kafka.Prelude.{
  ℕ, zero, suc, ◌+◌, ◌*◌, ◌%◌, ◌<◌, ◌≡◌, refl, subst, inl, inr, Bool, true, false, Bool-cases,
  Option, none, some, List, [], ◌∷◌, ◌++◌, length, ◌==◌, if◌then◌else◌, arith, All, All-append,
}
use mq_kafka.Balance.{
  Balancer, Gcd, PassResult, found, again, look, get_elem?, new_balancer, get, get_loop, pass,
  lower, unless_few, unless_again, max_weight_of, target_gcd, remove_all, add_target, remove_target,
  reload_weight_params,
}
use mq_kafka.Balance.Ends.{get_total}

-- The balancers that are made by operations from a new one, with weights above 0.
pub data Built (math : Gcd) : Balancer → Type 0 where
  new : Built math new_balancer
  adds : {b : Balancer} (t w : ℕ) → 0 < w → Built math b → Built math (add_target math t w b)
  removes : {b : Balancer} (t : ℕ) → Built math b → Built math (remove_target math t b)
  gets :
      {b c : Balancer} (fuel : ℕ) (o : Option ℕ)
      → get fuel b ≡ some (o, c)
      → Built math b
      → Built math c

All-remove_all :
    (x : ℕ) (ts : List (ℕ × ℕ)) → All (λ e. 0 < e.1) ts → All (λ e. 0 < e.1) (remove_all x ts)
All-remove_all x [] h = tt
All-remove_all x ((t, w) ∷ ts) h = elim (Bool-cases (t == x)) [
  | inl same ↦ rw same (All-remove_all x ts h.1)
  | inr other ↦ rw other (h.0, All-remove_all x ts h.1)
]

module _ (math : Gcd) where
  -- The parameters are those of the targets, whose weights are above 0.
  record IsKept (b : Balancer) : Type 0 where
    positive : All (λ e. 0 < e.1) b.targets
    total : b.total_target ≡ length b.targets
    place : 0 < b.total_target → b.current_index < b.total_target
    max : b.max_weight ≡ max_weight_of b.targets
    divisor : b.gcd_weight ≡ target_gcd math b.targets

  reload_weight_params-IsKept :
      (b : Balancer) → All (λ e. 0 < e.1) b.targets → IsKept (reload_weight_params math b)
  unfolding reload_weight_params
  reload_weight_params-IsKept b h = record {
    positive = h;
    total = refl;
    place = λ l. omega arith;
    max = refl;
    divisor = refl;
  }

  moved-IsKept :
      (b : Balancer) (c : ℕ)
      → IsKept b
      → IsKept
          (record b { current_index = (b.current_index + 1) % b.total_target; current_weight = c })
  moved-IsKept b c k = record {
    positive = k.positive;
    total = k.total;
    place = λ l. ground arith;
    max = k.max;
    divisor = k.divisor;
  }

  look-IsKept : (o : Option (ℕ × ℕ)) (b : Balancer) → IsKept b → IsKept (look o b).1
  look-IsKept none b k = k
  look-IsKept (some (t, w)) b k = k

  branch-IsKept :
      (p q : Bool) (x y z : PassResult × Balancer)
      → IsKept x.1
      → IsKept y.1
      → IsKept z.1
      → IsKept (if p then if q then x else y else z).1
  branch-IsKept true true x y z h k l = h
  branch-IsKept true false x y z h k l = k
  branch-IsKept false q x y z h k l = l

  pass-IsKept : (b : Balancer) → IsKept b → IsKept (pass b).1
  unfolding pass
  pass-IsKept b k =
      let i = (b.current_index + 1) % b.total_target in
      let lowered = moved-IsKept b (lower b) k in
      let moved = moved-IsKept b b.current_weight k in
      let at : ℕ → Balancer = λ c. record b { current_index = i; current_weight = c } in
      branch-IsKept (i == 0) (lower b == 0) (found none, at (lower b))
        (look (get_elem? i b.targets) (at (lower b)))
        (look (get_elem? i b.targets) (at b.current_weight)) lowered
        (look-IsKept (get_elem? i b.targets) (at (lower b)) lowered)
        (look-IsKept (get_elem? i b.targets) (at b.current_weight) moved)

  abbrev KeptResult : Option (Option ℕ × Balancer) → Type 0
  KeptResult none = Unit
  KeptResult (some (o, c)) = IsKept c

  unless_again-Kept :
      (r : PassResult) (c : Balancer) (rest : Option (Option ℕ × Balancer))
      → IsKept c
      → KeptResult rest
      → KeptResult (unless_again r rest (λ o. some (o, c)))
  unless_again-Kept (found o) c rest k h = k
  unless_again-Kept again c rest k h = h

  get_loop-Kept : (fuel : ℕ) (b : Balancer) → IsKept b → KeptResult (get_loop fuel b)
  unfolding get_loop
  get_loop-Kept zero b k = tt
  get_loop-Kept (suc fuel) b k =
      let next = pass-IsKept b k in
      unless_again-Kept (pass b).0 (pass b).1 (get_loop fuel (pass b).1) next
        (get_loop-Kept fuel (pass b).1 next)

  unless_few-Kept :
      (ts : List (ℕ × ℕ)) (b : Balancer) (r : Option (Option ℕ × Balancer))
      → IsKept b
      → KeptResult r
      → KeptResult (unless_few ts b r)
  unless_few-Kept [] b r k h = k
  unless_few-Kept ((t, w) ∷ []) b r k h = k
  unless_few-Kept (t ∷ u ∷ ts) b r k h = h

  get-Kept : (fuel : ℕ) (b : Balancer) → IsKept b → KeptResult (get fuel b)
  unfolding get
  get-Kept fuel b k = unless_few-Kept b.targets b (get_loop fuel b) k (get_loop-Kept fuel b k)

  Built-IsKept : {b : Balancer} → Built math b → IsKept b
  unfolding add_target remove_target max_weight_of target_gcd
  Built-IsKept new = record {
    positive = tt;
    total = refl;
    place = λ l. absurd (omega arith);
    max = refl;
    divisor = refl;
  }
  Built-IsKept (adds {b} t w p h) =
      reload_weight_params-IsKept (record b { targets = b.targets ++ (t, w) ∷ [] })
        (All-append (λ e. 0 < e.1) b.targets ((t, w) ∷ []) (Built-IsKept h).positive (p, tt))
  Built-IsKept (removes {b} t h) =
      reload_weight_params-IsKept (record b { targets = remove_all t b.targets })
        (All-remove_all t b.targets (Built-IsKept h).positive)
  Built-IsKept (gets {b} fuel o e h) = subst KeptResult e (get-Kept fuel b (Built-IsKept h))

-- Whatever targets were added, each of a weight above 0, and removed, and however often a target was
-- chosen in between: as long as there is more than one target, a call of `get` returns a target
-- within as many passes as the present weight, plus 2, times the number of targets.
pub Built-get :
    (math : Gcd) (b : Balancer)
    → Built math b
    → 1 < length b.targets
    → (t : ℕ) × (c : Balancer) × (get ((b.current_weight + 2) * b.total_target) b
        ≡ some (some t, c))
Built-get math b h l =
    let k = Built-IsKept math h in
    get_total math b (record {
      many = l;
      positive = k.positive;
      total = k.total;
      place = k.place (omega (arith, k.total));
      max = k.max;
      divisor = k.divisor;
    })
