-- ===== src/Balance.antt =====
-- The load balancers: mq-framework/src/main/java/divisor/mq/balance/WeightLoadBalancer.java with
-- AbstractLoadBalancer.java, HashLoadBalancer.java of the same package, and the rule of the
-- client's side, mq-web-integration/src/main/java/divisor/mq/web/feign/rule/KeyHashRobinRule.java.
-- A target is given by its number. `BigInteger.gcd` is the parameter `gcd`, and no weight is
-- negative.
pub mod Shares
pub mod Rounds
pub mod Fairness
pub mod Ends
pub mod Built
pub mod Stuck
pub mod Hash
mod Tests
use mq_kafka.Prelude.{
  ℕ, zero, suc, ◌+◌, ◌-◌, ◌%◌, ◌∣◌, ◌≡◌, Bool, true, false, not, ◌&&◌, Option, none, some, List, [],
  ◌∷◌, ◌++◌, length, ◌==◌, leb, ltb, if◌then◌else◌,
}

pub record Gcd : Type 0 where
  pub gcd : ℕ → ℕ → ℕ
  pub gcd_left : (m n : ℕ) → gcd m n ∣ m
  pub gcd_right : (m n : ℕ) → gcd m n ∣ n
  pub gcd_zero : gcd 0 0 ≡ 0

abbrev pub get_elem? {ℓ} : {A : Type ℓ} → ℕ → List A → Option A
get_elem? n [] = none
get_elem? zero (x ∷ xs) = some x
get_elem? (suc n) (x ∷ xs) = get_elem? n xs

-- The fields of the round robin by weights. A target stands with its weight.
pub record Balancer : Type 0 where
  pub targets : List (ℕ × ℕ)
  pub current_index : ℕ
  pub total_target : ℕ
  pub current_weight : ℕ
  pub max_weight : ℕ
  pub gcd_weight : ℕ

abbrev pub new_balancer : Balancer
new_balancer = record {
  targets = [];
  current_index = 0;
  total_target = 0;
  current_weight = 0;
  max_weight = 0;
  gcd_weight = 0;
}

-- The loop of `maxWeight`.
abbrev pub max_from : ℕ → List (ℕ × ℕ) → ℕ
max_from m [] = m
max_from m ((t, w) ∷ ts) = max_from (if ltb m w then w else m) ts

pub max_weight_of : List (ℕ × ℕ) → ℕ
max_weight_of [] = 0
max_weight_of ((t, w) ∷ ts) = max_from w ts

-- What a pass of the loop of `get` comes to: the method's value, or another pass.
pub data PassResult : Type 0 where
  found : Option ℕ → PassResult
  again : PassResult

abbrev pub look : Option (ℕ × ℕ) → Balancer → PassResult × Balancer
look none b = (found none, b)
look (some (t, w)) b = (if leb b.current_weight w then found (some t) else again, b)

-- The weight behind a wrap, where the code resets it if the difference is not above 0.
abbrev pub lower : Balancer → ℕ
lower b =
    if leb b.current_weight b.gcd_weight then b.max_weight else b.current_weight - b.gcd_weight

-- One pass of the loop of `get`. An index is never out of range.
pub pass : Balancer → PassResult × Balancer
pass b =
    let i = (b.current_index + 1) % b.total_target in
    let moved = record b { current_index = i } in
    let lowered = record moved { current_weight = lower b } in
    if i == 0
    then if lower b == 0 then (found none, lowered) else look (get_elem? i b.targets) lowered
    else look (get_elem? i b.targets) moved

abbrev pub unless_again {ℓ} : {A : Type ℓ} → PassResult → A → (Option ℕ → A) → A
unless_again (found o) a f = f o
unless_again again a f = a

-- The loop; `none` means that the fuel ran out.
pub get_loop : ℕ → Balancer → Option (Option ℕ × Balancer)
get_loop zero b = none
get_loop (suc fuel) b =
    let (outcome, next) = pass b in
    let rest = get_loop fuel next in unless_again outcome rest (λ o. some (o, next))

abbrev pub unless_few :
    List (ℕ × ℕ) → Balancer → Option (Option ℕ × Balancer) → Option (Option ℕ × Balancer)
unless_few [] b r = some (none, b)
unless_few ((t, w) ∷ []) b r = some (some t, b)
unless_few (t ∷ u ∷ ts) b r = r

pub get : ℕ → Balancer → Option (Option ℕ × Balancer)
unfolding get_loop
get fuel b = unless_few b.targets b (get_loop fuel b)

-- `super.removeTarget`: every entry of the target goes.
abbrev remove_all : ℕ → List (ℕ × ℕ) → List (ℕ × ℕ)
remove_all x [] = []
remove_all x ((t, w) ∷ ts) = let rest = remove_all x ts in if t == x then rest else (t, w) ∷ rest

module _ (math : Gcd) where
  open math use {gcd}

  -- The loop of `targetGcd`, behind an item of that weight.
  pub gcd_from : ℕ → ℕ → List (ℕ × ℕ) → ℕ
  gcd_from divisor last [] = divisor
  gcd_from divisor last ((t, w) ∷ ts) =
      gcd_from (gcd (if divisor == 0 then last else divisor) w) w ts

  pub target_gcd : List (ℕ × ℕ) → ℕ
  unfolding gcd_from
  target_gcd [] = 0
  target_gcd ((t, w) ∷ ts) = gcd_from 0 w ts

  -- The index of an empty balancer, -1 in the code, is never read.
  pub reload_weight_params : Balancer → Balancer
  unfolding target_gcd max_weight_of
  reload_weight_params b = record b {
    total_target = length b.targets;
    current_index = length b.targets - 1;
    max_weight = max_weight_of b.targets;
    gcd_weight = target_gcd b.targets;
  }

  pub add_target : ℕ → ℕ → Balancer → Balancer
  unfolding reload_weight_params
  add_target t w b = reload_weight_params (record b { targets = b.targets ++ (t, w) ∷ [] })

  pub remove_target : ℕ → Balancer → Balancer
  unfolding reload_weight_params
  remove_target t b = reload_weight_params (record b { targets = remove_all t b.targets })
