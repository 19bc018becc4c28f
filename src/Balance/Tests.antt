-- ===== src/Balance/Tests.antt =====
-- The load balancers at concrete inputs, with Euclid's algorithm for `BigInteger.gcd`.
use mq_kafka.Prelude.{
  ℕ, zero, suc, ◌+◌, ◌-◌, ◌*◌, ◌∣◌, ◌≡◌, refl, subst, inl, inr, false, Bool-cases, none, some, List,
  leb, if◌then◌else◌, arith, dvd-add, dvd-zero, dvd_refl, one-dvd,
}
use mq_kafka.Balance.{
  Balancer, Gcd, new_balancer, add_target, remove_target, get, get_loop, pass, max_weight_of,
  target_gcd, gcd_from, reload_weight_params,
}
use mq_kafka.Balance.Shares.{spot, Draws}
use mq_kafka.Balance.Rounds.{tally, weight_of}
use mq_kafka.Balance.Fairness.{IsLoaded, IsFresh, get-shares}
use mq_kafka.Balance.Built.{new, adds, Built-get}
use mq_kafka.Balance.Stuck.{remove_target-get}
use mq_kafka.Balance.Hash.{Server}

euclid : ℕ → ℕ → ℕ → ℕ
euclid fuel zero n = n
euclid fuel (suc m) zero = suc m
euclid zero (suc m) (suc n) = 1
euclid (suc fuel) (suc m) (suc n) =
    let left = euclid fuel (suc m) (n - m) in
    let right = euclid fuel (m - n) (suc n) in if leb m n then left else right

euclid-divides : (fuel m n : ℕ) → (euclid fuel m n ∣ m) × (euclid fuel m n ∣ n)
unfolding euclid
euclid-divides fuel zero n = (dvd-zero n, dvd_refl n)
euclid-divides fuel (suc m) zero = (dvd_refl (suc m), dvd-zero (suc m))
euclid-divides zero (suc m) (suc n) = (one-dvd (suc m), one-dvd (suc n))
euclid-divides (suc fuel) (suc m) (suc n) = elim (Bool-cases (leb m n)) [
  | inl small ↦
      let ih = euclid-divides fuel (suc m) (n - m) in
      let e : suc m + (n - m) ≡ suc n = ground arith in
      rw small (
        ih.0,
        subst (λ k. euclid fuel (suc m) (n - m) ∣ k) e
            (dvd-add (euclid fuel (suc m) (n - m)) ih.0 ih.1),
      )
  | inr big ↦
      let ih = euclid-divides fuel (m - n) (suc n) in
      let e : (m - n) + suc n ≡ suc m = ground arith in
      rw big (
        subst (λ k. euclid fuel (m - n) (suc n) ∣ k) e
            (dvd-add (euclid fuel (m - n) (suc n)) ih.0 ih.1),
        ih.1,
      )
]

math : Gcd
unfolding euclid
math = record {
  gcd = λ m n. euclid (m + n) m n;
  gcd_left = λ m n. (euclid-divides (m + n) m n).0;
  gcd_right = λ m n. (euclid-divides (m + n) m n).1;
  gcd_zero = refl;
}

-- Three targets with the weights 4, 6 and 2.
abbrev three : Balancer
three = add_target math 3 2 (add_target math 2 6 (add_target math 1 4 new_balancer))

three-IsLoaded : IsLoaded math three
unfolding add_target reload_weight_params
three-IsLoaded = record {
  many = omega arith;
  positive = (omega arith, (omega arith, (omega arith, tt)));
  total = refl;
  place = omega arith;
  max = refl;
  divisor = refl;
}

three-gcd : three.gcd_weight ≡ 2
unfolding add_target reload_weight_params target_gcd gcd_from math euclid
three-gcd = refl

three-IsFresh : IsFresh math three
unfolding add_target reload_weight_params
three-IsFresh = record { loaded = three-IsLoaded; index = refl; low = omega arith }

get-shares_example :
    ((picks : List ℕ) × Draws picks three (spot three three.current_index three.gcd_weight)
      × ((x : ℕ) → three.gcd_weight * tally x picks ≡ weight_of x three.targets))
    × IsFresh math (spot three three.current_index three.gcd_weight)
get-shares_example = get-shares math three three-IsFresh

Built-get_example :
    (t : ℕ) × (c : Balancer) × (get ((three.current_weight + 2) * three.total_target) three
      ≡ some (some t, c))
unfolding add_target reload_weight_params
Built-get_example =
    Built-get math three
      (adds 3 2 (omega arith) (adds 2 6 (omega arith) (adds 1 4 (omega arith) new))) (omega arith)

three-get : get 6 three ≡ some (some 2, record three { current_index = 1; current_weight = 6 })
unfolding get add_target reload_weight_params max_weight_of target_gcd gcd_from math euclid pass
    get_loop
three-get = refl

-- The targets 1 and 2 have no weight, and the target 3 was chosen at the weight 5.
abbrev chosen_5 : Balancer
chosen_5 = record (add_target math 3 5 (add_target math 2 0 (add_target math 1 0 new_balancer))) {
  current_weight = 5;
}

remove_target-get_example : get 1000 (remove_target math 3 chosen_5) ≡ none
unfolding remove_target add_target reload_weight_params
remove_target-get_example =
    remove_target-get math 3 chosen_5 (omega arith) (omega arith) (refl, (refl, tt)) 1000

-- The server of the hash is down, and the other one is not chosen.
abbrev down : Server
down = record { id = 1; is_healthy = false }
