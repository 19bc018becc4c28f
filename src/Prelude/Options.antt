-- ===== src/Prelude/Options.antt =====
-- Chains of optional values, for `do`.
use mathlib.Core.Path.{◌≡◌, refl}
use mathlib.Core.Logic.{◌≢◌}
use mathlib.Core.Option.{Option, none, some}

infixl 5 ◌>>=◌
abbrev pub ◌>>=◌ {ℓ κ} : {A : Type ℓ} {B : Type κ} → Option A → (A → Option B) → Option B
none >>= f = none
(some a) >>= f = f a

-- A chain that gives a value: each of its two links does.
pub some->>= {ℓ κ} :
    {A : Type ℓ} {B : Type κ} (o : Option A) (f : A → Option B) (b : B)
    → (o >>= f) ≡ some b
    → (a : A) × (o ≡ some a) × (f a ≡ some b)
some->>= none f b e = absurd (cc e)
some->>= (some a) f b e = (a, refl, e)

-- Three values and what is made of them.
module _ {ℓ κ μ ν} {A : Type ℓ} {B : Type κ} {C : Type μ} {D : Type ν} where
  pub some_of_three :
      (o : Option A) (p : Option B) (q : B → Option C) (f : A → B → C → D) (d : D)
      → (o >>= λ x. p >>= λ y. q y >>= λ z. some (f x y z)) ≡ some d
      → (x : A) × (y : B) × (z : C) × (o ≡ some x) × (p ≡ some y) × (q y ≡ some z) × (f x y z ≡ d)
  some_of_three none p q f d e = absurd (cc e)
  some_of_three (some x) none q f d e = absurd (cc e)
  some_of_three (some x) (some y) q f d e =
      let (z, made, same) = some->>= (q y) (λ z. some (f x y z)) d e in
      (x, y, z, refl, refl, made, cc same)

pub Option-cases_of_ne_none {ℓ} : {A : Type ℓ} (o : Option A) → o ≢ none → (a : A) × (o ≡ some a)
Option-cases_of_ne_none none n = absurd (n refl)
Option-cases_of_ne_none (some a) n = (a, refl)

module _ {ℓ κ μ ν} {A : Type ℓ} {B : Type κ} {C : Type μ} {D : Type ν} where
  pub three_some :
      {o : Option A} {p : Option B} (q : B → Option C) (f : A → B → C → D) {x : A} {y : B} {z : C}
      → o ≡ some x
      → p ≡ some y
      → q y ≡ some z
      → (o >>= λ x. p >>= λ y. q y >>= λ z. some (f x y z)) ≡ some (f x y z)
  three_some q f e k m = rw (e, k, m)
