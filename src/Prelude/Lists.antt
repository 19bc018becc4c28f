-- ===== src/Prelude/Lists.antt =====
-- Lists measured by the native numbers, and the predicate that holds of each item.
use Prim.Native.Nat.{ℕ, zero, suc, ◌+◌}
use mathlib.Core.Path.{◌≡◌, ap}
use mathlib.Core.Logic.{◌≢◌}
use mathlib.Core.Option.{Option, none, some}
use mathlib.Core.List.{List, [], ◌∷◌, ◌++◌, map}
use native.Mathlib.Omega.{arith}

module _ {ℓ} {A : Type ℓ} where
  abbrev pub length : List A → ℕ
  length [] = 0
  length (x ∷ xs) = suc (length xs)

  -- `array.shift()` for its effect on the array.
  abbrev pub tail : List A → List A
  tail [] = []
  tail (x ∷ xs) = xs

  pub length-append : (xs ys : List A) → length (xs ++ ys) ≡ length xs + length ys
  length-append [] ys = omega arith
  length-append (x ∷ xs) ys = omega (arith, length-append xs ys)

module _ {ℓ} {A : Type ℓ} where
  abbrev pub beside : A → Option (A × List A) → Option (A × List A)
  beside x none = none
  beside x (some (a, rest)) = some (a, x ∷ rest)

  -- The item of that number, and the others.
  abbrev pub pick : ℕ → List A → Option (A × List A)
  pick n [] = none
  pick zero (x ∷ xs) = some (x, xs)
  pick (suc n) (x ∷ xs) = beside x (pick n xs)

module _ {ℓ κ} {A : Type ℓ} (P : A → Type κ) where
  abbrev pub All : List A → Type κ
  All [] = Unit
  All (x ∷ xs) = P x × All xs

  pub All-append : (xs ys : List A) → All xs → All ys → All (xs ++ ys)
  All-append [] ys _ k = k
  All-append (x ∷ xs) ys (p, h) k = (p, All-append xs ys h k)

-- The item that was picked, and the others.
module _ {ℓ κ} {A : Type ℓ} (P : A → Type κ) where
  abbrev pub Picked : Option (A × List A) → Type κ
  Picked none = Unit
  Picked (some (a, rest)) = P a × All P rest

  Picked-beside : (x : A) (o : Option (A × List A)) → P x → Picked o → Picked (beside x o)
  Picked-beside x none p h = tt
  Picked-beside x (some (a, rest)) p h = (h.0, (p, h.1))

  pub Picked-pick : (n : ℕ) (xs : List A) → All P xs → Picked (pick n xs)
  Picked-pick n [] h = tt
  Picked-pick zero (x ∷ xs) h = h
  Picked-pick (suc n) (x ∷ xs) h = Picked-beside x (pick n xs) h.0 (Picked-pick n xs h.1)

pub All-imp {ℓ κ μ} :
    {A : Type ℓ} {P : A → Type κ} {Q : A → Type μ}
    → ((a : A) → P a → Q a)
    → (xs : List A) → All P xs
    → All Q xs
All-imp f [] h = tt
All-imp f (x ∷ xs) h = (f x h.0, All-imp f xs h.1)

pub All-map {ℓ κ μ} :
    {A : Type ℓ} {B : Type κ} (P : B → Type μ) (f : A → B) (xs : List A)
    → All (λ x. P (f x)) xs
    → All P (map f xs)
All-map P f [] h = tt
All-map P f (x ∷ xs) h = (h.0, All-map P f xs h.1)

module _ {ℓ κ μ} {A : Type ℓ} (P : A → Type κ) (Q : A → Type μ) where
  pub All-both : (xs : List A) → All P xs → All Q xs → All (λ a. P a × Q a) xs
  All-both [] h k = tt
  All-both (x ∷ xs) h k = ((h.0, k.0), All-both xs h.1 k.1)

-- No item stands twice in the list.
abbrev pub AllDifferent {ℓ} : {A : Type ℓ} → List A → Type ℓ
AllDifferent [] = Unit
AllDifferent (x ∷ xs) = All (λ y. x ≢ y) xs × AllDifferent xs

-- What a function tells apart is different.
module _ {ℓ κ} {A : Type ℓ} {B : Type κ} (f : A → B) where
  All-ne_of_map : (x : A) (xs : List A) → All (λ b. f x ≢ b) (map f xs) → All (λ y. x ≢ y) xs
  All-ne_of_map x [] h = tt
  All-ne_of_map x (y ∷ xs) h = (λ e. h.0 (ap f e), All-ne_of_map x xs h.1)

  pub AllDifferent-of_map : (xs : List A) → AllDifferent (map f xs) → AllDifferent xs
  AllDifferent-of_map [] h = tt
  AllDifferent-of_map (x ∷ xs) h = (All-ne_of_map x xs h.0, AllDifferent-of_map xs h.1)

module _ {ℓ} {A : Type ℓ} where
  pub AllDifferent-snoc :
      (xs : List A) (y : A) → AllDifferent xs → All (λ x. x ≢ y) xs → AllDifferent (xs ++ (y ∷ []))
  AllDifferent-snoc [] y d h = (tt, tt)
  AllDifferent-snoc (x ∷ xs) y d h =
      (All-append (λ z. x ≢ z) xs (y ∷ []) d.0 (h.0, tt), AllDifferent-snoc xs y d.1 h.1)

  pub All-parts : (P : A → Type ℓ) (xs ys : List A) → All P (xs ++ ys) → All P xs × All P ys
  All-parts P [] ys h = (tt, h)
  All-parts P (x ∷ xs) ys h = let rest = All-parts P xs ys h.1 in ((h.0, rest.0), rest.1)

  pub AllDifferent-before :
      (xs : List A) (y : A) (ys : List A) → AllDifferent (xs ++ (y ∷ ys)) → All (λ x. x ≢ y) xs
  AllDifferent-before [] y ys d = tt
  AllDifferent-before (x ∷ xs) y ys d =
      ((All-parts (λ z. x ≢ z) xs (y ∷ ys) d.0).1.0, AllDifferent-before xs y ys d.1)

  pub AllDifferent-parts :
      (xs ys : List A) → AllDifferent (xs ++ ys) → AllDifferent xs × AllDifferent ys
  AllDifferent-parts [] ys d = (tt, d)
  AllDifferent-parts (x ∷ xs) ys d =
      let rest = AllDifferent-parts xs ys d.1 in
      (((All-parts (λ z. x ≢ z) xs ys d.0).0, rest.0), rest.1)
