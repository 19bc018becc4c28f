-- ===== src/Compensation/Held.antt =====
-- Lists of messages for `onWork` of KakaMQMessageTask.java: those that a predicate holds of, their
-- pages, and what is left when a page goes.
use mq_kafka.Prelude.{
  ℕ, zero, suc, ◌-◌, ◌<◌, ◌≤◌, ◌≡◌, ◌≢◌, refl, sym, ap, ap₂, ◌∙◌, inl, inr, Bool, true, false, ◌||◌,
  Bool-cases, List, [], ◌∷◌, map, length, ◌==◌, if◌then◌else◌, arith, All, All-imp, All-both,
}
use mq_kafka.Compensation.Paging.{take, drop, is_empty}

abbrev pub Distinct : List ℕ → Type 0
Distinct [] = Unit
Distinct (m ∷ ms) = All (λ k. k ≢ m) ms × Distinct ms

abbrev pub member : ℕ → List ℕ → Bool
member k [] = false
member k (m ∷ ms) = m == k || member k ms

pub member-other : (k m : ℕ) (ms : List ℕ) → k ≢ m → member k (m ∷ ms) ≡ member k ms
member-other k m ms n = let e : (m == k) ≡ false = ground (arith, n) in rw e refl

unfoldable pub held : (ℕ → Bool) → List ℕ → List ℕ
held p [] = []
held p (m ∷ ms) = let rest = held p ms in if p m then m ∷ rest else rest

module _ {A : Type 0} where
  pub take-zero : (xs : List A) → take 0 xs ≡ []
  take-zero [] = refl
  take-zero (x ∷ xs) = refl

  pub drop-zero : (xs : List A) → drop 0 xs ≡ xs
  drop-zero [] = refl
  drop-zero (x ∷ xs) = refl

  pub drop-long : (n : ℕ) (xs : List A) → length xs ≤ n → drop n xs ≡ []
  drop-long n [] l = refl
  drop-long zero (x ∷ xs) l = absurd (omega arith)
  drop-long (suc n) (x ∷ xs) l = drop-long n xs (omega arith)

  pub length-drop : (n : ℕ) (xs : List A) → length (drop n xs) ≡ length xs - n
  length-drop n [] = omega arith
  length-drop zero (x ∷ xs) = omega arith
  length-drop (suc n) (x ∷ xs) = omega (arith, length-drop n xs)

  pub length-map : {B : Type 0} (f : A → B) (xs : List A) → length (map f xs) ≡ length xs
  length-map f [] = refl
  length-map f (x ∷ xs) = ap suc (length-map f xs)

  pub is_empty-take : (n : ℕ) (xs : List A) → 0 < length xs → is_empty (take (suc n) xs) ≡ false
  is_empty-take n [] l = absurd (omega arith)
  is_empty-take n (x ∷ xs) l = refl

-- Whether a message is left, if the first `n` of those that are held go.
abbrev pub left : ℕ → (ℕ → Bool) → List ℕ → ℕ → Bool
left n p order k = if member k (take n (held p order)) then false else p k

pub held-same :
    (p q : ℕ → Bool) (order : List ℕ) → All (λ k. q k ≡ p k) order → held q order ≡ held p order
unfolding held
held-same p q [] h = refl
held-same p q (m ∷ ms) h = ap₂ (λ b ids. if b then m ∷ ids else ids) h.0 (held-same p q ms h.1)

pub left-zero : (p : ℕ → Bool) (order : List ℕ) (k : ℕ) → left 0 p order k ≡ p k
left-zero p order k = ap (λ ids. if member k ids then false else p k) (take-zero (held p order))

pub left-other :
    (n : ℕ) (p : ℕ → Bool) (m k : ℕ) (ids : List ℕ)
    → k ≢ m
    → (if member k (m ∷ take n ids) then false else p k)
      ≡ (if member k (take n ids) then false else p k)
left-other n p m k ids d = ap (λ b. if b then false else p k) (member-other k m (take n ids) d)

pub held-true : (p : ℕ → Bool) (m : ℕ) (ms : List ℕ) → p m ≡ true → held p (m ∷ ms) ≡ m ∷ held p ms
unfolding held
held-true p m ms e = rw e refl

pub held-false : (p : ℕ → Bool) (m : ℕ) (ms : List ℕ) → p m ≡ false → held p (m ∷ ms) ≡ held p ms
unfolding held
held-false p m ms e = rw e refl

pub left-first :
    (n : ℕ) (p : ℕ → Bool) (m : ℕ) (ids : List ℕ)
    → (if member m (take (suc n) (m ∷ ids)) then false else p m) ≡ false
left-first n p m ids = let e : (m == m) ≡ true = ground arith in rw e refl

pub left-absent : (b c : Bool) → c ≡ false → (if b then false else c) ≡ false
left-absent true c e = refl
left-absent false c e = e

-- Those that are held behind the first `n` are left.
pub held-left :
    (n : ℕ) (p q : ℕ → Bool) (order : List ℕ)
    → Distinct order
    → All (λ k. q k ≡ left n p order k) order
    → held q order ≡ drop n (held p order)
unfolding held
held-left zero p q order d h =
    held-same p q order (All-imp (λ k e. e ∙ left-zero p order k) order h)
    ∙ sym (drop-zero (held p order))
held-left (suc n) p q [] d h = refl
held-left (suc n) p q (m ∷ ms) d h =
    let kept : (ids : List ℕ) → ℕ → Bool =
      λ ids k. if member k (take (suc n) ids) then false else p k in
    elim (Bool-cases (p m)) [
      | inl there ↦
          let e = held-true p m ms there in
          let gone : q m ≡ false = h.0 ∙ ap (λ ids. kept ids m) e ∙ left-first n p m (held p ms) in
          let both = All-both (λ k. k ≢ m) (λ k. q k ≡ kept (held p (m ∷ ms)) k) ms d.0 h.1 in
          let rest : All (λ k. q k ≡ left n p ms k) ms =
            All-imp (λ k f. f.1 ∙ ap (λ ids. kept ids k) e ∙ left-other n p m k (held p ms) f.0) ms
              both in
          held-false q m ms gone ∙ held-left n p q ms d.1 rest ∙ sym (ap (drop (suc n)) e)
      | inr away ↦
          let e = held-false p m ms away in
          let gone : q m ≡ false =
            h.0 ∙ left-absent (member m (take (suc n) (held p (m ∷ ms)))) (p m) away in
          let rest : All (λ k. q k ≡ left (suc n) p ms k) ms =
            All-imp (λ k f. f ∙ ap (λ ids. kept ids k) e) ms h.1 in
          held-false q m ms gone ∙ held-left (suc n) p q ms d.1 rest ∙ sym (ap (drop (suc n)) e)
    ]

module _ (P : ℕ → Type 0) where
  pub All-held : (p : ℕ → Bool) (order : List ℕ) → All P order → All P (held p order)
  unfolding held
  All-held p [] h = tt
  All-held p (m ∷ ms) h = elim (Bool-cases (p m)) [
    | inl there ↦ rw there (h.0, All-held p ms h.1)
    | inr away ↦ rw away (All-held p ms h.1)
  ]

  pub All-take_ids : (n : ℕ) (ids : List ℕ) → All P ids → All P (take n ids)
  All-take_ids n [] h = tt
  All-take_ids zero (m ∷ ms) h = tt
  All-take_ids (suc n) (m ∷ ms) h = (h.0, All-take_ids n ms h.1)

  pub All-of : ((k : ℕ) → P k) → (ks : List ℕ) → All P ks
  All-of f [] = tt
  All-of f (k ∷ ks) = (f k, All-of f ks)

pub Distinct-held : (p : ℕ → Bool) (order : List ℕ) → Distinct order → Distinct (held p order)
unfolding held
Distinct-held p [] d = tt
Distinct-held p (m ∷ ms) d = elim (Bool-cases (p m)) [
  | inl there ↦ rw there (All-held (λ k. k ≢ m) p ms d.0, Distinct-held p ms d.1)
  | inr away ↦ rw away (Distinct-held p ms d.1)
]

pub Distinct-take : (n : ℕ) (ids : List ℕ) → Distinct ids → Distinct (take n ids)
Distinct-take n [] d = tt
Distinct-take zero (m ∷ ms) d = tt
Distinct-take (suc n) (m ∷ ms) d = (All-take_ids (λ k. k ≢ m) n ms d.0, Distinct-take n ms d.1)
