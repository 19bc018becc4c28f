-- ===== src/Compensation/Coverage.antt =====
-- KakaMQMessageTask.java, `onWork`: the messages in process, and pages of them.
use mq_kafka.Prelude.{
  ℕ, zero, suc, ◌+◌, ◌≡◌, refl, sym, ap, ◌∙◌, inl, inr, true, Bool-cases, Option, none, some, List,
  [], ◌∷◌, ◌++◌, map, ◌==◌, arith, All,
}
use mq_kafka.Compensation.{MsgLog, Store, is_some}
use mq_kafka.Compensation.Paging.{take, drop, row, logs_in_process, set, is_empty}

-- The messages in process, in the order of the database.
unfoldable pub in_process : List ℕ → (ℕ → Store) → List ℕ
in_process order db = map (λ e. e.0) (logs_in_process order db)

-- The same messages are in process.
abbrev pub Same : (ℕ → Store) → (ℕ → Store) → Type 0
Same db db' = (m : ℕ) → is_some (db' m).process ≡ is_some (db m).process

pub row-Same :
    (m : ℕ) (o o' : Option MsgLog) (rows rows' : List (ℕ × MsgLog))
    → is_some o' ≡ is_some o
    → map (λ e. e.0) rows' ≡ map (λ e. e.0) rows
    → map (λ e. e.0) (row m o' rows') ≡ map (λ e. e.0) (row m o rows)
row-Same m none none rows rows' e h = h
row-Same m (some a) none rows rows' e h = cc
row-Same m none (some b) rows rows' e h = cc
row-Same m (some a) (some b) rows rows' e h = ap (λ ms. m ∷ ms) h

pub in_process-Same :
    (order : List ℕ) (db db' : ℕ → Store) → Same db db' → in_process order db' ≡ in_process order db
unfolding in_process logs_in_process
in_process-Same [] db db' s = refl
in_process-Same (m ∷ ms) db db' s =
    row-Same m (db m).process (db' m).process (logs_in_process ms db) (logs_in_process ms db') (s m)
      (in_process-Same ms db db' s)

module _ (P : ℕ × MsgLog → Type 0) where
  pub All-take : (n : ℕ) (xs : List (ℕ × MsgLog)) → All P xs → All P (take n xs)
  All-take n [] h = tt
  All-take zero (x ∷ xs) h = tt
  All-take (suc n) (x ∷ xs) h = (h.0, All-take n xs h.1)

  pub All-drop : (n : ℕ) (xs : List (ℕ × MsgLog)) → All P xs → All P (drop n xs)
  All-drop n [] h = tt
  All-drop zero (x ∷ xs) h = h
  All-drop (suc n) (x ∷ xs) h = All-drop n xs h.1

pub set-Same :
    (m : ℕ) (s : Store) (db : ℕ → Store)
    → is_some (db m).process ≡ true
    → is_some s.process ≡ true
    → Same db (set m s db)
set-Same m s db h e k = elim (Bool-cases (m == k)) [
  | inl same ↦ let e' : m ≡ k = ground arith in rw (same, ← e') (e ∙ sym h)
  | inr other ↦ rw other refl
]

module _ {A : Type 0} where
  pub take-drop : (a n : ℕ) (xs : List A) → take a xs ++ take n (drop a xs) ≡ take (a + n) xs
  take-drop a n [] = refl
  take-drop zero n (x ∷ xs) = let e : 0 + n ≡ n = omega arith in rw e refl
  take-drop (suc a) n (x ∷ xs) =
      let e : suc a + n ≡ suc (a + n) = omega arith in rw e (ap (λ ys. x ∷ ys) (take-drop a n xs))

  pub take-all :
      (a n : ℕ) (xs : List A) → is_empty (take (suc n) (drop a xs)) ≡ true → take a xs ≡ xs
  take-all a n [] e = refl
  take-all zero n (x ∷ xs) e = cc
  take-all (suc a) n (x ∷ xs) e = ap (λ ys. x ∷ ys) (take-all a n xs e)

module _ {A : Type 0} where
  pub take-zero : (xs : List A) → [] ≡ take 0 xs
  take-zero [] = refl
  take-zero (x ∷ xs) = refl

module _ {A B : Type 0} (f : A → B) where
  pub map-take : (n : ℕ) (xs : List A) → map f (take n xs) ≡ take n (map f xs)
  map-take n [] = refl
  map-take zero (x ∷ xs) = refl
  map-take (suc n) (x ∷ xs) = ap (λ ys. f x ∷ ys) (map-take n xs)

  pub map-drop : (n : ℕ) (xs : List A) → map f (drop n xs) ≡ drop n (map f xs)
  map-drop n [] = refl
  map-drop zero (x ∷ xs) = refl
  map-drop (suc n) (x ∷ xs) = map-drop n xs

  pub is_empty-map : (xs : List A) → is_empty xs ≡ is_empty (map f xs)
  is_empty-map [] = refl
  is_empty-map (x ∷ xs) = refl
