-- ===== src/Text/Laws.antt =====
-- Equality, prefixes, and `split` against `join`.
use mq_kafka.Prelude.{
  ℕ, ◌≡◌, ◌≢◌, refl, ap, ◌∙◌, ◌↔◌, true, some, List, [], ◌∷◌, ◌++◌, arith, All, All-append,
}
use mq_kafka.Text.{Text, eq_text, strip_prefix, remove_first, split, join, Free}

pub eq_text_iff : (s t : Text) → (eq_text s t ≡ true) ↔ (s ≡ t)
unfolding eq_text
eq_text_iff [] [] = (λ _. refl, λ _. refl)
eq_text_iff [] (b ∷ t) = (λ e. cc, λ e. cc)
eq_text_iff (a ∷ s) [] = (λ e. cc, λ e. cc)
eq_text_iff (a ∷ s) (b ∷ t) = ground (arith, eq_text_iff s t)

pub eq_text_refl : (s : Text) → eq_text s s ≡ true
eq_text_refl s = (eq_text_iff s s).1 refl

strip_prefix-append : (p s : Text) → strip_prefix p (p ++ s) ≡ some s
unfolding strip_prefix
strip_prefix-append [] s = refl
strip_prefix-append (c ∷ p) s = ground (arith, strip_prefix-append p s)

-- A non-empty prefix is the first occurrence.
pub remove_first-append : (c : ℕ) (p s : Text) → remove_first (c ∷ p) ((c ∷ p) ++ s) ≡ s
unfolding remove_first
remove_first-append c p s = ground (arith, strip_prefix-append (c ∷ p) s)

remove_first_of_Free : (c : ℕ) (p s : Text) → Free c s → remove_first (c ∷ p) s ≡ s
unfolding remove_first
remove_first_of_Free c p [] h = refl
remove_first_of_Free c p (x ∷ s) h = ground (arith, remove_first_of_Free c p s)

-- Nor does a pattern occur whose second code unit does not.
pub remove_first_of_Free_second : (c d : ℕ) (p s : Text) → Free d s → remove_first (c ∷ d ∷ p) s ≡ s
unfolding remove_first
remove_first_of_Free_second c d p [] h = refl
remove_first_of_Free_second c d p (x ∷ []) h = ground arith
remove_first_of_Free_second c d p (x ∷ y ∷ s) h =
    ground (arith, remove_first_of_Free_second c d p (y ∷ s) h.1)

split_of_Free : (sep : ℕ) (p : Text) → Free sep p → split sep p ≡ p ∷ []
unfolding split
split_of_Free sep [] h = refl
split_of_Free sep (c ∷ p) h = ground (arith, split_of_Free sep p)

split-append : (sep : ℕ) (p s : Text) → Free sep p → split sep (p ++ (sep ∷ s)) ≡ p ∷ split sep s
unfolding split
split-append sep [] s h = ground arith
split-append sep (c ∷ p) s h = ground (arith, split-append sep p s)

-- Parts that do not hold the separator come back.
pub split-join :
    (sep : ℕ) (p : Text) (ps : List Text)
    → All (Free sep) (p ∷ ps)
    → split sep (join (sep ∷ []) (p ∷ ps)) ≡ p ∷ ps
unfolding join
split-join sep p [] h = split_of_Free sep p h.0
split-join sep p (q ∷ ps) h = split-append sep p _ h.0 ∙ ap (λ r. p ∷ r) (split-join sep q ps h.1)

pub Free-join :
    (c sep : ℕ) (ps : List Text) → sep ≢ c → All (Free c) ps → Free c (join (sep ∷ []) ps)
unfolding join
Free-join c sep [] n h = tt
Free-join c sep (p ∷ []) n h = h.0
Free-join c sep (p ∷ q ∷ ps) n h =
    All-append (λ x. x ≢ c) p _ h.0 (n, Free-join c sep (q ∷ ps) n h.1)
