-- ===== src/Server/Names/RoundTrip.antt =====
-- lineToHump against humpToLine: the names of columns and those of fields.
use mq_kafka.Prelude.{
  ℕ, ◌≡◌, ◌≢◌, refl, ap₂, Bool-cases, inl, inr, true, false, [], ◌∷◌, ◌==◌, arith,
}
use mq_kafka.Text.{Text}
use mq_kafka.Text.Case.{is_upper, is_lower, lower_case, upper_case, to_lower}
use mq_kafka.Server.Names.{is_word, raise, line_to_hump, hump_to_line}

-- A column's name as databases usually spell it: no capitals, and after each underscore a letter.
abbrev pub IsSnake : Text → Type 0
IsSnake [] = Unit
IsSnake (c ∷ []) = (is_upper c ≡ false) × (c ≢ b'_')
IsSnake (c ∷ d ∷ s) = (is_upper c ≡ false) × ((c ≡ b'_') → is_lower d ≡ true) × IsSnake (d ∷ s)

IsSnake-tail : (c : ℕ) (s : Text) → IsSnake (c ∷ s) → IsSnake s
IsSnake-tail c [] h = tt
IsSnake-tail c (d ∷ s) h = h.2

IsSnake-head : (c : ℕ) (s : Text) → IsSnake (c ∷ s) → is_upper c ≡ false
IsSnake-head c [] h = h.0
IsSnake-head c (d ∷ s) h = h.0

lower_of_not_upper : (c : ℕ) → is_upper c ≡ false → lower_case c ≡ c
unfolding lower_case
lower_of_not_upper c h = rw h

to_lower_of_IsSnake : (s : Text) → IsSnake s → to_lower s ≡ s
to_lower_of_IsSnake [] h = refl
to_lower_of_IsSnake (c ∷ s) h =
    ap₂ (λ x r. x ∷ r) (lower_of_not_upper c (IsSnake-head c s h))
      (to_lower_of_IsSnake s (IsSnake-tail c s h))

-- A raised letter is a capital, which is lowered again.
hump_to_line_at_capital :
    (d : ℕ) (r : Text)
    → is_lower d ≡ true
    → hump_to_line (upper_case d ∷ r) ≡ b'_' ∷ d ∷ hump_to_line r
unfolding hump_to_line is_lower is_upper upper_case lower_case
hump_to_line_at_capital d r h = ground arith

hump_to_line_at_other :
    (c : ℕ) (r : Text) → is_upper c ≡ false → hump_to_line (c ∷ r) ≡ c ∷ hump_to_line r
unfolding hump_to_line
hump_to_line_at_other c r h = rw h

raise_at_letter :
    (c d : ℕ) (s : Text) → c ≡ b'_' → is_lower d ≡ true → raise (c ∷ d ∷ s) ≡ upper_case d ∷ raise s
unfolding raise is_word is_lower is_upper
raise_at_letter c d s e h = ground arith

raise_at_other : (c d : ℕ) (s : Text) → c ≢ b'_' → raise (c ∷ d ∷ s) ≡ c ∷ raise (d ∷ s)
unfolding raise
raise_at_other c d s h = ground arith

hump_to_line-raise : (s : Text) → IsSnake s → hump_to_line (raise s) ≡ s
unfolding hump_to_line raise
hump_to_line-raise [] h = refl
hump_to_line-raise (c ∷ []) h = hump_to_line_at_other c [] h.0
hump_to_line-raise (c ∷ d ∷ s) h =
    let small = hump_to_line-raise s (IsSnake-tail d s h.2) in
    let same = hump_to_line-raise (d ∷ s) h.2 in
    elim (Bool-cases (c == b'_')) [
      | inl e ↦
          let u : c ≡ b'_' = ground arith in
          rw
            (raise_at_letter c d s u (h.1 u), hump_to_line_at_capital d (raise s) (h.1 u), small, u)
      | inr n ↦
          let u : c ≢ b'_' = ground arith in
          rw (raise_at_other c d s u, hump_to_line_at_other c (raise (d ∷ s)) h.0, same)
    ]

-- humpToLine gives a column's name back from the name that lineToHump makes of it. The name has no capital letter and behind each underscore a small letter.
pub hump_to_line-line_to_hump : (s : Text) → IsSnake s → hump_to_line (line_to_hump s) ≡ s
unfolding line_to_hump
hump_to_line-line_to_hump s h = rw (to_lower_of_IsSnake s h) (hump_to_line-raise s h)
