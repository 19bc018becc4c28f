-- ===== src/Tools/Escapes.antt =====
-- An `unescape` by the ECMAScript standard's annex B, at which the examples of `T.p` of common.js run.
pub mod Laws
use mq_kafka.Prelude.{
  ℕ, zero, suc, ◌+◌, ◌-◌, ◌*◌, Bool, ◌&&◌, Option, none, some, List, [], ◌∷◌, ◌==◌, leb,
  if◌then◌else◌,
}
use mq_kafka.Text.{Text}

pub hex_value : ℕ → Option ℕ
hex_value c =
    if leb b'0' c && leb c b'9'
    then some (c - b'0')
    else if leb b'a' c && leb c b'f'
    then some (c - b'a' + 10)
    else if leb b'A' c && leb c b'F'
    then some (c - b'A' + 10)
    else none

-- The number of the next `n` hexadecimal digits.
hex_digits : ℕ → Text → ℕ → Option ℕ
hex_digits zero s acc = some acc
hex_digits (suc n) [] acc = none
hex_digits (suc n) (c ∷ s) acc = elim (hex_value c) [
  | none ↦ none
  | some d ↦ hex_digits n s (16 * acc + d)
]

abbrev with_length : ℕ → Option ℕ → Option (ℕ × ℕ)
with_length n none = none
with_length n (some v) = some (v, n)

-- What stands behind a `%`: the code unit that it stands for and the units that it takes.
pub escape_at : Text → Option (ℕ × ℕ)
unfolding hex_value hex_digits
escape_at [] = none
escape_at (c ∷ s) =
    if c == b'u' then with_length 5 (hex_digits 4 s 0) else with_length 2 (hex_digits 2 (c ∷ s) 0)

-- The loop, with the number of units that the last escape still covers.
pub unescape_from : ℕ → Text → Text
unfolding escape_at
unescape_from skip [] = []
unescape_from (suc skip) (c ∷ s) = unescape_from skip s
unescape_from zero (c ∷ s) = elim (if c == b'%' then escape_at s else none) [
  | none ↦ c ∷ unescape_from 0 s
  | some (v, n) ↦ v ∷ unescape_from n s
]

unfoldable pub unescape : Text → Text
unfolding unescape_from
unescape s = unescape_from 0 s
