-- ===== src/Text/Case.antt =====
-- The case of letters, as Java's Character and String have it. Letters are those of ASCII: a code unit
-- beyond it has no case.
use mq_kafka.Prelude.{ℕ, ◌+◌, ◌-◌, Bool, ◌&&◌, leb, if◌then◌else◌, map}
use mq_kafka.Text.{Text}

unfoldable pub is_upper : ℕ → Bool
is_upper c = leb b'A' c && leb c b'Z'

unfoldable pub is_lower : ℕ → Bool
is_lower c = leb b'a' c && leb c b'z'

-- `Character.toLowerCase` and `Character.toUpperCase`.
unfoldable pub lower_case : ℕ → ℕ
unfolding is_upper
lower_case c = if is_upper c then c + 32 else c

unfoldable pub upper_case : ℕ → ℕ
unfolding is_lower
upper_case c = if is_lower c then c - 32 else c

-- `String.toLowerCase` and `String.toUpperCase`.
abbrev pub to_lower : Text → Text
to_lower s = map lower_case s

abbrev pub to_upper : Text → Text
to_upper s = map upper_case s
