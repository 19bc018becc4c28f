-- ===== src/Server/Names.antt =====
-- code-generator/src/main/java/com/data/utils/StringUtils.java, and the two naming functions of
-- GenUtils.java.
pub mod RoundTrip
use mq_kafka.Prelude.{
  ℕ, ◌+◌, ◌-◌, Bool, not, ◌&&◌, ◌||◌, Option, none, some, List, [], ◌∷◌, ◌++◌, ltb, leb, ◌==◌,
  if◌then◌else◌, map,
}
use mq_kafka.Text.Case.{is_upper, is_lower, lower_case, upper_case, to_lower}
use mq_kafka.Text.{Text, codes, eq_text, remove_first}

-- `\w` of a regular expression.
unfoldable pub is_word : ℕ → Bool
unfolding is_upper is_lower
is_word c = is_upper c || is_lower c || (leb b'0' c && leb c b'9') || c == b'_'

-- `value == null` is left out: the only caller passes a literal.
unfoldable pub is_empty : Text → Bool
unfolding eq_text
is_empty value =
    eq_text (codes "") value || eq_text (codes "null") value || eq_text (codes "undefined") value

-- The matches of `_(\w)` from left to right, each replaced by its letter in upper case; a match
-- takes its letter with it, also when the letter is an underscore.
unfoldable pub raise : Text → Text
unfolding is_word upper_case
raise [] = []
raise (c ∷ []) = c ∷ []
raise (c ∷ d ∷ s) =
    let after = raise s in
    let next = raise (d ∷ s) in if c == b'_' && is_word d then upper_case d ∷ after else c ∷ next

unfoldable pub line_to_hump : Text → Text
unfolding raise lower_case
line_to_hump str = raise (to_lower str)

unfoldable pub hump_to_line : Text → Text
unfolding is_upper lower_case
hump_to_line [] = []
hump_to_line (c ∷ s) =
    let rest = hump_to_line s in if is_upper c then b'_' ∷ lower_case c ∷ rest else c ∷ rest

-- `str.charAt(0)` throws on an empty string.
unfoldable pub uncapitalize : Text → Option Text
unfolding is_lower lower_case
uncapitalize [] = none
uncapitalize (c ∷ s) = some (if is_lower c then c ∷ s else lower_case c ∷ s)

unfoldable pub capitalize : Text → Option Text
unfolding is_upper upper_case
capitalize [] = none
capitalize (c ∷ s) = some (if is_upper c then c ∷ s else upper_case c ∷ s)

-- `packageName.replace(".", "/")`
unfoldable pub trans_package_name_to_path : Text → Text
trans_package_name_to_path [] = []
trans_package_name_to_path (c ∷ s) =
    let rest = trans_package_name_to_path s in if c == b'.' then b'/' ∷ rest else c ∷ rest

-- `replace("_", "")`
unfoldable pub remove_underscores : Text → Text
remove_underscores [] = []
remove_underscores (c ∷ s) = let rest = remove_underscores s in if c == b'_' then rest else c ∷ rest

-- `WordUtils.capitalizeFully(name, '_')` of commons-lang is the parameter.
module _ (capitalize_fully : Text → Text) where
  unfoldable pub column_to_java : Text → Text
  unfolding remove_underscores
  column_to_java column_name = remove_underscores (capitalize_fully column_name)

  -- `replaceFirst` with the prefix "t_", which has no character special to a regular expression.
  unfoldable pub table_to_java : Text → Text → Text
  unfolding column_to_java is_empty remove_first
  table_to_java table_name table_prefix =
      column_to_java
        (if not (is_empty table_prefix) then remove_first table_prefix table_name else table_name)
