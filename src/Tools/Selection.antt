-- ===== src/Tools/Selection.antt =====
-- common.js: `getSelectedRow` and `getSelectedRows` read the selection of the page's jqGrid. The
-- grid is a library's: the two parameters that the code reads are the fields of a record.
pub mod Laws
use mq_kafka.Prelude.{
  ℕ, Bool, true, false, Option, none, some, List, [], ◌∷◌, length, ltb, if◌then◌else◌,
}
use mq_kafka.Text.{Text, codes}

-- `selrow` is null where nothing is selected; `selarrrow` lists the keys of the selected rows.
pub record Grid : Type 0 where
  pub selrow : Option Text
  pub selarrrow : List Text

-- `!rowKey`
abbrev is_falsy : Option Text → Bool
is_falsy none = true
is_falsy (some []) = true
is_falsy (some (c ∷ s)) = false

abbrev pub choose_one : Text
choose_one = codes "请选择一条记录"

abbrev pub only_one : Text
only_one = codes "只能选择一条记录"

-- `ids[0]`
abbrev pub first : List Text → Option Text
first [] = none
first (id ∷ ids) = some id

-- The result (`none` is undefined) and the texts of the alerts shown.
pub get_selected_row : Grid → Option Text × List Text
get_selected_row g =
    if is_falsy g.selrow
    then (none, choose_one ∷ [])
    else if ltb 1 (length g.selarrrow)
    then (none, only_one ∷ [])
    else (first g.selarrrow, [])

unfoldable pub get_selected_rows : Grid → Option (List Text) × List Text
get_selected_rows g = if is_falsy g.selrow then (none, choose_one ∷ []) else (some g.selarrrow, [])
