-- ===== src/Tools/Selection/Laws.antt =====
-- common.js: what the row selectors return, for a grid as jqGrid keeps it.
use mq_kafka.Prelude.{
  ◌≡◌, refl, ◌↔◌, ◌⊎◌, inl, inr, ◌≢◌, Option, none, some, List, [], ◌∷◌, arith, length, ◌<◌,
}
use mq_kafka.Text.{Text}
use mq_kafka.Tools.Selection.{Grid, choose_one, only_one, get_selected_row, get_selected_rows}

-- What jqGrid promises of a grid with several selectable rows: `selrow` is null exactly where no
-- row is selected, and keys are not empty.
pub record IsConsistent (g : Grid) : Type 0 where
  pub nothing : g.selrow ≡ none → g.selarrrow ≡ []
  pub something : g.selarrrow ≡ [] → g.selrow ≡ none
  pub named : g.selrow ≢ some []

abbrev Decides : Grid → Type 0
Decides g =
    ((g.selarrrow ≡ []) × (get_selected_row g ≡ (none, choose_one ∷ [])))
    ⊎ ((id : Text) × (g.selarrrow ≡ id ∷ []) × (get_selected_row g ≡ (some id, [])))
    ⊎ ((1 < length g.selarrrow) × (get_selected_row g ≡ (none, only_one ∷ [])))

selected_by_parts :
    (sel : Option Text) (ids : List Text)
    → IsConsistent (record { selrow = sel; selarrrow = ids })
    → Decides (record { selrow = sel; selarrrow = ids })
unfolding get_selected_row
selected_by_parts none [] c = inl (refl, refl)
selected_by_parts none (a ∷ ids) c = cc (c.nothing refl)
selected_by_parts (some s) [] c = cc (c.something refl)
selected_by_parts (some []) (a ∷ ids) c = absurd (c.named refl)
selected_by_parts (some (x ∷ s)) (a ∷ []) c = inr (inl (a, refl, ground arith))
selected_by_parts (some (x ∷ s)) (a ∷ b ∷ ids) c = inr (inr (omega arith, ground arith))

-- The selection of a consistent grid decides `getSelectedRow`: with no row or several rows it shows
-- one alert, of its own text each, and returns undefined; with one row it returns its key and shows
-- none.
pub get_selected_row_cases :
    (g : Grid)
    → IsConsistent g
    → ((g.selarrrow ≡ []) × (get_selected_row g ≡ (none, choose_one ∷ [])))
      ⊎ ((id : Text) × (g.selarrrow ≡ id ∷ []) × (get_selected_row g ≡ (some id, [])))
      ⊎ ((1 < length g.selarrrow) × (get_selected_row g ≡ (none, only_one ∷ [])))
get_selected_row_cases g c = selected_by_parts g.selrow g.selarrrow c

rows_of :
    (sel : Option Text) (rows ids alerts : List Text)
    → IsConsistent (record { selrow = sel; selarrrow = rows })
    → (get_selected_rows (record { selrow = sel; selarrrow = rows }) ≡ (some ids, alerts))
      ↔ ((rows ≡ ids) × (ids ≢ []) × (alerts ≡ []))
unfolding get_selected_rows
rows_of none rows ids alerts c = ground (arith, c.nothing refl)
rows_of (some []) rows ids alerts c = absurd (c.named refl)
rows_of (some (x ∷ s)) [] ids alerts c = cc (c.something refl)
rows_of (some (x ∷ s)) (a ∷ rows) ids alerts c = ground arith

none_of :
    (sel : Option Text) (rows : List Text)
    → IsConsistent (record { selrow = sel; selarrrow = rows })
    → rows ≡ []
    → get_selected_rows (record { selrow = sel; selarrrow = rows }) ≡ (none, choose_one ∷ [])
unfolding get_selected_rows
none_of none rows c e = refl
none_of (some s) rows c e = cc (c.something e)

-- `getSelectedRows` of a consistent grid returns the keys of all selected rows and shows no alert,
-- exactly where some row is selected; where none is, it returns undefined and shows one alert.
pub get_selected_rows_iff :
    (g : Grid) (ids : List Text) (alerts : List Text)
    → IsConsistent g
    → ((get_selected_rows g ≡ (some ids, alerts))
        ↔ ((g.selarrrow ≡ ids) × (ids ≢ []) × (alerts ≡ [])))
      × (g.selarrrow ≡ [] → get_selected_rows g ≡ (none, choose_one ∷ []))
get_selected_rows_iff g ids alerts c =
    (rows_of g.selrow g.selarrrow ids alerts c, none_of g.selrow g.selarrrow c)
