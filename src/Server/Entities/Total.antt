-- ===== src/Server/Entities/Total.antt =====
-- getTableModel: when it returns.
use mq_kafka.Prelude.{
  ℕ, ◌≡◌, ◌≢◌, ◌↔◌, refl, sym, ap, ◌∙◌, Bool, Option, none, some, ◌>>=◌, some->>=, some_of_three,
  Option-cases_of_ne_none, List, [], ◌∷◌, arith, All, map, three_some,
}
use mq_kafka.Text.{Text, codes}
use mq_kafka.Text.Case.{lower_case}
use mq_kafka.Server.Names.{raise, capitalize, uncapitalize, line_to_hump, table_to_java}
use mq_kafka.Server.Entities.Keys.{name_of, column_name_of, add_columns-Leaves, add_column-some}
use mq_kafka.Server.Types.{get_java_type, get_java_type_classz, get_jdbc_type}
use mq_kafka.Server.Types.Classes.{get_java_type_classz-get_java_type}
use mq_kafka.Server.Entities.{
  Table, Column, ColumnEntity, Loop, entity_of, model_of, with_entity, column_entity, becomes_key,
  add_column, add_columns, key_of, first, empty_loop, get_table_model,
}

-- What a column must have.
abbrev pub IsUsable : Column → Type 0
IsUsable c = (c.column_name ≢ []) × (c.data_type ≢ none)

raise-cons : (c : ℕ) (s : Text) → raise (c ∷ s) ≢ []
unfolding raise
raise-cons c [] = cc
raise-cons c (d ∷ s) = ground arith

capitalize_of_cons : (t : Text) → t ≢ [] → capitalize t ≢ none
unfolding capitalize
capitalize_of_cons [] n = absurd (n refl)
capitalize_of_cons (c ∷ t) n = cc

capitalize-line_to_hump : (s : Text) → s ≢ [] → capitalize (line_to_hump s) ≢ none
unfolding line_to_hump
capitalize-line_to_hump [] n = absurd (n refl)
capitalize-line_to_hump (c ∷ s) n =
    capitalize_of_cons (raise (lower_case c ∷ map lower_case s))
      (raise-cons (lower_case c) (map lower_case s))

capitalize-nil : capitalize (line_to_hump []) ≡ none
unfolding capitalize line_to_hump raise
capitalize-nil = refl

uncapitalize_total : (s : Text) → (uncapitalize s ≢ none) ↔ (s ≢ [])
unfolding uncapitalize
uncapitalize_total [] = (λ n e. n refl, λ n e. n refl)
uncapitalize_total (c ∷ s) = (λ _. cc, λ _. cc)

get_jdbc_type_total : (t : Option Text) → t ≢ none → get_jdbc_type t ≢ none
unfolding get_jdbc_type
get_jdbc_type_total none n = absurd (n refl)
get_jdbc_type_total (some t) n = cc

key_of-first : (l : Loop) → first l.columns ≢ none → key_of l ≢ none
key_of-first l n = by l.pk (first l.columns) n
  where
    by : (o p : Option ColumnEntity) → p ≢ none → elim o [ none ↦ p | some e ↦ some e ] ≢ none
    by none p n = n
    by (some e) p n = cc

first_of_names :
    (es : List ColumnEntity) (cs : List Column)
    → map name_of es ≡ map column_name_of cs
    → cs ≢ []
    → first es ≢ none
first_of_names es [] h n = absurd (n refl)
first_of_names [] (c ∷ cs) h n = absurd (cc h)
first_of_names (e ∷ es) (c ∷ cs) h n = cc

module _ (capitalize_fully : Text → Text) where
  column_entity_total :
      (c : Column) (k : Bool)
      → IsUsable c
      → (e : ColumnEntity) × (column_entity capitalize_fully c k ≡ some e)
  unfolding column_entity
  column_entity_total c k h =
      let (full, e) =
        Option-cases_of_ne_none (get_java_type_classz (get_java_type c.data_type))
          (get_java_type_classz-get_java_type c.data_type) in
      let (jdbc, j) =
        Option-cases_of_ne_none (get_jdbc_type c.data_type) (get_jdbc_type_total c.data_type h.1) in
      let (method, m) =
        Option-cases_of_ne_none (capitalize (line_to_hump c.column_name))
          (capitalize-line_to_hump c.column_name h.0) in
      (
        entity_of capitalize_fully c k full jdbc method,
        three_some (λ _. capitalize (line_to_hump c.column_name)) (entity_of capitalize_fully c k) e
            j m,
      )

  column_entity-IsUsable :
      (c : Column) (k : Bool) (e : ColumnEntity)
      → column_entity capitalize_fully c k ≡ some e
      → IsUsable c
  unfolding column_entity get_jdbc_type
  column_entity-IsUsable c k e h =
      let (full, jdbc, method, _, j, m, _) =
        some_of_three (get_java_type_classz (get_java_type c.data_type)) (get_jdbc_type c.data_type)
          (λ _. capitalize (line_to_hump c.column_name)) (entity_of capitalize_fully c k) e h in
      (
        λ n. cc (sym m ∙ ap (λ s. capitalize (line_to_hump s)) n ∙ capitalize-nil),
        λ n. cc (sym j ∙ ap get_jdbc_type n),
      )

  add_columns_total :
      (cs : List Column) (l : Loop)
      → All IsUsable cs
      → (n : Loop) × (add_columns capitalize_fully cs l ≡ some n)
  unfolding add_columns add_column
  add_columns_total [] l h = (l, refl)
  add_columns_total (c ∷ cs) l h =
      let (e, made) = column_entity_total c (becomes_key capitalize_fully c l) h.0 in
      let (n, ran) = add_columns_total cs (with_entity capitalize_fully c l e) h.1 in
      (
        n,
        ap
              (λ o.
                (o >>= λ e. some (with_entity capitalize_fully c l e))
                >>= add_columns capitalize_fully cs)
              made
            ∙ ran,
      )

  add_columns-IsUsable :
      (cs : List Column) (l n : Loop) → add_columns capitalize_fully cs l ≡ some n → All IsUsable cs
  unfolding add_columns
  add_columns-IsUsable [] l n h = tt
  add_columns-IsUsable (c ∷ cs) l n h =
      let (m, round, rest) =
        some->>= (add_column capitalize_fully c l) (λ m. add_columns capitalize_fully cs m) n h in
      let (e, made, _) = add_column-some capitalize_fully c l m round in
      (
        column_entity-IsUsable c (becomes_key capitalize_fully c l) e made,
        add_columns-IsUsable cs m n rest,
      )

  usable_returns :
      (table : Table) (columns : List Column)
      → (table_to_java capitalize_fully table.table_name (codes "t_") ≢ [])
        × (columns ≢ [])
        × All IsUsable columns
      → get_table_model capitalize_fully (some table) columns ≢ none
  unfolding get_table_model
  usable_returns table columns h =
      let class_name = table_to_java capitalize_fully table.table_name (codes "t_") in
      let (name, u) =
        Option-cases_of_ne_none (uncapitalize class_name) ((uncapitalize_total class_name).1 h.0) in
      let (loop, ran) = add_columns_total columns empty_loop h.2 in
      let names = (add_columns-Leaves capitalize_fully columns empty_loop loop ran).0 in
      let (pk, key) =
        Option-cases_of_ne_none (key_of loop)
          (key_of-first loop (first_of_names loop.columns columns names h.1)) in
      λ n. cc (sym (three_some key_of (model_of capitalize_fully table) u ran key) ∙ n)

  returns-IsUsable :
      (table : Table) (columns : List Column)
      → get_table_model capitalize_fully (some table) columns ≢ none
      → (table_to_java capitalize_fully table.table_name (codes "t_") ≢ [])
        × (columns ≢ [])
        × All IsUsable columns
  unfolding get_table_model add_columns
  returns-IsUsable table columns n =
      let class_name = table_to_java capitalize_fully table.table_name (codes "t_") in
      let (model, made) =
        Option-cases_of_ne_none (get_table_model capitalize_fully (some table) columns) n in
      let (name, loop, pk, u, ran, key, _) =
        some_of_three (uncapitalize class_name) (add_columns capitalize_fully columns empty_loop)
          key_of (model_of capitalize_fully table) model made in
      (
        (uncapitalize_total class_name).0 λ e. cc (sym u ∙ e),
        λ e.
            let same : some empty_loop ≡ some loop =
              ap (λ cs. add_columns capitalize_fully cs empty_loop) (sym e) ∙ ran in
            cc (ap (λ o. o >>= key_of) same ∙ key),
        add_columns-IsUsable columns empty_loop loop ran,
      )

  -- `getTableModel` returns exactly if the table's class name is not empty and there is a column,
  -- and every column has a name that is not empty and a data type.
  pub get_table_model_iff :
      (table : Table) (columns : List Column)
      → (get_table_model capitalize_fully (some table) columns ≢ none) ↔ (
          (table_to_java capitalize_fully table.table_name (codes "t_") ≢ [])
          × (columns ≢ [])
          × All IsUsable columns)
  get_table_model_iff table columns = (returns-IsUsable table columns, usable_returns table columns)
