-- ===== src/Server/Entities/Keys.antt =====
-- getTableModel: its columns, its key and its mark for BigDecimal, against the columns of the table.
use mq_kafka.Prelude.{
  ◌≡◌, refl, sym, subst, ap, ap₂, ◌∙◌, Bool, true, false, ◌&&◌, ◌||◌, Option, none, some, some->>=,
  some_of_three, List, [], ◌∷◌, ◌++◌, map, append-nil, if◌then◌else◌,
}
use mathlib.Core.Option
use mq_kafka.Text.{Text, codes, eq_text}
use mq_kafka.Server.Types.{get_java_type, get_java_type_classz, get_jdbc_type}
use mq_kafka.Server.Names.{capitalize, uncapitalize, line_to_hump, table_to_java}
use mq_kafka.Server.Entities.{
  Table, Column, ColumnEntity, TableEntity, Loop, equals_ignore_case, model_of, entity_of,
  with_entity, column_entity, becomes_key, add_column, add_columns, first, key_of, empty_loop,
  get_table_model, is_null,
}

abbrev pub is_pri : Column → Bool
unfolding equals_ignore_case
is_pri column = equals_ignore_case (codes "PRI") column.column_key

-- The first column of the primary key.
abbrev pub find_pri : List Column → Option Column
unfolding equals_ignore_case
find_pri [] = none
find_pri (c ∷ cs) = if is_pri c then some c else find_pri cs

-- The column that the templates take for the key: the first of the primary key, else the first.
abbrev pub key_column : List Column → Option Column
unfolding find_pri
key_column cs = elim (find_pri cs) [ none ↦ first cs | some c ↦ some c ]

-- True at the first column of the primary key, false at all others.
abbrev pub marks : Bool → List Column → List Bool
unfolding equals_ignore_case
marks free [] = []
marks free (c ∷ cs) = (is_pri c && free) ∷ marks (if is_pri c then false else free) cs

abbrev pub is_big_decimal : Column → Bool
is_big_decimal c = eq_text (get_java_type c.data_type) (codes "BigDecimal")

abbrev pub any_big_decimal : List Column → Bool
any_big_decimal [] = false
any_big_decimal (c ∷ cs) = is_big_decimal c || any_big_decimal cs

abbrev pub column_name_of : Column → Text
column_name_of c = c.column_name

abbrev pub name_of : ColumnEntity → Text
name_of e = e.column_name

abbrev pub is_key : ColumnEntity → Bool
is_key e = e.is_primary_key

-- The name of the key behind a run of the loop over these columns.
abbrev key_name : Option ColumnEntity → List Column → Option Text
unfolding find_pri
key_name none cs = Option.map column_name_of (find_pri cs)
key_name (some e) cs = some e.column_name

is_null_key :
    (b : Bool) (o : Option ColumnEntity) (e : ColumnEntity)
    → is_null (if b && is_null o then some e else o) ≡ (if b then false else is_null o)
is_null_key true none e = refl
is_null_key false none e = refl
is_null_key true (some k) e = refl
is_null_key false (some k) e = refl

key_name_nil : (o : Option ColumnEntity) → Option.map name_of o ≡ key_name o []
unfolding key_name find_pri
key_name_nil none = refl
key_name_nil (some e) = refl

or_false : (b : Bool) → b ≡ (b || false)
or_false true = refl
or_false false = refl

or_assoc : (a b c : Bool) → ((a || b) || c) ≡ (a || (b || c))
or_assoc true b c = refl
or_assoc false b c = refl

key_name_cons :
    (c : Column) (cs : List Column) (b : Bool) (o : Option ColumnEntity) (e : ColumnEntity)
    → b ≡ is_pri c
    → e.column_name ≡ c.column_name
    → key_name (if b && is_null o then some e else o) cs ≡ key_name o (c ∷ cs)
unfolding key_name find_pri
key_name_cons c cs true none e b n = rw (sym b, n)
key_name_cons c cs false none e b n = rw (sym b)
key_name_cons c cs true (some k) e b n = refl
key_name_cons c cs false (some k) e b n = refl

map-snoc {ℓ} :
    {A : Type 0} {B : Type ℓ} (f : A → B) (xs : List A) (x : A) (ys : List B)
    → map f (xs ++ (x ∷ [])) ++ ys ≡ map f xs ++ (f x ∷ ys)
map-snoc f [] x ys = refl
map-snoc f (a ∷ xs) x ys = ap (λ r. f a ∷ r) (map-snoc f xs x ys)

module _ (capitalize_fully : Text → Text) where
  column_entity-some :
      (c : Column) (k : Bool) (e : ColumnEntity)
      → column_entity capitalize_fully c k ≡ some e
      → (e.column_name ≡ c.column_name)
        × (e.java_type ≡ get_java_type c.data_type)
        × (e.is_primary_key ≡ k)
  unfolding column_entity
  column_entity-some c k e h =
      let (full, jdbc, method, _, _, _, same) =
        some_of_three (get_java_type_classz (get_java_type c.data_type)) (get_jdbc_type c.data_type)
          (λ _. capitalize (line_to_hump c.column_name)) (entity_of capitalize_fully c k) e h in
      (
        ap (λ (x : ColumnEntity). x.column_name) (sym same),
        ap (λ (x : ColumnEntity). x.java_type) (sym same),
        ap (λ (x : ColumnEntity). x.is_primary_key) (sym same),
      )

  -- A round of the loop, told by the entity that it adds.
  pub add_column-some :
      (c : Column) (l n : Loop)
      → add_column capitalize_fully c l ≡ some n
      → (e : ColumnEntity) × (column_entity capitalize_fully c (becomes_key capitalize_fully c l)
          ≡ some e)
        × (n ≡ with_entity capitalize_fully c l e)
  unfolding add_column
  add_column-some c l n h =
      let (e, made, same) =
        some->>= (column_entity capitalize_fully c (becomes_key capitalize_fully c l))
          (λ e. some (with_entity capitalize_fully c l e)) n h in
      (e, made, cc same)

  -- What a run of the loop leaves of its variables.
  abbrev pub Leaves : List Column → Loop → Loop → Type 0
  unfolding marks key_name
  Leaves cs l n =
      (map name_of n.columns ≡ map name_of l.columns ++ map column_name_of cs)
      × (n.has_big_decimal ≡ (l.has_big_decimal || any_big_decimal cs))
      × (map is_key n.columns ≡ map is_key l.columns ++ marks (is_null l.pk) cs)
      × (Option.map name_of n.pk ≡ key_name l.pk cs)

  Leaves-nil : (l : Loop) → Leaves [] l l
  unfolding Leaves marks key_name
  Leaves-nil l = (sym (append-nil _), or_false _, sym (append-nil _), key_name_nil l.pk)

  Leaves-cons :
      (c : Column) (cs : List Column) (l n : Loop) (e : ColumnEntity)
      → column_entity capitalize_fully c (becomes_key capitalize_fully c l) ≡ some e
      → Leaves cs (with_entity capitalize_fully c l e) n
      → Leaves (c ∷ cs) l n
  unfolding Leaves marks key_name becomes_key
  Leaves-cons c cs l n e made after =
      let (name, java, key) = column_entity-some c (becomes_key capitalize_fully c l) e made in
      (
        after.0
            ∙ map-snoc name_of l.columns e _
            ∙ ap (λ x. map name_of l.columns ++ (x ∷ map column_name_of cs)) name,
        after.1
            ∙ or_assoc l.has_big_decimal _ _
            ∙ ap (λ t. l.has_big_decimal || (eq_text t (codes "BigDecimal") || any_big_decimal cs))
                java,
        after.2
            ∙ map-snoc is_key l.columns e _
            ∙ ap₂ (λ x b. map is_key l.columns ++ (x ∷ marks b cs)) key
                (is_null_key (is_pri c) l.pk e),
        after.3 ∙ key_name_cons c cs (is_pri c) l.pk e refl name,
      )

  pub add_columns-Leaves :
      (cs : List Column) (l n : Loop) → add_columns capitalize_fully cs l ≡ some n → Leaves cs l n
  unfolding add_columns
  add_columns-Leaves [] l n h = subst (Leaves [] l) (cc h) (Leaves-nil l)
  add_columns-Leaves (c ∷ cs) l n h =
      let (m, round, rest) =
        some->>= (add_column capitalize_fully c l) (λ m. add_columns capitalize_fully cs m) n h in
      let (e, made, same) = add_column-some c l m round in
      Leaves-cons c cs l n e made (subst (λ m. Leaves cs m n) same (add_columns-Leaves cs m n rest))

first-map :
    (es : List ColumnEntity) (cs : List Column)
    → map name_of es ≡ map column_name_of cs
    → Option.map name_of (first es) ≡ Option.map column_name_of (first cs)
first-map [] [] h = refl
first-map [] (c ∷ cs) h = absurd (cc h)
first-map (e ∷ es) [] h = absurd (cc h)
first-map (e ∷ es) (c ∷ cs) h = cc h

key_cases :
    (o : Option ColumnEntity) (p : Option Column) (es : List ColumnEntity) (cs : List Column)
    → Option.map name_of o ≡ Option.map column_name_of p
    → map name_of es ≡ map column_name_of cs
    → Option.map name_of (elim o [ none ↦ first es | some e ↦ some e ])
      ≡ Option.map column_name_of (elim p [ none ↦ first cs | some c ↦ some c ])
key_cases none none es cs h k = first-map es cs k
key_cases none (some c) es cs h k = absurd (cc h)
key_cases (some e) none es cs h k = absurd (cc h)
key_cases (some e) (some c) es cs h k = h

module _ (capitalize_fully : Text → Text) where
  -- The model of a table, where `getTableModel` returns one: one entity for each column, in the
  -- columns' order; marked as primary key are the first column of the primary key and no other; the
  -- table's key is that column, or the first column where no column is of the primary key; and the
  -- mark for BigDecimal is set exactly if some column has that Java type.
  pub get_table_model_sound :
      (table : Table) (columns : List Column) (model : TableEntity)
      → get_table_model capitalize_fully (some table) columns ≡ some model
      → (map name_of model.columns ≡ map column_name_of columns)
        × (map is_key model.columns ≡ marks true columns)
        × (some model.pk.column_name ≡ Option.map column_name_of (key_column columns))
        × (model.has_big_decimal ≡ any_big_decimal columns)
  unfolding get_table_model key_column
  get_table_model_sound table columns model h =
      let (object_name, loop, pk, _, ran, key, same) =
        some_of_three (uncapitalize (table_to_java capitalize_fully table.table_name (codes "t_")))
          (add_columns capitalize_fully columns empty_loop) key_of (model_of capitalize_fully table)
          model h in
      let (names, big, marked, named) =
        add_columns-Leaves capitalize_fully columns empty_loop loop ran in
      let found = key_cases loop.pk (find_pri columns) loop.columns columns named names in
      subst
        (λ (m : TableEntity).
          (map name_of m.columns ≡ map column_name_of columns)
          × (map is_key m.columns ≡ marks true columns)
          × (some m.pk.column_name ≡ Option.map column_name_of (key_column columns))
          × (m.has_big_decimal ≡ any_big_decimal columns))
        same (names, marked, ap (Option.map name_of) (sym key) ∙ found, big)
