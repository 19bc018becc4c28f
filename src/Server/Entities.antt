-- ===== src/Server/Entities.antt =====
-- The model of a table that the templates read: `getTableModel` of code-generator/src/main/java/com/
-- data/utils/GenUtils.java, with entity/TableEntity.java and entity/ColumnEntity.java. `none` is an
-- exception.
pub mod Keys
pub mod Total
use mq_kafka.Prelude.{
  Bool, true, false, not, ◌&&◌, ◌||◌, Option, none, some, ◌>>=◌, List, [], ◌∷◌, ◌++◌, if◌then◌else◌,
}
use mathlib.Core.Option
use mq_kafka.Text.{Text, codes, eq_text}
use mq_kafka.Text.Case.{to_upper}
use mq_kafka.Server.Names.{line_to_hump, uncapitalize, capitalize, column_to_java, table_to_java}
use mq_kafka.Server.Types.{get_java_type, get_java_type_classz, get_jdbc_type}

-- A row of `queryTable`.
pub record Table : Type 0 where
  pub table_name : Text
  pub table_comment : Text

-- A row of `queryColumns`.
pub record Column : Type 0 where
  pub column_name : Text
  pub data_type : Option Text
  pub column_comment : Text
  pub extra : Text
  pub nullable : Text
  pub column_key : Text

pub record ColumnEntity : Type 0 where
  pub column_name : Text
  pub data_type : Option Text
  pub jdbc_type : Text
  pub comments : Text
  pub field_name : Text
  pub java_type : Text
  pub java_type_full : Text
  pub field_method_name : Text
  pub getter : Text
  pub setter : Text
  pub extra : Text
  pub nullable : Bool
  pub is_primary_key : Bool

pub record TableEntity : Type 0 where
  pub table_name : Text
  pub comments : Text
  pub pk : ColumnEntity
  pub columns : List ColumnEntity
  pub class_name : Text
  pub object_name : Text
  pub has_big_decimal : Bool

-- The variables of the loop over the columns; the loop keeps the key in the table's entity.
pub record Loop : Type 0 where
  pub has_big_decimal : Bool
  pub pk : Option ColumnEntity
  pub columns : List ColumnEntity

unfoldable pub equals_ignore_case : Text → Text → Bool
unfolding eq_text
equals_ignore_case a b = eq_text (to_upper a) (to_upper b)

-- `tableEntity.getPk() == null`
abbrev pub is_null {ℓ} : {A : Type ℓ} → Option A → Bool
is_null none = true
is_null (some a) = false

abbrev pub first {ℓ} : {A : Type ℓ} → List A → Option A
first [] = none
first (a ∷ rest) = some a

-- `tableEntity.getColumns().get(0)` where no column is a key.
abbrev pub key_of : Loop → Option ColumnEntity
key_of loop = elim loop.pk [ none ↦ first loop.columns | some pk ↦ some pk ]

abbrev pub empty_loop : Loop
empty_loop = record { has_big_decimal = false; pk = none; columns = [] }

module _ (capitalize_fully : Text → Text) where
  -- The fields that the loop's body sets, given the three that may throw.
  abbrev pub entity_of : Column → Bool → Text → Text → Text → ColumnEntity
  unfolding line_to_hump get_java_type column_to_java equals_ignore_case
  entity_of column is_key java_type_full jdbc_type method = record {
    column_name = column.column_name;
    data_type = column.data_type;
    jdbc_type = jdbc_type;
    comments = column.column_comment;
    field_name = line_to_hump column.column_name;
    java_type = get_java_type column.data_type;
    java_type_full = java_type_full;
    field_method_name = column_to_java capitalize_fully column.column_name;
    getter = codes "get" ++ method;
    setter = codes "set" ++ method;
    extra = column.extra;
    nullable = equals_ignore_case (codes "YES") column.nullable;
    is_primary_key = is_key;
  }

  -- The body of the loop, for a column that becomes the key or not.
  unfoldable pub column_entity : Column → Bool → Option ColumnEntity
  unfolding line_to_hump get_java_type get_java_type_classz get_jdbc_type capitalize entity_of
  column_entity column is_key = do
    java_type_full ← get_java_type_classz (get_java_type column.data_type)
    jdbc_type ← get_jdbc_type column.data_type
    method ← capitalize (line_to_hump column.column_name)
    some (entity_of column is_key java_type_full jdbc_type method)

  unfoldable pub becomes_key : Column → Loop → Bool
  unfolding equals_ignore_case
  becomes_key column loop = equals_ignore_case (codes "PRI") column.column_key && is_null loop.pk

  -- The loop's variables behind a column with that entity.
  abbrev pub with_entity : Column → Loop → ColumnEntity → Loop
  unfolding becomes_key
  with_entity column loop entity = record {
    has_big_decimal = loop.has_big_decimal || eq_text entity.java_type (codes "BigDecimal");
    pk = if becomes_key column loop then some entity else loop.pk;
    columns = loop.columns ++ (entity ∷ []);
  }

  unfoldable pub add_column : Column → Loop → Option Loop
  unfolding column_entity becomes_key with_entity
  add_column column loop = do
    entity ← column_entity column (becomes_key column loop)
    some (with_entity column loop entity)

  unfoldable pub add_columns : List Column → Loop → Option Loop
  unfolding add_column
  add_columns [] loop = some loop
  add_columns (column ∷ columns) loop = do next ← add_column column loop; add_columns columns next

  abbrev pub model_of : Table → Text → Loop → ColumnEntity → TableEntity
  unfolding table_to_java
  model_of table object_name loop pk = record {
    table_name = table.table_name;
    comments = table.table_comment;
    pk = pk;
    columns = loop.columns;
    class_name = table_to_java capitalize_fully table.table_name (codes "t_");
    object_name = object_name;
    has_big_decimal = loop.has_big_decimal;
  }

  unfoldable pub get_table_model : Option Table → List Column → Option TableEntity
  unfolding table_to_java uncapitalize add_columns model_of
  get_table_model none columns = none
  get_table_model (some table) columns = do
    object_name ← uncapitalize (table_to_java capitalize_fully table.table_name (codes "t_"))
    loop ← add_columns columns empty_loop
    pk ← key_of loop
    some (model_of table object_name loop pk)
