-- ===== src/Server/Tests.antt =====
-- The code generator's server, at a database with a table of users.
use mq_kafka.Prelude.{
  ◌≡◌, ◌≢◌, ◌↔◌, refl, Bool, true, false, Option, none, some, List, [], ◌∷◌, ◌==◌, map, tail,
  length, All, All-imp, AllDifferent, if◌then◌else◌, arith,
}
use mathlib.Core.Option
use mq_kafka.Text.{Text, codes, eq_text}
use mq_kafka.Text.Case.{is_upper, is_lower, lower_case, upper_case}
use mq_kafka.Tools.Params.Laws.{find, find-query}
use mq_kafka.Generator.{GenerateModel, code_url}
use mq_kafka.Generator.Address.{IsPlainParam-IsParam}
use mq_kafka.Generator.Browser.{search, search-IsSearch}
use mq_kafka.Server.Names.{line_to_hump, hump_to_line, table_to_java}
use mq_kafka.Server.Names.RoundTrip.{IsSnake, hump_to_line-line_to_hump}
use mq_kafka.Server.Types.{get_java_type, get_jdbc_type, get_java_type_classz}
use mq_kafka.Server.Types.Classes.{get_java_type_classz-get_java_type}
use mq_kafka.Server.Entities.{
  Table, Column, ColumnEntity, TableEntity, Loop, entity_of, model_of, get_table_model,
}
use mq_kafka.Server.Entities.Keys.{
  column_name_of, name_of, is_key, marks, key_column, any_big_decimal, get_table_model_sound,
}
use mq_kafka.Server.Entities.Total.{IsUsable}
use mq_kafka.Server.Files.Apart.{file_names, file_names-AllDifferent}
use mq_kafka.Server.Code.{Zip, Setting}
use mq_kafka.Server.Code.Files.{entry_names}
use mq_kafka.Server.Service.{Catalog, generator_code, code}
use mq_kafka.Server.Service.Archive.{IsArchive, generator_code_iff}
use mq_kafka.Server.Service.Classes.{class_of, generator_code-class_of, generator_code_total}
use mq_kafka.Server.Service.Request.{ReadsPlain, code-code_url}

-- `capitalizeFully` at underscores, of ASCII letters.
words : Bool → Text → Text
words start [] = []
words start (c ∷ s) =
    let rest = words (c == b'_') s in (if start then upper_case c else lower_case c) ∷ rest

capitalized : Text → Text
capitalized s = words true s

user_name-IsSnake : IsSnake (codes "user_name")
unfolding is_upper is_lower
user_name-IsSnake = ground arith

hump_to_line-line_to_hump_example :
    hump_to_line (line_to_hump (codes "user_name")) ≡ codes "user_name"
hump_to_line-line_to_hump_example = hump_to_line-line_to_hump (codes "user_name") user_name-IsSnake

get_java_type_classz-get_java_type_example :
    get_java_type_classz (get_java_type (some (codes "json"))) ≢ none
get_java_type_classz-get_java_type_example =
    get_java_type_classz-get_java_type (some (codes "json"))

-- In lower case, as MySQL spells it, the same data type is not one that JDBC knows.
tinyblob_lower : get_jdbc_type (some (codes "tinyblob")) ≡ some (codes "TINYBLOB")
unfolding get_jdbc_type upper_case
tinyblob_lower = refl

abbrev column : Text → Text → Text → Column
column name type key = record {
  column_name = name;
  data_type = some type;
  column_comment = [];
  extra = [];
  nullable = codes "NO";
  column_key = key;
}

abbrev user_columns : List Column
user_columns =
    column (codes "name") (codes "varchar") []
    ∷ column (codes "id") (codes "bigint") (codes "PRI")
    ∷ column (codes "balance") (codes "decimal") []
    ∷ []

abbrev user_table : Table
user_table = record { table_name = codes "t_user"; table_comment = [] }

columns-IsUsable : All IsUsable user_columns
columns-IsUsable = ((λ e. cc, λ e. cc), ((λ e. cc, λ e. cc), ((λ e. cc, λ e. cc), tt)))

user_class : table_to_java capitalized (codes "t_user") (codes "t_") ≡ codes "User"
unfolding table_to_java capitalized words lower_case upper_case
user_class = refl

abbrev id_entity : ColumnEntity
id_entity =
    entity_of capitalized (column (codes "id") (codes "bigint") (codes "PRI")) true
      (codes "java.lang.Long") (codes "BIGINT") (codes "Id")

abbrev user_loop : Loop
user_loop = record {
  has_big_decimal = true;
  pk = some id_entity;
  columns =
      entity_of capitalized (column (codes "name") (codes "varchar") []) false
        (codes "java.lang.String") (codes "VARCHAR") (codes "Name")
      ∷ id_entity
      ∷ entity_of capitalized (column (codes "balance") (codes "decimal") []) false
          (codes "java.math.BigDecimal") (codes "DECIMAL") (codes "Balance")
      ∷ [];
}

abbrev user_model : TableEntity
user_model = model_of capitalized user_table (codes "user") user_loop id_entity

users-model : get_table_model capitalized (some user_table) user_columns ≡ some user_model
unfolding get_table_model capitalized words lower_case upper_case
users-model = refl

get_table_model_sound_example :
    (map name_of user_model.columns ≡ map column_name_of user_columns)
    × (map is_key user_model.columns ≡ marks true user_columns)
    × (some user_model.pk.column_name ≡ Option.map column_name_of (key_column user_columns))
    × (user_model.has_big_decimal ≡ any_big_decimal user_columns)
get_table_model_sound_example =
    get_table_model_sound capitalized user_table user_columns user_model users-model

file_names-AllDifferent_example :
    All (λ name. name ≢ none) (file_names user_model (codes "com.data") (codes "shop"))
    × AllDifferent (file_names user_model (codes "com.data") (codes "shop"))
file_names-AllDifferent_example =
    file_names-AllDifferent user_model (codes "com.data") (codes "shop")

abbrev setting : Setting
setting = record {
  capitalize_fully = capitalized;
  render = λ (template : Text) (table : TableEntity) (base : Text) (module_name : Text). template;
  base_package = codes "com.data";
  module_name = codes "shop";
}

-- A database with that table in each schema, and no other.
abbrev catalog : Catalog
catalog = record {
  query_table = λ (schema : Text) (name : Text).
      if eq_text name (codes "t_user") then some user_table else none;
  query_columns = λ (schema : Text) (name : Text). user_columns;
}

abbrev shop : Text
shop = codes "shop"

abbrev users : List Text
users = codes "t_user" ∷ []

user_table_found : catalog.query_table shop (codes "t_user") ≡ some user_table
unfolding eq_text
user_table_found = refl

class_not_empty : table_to_java capitalized (codes "t_user") (codes "t_") ≢ []
class_not_empty e = cc (user_class, e)

generator_code_total_example :
    (zip : Zip) × (generator_code setting catalog shop users ≡ some zip) × (length zip ≡ 12)
generator_code_total_example =
    generator_code_total setting catalog shop (codes "t_user") user_table user_table_found
      class_not_empty (λ e. cc) columns-IsUsable

abbrev user_zip : Zip
user_zip = generator_code_total_example.0

generator_code_iff_example :
    (generator_code setting catalog shop users ≡ some user_zip)
    ↔ (IsArchive setting catalog shop users user_zip × AllDifferent (entry_names user_zip))
generator_code_iff_example = generator_code_iff setting catalog shop users user_zip

generator_code-class_of_example : AllDifferent (map (class_of setting catalog shop) users)
generator_code-class_of_example =
    generator_code-class_of setting catalog shop users user_zip generator_code_total_example.1

abbrev options : GenerateModel
options = record { base_package = codes "com.data"; module_name = codes "shop"; tb_prefix = none }

-- `getParameter`, as a search for the first hit in the query.
abbrev get_parameter : Text → Text → Option Text
get_parameter q name = find name q

get_parameter-ReadsPlain : ReadsPlain get_parameter
get_parameter-ReadsPlain name p ps word plain =
    find-query name word p ps (All-imp IsPlainParam-IsParam (p ∷ ps) plain)

abbrev users_query : Text
users_query = tail (search (code_url users shop options))

code-code_url_example :
    (Option.map (code setting catalog shop) (get_parameter users_query (codes "tables"))
      ≡ some (generator_code setting catalog shop users))
    × (get_parameter users_query (codes "schemaName") ≡ some shop)
    × (get_parameter users_query (codes "moduleName") ≡ some (codes "shop"))
    × (get_parameter users_query (codes "basePackage") ≡ some (codes "com.data"))
code-code_url_example =
    code-code_url setting catalog search get_parameter users shop options search-IsSearch
      get_parameter-ReadsPlain ((λ e. cc), ((refl, omega arith), tt), refl, refl, refl)
      ((λ e. cc), tt)
