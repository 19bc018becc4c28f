-- ===== src/Server/Service.antt =====
-- The requests of the console: `code` of code-generator/src/main/java/com/data/controller/
-- GeneratorController.java on `generatorCode` of service/GeneratorService.java. The database's
-- answers to the two queries are parameters, by schema and table; no row is `none`.
pub mod Archive
pub mod Classes
pub mod Request
use mq_kafka.Prelude.{Option, none, some, ◌>>=◌, List, [], ◌∷◌}
use mq_kafka.Text.{Text, split}
use mq_kafka.Server.Entities.{Table, Column}
use mq_kafka.Server.Code
use mq_kafka.Server.Code.{Zip, Setting}

-- The database, as the two queries see it.
pub record Catalog : Type 0 where
  pub query_table : Text → Text → Option Table
  pub query_columns : Text → Text → List Column

module _ (setting : Setting) (catalog : Catalog) (schema_name : Text) where
  -- The loop over the tables.
  unfoldable pub generate : List Text → Zip → Option Zip
  unfolding Code.generator_code
  generate [] zip = some zip
  generate (table_name ∷ table_names) zip =
      Code.generator_code setting (catalog.query_table schema_name table_name)
        (catalog.query_columns schema_name table_name) zip
      >>= generate table_names

  unfoldable pub generator_code : List Text → Option Zip
  unfolding generate
  generator_code table_names = generate table_names []

abbrev pub cons_part : Text → List Text → List Text
cons_part [] [] = []
cons_part [] (p ∷ ps) = [] ∷ p ∷ ps
cons_part (c ∷ s) ps = (c ∷ s) ∷ ps

unfoldable pub without_last_empty : List Text → List Text
without_last_empty [] = []
without_last_empty (p ∷ ps) = cons_part p (without_last_empty ps)

-- Java's `text.split(",")`: without the empty parts at the end, but a text with no comma is itself.
abbrev pub parts_of : List Text → List Text
parts_of [] = []
parts_of (p ∷ []) = p ∷ []
parts_of (p ∷ q ∷ ps) = without_last_empty (p ∷ q ∷ ps)

unfoldable pub split_tables : Text → List Text
unfolding split
split_tables tables = parts_of (split b',' tables)

-- `code`, up to the writing of the answer.
unfoldable pub code : Setting → Catalog → Text → Text → Option Zip
unfolding generator_code split_tables
code setting catalog schema_name tables =
    generator_code setting catalog schema_name (split_tables tables)
