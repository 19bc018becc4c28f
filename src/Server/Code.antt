-- ===== src/Server/Code.antt =====
-- The archive of generated code: `generatorCode` of code-generator/src/main/java/com/data/utils/
-- GenUtils.java, for one table. The templates' engine is the parameter `render`, which gives a
-- template's text for a table's model, a package and a module; commons-lang's capitalizeFully is
-- another. `none` is an exception, which is a GenException behind the `catch`.
pub mod Files
use mq_kafka.Prelude.{
  Bool, true, false, ◌||◌, Option, none, some, ◌>>=◌, List, [], ◌∷◌, ◌++◌, if◌then◌else◌,
}
use mq_kafka.Text.{Text, eq_text}
use mq_kafka.Server.Entities.{Table, Column, TableEntity, get_table_model}
use mq_kafka.Server.Files.{get_templates, get_context, get_file_name}

-- The entries of a zip stream, by name and content.
abbrev pub Zip : Type 0
Zip = List (Text × Text)

unfoldable pub has_entry : Text → Zip → Bool
unfolding eq_text
has_entry name [] = false
has_entry name (entry ∷ zip) = eq_text entry.0 name || has_entry name zip

-- `putNextEntry`, `write` and `closeEntry`: the stream refuses a name that it has.
unfoldable pub put_entry : Text → Text → Zip → Option Zip
unfolding has_entry
put_entry name content zip =
    if has_entry name zip then none else some (zip ++ ((name, content) ∷ []))

-- `if (fileName != null)`
unfoldable pub put_named : Option Text → Text → Zip → Option Zip
unfolding put_entry
put_named none content zip = some zip
put_named (some name) content zip = put_entry name content zip

-- What the generation is given besides the tables.
pub record Setting : Type 0 where
  pub capitalize_fully : Text → Text
  pub render : Text → TableEntity → Text → Text → Text
  pub base_package : Text
  pub module_name : Text

module _ (setting : Setting) where
  -- A round of the loop over the templates.
  unfoldable pub add_file : TableEntity → Text → Zip → Option Zip
  unfolding get_file_name get_context put_named
  add_file table template zip =
      put_named
        (get_file_name template (get_context table setting.base_package setting.module_name))
        (setting.render template table setting.base_package setting.module_name) zip

  unfoldable pub add_files : TableEntity → List Text → Zip → Option Zip
  unfolding add_file
  add_files table [] zip = some zip
  add_files table (template ∷ templates) zip =
      add_file table template zip >>= add_files table templates

  unfoldable pub generator_code : Option Table → List Column → Zip → Option Zip
  unfolding get_table_model add_files
  generator_code table columns zip = do
    model ← get_table_model setting.capitalize_fully table columns
    add_files model get_templates zip
