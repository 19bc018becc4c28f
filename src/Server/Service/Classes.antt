-- ===== src/Server/Service/Classes.antt =====
-- Which selections of tables the generation takes.
use mq_kafka.Prelude.{
  ◌≡◌, ◌≢◌, refl, sym, subst, ap, ◌∙◌, Option, none, some, some_of_three, List, [], ◌∷◌, ◌++◌, map,
  map-append, append-nil, All, All-parts, tail, AllDifferent, AllDifferent-parts,
  AllDifferent-of_map, length, Option-cases_of_ne_none,
}
use mathlib.Core.Option
use mq_kafka.Text.{Text, codes}
use mq_kafka.Server.Names.{table_to_java, uncapitalize}
use mq_kafka.Server.Entities.{
  Table, Column, TableEntity, get_table_model, add_columns, empty_loop, key_of, model_of,
}
use mq_kafka.Server.Entities.Total.{IsUsable, get_table_model_iff}
use mq_kafka.Server.Files.{get_templates, get_context, get_file_name, path_of, package_path}
use mq_kafka.Server.Files.Apart.{file_names, file_names-AllDifferent}
use mq_kafka.Server.Code.{Zip, Setting}
use mq_kafka.Server.Code.Files.{name_of_entry, entry_names, files}
use mq_kafka.Server.Service.{Catalog, generator_code}
use mq_kafka.Server.Service.Archive.{model_of_table, IsArchive, generator_code_iff}

get_table_model_class :
    (f : Text → Text) (table : Table) (columns : List Column) (model : TableEntity)
    → get_table_model f (some table) columns ≡ some model
    → model.class_name ≡ table_to_java f table.table_name (codes "t_")
unfolding get_table_model
get_table_model_class f table columns model h =
    let (_, _, _, _, _, _, same) =
      some_of_three (uncapitalize (table_to_java f table.table_name (codes "t_")))
        (add_columns f columns empty_loop) key_of (model_of f table) model h in
    ap (λ (m : TableEntity). m.class_name) (sym same)

module _ (setting : Setting) (catalog : Catalog) (schema_name : Text) where
  -- The name of the classes of a table that the database has.
  abbrev pub class_of : Text → Option Text
  class_of t =
      Option.map
        (λ (table : Table). table_to_java setting.capitalize_fully table.table_name (codes "t_"))
        (catalog.query_table schema_name t)

  class_of-model :
      (t : Text) (model : TableEntity)
      → model_of_table setting catalog schema_name t ≡ some model
      → class_of t ≡ some model.class_name
  unfolding get_table_model
  class_of-model t model h = by (catalog.query_table schema_name t) h
    where
      by :
          (o : Option Table)
          → get_table_model setting.capitalize_fully o (catalog.query_columns schema_name t)
            ≡ some model
          → Option.map
              (λ (table : Table).
                table_to_java setting.capitalize_fully table.table_name (codes "t_"))
              o
            ≡ some model.class_name
      by none h = absurd (cc h)
      by (some table) h = ap some (
          sym (
            get_table_model_class setting.capitalize_fully table
              (catalog.query_columns schema_name t) model h))

  -- The first file of a table with that class.
  pojo : TableEntity → Text
  pojo model =
      path_of package_path
        (get_context model setting.base_package setting.module_name).pojo_package_name
        (get_context model setting.base_package setting.module_name).pojo_class_name (codes ".java")

  pojo-same : (m n : TableEntity) → m.class_name ≡ n.class_name → pojo m ≡ pojo n
  unfolding pojo get_context
  pojo-same m n e = rw e

  first_of :
      (m n : TableEntity)
      → All (λ x. pojo m ≢ x) (entry_names (files setting n get_templates))
      → pojo m ≢ pojo n
  unfolding get_file_name pojo
  first_of m n h = h.0

  apart_from_rest :
      (m : TableEntity) (ts : List Text) (rest : Zip)
      → IsArchive setting catalog schema_name ts rest
      → All (λ n. pojo m ≢ n) (entry_names rest)
      → All (λ c. some m.class_name ≢ c) (map class_of ts)
  unfolding get_file_name
  apart_from_rest m [] rest h d = tt
  apart_from_rest m (t ∷ ts) rest (n, more, made, same, h) d =
      let names = map-append name_of_entry (files setting n get_templates) more in
      let here =
        All-parts (λ x. pojo m ≢ x) (entry_names (files setting n get_templates)) (entry_names more)
          (subst (All (λ x. pojo m ≢ x)) (ap entry_names same ∙ names) d) in
      (
        λ e. first_of m n here.0 (pojo-same m n (cc (e ∙ class_of-model t n made))),
        apart_from_rest m ts more h here.1,
      )

  pojo_apart :
      (m : TableEntity) (names : List Text)
      → AllDifferent (entry_names (files setting m get_templates) ++ names)
      → All (λ n. pojo m ≢ n) names
  unfolding pojo get_file_name
  pojo_apart m names d =
      (All-parts (λ n. pojo m ≢ n) (tail (entry_names (files setting m get_templates))) names d.0).1

  classes_different :
      (ts : List Text) (zip : Zip)
      → IsArchive setting catalog schema_name ts zip
      → AllDifferent (entry_names zip)
      → AllDifferent (map class_of ts)
  classes_different [] zip h d = tt
  classes_different (t ∷ ts) zip (m, rest, made, same, h) d =
      let names = map-append name_of_entry (files setting m get_templates) rest in
      let d' = subst AllDifferent (ap entry_names same ∙ names) d in
      let parts =
        AllDifferent-parts (entry_names (files setting m get_templates)) (entry_names rest) d' in
      let apart = pojo_apart m (entry_names rest) d' in
      (
        subst (λ o. All (λ c. o ≢ c) (map class_of ts)) (sym (class_of-model t m made))
            (apart_from_rest m ts rest h apart),
        classes_different ts rest h parts.1,
      )

  -- A request that is answered by an archive names tables whose classes are all called differently:
  -- a selection of two tables with one class, as `user` and `t_user` have, is refused as a whole.
  pub generator_code-class_of :
      (ts : List Text) (zip : Zip)
      → generator_code setting catalog schema_name ts ≡ some zip
      → AllDifferent (map class_of ts)
  generator_code-class_of ts zip h =
      let both = (generator_code_iff setting catalog schema_name ts zip).0 h in
      classes_different ts zip both.0 both.1

  -- The names of the entries of one table are those that `getFileName` gives.
  named_files :
      (model : TableEntity)
      → map some (entry_names (files setting model get_templates))
        ≡ file_names model setting.base_package setting.module_name
  unfolding get_file_name
  named_files model = refl

  twelve : (model : TableEntity) → length (files setting model get_templates ++ []) ≡ 12
  unfolding get_file_name
  twelve model = refl

  model_total :
      (t : Text) (table : Table)
      → catalog.query_table schema_name t ≡ some table
      → table_to_java setting.capitalize_fully table.table_name (codes "t_") ≢ []
      → catalog.query_columns schema_name t ≢ []
      → All IsUsable (catalog.query_columns schema_name t)
      → (model : TableEntity) × (model_of_table setting catalog schema_name t ≡ some model)
  model_total t table found class_name columns usable =
      let cs = catalog.query_columns schema_name t in
      let (model, made) =
        Option-cases_of_ne_none (get_table_model setting.capitalize_fully (some table) cs) (
          (get_table_model_iff setting.capitalize_fully table cs).1
            (class_name, columns, usable)) in
      (model, ap (λ o. get_table_model setting.capitalize_fully o cs) found ∙ made)

  -- A request for one table is answered by an archive of twelve files if the database has the table
  -- under a name whose class is not empty, with at least one column, and each column has a name that
  -- is not empty and a data type.
  pub generator_code_total :
      (t : Text) (table : Table)
      → catalog.query_table schema_name t ≡ some table
      → table_to_java setting.capitalize_fully table.table_name (codes "t_") ≢ []
      → catalog.query_columns schema_name t ≢ []
      → All IsUsable (catalog.query_columns schema_name t)
      → (zip : Zip) × (generator_code setting catalog schema_name (t ∷ []) ≡ some zip)
        × (length zip ≡ 12)
  generator_code_total t table found class_name columns usable =
      let (model, made) = model_total t table found class_name columns usable in
      let zip = files setting model get_templates ++ [] in
      let apart : AllDifferent (entry_names (files setting model get_templates)) =
        AllDifferent-of_map some (entry_names (files setting model get_templates)) (
          subst AllDifferent (sym (named_files model))
            (file_names-AllDifferent model setting.base_package setting.module_name).1) in
      (
        zip,
        (generator_code_iff setting catalog schema_name (t ∷ []) zip).1 (
          (model, [], made, refl, refl),
          subst (λ z. AllDifferent (entry_names z))
              (sym (append-nil (files setting model get_templates))) apart,
        ),
        twelve model,
      )
