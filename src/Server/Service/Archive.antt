-- ===== src/Server/Service/Archive.antt =====
-- The archive of a request, against the tables that it names.
use mq_kafka.Prelude.{
  ◌≡◌, ◌↔◌, refl, sym, subst, ap, ◌∙◌, Option, some, ◌>>=◌, some->>=, List, [], ◌∷◌, ◌++◌,
  append_assoc, append-nil, AllDifferent, AllDifferent-parts, map-append,
}
use mq_kafka.Text.{Text}
use mq_kafka.Server.Entities.{TableEntity, get_table_model}
use mq_kafka.Server.Files.{get_templates}
use mq_kafka.Server.Code
use mq_kafka.Server.Code.{Zip, Setting, add_files}
use mq_kafka.Server.Code.Files.{name_of_entry, entry_names, files, add_files-some, add_files_fresh}
use mq_kafka.Server.Service.{Catalog, generate, generator_code}

module _ (setting : Setting) (catalog : Catalog) (schema_name : Text) where
  -- The model of a table, with what the database says of it.
  abbrev pub model_of_table : Text → Option TableEntity
  model_of_table t =
      get_table_model setting.capitalize_fully (catalog.query_table schema_name t)
        (catalog.query_columns schema_name t)

  -- The archive that the tables describe: each table has a model, and the models' files follow one
  -- another in the tables' order, those of a table in the templates' order.
  abbrev pub IsArchive : List Text → Zip → Type 0
  IsArchive [] zip = zip ≡ []
  IsArchive (t ∷ ts) zip =
      (model : TableEntity) × (rest : Zip) × (model_of_table t ≡ some model)
      × (zip ≡ files setting model get_templates ++ rest)
      × IsArchive ts rest

  generate-some :
      (ts : List Text) (zip z : Zip)
      → AllDifferent (entry_names zip)
      → generate setting catalog schema_name ts zip ≡ some z
      → (rest : Zip) × (z ≡ zip ++ rest) × IsArchive ts rest × AllDifferent (entry_names z)
  unfolding generate Code.generator_code
  generate-some [] zip z d h =
      let same : zip ≡ z = cc h in
      ([], sym same ∙ sym (append-nil zip), refl, subst (λ z. AllDifferent (entry_names z)) same d)
  generate-some (t ∷ ts) zip z d h =
      let (next, round, after) =
        some->>=
          (Code.generator_code setting (catalog.query_table schema_name t)
            (catalog.query_columns schema_name t) zip)
          (generate setting catalog schema_name ts) z h in
      let (model, made, added) =
        some->>= (model_of_table t) (λ m. add_files setting m get_templates zip) next round in
      let (same, d) = add_files-some setting model get_templates zip next d added in
      let (rest, all, archive, d) = generate-some ts next z d after in
      (
        files setting model get_templates ++ rest,
        all ∙ ap (λ n. n ++ rest) same ∙ append_assoc zip (files setting model get_templates) rest,
        (model, rest, made, refl, archive),
        d,
      )

  generate_fresh :
      (ts : List Text) (zip rest : Zip)
      → IsArchive ts rest
      → AllDifferent (entry_names (zip ++ rest))
      → generate setting catalog schema_name ts zip ≡ some (zip ++ rest)
  unfolding generate Code.generator_code
  generate_fresh [] zip rest h d = ap some (sym (append-nil zip) ∙ ap (λ r. zip ++ r) (sym h))
  generate_fresh (t ∷ ts) zip rest (model, more, made, same, h) d =
      let made_files = files setting model get_templates in
      let whole : zip ++ rest ≡ (zip ++ made_files) ++ more =
        ap (λ r. zip ++ r) same ∙ sym (append_assoc zip made_files more) in
      let d' = subst (λ z. AllDifferent (entry_names z)) whole d in
      let first =
        (AllDifferent-parts (entry_names (zip ++ made_files)) (entry_names more)
          (subst AllDifferent (map-append name_of_entry (zip ++ made_files) more) d')).0 in
      ap
        (λ o.
          (o >>= λ m. add_files setting m get_templates zip)
          >>= generate setting catalog schema_name ts)
        made
      ∙ ap (λ o. o >>= generate setting catalog schema_name ts)
          (add_files_fresh setting model get_templates zip first)
      ∙ generate_fresh ts (zip ++ made_files) more h d'
      ∙ ap some (sym whole)

  -- A request for tables is answered by an archive exactly if each table has a model and the files
  -- of all of them have different names; and the archive is then those files, table by table.
  pub generator_code_iff :
      (ts : List Text) (zip : Zip)
      → (generator_code setting catalog schema_name ts ≡ some zip)
        ↔ (IsArchive ts zip × AllDifferent (entry_names zip))
  unfolding generator_code
  generator_code_iff ts zip = (
    λ h.
        let (rest, same, archive, d) = generate-some ts [] zip tt h in
        (subst (IsArchive ts) (sym same) archive, d),
    λ h. generate_fresh ts [] zip h.0 h.1,
  )
