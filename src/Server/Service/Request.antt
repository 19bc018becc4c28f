-- ===== src/Server/Service/Request.antt =====
-- From the console's page to the server: the tables that generator.js puts into the address, and
-- those that the controller reads of it.
use mq_kafka.Prelude.{◌≡◌, ◌≢◌, refl, ap, ◌∙◌, true, Option, none, some, List, [], ◌∷◌, All, tail}
use mathlib.Core.Option
use mq_kafka.Text.{Text, codes, split, join, eq_text}
use mq_kafka.Tools.Params.Laws.{query, lookup, is_word}
use mq_kafka.Generator.{GenerateModel, code_url}
use mq_kafka.Generator.Address.{
  params, IsPlainParam, IsSendable, IsSearch, search-code_url, params-IsPlainParam, split-tables,
}
use mq_kafka.Server.Code.{Setting}
use mq_kafka.Server.Service.{
  Catalog, without_last_empty, parts_of, split_tables, generator_code, code,
}

without_last_empty_of_All : (ps : List Text) → All (λ p. p ≢ []) ps → without_last_empty ps ≡ ps
unfolding without_last_empty
without_last_empty_of_All [] h = refl
without_last_empty_of_All ([] ∷ ps) h = absurd (h.0 refl)
without_last_empty_of_All ((c ∷ p) ∷ ps) h =
    ap (λ r. (c ∷ p) ∷ r) (without_last_empty_of_All ps h.1)

parts_of-All : (ps : List Text) → All (λ p. p ≢ []) ps → parts_of ps ≡ ps
parts_of-All [] h = refl
parts_of-All (p ∷ []) h = refl
parts_of-All (p ∷ q ∷ ps) h = without_last_empty_of_All (p ∷ q ∷ ps) h

code_of_parts :
    (setting : Setting) (catalog : Catalog) (schema : Text) (ids : List Text) (o : Option Text)
    → All (λ id. id ≢ []) ids
    → Option.map (split b',') o ≡ some ids
    → Option.map (code setting catalog schema) o ≡ some (generator_code setting catalog schema ids)
unfolding code split_tables
code_of_parts setting catalog schema ids none named sent = absurd (cc sent)
code_of_parts setting catalog schema ids (some tables) named sent =
    let parts : split b',' tables ≡ ids = cc sent in
    ap some
      (ap (generator_code setting catalog schema) (ap parts_of parts ∙ parts_of-All ids named))

-- `getParameter` of the servlet's request, which binds the controller's arguments, on a query that
-- spells parameters whose keys are words and whose values are plain: the first value of that name, or
-- null. There is nothing to decode in it.
abbrev pub ReadsPlain : (Text → Text → Option Text) → Type 0
ReadsPlain get_parameter =
    (name : Text) (p : Text × Text) (ps : List (Text × Text))
    → is_word name ≡ true
    → All IsPlainParam (p ∷ ps)
    → get_parameter (query (p ∷ ps)) name ≡ lookup name (p ∷ ps)

-- The server generates for the tables that were selected in the page, and takes the schema, the module
-- and the package that were chosen or typed there: what the page's address carries as `tables` is split
-- into just these tables, in their order. Some table is selected, no table's name is empty or holds a
-- comma, and all texts are of visible ASCII characters without quotation marks, angle brackets, `#`,
-- `%`, `&` and `+`. The request's query is the address's as the browser tells it, behind the `?`.
pub code-code_url :
    (setting : Setting) (catalog : Catalog) (search : Text → Text)
    (get_parameter : Text → Text → Option Text) (ids : List Text) (schema : Text)
    (m : GenerateModel)
    → IsSearch search
    → ReadsPlain get_parameter
    → IsSendable ids schema m
    → All (λ id. id ≢ []) ids
    → (Option.map
          (code setting catalog schema)
          (get_parameter (tail (search (code_url ids schema m))) (codes "tables"))
        ≡ some (generator_code setting catalog schema ids))
      × (get_parameter (tail (search (code_url ids schema m))) (codes "schemaName") ≡ some schema)
      × (get_parameter (tail (search (code_url ids schema m))) (codes "moduleName")
          ≡ some m.module_name)
      × (get_parameter (tail (search (code_url ids schema m))) (codes "basePackage")
          ≡ some m.base_package)
unfolding eq_text
code-code_url setting catalog search get_parameter ids schema m located reads sendable named =
    let sent = ap tail (search-code_url ids schema m search located sendable) in
    let ps = params ids schema m in
    let plain = params-IsPlainParam ids schema m sendable in
    let get : (name : Text)
        → is_word name ≡ true
        → get_parameter (tail (search (code_url ids schema m))) name ≡ lookup name ps =
      λ name word.
        ap (λ q. get_parameter q name) sent
        ∙ reads name (codes "tables", join (codes ",") ids) (tail ps) word plain in
    (
      code_of_parts setting catalog schema ids
          (get_parameter (tail (search (code_url ids schema m))) (codes "tables")) named
          (ap (Option.map (split b',')) (get (codes "tables") refl)
            ∙ ap some (split-tables ids schema m sendable)),
      get (codes "schemaName") refl,
      get (codes "moduleName") refl,
      get (codes "basePackage") refl,
    )
