-- ===== src/Generator/Tests.antt =====
-- generator.js: the theorems at concrete inputs, and runs.
use mq_kafka.Prelude.{◌≡◌, refl, ◌≢◌, ◌⊎◌, false, none, some, List, [], ◌∷◌, arith}
use mathlib.Core.Option
use mq_kafka.Text.{Text, codes, split, join}
use mq_kafka.Tools.{is_blank}
use mq_kafka.Tools.Laws.{IsBlank}
use mq_kafka.Tools.Params.{url}
use mq_kafka.Tools.Selection.{Grid, choose_one, get_selected_rows}
use mq_kafka.Tools.Selection.Laws.{IsConsistent}
use mq_kafka.Generator.{
  Console, GenerateModel, initial, show, config_gen, generator, code_url, no_package, no_module,
}
use mq_kafka.Generator.Address.{url-code_url}
use mq_kafka.Generator.Browser.{search, search-IsSearch}
use mq_kafka.Tools.Escapes.{unescape}
use mq_kafka.Tools.Escapes.Laws.{unescape_of_Free}
use mq_kafka.Generator.Refusals.{generator_cases}
use mq_kafka.Generator.Steps.{
  Reach, here, next, selects, configures, types_package, types_module, generates, with_options,
  Reach-safe, AsksForCode,
}

abbrev two_tables : List Text
two_tables = codes "order" ∷ codes "order_item" ∷ []

abbrev two_rows : Grid
two_rows = record { selrow = some (codes "order"); selarrrow = two_tables }

two_rows-IsConsistent : IsConsistent two_rows
two_rows-IsConsistent = record { nothing = λ e. cc; something = λ e. cc; named = λ e. cc }

abbrev options : GenerateModel
options = record { base_package = codes "com.data"; module_name = codes "order"; tb_prefix = none }

abbrev selected : Console
selected = record initial { grid = two_rows }

abbrev filled : Console
filled = with_options (λ m. options) selected

generator_cases_example :
    ((¬ IsBlank (some options.base_package))
      × (¬ IsBlank (some options.module_name))
      × (two_tables ≢ [])
      × (generator filled ≡ record filled { location = some (code_url two_tables [] options) }))
    ⊎ ((msg : Text) × (generator filled ≡ show (msg ∷ []) filled)
        × (((msg ≡ no_package) × IsBlank (some options.base_package))
            ⊎ ((msg ≡ no_module) × IsBlank (some options.module_name))
            ⊎ ((msg ≡ choose_one) × (two_tables ≡ []))))
generator_cases_example = generator_cases filled two_rows-IsConsistent

generator_runs :
    (generator filled).location
    ≡ some (
        codes
          "sys/generator/code?tables=order,order_item&schemaName=&moduleName=order&basePackage=com.data")
unfolding generator get_selected_rows is_blank code_url join
generator_runs = refl

generator_blank : (generator selected).alerts ≡ no_package ∷ []
unfolding generator is_blank
generator_blank = refl

url-code_url_example :
    (Option.map
        (split b',')
        (url unescape (codes "tables") (search (code_url two_tables [] options)))
      ≡ some two_tables)
    × (url unescape (codes "schemaName") (search (code_url two_tables [] options)) ≡ some [])
    × (url unescape (codes "moduleName") (search (code_url two_tables [] options))
        ≡ some (codes "order"))
    × (url unescape (codes "basePackage") (search (code_url two_tables [] options))
        ≡ some (codes "com.data"))
url-code_url_example =
    url-code_url two_tables [] options search unescape search-IsSearch unescape_of_Free
      ((λ e. cc), ((refl, omega arith), ((refl, omega arith), tt)), refl, refl, refl)

-- Rows selected, taken to the options, the options filled in, and the code asked for.
abbrev in_options : Console
in_options = with_options (λ m. options) (config_gen selected)

abbrev sent : Console
sent = generator in_options

sent-Reach : Reach initial sent
unfolding config_gen get_selected_rows
sent-Reach =
    let chosen =
      next (next here (selects initial two_rows two_rows-IsConsistent))
        (configures selected refl) in
    let packaged = next chosen (types_package (config_gen selected) (codes "com.data") refl) in
    let named = next packaged (
      types_module
        (with_options (λ m. record m { base_package = codes "com.data" }) (config_gen selected))
        (codes "order") refl) in
    next named (generates in_options refl)

Reach-safe_example :
    (sent.vm.show_list ≡ false → (ids : List Text) × (sent.vm.tables ≡ some ids) × (ids ≢ []))
    × ((u : Text) → sent.location ≡ some u → AsksForCode u)
Reach-safe_example = Reach-safe sent-Reach
