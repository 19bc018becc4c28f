-- ===== src/Generator.antt =====
-- code-generator/src/main/resources/static/js/generator.js: the page that lists the tables of a
-- database and asks the server to generate code for the selected ones. `Console` is the page's
-- state: the Vue model, the part of the jqGrid that the script reads and writes, and what the
-- script has sent out so far (requests for rows, alerts, the address that it navigated to).
pub mod Address
pub mod Browser
pub mod Refusals
pub mod Steps
pub mod Requests
mod Tests
use mq_kafka.Prelude.{
  ℕ, Bool, true, false, Option, none, some, List, [], ◌∷◌, ◌++◌, ◌==◌, if◌then◌else◌,
}
use mq_kafka.Text.{Text, codes, join}
use mq_kafka.Tools.{is_blank}
use mq_kafka.Tools.Selection.{Grid, get_selected_rows}

-- `vm.q`, also the filter that the grid sends along.
pub record Filter : Type 0 where
  pub table_name : Option Text
  pub schema_name : Text

pub record GenerateModel : Type 0 where
  pub base_package : Text
  pub module_name : Text
  pub tb_prefix : Option Text

-- The fields that the script reads or writes. A database is given by its schema's name, `none` in
-- `tables` is undefined, and the two last fields are undefined until they are written.
pub record Model : Type 0 where
  pub databases : List Text
  pub show_list : Bool
  pub tables : Option (List Text)
  pub q : Filter
  pub generate_model : GenerateModel
  pub active_names : List Text
  pub module_name : Option Text
  pub model_name : Option Text

-- What the grid asks the server for when it is reloaded.
pub record Request : Type 0 where
  pub page : ℕ
  pub filter : Filter

pub record Console : Type 0 where
  pub vm : Model
  pub grid : Grid
  pub page : ℕ
  pub post_data : Filter
  pub requests : List Request
  pub alerts : List Text
  pub location : Option Text

abbrev pub initial : Console
initial = record {
  vm = record {
    databases = [];
    show_list = true;
    tables = some [];
    q = record { table_name = none; schema_name = [] };
    generate_model = record { base_package = []; module_name = []; tb_prefix = none };
    active_names = codes "1" ∷ [];
    module_name = none;
    model_name = none;
  };
  grid = record { selrow = none; selarrrow = [] };
  page = 1;
  post_data = record { table_name = none; schema_name = [] };
  requests = [];
  alerts = [];
  location = none;
}

abbrev pub show : List Text → Console → Console
show msgs c = record c { alerts = c.alerts ++ msgs }

-- The callback of the request for the databases.
pub databases_loaded : ℕ → List Text → Text → Console → Console
databases_loaded code rows msg c =
    if code == 0 then record c { vm = record c.vm { databases = rows } } else show (msg ∷ []) c

-- `setGridParam` with a filter and a page, then `reloadGrid`.
abbrev reload_grid : Filter → ℕ → Console → Console
reload_grid filter page c = record c {
  post_data = filter;
  page = page;
  requests = c.requests ++ record { page = page; filter = filter } ∷ [];
}

pub query : Console → Console
query c = reload_grid c.vm.q 1 c

-- It writes to the browser's console only.
pub handle_change : Text → Console → Console
handle_change val c = c

pub pannel_change : Text → Console → Console
pannel_change val c = record c { vm = record c.vm { active_names = val ∷ [] } }

pub choose_module : Console → Console
choose_module c = record c { vm = record c.vm { module_name = c.vm.model_name } }

abbrev configured : Option (List Text) → Console → Console
configured none c = record c { vm = record c.vm { tables = none } }
configured (some ids) c = record c {
  vm = record c.vm { tables = some ids; show_list = false; active_names = codes "2" ∷ [] };
}

pub config_gen : Console → Console
config_gen c = let (rows, msgs) = get_selected_rows c.grid in configured rows (show msgs c)

abbrev pub no_package : Text
no_package = codes "基础包路径不能为空"

abbrev pub no_module : Text
no_module = codes "模块名称不能为空"

-- The alerts shown, and whether the answer is `true` (it is undefined otherwise).
pub validator : GenerateModel → Bool × List Text
validator m =
    if is_blank (some m.base_package)
    then (true, no_package ∷ [])
    else if is_blank (some m.module_name)
    then (true, no_module ∷ [])
    else (false, [])

pub code_url : List Text → Text → GenerateModel → Text
code_url table_names schema_name m =
    codes "sys/generator/code?tables="
    ++ (join (codes ",") table_names
        ++ (codes "&schemaName="
            ++ (schema_name
                ++ (codes "&moduleName="
                    ++ (m.module_name ++ (codes "&basePackage=" ++ m.base_package))))))

abbrev navigate : Option (List Text) → Console → Console
navigate none c = c
navigate (some ids) c = record c {
  location = some (code_url ids c.vm.q.schema_name c.vm.generate_model);
}

-- The rest of `generator`, when `validator` has not answered `true`.
abbrev generate_checked : Console → Console
generate_checked c = let (rows, msgs) = get_selected_rows c.grid in navigate rows (show msgs c)

pub generator : Console → Console
unfolding validator
generator c =
    let (refused, msgs) = validator c.vm.generate_model in
    if refused then show msgs c else generate_checked (show msgs c)

unfoldable pub reload : Console → Console
reload c = reload_grid c.vm.q c.page (record c { vm = record c.vm { show_list = true } })
