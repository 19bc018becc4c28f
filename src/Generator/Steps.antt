-- ===== src/Generator/Steps.antt =====
-- generator.js as a state machine. views/generator.html shows the list with its buttons while
-- `showList` is true and the options with theirs while it is false; what it binds to a button is a
-- step from such a state.
use mq_kafka.Prelude.{
  ℕ, ◌≡◌, refl, sym, ◌∙◌, ◌≢◌, inl, inr, true, false, Option, some, List, [], arith, ◌≤◌,
}
use mq_kafka.Text.{Text}
use mq_kafka.Tools.Laws.{IsBlank}
use mq_kafka.Tools.Selection.{Grid}
use mq_kafka.Tools.Selection.Laws.{IsConsistent}
use mq_kafka.Generator.{
  Console, Filter, GenerateModel, initial, databases_loaded, query, handle_change, pannel_change,
  choose_module, config_gen, generator, reload, code_url,
}
use mq_kafka.Generator.Refusals.{config_gen_cases, generator_cases}

abbrev with_filter : (Filter → Filter) → Console → Console
with_filter f c = record c { vm = record c.vm { q = f c.vm.q } }

abbrev pub with_options : (GenerateModel → GenerateModel) → Console → Console
with_options f c = record c { vm = record c.vm { generate_model = f c.vm.generate_model } }

pub data Step : Console → Console → Type 0 where
  loads :
      (c : Console) (code : ℕ) (rows : List Text) (msg : Text)
      → Step c (databases_loaded code rows msg c)
  -- The selection changes, by the user or by the library when rows arrive.
  selects : (c : Console) (g : Grid) → IsConsistent g → Step c (record c { grid = g })
  turns : (c : Console) (n : ℕ) → 1 ≤ n → Step c (record c { page = n })
  picks_schema :
      (c : Console) (s : Text)
      → c.vm.show_list ≡ true
      → Step c (query (with_filter (λ q. record q { schema_name = s }) c))
  types_table :
      (c : Console) (t : Option Text)
      → c.vm.show_list ≡ true
      → Step c (with_filter (λ q. record q { table_name = t }) c)
  queries : (c : Console) → c.vm.show_list ≡ true → Step c (query c)
  configures : (c : Console) → c.vm.show_list ≡ true → Step c (config_gen c)
  types_package :
      (c : Console) (t : Text)
      → c.vm.show_list ≡ false
      → Step c (with_options (λ m. record m { base_package = t }) c)
  types_module :
      (c : Console) (t : Text)
      → c.vm.show_list ≡ false
      → Step c (with_options (λ m. record m { module_name = t }) c)
  generates : (c : Console) → c.vm.show_list ≡ false → Step c (generator c)
  returns : (c : Console) → c.vm.show_list ≡ false → Step c (reload c)
  -- The methods that the page binds to nothing.
  changes : (c : Console) (val : Text) → Step c (handle_change val c)
  opens : (c : Console) (val : Text) → Step c (pannel_change val c)
  chooses : (c : Console) → Step c (choose_module c)

pub data Reach (c : Console) : Console → Type 0 where
  here : Reach c c
  next : {d e : Console} → Reach c d → Step d e → Reach c e

-- The address asks for the code of at least one table, for a package and a module that are not
-- blank.
abbrev pub AsksForCode : Text → Type 0
AsksForCode u =
    (ids : List Text) × (schema : Text) × (m : GenerateModel) × (ids ≢ [])
    × (¬ IsBlank (some m.base_package))
    × (¬ IsBlank (some m.module_name))
    × (u ≡ code_url ids schema m)

record IsSound (c : Console) : Type 0 where
  pub consistent : IsConsistent c.grid
  pub chosen : c.vm.show_list ≡ false → (ids : List Text) × (c.vm.tables ≡ some ids) × (ids ≢ [])
  pub sent : (u : Text) → c.location ≡ some u → AsksForCode u

initial-IsSound : IsSound initial
initial-IsSound = record {
  consistent = record { nothing = λ e. refl; something = λ e. refl; named = λ e. cc };
  chosen = λ e. cc;
  sent = λ u e. cc;
}

module _ {c d : Console} where
  keeps :
      d.grid ≡ c.grid
      → d.vm.show_list ≡ c.vm.show_list
      → d.vm.tables ≡ c.vm.tables
      → d.location ≡ c.location
      → IsSound c
      → IsSound d
  keeps g l t u s = record {
    consistent = rw g s.consistent;
    chosen = λ h. rw t (s.chosen (sym l ∙ h));
    sent = λ v h. s.sent v (sym u ∙ h);
  }

  listing :
      d.grid ≡ c.grid → d.vm.show_list ≡ true → d.location ≡ c.location → IsSound c → IsSound d
  listing g l u s = record {
    consistent = rw g s.consistent;
    chosen = λ h. cc;
    sent = λ v h. s.sent v (sym u ∙ h);
  }

config_gen-IsSound : (c : Console) → c.vm.show_list ≡ true → IsSound c → IsSound (config_gen c)
config_gen-IsSound c listed s = elim (config_gen_cases c s.consistent) [
  | inl (e, same) ↦ rw same (listing {c = c} refl listed refl s)
  | inr (n, same) ↦ rw same (record {
    consistent = s.consistent;
    chosen = λ h. (c.grid.selarrrow, refl, n);
    sent = s.sent;
  })
]

generator-IsSound : (c : Console) → IsSound c → IsSound (generator c)
generator-IsSound c s = elim (generator_cases c s.consistent) [
  | inl (packaged, named, n, same) ↦ rw same (record {
    consistent = s.consistent;
    chosen = s.chosen;
    sent =
        λ u e. (c.grid.selarrrow, c.vm.q.schema_name, c.vm.generate_model, n, packaged, named, cc);
  })
  | inr (msg, same, _) ↦ rw same (keeps {c = c} refl refl refl refl s)
]

databases_loaded-IsSound :
    (code : ℕ) (rows : List Text) (msg : Text) (c : Console)
    → IsSound c
    → IsSound (databases_loaded code rows msg c)
unfolding databases_loaded
databases_loaded-IsSound code rows msg c s =
    keeps (ground arith) (ground arith) (ground arith) (ground arith) s

Step-IsSound : {c d : Console} → Step c d → IsSound c → IsSound d
unfolding query handle_change pannel_change choose_module reload
Step-IsSound (loads c code rows msg) s = databases_loaded-IsSound code rows msg c s
Step-IsSound (selects c g ok) s = record { consistent = ok; chosen = s.chosen; sent = s.sent }
Step-IsSound (turns c n h) s = keeps {c = c} refl refl refl refl s
Step-IsSound (picks_schema c t h) s = keeps {c = c} refl refl refl refl s
Step-IsSound (types_table c t h) s = keeps {c = c} refl refl refl refl s
Step-IsSound (queries c h) s = keeps {c = c} refl refl refl refl s
Step-IsSound (configures c h) s = config_gen-IsSound c h s
Step-IsSound (types_package c t h) s = keeps {c = c} refl refl refl refl s
Step-IsSound (types_module c t h) s = keeps {c = c} refl refl refl refl s
Step-IsSound (generates c h) s = generator-IsSound c s
Step-IsSound (returns c h) s = listing {c = c} refl refl refl s
Step-IsSound (changes c val) s = s
Step-IsSound (opens c val) s = keeps {c = c} refl refl refl refl s
Step-IsSound (chooses c) s = keeps {c = c} refl refl refl refl s

Reach-IsSound : {c d : Console} → Reach c d → IsSound c → IsSound d
Reach-IsSound here s = s
Reach-IsSound (next r st) s = Step-IsSound st (Reach-IsSound r s)

-- In every state that the page can reach from its start, the options are shown only with at least
-- one table chosen, and the page has navigated, if at all, to an address that asks for the code of
-- at least one table with a package and a module that are not blank.
pub Reach-safe :
    {c : Console}
    → Reach initial c
    → (c.vm.show_list ≡ false → (ids : List Text) × (c.vm.tables ≡ some ids) × (ids ≢ []))
      × ((u : Text) → c.location ≡ some u → AsksForCode u)
Reach-safe r = let s = Reach-IsSound r initial-IsSound in (s.chosen, s.sent)
