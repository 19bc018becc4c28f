-- ===== src/Generator/Refusals.antt =====
-- generator.js: what `configGen` and `generator` do on each branch.
use mq_kafka.Prelude.{
  ◌≡◌, refl, sym, ◌∙◌, ◌≢◌, ◌⊎◌, inl, inr, true, false, Bool-cases, none, some, List, [], ◌∷◌, ◌++◌,
  append-nil,
}
use mq_kafka.Text.{Text, codes}
use mq_kafka.Tools.{is_blank}
use mq_kafka.Tools.Laws.{IsBlank, is_blank_iff}
use mq_kafka.Tools.Selection.{choose_one, get_selected_rows}
use mq_kafka.Tools.Selection.Laws.{IsConsistent, get_selected_rows_iff}
use mq_kafka.Generator.{
  Console, GenerateModel, show, config_gen, generator, code_url, no_package, no_module,
}

List-cases {ℓ} : {A : Type ℓ} (xs : List A) → (xs ≡ []) ⊎ (xs ≢ [])
List-cases [] = inl refl
List-cases (x ∷ xs) = inr (λ e. cc)

module _ (c : Console) (ok : IsConsistent c.grid) where
  rows_none : c.grid.selarrrow ≡ [] → get_selected_rows c.grid ≡ (none, choose_one ∷ [])
  rows_none e = (get_selected_rows_iff c.grid [] [] ok).1 e

  rows_some : c.grid.selarrrow ≢ [] → get_selected_rows c.grid ≡ (some c.grid.selarrrow, [])
  rows_some n = (get_selected_rows_iff c.grid c.grid.selarrrow [] ok).0.1 (refl, n, refl)

  -- `configGen` with no row selected shows one alert, forgets the tables chosen before and changes
  -- nothing else; otherwise it takes the selected tables, at least one, to the second panel, the
  -- options, and changes nothing else.
  pub config_gen_cases :
      ((c.grid.selarrrow ≡ [])
        × (config_gen c ≡ record c {
          vm = record c.vm { tables = none };
          alerts = c.alerts ++ choose_one ∷ [];
        }))
      ⊎ ((c.grid.selarrrow ≢ [])
          × (config_gen c ≡ record c {
            vm = record c.vm {
              tables = some c.grid.selarrrow;
              show_list = false;
              active_names = codes "2" ∷ [];
            };
          }))
  unfolding config_gen
  config_gen_cases = elim (List-cases c.grid.selarrrow) [
    | inl e ↦ inl (e, rw (rows_none e, config_gen))
    | inr n ↦ inr (n, rw (rows_some n, config_gen) (rw (append-nil c.alerts)))
  ]

  abbrev m : GenerateModel
  m = c.vm.generate_model

  refused_package : is_blank (some m.base_package) ≡ true → generator c ≡ show (no_package ∷ []) c
  unfolding generator
  refused_package e = rw (e, generator)

  refused_module :
      is_blank (some m.base_package) ≡ false
      → is_blank (some m.module_name) ≡ true
      → generator c ≡ show (no_module ∷ []) c
  unfolding generator
  refused_module e k = rw (e, k, generator)

  module _ (e : is_blank (some m.base_package) ≡ false)
      (k : is_blank (some m.module_name) ≡ false) where
    refused_rows : c.grid.selarrrow ≡ [] → generator c ≡ show (choose_one ∷ []) c
    unfolding generator
    refused_rows n = rw (e, k, generator) (rw (rows_none n) (rw (append-nil c.alerts)))

    navigated :
        c.grid.selarrrow ≢ []
        → generator c
          ≡ record c { location = some (code_url c.grid.selarrrow c.vm.q.schema_name m) }
    unfolding generator
    navigated n =
        rw (e, k, generator) (rw (rows_some n) (rw (append-nil c.alerts, append-nil c.alerts)))

  not-IsBlank : (v : Text) → is_blank (some v) ≡ false → ¬ IsBlank (some v)
  not-IsBlank v e h = cc (sym e ∙ (is_blank_iff (some v)).1 h)

  -- `generator` navigates to the address of the selected tables where the package and the module
  -- are not blank and some row is selected, and then changes nothing else. Otherwise it shows one
  -- alert, which names something that is missing, and changes nothing else.
  pub generator_cases :
      ((¬ IsBlank (some c.vm.generate_model.base_package))
        × (¬ IsBlank (some c.vm.generate_model.module_name))
        × (c.grid.selarrrow ≢ [])
        × (generator c ≡ record c {
          location = some (code_url c.grid.selarrrow c.vm.q.schema_name c.vm.generate_model);
        }))
      ⊎ ((msg : Text) × (generator c ≡ show (msg ∷ []) c)
          × (((msg ≡ no_package) × IsBlank (some c.vm.generate_model.base_package))
              ⊎ ((msg ≡ no_module) × IsBlank (some c.vm.generate_model.module_name))
              ⊎ ((msg ≡ choose_one) × (c.grid.selarrrow ≡ []))))
  generator_cases = elim (Bool-cases (is_blank (some m.base_package))) [
    | inl e ↦ inr (no_package, refused_package e, inl (refl, (is_blank_iff _).0 e))
    | inr e ↦ elim (Bool-cases (is_blank (some m.module_name))) [
      | inl k ↦ inr (no_module, refused_module e k, inr (inl (refl, (is_blank_iff _).0 k)))
      | inr k ↦ elim (List-cases c.grid.selarrrow) [
        | inl n ↦ inr (choose_one, refused_rows e k n, inr (inr (refl, n)))
        | inr n ↦
            inl (not-IsBlank m.base_package e, not-IsBlank m.module_name k, n, navigated e k n)
      ]
    ]
  ]
