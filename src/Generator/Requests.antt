-- ===== src/Generator/Requests.antt =====
-- generator.js: what the script asks the grid to fetch.
use mq_kafka.Prelude.{ℕ, ◌≡◌, refl, ◌⊎◌, inl, inr, List, [], ◌∷◌, ◌++◌, true, arith}
use mq_kafka.Text.{Text}
use mq_kafka.Generator.{
  Console, databases_loaded, query, handle_change, pannel_change, choose_module, config_gen,
  generator, reload,
}
use mq_kafka.Generator.Steps.{
  Step, loads, selects, turns, picks_schema, types_table, queries, configures, types_package,
  types_module, generates, returns, changes, opens, chooses,
}

-- One more request, for the page that the grid then stands at, under the filter that the form shows
-- and that the grid keeps.
abbrev pub Asks : Console → Console → Type 0
Asks c d =
    (d.requests ≡ c.requests ++ record { page = d.page; filter = d.vm.q } ∷ [])
    × (d.post_data ≡ d.vm.q)

abbrev pub Quiet : Console → Console → Type 0
Quiet c d = (d.requests ≡ c.requests) × (d.post_data ≡ c.post_data)

loads-Quiet :
    (code : ℕ) (rows : List Text) (msg : Text) (c : Console)
    → Quiet c (databases_loaded code rows msg c)
unfolding databases_loaded
loads-Quiet code rows msg c = ground arith

config_gen-Quiet : (c : Console) → Quiet c (config_gen c)
unfolding config_gen
config_gen-Quiet c = ground arith

generator-Quiet : (c : Console) → Quiet c (generator c)
unfolding generator
generator-Quiet c = ground arith

-- Each step of the page sends at most one request for rows, and one that it sends carries the
-- filter of the form as it stands then; a step that sends none leaves the grid's filter alone.
pub Step-requests : {c d : Console} → Step c d → Asks c d ⊎ Quiet c d
unfolding query handle_change pannel_change choose_module reload
Step-requests (loads c code rows msg) = inr (loads-Quiet code rows msg c)
Step-requests (selects c g ok) = inr (refl, refl)
Step-requests (turns c n h) = inr (refl, refl)
Step-requests (picks_schema c t h) = inl (refl, refl)
Step-requests (types_table c t h) = inr (refl, refl)
Step-requests (queries c h) = inl (refl, refl)
Step-requests (configures c h) = inr (config_gen-Quiet c)
Step-requests (types_package c t h) = inr (refl, refl)
Step-requests (types_module c t h) = inr (refl, refl)
Step-requests (generates c h) = inr (generator-Quiet c)
Step-requests (returns c h) = inl (refl, refl)
Step-requests (changes c val) = inr (refl, refl)
Step-requests (opens c val) = inr (refl, refl)
Step-requests (chooses c) = inr (refl, refl)

-- A query starts over at the first page whatever page was shown; coming back from the options
-- fetches the page that was shown, and shows the list.
pub query-reload :
    (c : Console)
    → ((query c).page ≡ 1)
      × Asks c (query c)
      × ((query c).vm ≡ c.vm)
      × ((reload c).page ≡ c.page)
      × Asks c (reload c)
      × ((reload c).vm.show_list ≡ true)
unfolding query reload
query-reload c = (refl, (refl, refl), refl, refl, (refl, refl), refl)
