-- ===== src/Server/Code/Files.antt =====
-- The archive behind the loop over the templates.
use mq_kafka.Prelude.{
  ◌≡◌, ◌≢◌, ◌↔◌, refl, sym, subst, ap, ◌∙◌, Bool-cases, inl, inr, false, Option, none, some, ◌>>=◌,
  some->>=, List, [], ◌∷◌, ◌++◌, append_assoc, append-nil, map, All, AllDifferent,
  AllDifferent-snoc, AllDifferent-before, map-append, arith,
}
use mq_kafka.Text.{Text}
use mq_kafka.Text.Laws.{eq_text_iff}
use mq_kafka.Server.Entities.{TableEntity}
use mq_kafka.Server.Files.{get_context, get_file_name}
use mq_kafka.Server.Code.{Zip, Setting, has_entry, put_entry, put_named, add_file, add_files}

abbrev pub name_of_entry : Text × Text → Text
name_of_entry entry = entry.0

abbrev pub entry_names : Zip → List Text
entry_names zip = map name_of_entry zip

-- The entries that the templates make, those without a name left out.
abbrev file_of : Option Text → Text → Zip
file_of none content = []
file_of (some name) content = (name, content) ∷ []

module _ (setting : Setting) (table : TableEntity) where
  abbrev pub files : List Text → Zip
  files [] = []
  files (template ∷ templates) =
      file_of (get_file_name template (get_context table setting.base_package setting.module_name))
        (setting.render template table setting.base_package setting.module_name)
      ++ files templates

has_entry-false :
    (name : Text) (zip : Zip) → (has_entry name zip ≡ false) ↔ All (λ n. n ≢ name) (entry_names zip)
unfolding has_entry
has_entry-false name [] = (λ _. tt, λ _. refl)
has_entry-false name (entry ∷ zip) =
    ground (arith, has_entry-false name zip, eq_text_iff entry.0 name)

put_entry-some :
    (name content : Text) (zip z : Zip)
    → put_entry name content zip ≡ some z
    → (z ≡ zip ++ ((name, content) ∷ [])) × All (λ n. n ≢ name) (entry_names zip)
unfolding put_entry
put_entry-some name content zip z h = elim (Bool-cases (has_entry name zip)) [
  | inl e ↦ absurd (cc (e, h))
  | inr e ↦ (cc (e, h), (has_entry-false name zip).0 e)
]

put_entry_fresh :
    (name content : Text) (zip : Zip)
    → All (λ n. n ≢ name) (entry_names zip)
    → put_entry name content zip ≡ some (zip ++ ((name, content) ∷ []))
unfolding put_entry
put_entry_fresh name content zip h = rw ((has_entry-false name zip).1 h)

entry_names_snoc :
    (zip : Zip) (name content : Text)
    → AllDifferent (entry_names zip)
    → All (λ n. n ≢ name) (entry_names zip)
    → AllDifferent (entry_names (zip ++ ((name, content) ∷ [])))
entry_names_snoc zip name content d h =
    subst AllDifferent (sym (map-append name_of_entry zip ((name, content) ∷ [])))
      (AllDifferent-snoc (entry_names zip) name d h)

put_named-some :
    (o : Option Text) (content : Text) (zip z : Zip)
    → AllDifferent (entry_names zip)
    → put_named o content zip ≡ some z
    → (z ≡ zip ++ file_of o content) × AllDifferent (entry_names z)
unfolding put_named
put_named-some none content zip z d h =
    let same : zip ≡ z = cc h in
    (sym same ∙ sym (append-nil zip), subst (λ z. AllDifferent (entry_names z)) same d)
put_named-some (some name) content zip z d h =
    let (same, new) = put_entry-some name content zip z h in
    (
      same,
      subst (λ z. AllDifferent (entry_names z)) (sym same)
          (entry_names_snoc zip name content d new),
    )

put_named_fresh :
    (o : Option Text) (content : Text) (zip more : Zip)
    → AllDifferent (entry_names (zip ++ (file_of o content ++ more)))
    → put_named o content zip ≡ some (zip ++ file_of o content)
unfolding put_named
put_named_fresh none content zip more d = ap some (sym (append-nil zip))
put_named_fresh (some name) content zip more d = put_entry_fresh name content zip (
    AllDifferent-before (entry_names zip) name (entry_names more)
      (subst AllDifferent (map-append name_of_entry zip ((name, content) ∷ more)) d))

module _ (setting : Setting) (table : TableEntity) where
  abbrev made_of : Text → Zip
  made_of template =
      file_of (get_file_name template (get_context table setting.base_package setting.module_name))
        (setting.render template table setting.base_package setting.module_name)

  -- The archive behind the loop: the files are added, and no name stands in it twice.
  pub add_files-some :
      (templates : List Text) (zip z : Zip)
      → AllDifferent (entry_names zip)
      → add_files setting table templates zip ≡ some z
      → (z ≡ zip ++ files setting table templates) × AllDifferent (entry_names z)
  unfolding add_files add_file
  add_files-some [] zip z d h =
      let same : zip ≡ z = cc h in
      (sym same ∙ sym (append-nil zip), subst (λ z. AllDifferent (entry_names z)) same d)
  add_files-some (template ∷ templates) zip z d h =
      let (next, round, rest) =
        some->>= (add_file setting table template zip) (add_files setting table templates) z h in
      let (same, d) =
        put_named-some
          (get_file_name template (get_context table setting.base_package setting.module_name))
          (setting.render template table setting.base_package setting.module_name) zip next d
          round in
      let (all, d) = add_files-some templates next z d rest in
      (all ∙ ap (λ n. n ++ files setting table templates) same ∙ append_assoc zip _ _, d)

  -- Where the names are all different, the loop comes to its end.
  pub add_files_fresh :
      (templates : List Text) (zip : Zip)
      → AllDifferent (entry_names (zip ++ files setting table templates))
      → add_files setting table templates zip ≡ some (zip ++ files setting table templates)
  unfolding add_files add_file
  add_files_fresh [] zip d = ap some (sym (append-nil zip))
  add_files_fresh (template ∷ templates) zip d =
      let round =
        put_named_fresh
          (get_file_name template (get_context table setting.base_package setting.module_name))
          (setting.render template table setting.base_package setting.module_name) zip
          (files setting table templates) d in
      let same = append_assoc zip (made_of template) (files setting table templates) in
      ap (λ o. o >>= add_files setting table templates) round
      ∙ add_files_fresh templates (zip ++ made_of template)
          (subst (λ z. AllDifferent (entry_names z)) (sym same) d)
      ∙ ap some same
