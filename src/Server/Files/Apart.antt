-- ===== src/Server/Files/Apart.antt =====
-- The twelve files of a table have different names.
use mq_kafka.Prelude.{
  ℕ, ◌+◌, ◌≡◌, ◌≢◌, refl, ap, ap₂, ◌∙◌, Option, none, some, List, [], ◌∷◌, ◌++◌, map, arith, All,
  AllDifferent,
}
use mq_kafka.Text.{Text, codes}
use mq_kafka.Server.Names.{trans_package_name_to_path}
use mq_kafka.Server.Entities.{TableEntity}
use mq_kafka.Server.Files.{
  get_templates, get_context, get_file_name, path_of, package_path, resources_path,
}

-- The sum of a text's code units, which tells the names apart.
weight : Text → ℕ
weight [] = 0
weight (c ∷ s) = c + weight s

weight-append : (s t : Text) → weight (s ++ t) ≡ weight s + weight t
unfolding weight
weight-append [] t = omega arith
weight-append (c ∷ s) t = omega (arith, weight-append s t)

trans-append :
    (s t : Text)
    → trans_package_name_to_path (s ++ t)
      ≡ trans_package_name_to_path s ++ trans_package_name_to_path t
unfolding trans_package_name_to_path
trans-append [] t = refl
trans-append (c ∷ s) t = ground (arith, trans-append s t)

abbrev pub file_names : TableEntity → Text → Text → List (Option Text)
file_names table base_package module_name =
    map (λ t. get_file_name t (get_context table base_package module_name)) get_templates

-- Names and what they weigh above a number.
abbrev Weigh : ℕ → List (Option Text) → List ℕ → Type 0
Weigh k [] [] = Unit
Weigh k (some t ∷ ts) (n ∷ ns) = (weight t ≡ k + n) × Weigh k ts ns
Weigh k _ _ = ⊥

module _ (k : ℕ) where
  apart_from_All :
      (t : Text) (n : ℕ) (ts : List (Option Text)) (ns : List ℕ)
      → weight t ≡ k + n
      → Weigh k ts ns
      → All (λ m. n ≢ m) ns
      → All (λ u. some t ≢ u) ts
  apart_from_All t n [] [] e h d = tt
  apart_from_All t n [] (m ∷ ns) e h d = tt
  apart_from_All t n (none ∷ ts) [] e h d = absurd h
  apart_from_All t n (none ∷ ts) (m ∷ ns) e h d = absurd h
  apart_from_All t n (some u ∷ ts) [] e h d = absurd h
  apart_from_All t n (some u ∷ ts) (m ∷ ns) e h d = (
    λ same.
        let u_too : weight t ≡ weight u = cc same in
        let equal : n ≡ m = omega (arith, e, h.0, u_too) in d.0 equal,
    apart_from_All t n ts ns e h.1 d.1,
  )

  AllDifferent-of_Weigh :
      (ts : List (Option Text)) (ns : List ℕ) → Weigh k ts ns → AllDifferent ns → AllDifferent ts
  AllDifferent-of_Weigh [] ns h d = tt
  AllDifferent-of_Weigh (none ∷ ts) [] h d = absurd h
  AllDifferent-of_Weigh (none ∷ ts) (n ∷ ns) h d = absurd h
  AllDifferent-of_Weigh (some t ∷ ts) [] h d = absurd h
  AllDifferent-of_Weigh (some t ∷ ts) (n ∷ ns) h d =
      (apart_from_All t n ts ns h.0 h.1 d.0, AllDifferent-of_Weigh ts ns h.1 d.1)

named_of_Weigh :
    (k : ℕ) (ts : List (Option Text)) (ns : List ℕ) → Weigh k ts ns → All (λ t. t ≢ none) ts
named_of_Weigh k [] ns h = tt
named_of_Weigh k (none ∷ ts) [] h = absurd h
named_of_Weigh k (none ∷ ts) (n ∷ ns) h = absurd h
named_of_Weigh k (some t ∷ ts) [] h = absurd h
named_of_Weigh k (some t ∷ ts) (n ∷ ns) h = (cc, named_of_Weigh k ts ns h.1)

weight-path_of :
    (path name class_name extension : Text)
    → weight (path_of path name class_name extension)
      ≡ weight path
        + 94
        + weight (trans_package_name_to_path name)
        + weight class_name
        + weight extension
unfolding path_of weight
weight-path_of path name class_name extension =
    let pack = trans_package_name_to_path name in
    omega (
      arith,
      weight-append path (b'/' ∷ (pack ++ (b'/' ∷ (class_name ++ extension)))),
      weight-append pack (b'/' ∷ (class_name ++ extension)),
      weight-append class_name extension,
    )

abbrev weights : List ℕ
weights = 2738 ∷ 4121 ∷ 4753 ∷ 4422 ∷ 3934 ∷ 3931 ∷ 4741 ∷ 3620 ∷ 4108 ∷ 3367 ∷ 3889 ∷ 3845 ∷ []

module _ (table : TableEntity) (base_package module_name : Text) where
  -- The part that all names share.
  shared : ℕ
  shared =
      weight (trans_package_name_to_path base_package)
      + weight (trans_package_name_to_path module_name)
      + weight table.class_name

  weight_file :
      (path suffix class_name extension : Text) (n : ℕ)
      → weight class_name ≡ weight table.class_name + n
      → weight (
          path_of path
            ((base_package ++ codes ".") ++ (module_name ++ suffix))
            class_name
            extension)
        ≡ shared
          + (weight path + 141 + weight (trans_package_name_to_path suffix) + n + weight extension)
  unfolding shared weight trans_package_name_to_path
  weight_file path suffix class_name extension n e =
      let base = trans_package_name_to_path base_package in
      let inner = trans_package_name_to_path module_name in
      let last = trans_package_name_to_path suffix in
      let packed : trans_package_name_to_path
            ((base_package ++ codes ".") ++ (module_name ++ suffix))
          ≡ (base ++ codes "/") ++ (inner ++ last) =
        trans-append (base_package ++ codes ".") (module_name ++ suffix)
        ∙ ap₂ (λ x y. x ++ y) (trans-append base_package (codes "."))
            (trans-append module_name suffix) in
      let heavy = ap weight packed in
      omega (
        arith,
        e,
        heavy,
        weight-append (base ++ codes "/") (inner ++ last),
        weight-append base (codes "/"),
        weight-append inner last,
        weight-path_of path ((base_package ++ codes ".") ++ (module_name ++ suffix)) class_name
            extension,
      )

  weight_around :
      (before after : Text)
      → weight (before ++ (table.class_name ++ after))
        ≡ weight table.class_name + (weight before + weight after)
  weight_around before after = omega (
    arith,
    weight-append before (table.class_name ++ after),
    weight-append table.class_name after,
  )

  file_names-Weigh : Weigh shared (file_names table base_package module_name) weights
  unfolding get_file_name get_context weight trans_package_name_to_path
  file_names-Weigh =
      let own = table.class_name in
      (
        weight_file package_path (codes ".biz.bean") own (codes ".java") 0 (omega arith),
        (
          weight_file package_path (codes ".dao.mapper.gen.entity") (codes "T" ++ own)
              (codes ".java") 84 (omega arith),
          (
            weight_file package_path (codes ".dao.mapper.gen.entity") (own ++ codes "Example")
                (codes ".java") 716 (weight-append own (codes "Example")),
            (
              weight_file resources_path (codes ".dao.mapper.gen") (own ++ codes "Mapper")
                  (codes ".xml") 613 (weight-append own (codes "Mapper")),
              (
                weight_file package_path (codes ".dao.mapper.gen") (own ++ codes "Mapper")
                    (codes ".java") 613 (weight-append own (codes "Mapper")),
                (
                  weight_file package_path (codes ".biz.repo")
                      (codes "I" ++ (own ++ codes "Repository")) (codes ".java") 1161
                      (weight_around (codes "I") (codes "Repository")),
                  (
                    weight_file package_path (codes ".biz.repo.impl")
                        (own ++ codes "RepositoryImpl") (codes ".java") 1490
                        (weight-append own (codes "RepositoryImpl")),
                    (
                      weight_file package_path (codes ".dao.mapper.ext") (own ++ codes "Dao")
                          (codes ".java") 276 (weight-append own (codes "Dao")),
                      (
                        weight_file resources_path (codes ".dao.mapper.ext") (own ++ codes "Dao")
                            (codes ".xml") 276 (weight-append own (codes "Dao")),
                        (
                          weight_file package_path (codes ".biz.api") (own ++ codes "Service")
                              (codes ".java") 721 (weight-append own (codes "Service")),
                          (
                            weight_file package_path (codes ".biz.impl")
                                (own ++ codes "ServiceImpl") (codes ".java") 1123
                                (weight-append own (codes "ServiceImpl")),
                            (
                              weight_file package_path (codes ".srs.impl")
                                  (own ++ codes "Controller") (codes ".java") 1060
                                  (weight-append own (codes "Controller")),
                              tt,
                            ),
                          ),
                        ),
                      ),
                    ),
                  ),
                ),
              ),
            ),
          ),
        ),
      )

  -- Each of the twelve templates has a file's name, and the twelve names are all different, whatever
  -- the table's class, the package and the module are called.
  pub file_names-AllDifferent :
      All (λ name. name ≢ none) (file_names table base_package module_name)
      × AllDifferent (file_names table base_package module_name)
  file_names-AllDifferent =
      let names = file_names table base_package module_name in
      let apart : AllDifferent weights = omega arith in
      (
        named_of_Weigh shared names weights file_names-Weigh,
        AllDifferent-of_Weigh shared names weights file_names-Weigh apart,
      )
