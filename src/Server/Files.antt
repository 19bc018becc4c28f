-- ===== src/Server/Files.antt =====
-- The files that are generated for a table: `getTemplates`, `getContext` and `getFileName` of
-- code-generator/src/main/java/com/data/utils/GenUtils.java. Of the context stand here the entries
-- that `getFileName` reads; the others are for the templates alone. The separator is that of Unix.
pub mod Apart
use mq_kafka.Prelude.{ℕ, Option, none, some, List, [], ◌∷◌, ◌++◌, if◌then◌else◌}
use mq_kafka.Text.{Text, codes, occurs}
use mq_kafka.Server.Names.{trans_package_name_to_path}
use mq_kafka.Server.Entities.{TableEntity}

abbrev pub get_templates : List Text
get_templates =
    codes "/POJO.java.btl"
    ∷ codes "/Entity.java.btl"
    ∷ codes "/Example.java.btl"
    ∷ codes "/Mapper.xml.btl"
    ∷ codes "/Mapper.java.btl"
    ∷ codes "/IRepository.java.btl"
    ∷ codes "/RepositoryImpl.java.btl"
    ∷ codes "/Dao.java.btl"
    ∷ codes "/Dao.xml.btl"
    ∷ codes "/Service.java.btl"
    ∷ codes "/ServiceImpl.java.btl"
    ∷ codes "/Controller.java.btl"
    ∷ []

pub record Context : Type 0 where
  pub pojo_class_name : Text
  pub entity_class_name : Text
  pub example_class_name : Text
  pub mapper_class_name : Text
  pub dao_class_name : Text
  pub i_repository_class_name : Text
  pub repository_impl_class_name : Text
  pub service_class_name : Text
  pub service_impl_class_name : Text
  pub controller_class_name : Text
  pub pojo_package_name : Text
  pub entity_package_name : Text
  pub example_package_name : Text
  pub mapper_package_name : Text
  pub dao_package_name : Text
  pub i_repository_package_name : Text
  pub repository_impl_package_name : Text
  pub service_package_name : Text
  pub service_impl_package_name : Text
  pub controller_package_name : Text

unfoldable pub get_context : TableEntity → Text → Text → Context
get_context table base_package module_name =
    let class_name = table.class_name in
    let packaged : Text → Text =
      λ (name : Text). (base_package ++ codes ".") ++ (module_name ++ name) in
    record {
      pojo_class_name = class_name;
      entity_class_name = codes "T" ++ class_name;
      example_class_name = class_name ++ codes "Example";
      mapper_class_name = class_name ++ codes "Mapper";
      dao_class_name = class_name ++ codes "Dao";
      i_repository_class_name = codes "I" ++ (class_name ++ codes "Repository");
      repository_impl_class_name = class_name ++ codes "RepositoryImpl";
      service_class_name = class_name ++ codes "Service";
      service_impl_class_name = class_name ++ codes "ServiceImpl";
      controller_class_name = class_name ++ codes "Controller";
      pojo_package_name = packaged (codes ".biz.bean");
      entity_package_name = packaged (codes ".dao.mapper.gen.entity");
      example_package_name = packaged (codes ".dao.mapper.gen.entity");
      mapper_package_name = packaged (codes ".dao.mapper.gen");
      dao_package_name = packaged (codes ".dao.mapper.ext");
      i_repository_package_name = packaged (codes ".biz.repo");
      repository_impl_package_name = packaged (codes ".biz.repo.impl");
      service_package_name = packaged (codes ".biz.api");
      service_impl_package_name = packaged (codes ".biz.impl");
      controller_package_name = packaged (codes ".srs.impl");
    }

abbrev pub package_path : Text
package_path = codes "src/main/java/"

abbrev pub resources_path : Text
resources_path = codes "src/main/resources/"

-- `path + separator + packagePath + separator + className + extension`
unfoldable pub path_of : Text → Text → Text → Text → Text
unfolding trans_package_name_to_path
path_of path package_name class_name extension =
    path ++ (b'/' ∷ (trans_package_name_to_path package_name ++ (b'/' ∷ (class_name ++ extension))))

-- `none` is null.
unfoldable pub get_file_name : Text → Context → Option Text
unfolding occurs path_of
get_file_name template context =
    let java : Text → Text → Option Text = λ (package_name : Text) (class_name : Text).
      some (path_of package_path package_name class_name (codes ".java")) in
    let xml : Text → Text → Option Text = λ (package_name : Text) (class_name : Text).
      some (path_of resources_path package_name class_name (codes ".xml")) in
    if occurs (codes "POJO.java.btl") template
    then java context.pojo_package_name context.pojo_class_name
    else if occurs (codes "Entity.java.btl") template
    then java context.entity_package_name context.entity_class_name
    else if occurs (codes "Example.java.btl") template
    then java context.example_package_name context.example_class_name
    else if occurs (codes "Mapper.java.btl") template
    then java context.mapper_package_name context.mapper_class_name
    else if occurs (codes "Dao.java.btl") template
    then java context.dao_package_name context.dao_class_name
    else if occurs (codes "IRepository.java.btl") template
    then java context.i_repository_package_name context.i_repository_class_name
    else if occurs (codes "RepositoryImpl.java.btl") template
    then java context.repository_impl_package_name context.repository_impl_class_name
    else if occurs (codes "Service.java.btl") template
    then java context.service_package_name context.service_class_name
    else if occurs (codes "ServiceImpl.java.btl") template
    then java context.service_impl_package_name context.service_impl_class_name
    else if occurs (codes "Controller.java.btl") template
    then java context.controller_package_name context.controller_class_name
    else if occurs (codes "Dao.xml.btl") template
    then xml context.dao_package_name context.dao_class_name
    else if occurs (codes "Mapper.xml.btl") template
    then xml context.mapper_package_name context.mapper_class_name
    else none
