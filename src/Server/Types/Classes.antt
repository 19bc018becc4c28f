-- ===== src/Server/Types/Classes.antt =====
-- Which data types get a Java type that has a class, and how the two type functions agree.
use mq_kafka.Prelude.{branches, either, ◌≡◌, ◌≢◌, true, Option, none, some}
use mq_kafka.Text.{Text, codes, eq_text}
use mq_kafka.Server.Types.{
  get_java_type, is_bytes, java_type_of_upper, get_java_type_classz, lookup,
}
use mq_kafka.Text.Case.{to_upper}

-- What holds of each Java type that the chain returns.
module _ (P : Text → Type 0) (data_type : Text) where
  pub java_type_of_upper_among :
      (is_bytes data_type ≡ true → P (codes "byte[]"))
      → P (codes "Boolean")
      → P (codes "String")
      → P (codes "Long")
      → P (codes "Byte")
      → P (codes "Integer")
      → P (codes "Float")
      → P (codes "BigDecimal")
      → P (codes "Double")
      → P (codes "Date")
      → P (codes "Object")
      → P (java_type_of_upper data_type)
  unfolding java_type_of_upper
  java_type_of_upper_among bytes bool str long byte int float decimal double date object =
      branches P _ _ _ bytes λ _.
        (either P _ _ _ bool (
          either P _ _ _ str (
            either P _ _ _ long (
              either P _ _ _ byte (
                either P _ _ _ int (
                  either P _ _ _ float (
                    either P _ _ _ decimal (
                      either P _ _ _ double
                        (either P _ _ _ date (either P _ _ _ object str))))))))))

abbrev HasClass : Text → Type 0
HasClass java_type = get_java_type_classz java_type ≢ none

java_type_of_upper-HasClass : (data_type : Text) → HasClass (java_type_of_upper data_type)
unfolding get_java_type_classz lookup eq_text
java_type_of_upper-HasClass data_type =
    java_type_of_upper_among HasClass data_type (λ _. cc) (cc) (cc) (cc) (cc) (cc) (cc) (cc) (cc)
      (cc) (cc)

-- Every data type, also a missing one, gets a Java type to which `javaTypeClassMapping` has a
-- class, so that `getJavaTypeClassz(javaType).getName()` never throws.
pub get_java_type_classz-get_java_type :
    (data_type : Option Text) → get_java_type_classz (get_java_type data_type) ≢ none
unfolding get_java_type get_java_type_classz lookup eq_text
get_java_type_classz-get_java_type none = cc
get_java_type_classz-get_java_type (some data_type) =
    java_type_of_upper-HasClass (to_upper data_type)
