-- ===== src/Server/Types.antt =====
-- code-generator/src/main/java/com/data/utils/DataTypeUtils.java: the Java type and the JDBC type
-- of a column's data type. A missing value is `none`; `null.toUpperCase()` throws, which is `none`.
pub mod Classes
pub mod Bytes
use mq_kafka.Prelude.{Bool, true, false, ◌||◌, Option, none, some, List, [], ◌∷◌, if◌then◌else◌}
use mathlib.Core.Option
use mq_kafka.Text.{Text, codes, eq_text, occurs}
use mq_kafka.Text.Case.{to_upper}

-- `javaTypeClassMapping`: the name of the class of each Java type, in the order of the `put`s.
abbrev pub java_type_class_mapping : List (Text × Text)
java_type_class_mapping =
    (codes "byte[]", codes "[Ljava.lang.Byte;")
    ∷ (codes "String", codes "java.lang.String")
    ∷ (codes "Short", codes "java.lang.Short")
    ∷ (codes "Byte", codes "java.lang.Byte")
    ∷ (codes "Integer", codes "java.lang.Integer")
    ∷ (codes "Long", codes "java.lang.Long")
    ∷ (codes "Float", codes "java.lang.Float")
    ∷ (codes "Double", codes "java.lang.Double")
    ∷ (codes "BigDecimal", codes "java.math.BigDecimal")
    ∷ (codes "Boolean", codes "java.lang.Boolean")
    ∷ (codes "Date", codes "java.util.Date")
    ∷ (codes "Object", codes "java.lang.Object")
    ∷ []

unfoldable pub lookup : Text → List (Text × Text) → Option Text
unfolding eq_text
lookup key [] = none
lookup key ((k, v) ∷ rest) = let later = lookup key rest in if eq_text k key then some v else later

-- `getJavaTypeClassz(javaType).getName()`: a missing class throws.
unfoldable pub get_java_type_classz : Text → Option Text
unfolding lookup
get_java_type_classz java_type = lookup java_type java_type_class_mapping

-- The six tests that both functions begin with.
unfoldable pub is_binary : Text → Bool
unfolding occurs
is_binary data_type =
    occurs (codes "BINARY") data_type
    || occurs (codes "CHAR FOR BIT DATA") data_type
    || occurs (codes "RAW") data_type
    || occurs (codes "IMAGE") data_type
    || occurs (codes "BYTE") data_type
    || occurs (codes "DK_CM_BLOB") data_type

-- The first test of `getJavaType`.
unfoldable pub is_bytes : Text → Bool
unfolding is_binary occurs
is_bytes data_type = is_binary data_type || occurs (codes "BLOB") data_type

-- The chain of tests on a data type in upper case.
unfoldable pub java_type_of_upper : Text → Text
unfolding is_bytes occurs eq_text
java_type_of_upper data_type =
    if is_bytes data_type
    then codes "byte[]"
    else if occurs (codes "BOOLEAN") data_type
        || occurs (codes "BIT") data_type
        || occurs (codes "DK_CM_SMALLINT") data_type
    then codes "Boolean"
    else if occurs (codes "CHAR") data_type
        || occurs (codes "TEXT") data_type
        || occurs (codes "CLOB") data_type
    then codes "String"
    else if occurs (codes "LONG") data_type
        || occurs (codes "BIGINT") data_type
        || occurs (codes "INT8") data_type
    then codes "Long"
    else if eq_text data_type (codes "TINYINT")
    then codes "Byte"
    else if occurs (codes "INT") data_type
    then codes "Integer"
    else if occurs (codes "FLOAT") data_type
    then codes "Float"
    else if occurs (codes "NUMBER") data_type || occurs (codes "DECIMAL") data_type
    then codes "BigDecimal"
    else if occurs (codes "DOUBLE") data_type
    then codes "Double"
    else if occurs (codes "DATE") data_type || occurs (codes "TIME") data_type
    then codes "Date"
    else if occurs (codes "OBJECT") data_type
    then codes "Object"
    else codes "String"

unfoldable pub get_java_type : Option Text → Text
unfolding java_type_of_upper
get_java_type none = codes "String"
get_java_type (some data_type) = java_type_of_upper (to_upper data_type)

-- The first tests read the data type as it is spelled, the others `jdbcType`, in upper case.
unfoldable pub jdbc_type_of : Text → Text → Text
unfolding is_binary occurs eq_text
jdbc_type_of data_type jdbc_type =
    if is_binary data_type
    then codes "VARBINARY"
    else if occurs (codes "BLOB") data_type
    then codes "BLOB"
    else if occurs (codes "CLOB") data_type
    then codes "CLOB"
    else if occurs (codes "BOOLEAN") data_type
    then codes "BOOLEAN"
    else if occurs (codes "BIT") data_type || occurs (codes "DK_CM_SMALLINT") data_type
    then codes "BIT"
    else if eq_text jdbc_type (codes "TINYINT")
    then codes "TINYINT"
    else if eq_text jdbc_type (codes "SMALLINT")
    then codes "SMALLINT"
    else if eq_text jdbc_type (codes "INT") || occurs (codes "INTEGER") jdbc_type
    then codes "INTEGER"
    else if eq_text jdbc_type (codes "DATE")
    then codes "DATE"
    else if eq_text jdbc_type (codes "TIME")
    then codes "TIME"
    else if occurs (codes "DATE") jdbc_type || occurs (codes "TIME") jdbc_type
    then codes "TIMESTAMP"
    else if occurs (codes "FLOAT") jdbc_type
    then codes "FLOAT"
    else if occurs (codes "DOUBLE") jdbc_type
    then codes "DOUBLE"
    else if occurs (codes "DECIMAL") jdbc_type
    then codes "DECIMAL"
    else if occurs (codes "NUMBER") jdbc_type || occurs (codes "NUMERIC") jdbc_type
    then codes "NUMERIC"
    else if occurs (codes "TEXT") jdbc_type || occurs (codes "LONGVARCHAR") jdbc_type
    then codes "LONGVARCHAR"
    else if occurs (codes "VARCHAR") jdbc_type
    then codes "VARCHAR"
    else jdbc_type

unfoldable pub get_jdbc_type : Option Text → Option Text
unfolding jdbc_type_of
get_jdbc_type none = none
get_jdbc_type (some data_type) = some (jdbc_type_of data_type (to_upper data_type))
