-- ===== src/Server/Types/Bytes.antt =====
-- Which data types are bytes to `getJavaType` and to `getJdbcType`.
use mq_kafka.Prelude.{
  branches, either, ◌≡◌, ◌≢◌, ◌↔◌, refl, sym, ap, subst, Bool, Bool-cases, ◌⊎◌, inl, inr, true,
  false, ◌||◌, some,
}
use mq_kafka.Text.{Text, codes, eq_text, occurs}
use mq_kafka.Text.Laws.{eq_text_iff}
use mq_kafka.Text.Case.{to_upper}
use mq_kafka.Server.Types.{
  get_java_type, get_jdbc_type, is_bytes, is_binary, java_type_of_upper, jdbc_type_of,
}
use mq_kafka.Server.Types.Classes.{java_type_of_upper_among}

apart : (s t : Text) → eq_text s t ≡ false → s ≢ t
apart s t h e = cc ((eq_text_iff s t).1 e)

java_type_of_upper_bytes :
    (data_type : Text)
    → (java_type_of_upper data_type ≡ codes "byte[]") ↔ (is_bytes data_type ≡ true)
unfolding eq_text
java_type_of_upper_bytes data_type =
    let P : Text → Type 0 = λ t. t ≡ codes "byte[]" → is_bytes data_type ≡ true in
    let other : (t : Text) → eq_text t (codes "byte[]") ≡ false → P t =
      λ t h e. absurd (apart t (codes "byte[]") h e) in
    (
      java_type_of_upper_among P data_type (λ h _. h) (other _ refl) (other _ refl) (other _ refl)
          (other _ refl) (other _ refl) (other _ refl) (other _ refl) (other _ refl) (other _ refl)
          (other _ refl),
      λ h. unfold java_type_of_upper in rw h,
    )

abbrev IsBytesJdbc : Text → Type 0
IsBytesJdbc jdbc_type = (jdbc_type ≡ codes "VARBINARY") ⊎ (jdbc_type ≡ codes "BLOB")

jdbc_type_of_bytes :
    (data_type : Text) → is_bytes data_type ≡ true → IsBytesJdbc (jdbc_type_of data_type data_type)
unfolding is_bytes jdbc_type_of
jdbc_type_of_bytes data_type h = elim (Bool-cases (is_binary data_type)) [
  | inl e ↦ inl (rw e)
  | inr e ↦ inr (rw (e, subst (λ b. (b || occurs (codes "BLOB") data_type) ≡ true) e h))
]

-- What holds of each JDBC type that the chain returns.
module _ (P : Text → Type 0) (data_type jdbc_type : Text) where
  jdbc_type_of_among :
      (is_binary data_type ≡ true → P (codes "VARBINARY"))
      → (occurs (codes "BLOB") data_type ≡ true → P (codes "BLOB"))
      → P (codes "CLOB")
      → P (codes "BOOLEAN")
      → P (codes "BIT")
      → P (codes "TINYINT")
      → P (codes "SMALLINT")
      → P (codes "INTEGER")
      → P (codes "DATE")
      → P (codes "TIME")
      → P (codes "TIMESTAMP")
      → P (codes "FLOAT")
      → P (codes "DOUBLE")
      → P (codes "DECIMAL")
      → P (codes "NUMERIC")
      → P (codes "LONGVARCHAR")
      → P (codes "VARCHAR")
      → P jdbc_type
      → P (jdbc_type_of data_type jdbc_type)
  unfolding jdbc_type_of
  jdbc_type_of_among varbinary blob clob bool bit tiny small int date time stamp float double
        decimal numeric long varchar own =
      branches P _ _ _ varbinary λ _. branches P _ _ _ blob λ _.
        (either P _ _ _ clob (
          either P _ _ _ bool (
            either P _ _ _ bit (
              either P _ _ _ tiny (
                either P _ _ _ small (
                  either P _ _ _ int (
                    either P _ _ _ date (
                      either P _ _ _ time (
                        either P _ _ _ stamp (
                          either P _ _ _ float (
                            either P _ _ _ double (
                              either P _ _ _ decimal (
                                either P _ _ _ numeric
                                  (either P _ _ _ long (either P _ _ _ varchar own)))))))))))))))

or_true : (b : Bool) → (b || true) ≡ true
or_true true = refl
or_true false = refl

-- Bytes to JDBC are bytes to Java: by its own tests, or by the name that is passed on.
jdbc_type_of_only_bytes :
    (data_type : Text) → IsBytesJdbc (jdbc_type_of data_type data_type) → is_bytes data_type ≡ true
unfolding eq_text is_bytes is_binary occurs
jdbc_type_of_only_bytes data_type =
    let P : Text → Type 0 = λ t. IsBytesJdbc t → is_bytes data_type ≡ true in
    let other : (t : Text)
        → eq_text t (codes "VARBINARY") ≡ false
        → eq_text t (codes "BLOB") ≡ false
        → P t =
      λ t v b e.
        absurd (elim e [
          | inl e ↦ apart t (codes "VARBINARY") v e
          | inr e ↦ apart t (codes "BLOB") b e
        ]) in
    jdbc_type_of_among P data_type data_type (λ e _. unfold is_bytes in rw e)
      (λ e _. unfold is_bytes in rw e (or_true _)) (other _ refl refl) (other _ refl refl)
      (other _ refl refl) (other _ refl refl) (other _ refl refl) (other _ refl refl)
      (other _ refl refl) (other _ refl refl) (other _ refl refl) (other _ refl refl)
      (other _ refl refl) (other _ refl refl) (other _ refl refl) (other _ refl refl)
      (other _ refl refl)
      (λ e. elim e [
        | inl e ↦ subst (λ t. is_bytes t ≡ true) (sym e) refl
        | inr e ↦ subst (λ t. is_bytes t ≡ true) (sym e) refl
      ])

-- A data type that is spelled in upper case is `byte[]` to Java just when its JDBC type is VARBINARY
-- or BLOB.
pub get_java_type-get_jdbc_type :
    (data_type : Text)
    → to_upper data_type ≡ data_type
    → (get_java_type (some data_type) ≡ codes "byte[]") ↔ (
        (get_jdbc_type (some data_type) ≡ some (codes "VARBINARY"))
        ⊎ (get_jdbc_type (some data_type) ≡ some (codes "BLOB")))
unfolding get_java_type get_jdbc_type
get_java_type-get_jdbc_type data_type u =
    let java = java_type_of_upper_bytes data_type in
    subst
      (λ v. (java_type_of_upper v ≡ codes "byte[]") ↔ (
        (some (jdbc_type_of data_type v) ≡ some (codes "VARBINARY"))
        ⊎ (some (jdbc_type_of data_type v) ≡ some (codes "BLOB"))))
      (sym u)
      (
        λ h. elim (jdbc_type_of_bytes data_type (java.0 h)) [
          | inl e ↦ inl (ap some e)
          | inr e ↦ inr (ap some e)
        ],
        λ h. java.1 (
            jdbc_type_of_only_bytes data_type (elim h [ inl e ↦ inl (cc e) | inr e ↦ inr (cc e) ])),
      )
