-- ===== src/Generator/Address.antt =====
-- generator.js: the address that `generator` navigates to, read back by `T.p` of common.js.
use mq_kafka.Prelude.{
  ℕ, Bool, true, false, not, ◌&&◌, leb, ◌≡◌, refl, ◌∙◌, ap, ◌≢◌, some, List, [], ◌∷◌, ◌++◌, ◌==◌,
  arith, All, All-imp, tail,
}
use mathlib.Core.Option
use mq_kafka.Text.{Text, codes, join, split, Free, eq_text}
use mq_kafka.Text.Laws.{split-join}
use mq_kafka.Tools.Params.{url}
use mq_kafka.Tools.Params.Laws.{query, lookup, url-query, IsParam, is_word, is_word-Free}
use mq_kafka.Generator.{GenerateModel, code_url}

-- The parameters that the address spells.
abbrev pub params : List Text → Text → GenerateModel → List (Text × Text)
params ids schema m =
    (codes "tables", join (codes ",") ids)
    ∷ (codes "schemaName", schema)
    ∷ (codes "moduleName", m.module_name)
    ∷ (codes "basePackage", m.base_package)
    ∷ []

-- A character that stands for itself in the address: a visible one of ASCII that no browser encodes
-- in a query (it does the quotation marks and the angle brackets), that no reader decodes (`%`, `+`), and
-- that ends no parameter and no query (`&`, `#`).
abbrev pub is_plain : ℕ → Bool
is_plain c =
    leb 33 c
    && leb c 126
    && not (c == b'"')
    && not (c == b'#')
    && not (c == b'%')
    && not (c == b'&')
    && not (c == 39)
    && not (c == b'+')
    && not (c == b'<')
    && not (c == b'>')

abbrev pub all_plain : Text → Bool
all_plain [] = true
all_plain (c ∷ s) = is_plain c && all_plain s

abbrev pub IsPlain : Text → Type 0
IsPlain v = all_plain v ≡ true

pub IsPlain-Free : (d : ℕ) (v : Text) → is_plain d ≡ false → IsPlain v → Free d v
IsPlain-Free d [] e h = tt
IsPlain-Free d (c ∷ v) e h = (
  λ same. let here : is_plain c ≡ is_plain d = ap is_plain same in ground arith,
  IsPlain-Free d v e (ground arith),
)

-- A parameter with a word as its key and a plain value.
abbrev pub IsPlainParam : Text × Text → Type 0
IsPlainParam (k, v) = (is_word k ≡ true) × IsPlain v

pub IsPlainParam-IsParam : (p : Text × Text) → IsPlainParam p → IsParam p
IsPlainParam-IsParam (k, v) (word, plain) =
    (is_word-Free b'=' k refl word, is_word-Free b'&' k refl word, IsPlain-Free b'&' v refl plain)

all_plain-append :
    (s t : Text) → all_plain s ≡ true → all_plain t ≡ true → all_plain (s ++ t) ≡ true
all_plain-append [] t h k = k
all_plain-append (c ∷ s) t h k = ground (arith, all_plain-append s t)

all_plain-join : (ids : List Text) → All IsPlain ids → all_plain (join (codes ",") ids) ≡ true
unfolding join
all_plain-join [] h = refl
all_plain-join (id ∷ []) h = h.0
all_plain-join (id ∷ next ∷ ids) h =
    all_plain-append id (b',' ∷ join (codes ",") (next ∷ ids)) h.0 (all_plain-join (next ∷ ids) h.1)

-- What `window.location.search` reads of an address whose characters all stand for themselves: the
-- query, with its question mark.
abbrev pub IsSearch : (Text → Text) → Type 0
IsSearch search =
    (path : Text) (p : Text × Text) (ps : List (Text × Text))
    → Free b'?' path
    → Free b'#' path
    → All IsPlainParam (p ∷ ps)
    → search (path ++ (b'?' ∷ query (p ∷ ps))) ≡ b'?' ∷ query (p ∷ ps)

-- What the built-in `unescape` does to a text in which there is nothing to decode.
abbrev pub IsUnescape : (Text → Text) → Type 0
IsUnescape unescape = (v : Text) → Free b'%' v → unescape v ≡ v

code_url-params :
    (ids : List Text) (schema : Text) (m : GenerateModel)
    → code_url ids schema m ≡ codes "sys/generator/code" ++ (b'?' ∷ query (params ids schema m))
unfolding code_url join
code_url-params ids schema m = refl

-- Every name and key of that address is a word.
module _ (ids : List Text) (schema : Text) (m : GenerateModel) where
  -- The texts that the user chose or typed stand in the address as they are.
  abbrev pub IsSendable : Type 0
  IsSendable =
      (ids ≢ [])
      × All (λ id. IsPlain id × Free b',' id) ids
      × IsPlain schema
      × IsPlain m.module_name
      × IsPlain m.base_package

  pub params-IsPlainParam : IsSendable → All IsPlainParam (params ids schema m)
  params-IsPlainParam h = (
    (refl, all_plain-join ids (All-imp (λ id p. p.0) ids h.1)),
    ((refl, h.2), ((refl, h.3), ((refl, h.4), tt))),
  )

  pub search-code_url :
      (search : Text → Text)
      → IsSearch search
      → IsSendable
      → search (code_url ids schema m) ≡ b'?' ∷ query (params ids schema m)
  search-code_url search reads h =
      ap search (code_url-params ids schema m)
      ∙ reads (codes "sys/generator/code") (codes "tables", join (codes ",") ids)
          (tail (params ids schema m)) (omega arith) (omega arith) (params-IsPlainParam h)

  pub split-tables : IsSendable → split b',' (join (codes ",") ids) ≡ ids
  split-tables h = by ids h.0 (All-imp (λ id p. p.1) ids h.1)
    where
      by :
          (ids : List Text)
          → ids ≢ []
          → All (Free b',') ids
          → split b',' (join (codes ",") ids) ≡ ids
      by [] n f = absurd (n refl)
      by (id ∷ ids) n f = split-join b',' id ids f

  module _ (search unescape : Text → Text) (reads : IsSearch search)
      (decodes : IsUnescape unescape) where
    read_as :
        (name value : Text)
        → IsSendable
        → is_word name ≡ true
        → lookup name (params ids schema m) ≡ some value
        → IsPlain value
        → url unescape name (search (code_url ids schema m)) ≡ some value
    read_as name value h word e plain =
        let sent =
          url-query name word unescape (codes "tables", join (codes ",") ids)
            (tail (params ids schema m))
            (All-imp IsPlainParam-IsParam (params ids schema m) (params-IsPlainParam h)) in
        rw (search-code_url search reads h)
          (sent ∙ rw (e, decodes value (IsPlain-Free b'%' value refl plain)))

    -- The four parameters of the address that `generator` navigates to read back, by `T.p`, as what
    -- was selected and typed, and the tables split at the commas as the selected ones. Some table is
    -- selected, no table's name holds a comma, and all texts are of visible ASCII characters without
    -- quotation marks, angle brackets, `#`, `%`, `&` and `+`. Of the browser it takes that
    -- `location.search` is the query of such an address, and that `unescape` leaves a text without `%`.
    pub url-code_url :
        IsSendable
        → (Option.map (split b',') (url unescape (codes "tables") (search (code_url ids schema m)))
            ≡ some ids)
          × (url unescape (codes "schemaName") (search (code_url ids schema m)) ≡ some schema)
          × (url unescape (codes "moduleName") (search (code_url ids schema m))
              ≡ some m.module_name)
          × (url unescape (codes "basePackage") (search (code_url ids schema m))
              ≡ some m.base_package)
    unfolding eq_text
    url-code_url h = (
      ap (Option.map (split b',')) (
            read_as (codes "tables") _ h refl refl
              (all_plain-join ids (All-imp (λ id p. p.0) ids h.1)))
          ∙ ap some (split-tables h),
      read_as (codes "schemaName") schema h refl refl h.2,
      read_as (codes "moduleName") m.module_name h refl refl h.3,
      read_as (codes "basePackage") m.base_package h refl refl h.4,
    )
