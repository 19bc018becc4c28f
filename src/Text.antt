-- ===== src/Text.antt =====
-- JavaScript strings as lists of UTF-16 code units, and the built-in methods that the console's
-- scripts call: comparison, `replace` of a first occurrence by "", `split` and `join`.
pub mod Laws
pub mod Case
use Prim.Native.Char.{code}
use Prim.Native.String.{String}
use mq_kafka.Prelude.{
  ℕ, Bool, true, false, ◌&&◌, ◌||◌, Option, none, some, List, [], ◌∷◌, ◌++◌, ◌==◌, if◌then◌else◌,
  ◌≢◌,
}
use mq_kafka.Prelude

abbrev pub Text : Type 0
Text = List ℕ

-- A literal of the source: all of its characters lie in the basic plane, one code unit each.
abbrev pub codes : String → Text
codes String.[] = []
codes (String.◌∷◌ c s) = code c ∷ codes s

-- `a == b` on strings.
unfoldable pub eq_text : Text → Text → Bool
eq_text [] [] = true
eq_text (a ∷ s) (b ∷ t) = a == b && eq_text s t
eq_text _ _ = false

-- What follows a prefix.
unfoldable pub strip_prefix : Text → Text → Option Text
strip_prefix [] s = some s
strip_prefix (p ∷ ps) [] = none
strip_prefix (p ∷ ps) (c ∷ s) = if p == c then strip_prefix ps s else none

-- `s.replace(pattern, '')` for a string `pattern`: its first occurrence goes.
unfoldable pub remove_first : Text → Text → Text
unfolding strip_prefix
remove_first pattern [] = []
remove_first pattern (c ∷ s) = elim (strip_prefix pattern (c ∷ s)) [
  | none ↦ c ∷ remove_first pattern s
  | some rest ↦ rest
]

abbrev cons_head : ℕ → List Text → List Text
cons_head c [] = (c ∷ []) ∷ []
cons_head c (p ∷ ps) = (c ∷ p) ∷ ps

-- `s.split(sep)` for a separator of one code unit.
unfoldable pub split : ℕ → Text → List Text
split sep [] = [] ∷ []
split sep (c ∷ s) = let parts = split sep s in if c == sep then [] ∷ parts else cons_head c parts

-- `parts.join(sep)`.
unfoldable pub join : Text → List Text → Text
join sep [] = []
join sep (p ∷ []) = p
join sep (p ∷ q ∷ ps) = p ++ (sep ++ join sep (q ∷ ps))

-- The code unit does not occur.
abbrev pub Free : ℕ → Text → Type 0
Free c s = Prelude.All (λ x. x ≢ c) s

-- Whether a text stands somewhere in another.
unfoldable pub occurs : Text → Text → Bool
unfolding strip_prefix
occurs pattern [] = elim (strip_prefix pattern []) [ none ↦ false | some rest ↦ true ]
occurs pattern (c ∷ s) = elim (strip_prefix pattern (c ∷ s)) [
  | none ↦ occurs pattern s
  | some rest ↦ true
]

-- `texts.indexOf(t) > -1`
unfoldable pub contains_text : Text → List Text → Bool
unfolding eq_text
contains_text t [] = false
contains_text t (x ∷ xs) = eq_text x t || contains_text t xs
