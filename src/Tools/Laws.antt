-- ===== src/Tools/Laws.antt =====
-- common.js: `hasPermission`, the dialogs and `isBlank`.
use mathlib.Core.List.{Mem, mem-cons, not-mem-nil}
use mathlib.Core.Logic.Or
use mathlib.Core.Bool.{Bool-set}
use mq_kafka.Prelude.{
  ℕ, ◌≡◌, refl, sym, ◌∙◌, ◌≢◌, ◌↔◌, inl, inr, Bool, true, false, Option, none, some, List, [], ◌∷◌,
  arith, All, if◌then◌else◌, ◌==◌, ◌||◌, Bool-cases,
}
use mq_kafka.Text.{Text, codes, eq_text}
use mq_kafka.Text.Laws.{eq_text_iff}
use mq_kafka.Tools.{
  has_permission, Effect, close, call_back, alert, confirm, is_space, has_non_space, is_blank,
}

-- An empty field, or one of white space alone.
abbrev pub IsBlank : Option Text → Type 0
IsBlank none = Unit
IsBlank (some s) = All (λ c. is_space c ≡ true) s

has_non_space_iff : (s : Text) → (has_non_space s ≡ false) ↔ All (λ c. is_space c ≡ true) s
unfolding has_non_space
has_non_space_iff [] = (λ _. tt, λ _. refl)
has_non_space_iff (c ∷ s) = ground (arith, has_non_space_iff s)

-- `isBlank` is true exactly of null and of the texts that hold nothing but white space.
pub is_blank_iff : (v : Option Text) → (is_blank v ≡ true) ↔ IsBlank v
unfolding is_blank
is_blank_iff none = ground arith
is_blank_iff (some []) = ground arith
is_blank_iff (some (c ∷ s)) = ground (arith, has_non_space_iff (c ∷ s))

has_permission-cons :
    (p : Text) (ps : List Text) (q : Text)
    → has_permission (p ∷ ps) q ≡ (if eq_text p q then true else has_permission ps q)
unfolding has_permission
has_permission-cons p ps q = ground arith

-- `hasPermission(p)` is true exactly where `p` is listed among the page's permissions.
pub has_permission_iff : (ps : List Text) (q : Text) → (has_permission ps q ≡ true) ↔ Mem q ps
unfolding has_permission
has_permission_iff [] q = (λ e. cc, λ m. absurd (not-mem-nil m))
has_permission_iff (p ∷ ps) q =
    let step = has_permission-cons p ps q in
    let ih = has_permission_iff ps q in
    elim (Bool-cases (eq_text p q)) [
      | inl same ↦ (λ _. mem-cons.1 (Or.inl (sym ((eq_text_iff p q).0 same))), λ _. step ∙ rw same)
      | inr other ↦ (
        λ e. mem-cons.1 (Or.inr (ih.0 (sym (step ∙ rw other) ∙ e))),
        λ m.
            step ∙ rw other (Or.elim (Bool-set _ _) (mem-cons.0 m) (λ e. absurd (ne other e)) ih.1),
      )
    ]
  where
    ne : eq_text p q ≡ false → q ≢ p
    ne other e = cc ((eq_text_iff p q).1 (sym e))

-- Whether the effects close the dialog of that number, and the replies that they give.
pub closes {ℓ} : {C : Type ℓ} → ℕ → List (Effect C) → Bool
closes j [] = false
closes j (close i ∷ es) = i == j || closes j es
closes j (call_back c t ∷ es) = closes j es

pub replies {ℓ} : {C : Type ℓ} → List (Effect C) → List (C × Text)
replies [] = []
replies (close i ∷ es) = replies es
replies (call_back c t ∷ es) = (c, t) ∷ replies es

abbrev pub answers {ℓ} : {C : Type ℓ} → Option C → List (C × Text)
answers none = []
answers (some c) = (c, codes "ok") ∷ []

-- The confirming button of `alert`'s dialog closes that dialog and no other, and the one of
-- `confirm`'s dialog closes none. Both then answer "ok", once, to a callback that is a function,
-- and nothing to any other value.
pub on_ok_effects {ℓ} :
    {C : Type ℓ} (msg : Text) (callback : Option C) (index j : ℕ)
    → (closes j ((alert msg callback).on_ok index) ≡ (index == j))
      × (closes j ((confirm msg callback).on_ok index) ≡ false)
      × (replies ((alert msg callback).on_ok index) ≡ answers callback)
      × (replies ((confirm msg callback).on_ok index) ≡ answers callback)
unfolding alert confirm closes replies
on_ok_effects msg none index j = (ground arith, refl, refl, refl)
on_ok_effects msg (some c) index j = (ground arith, refl, refl, refl)
