-- ===== src/Sidebar/Push.antt =====
-- app.js: the sidebar's button and the pointer over the sidebar.
use mq_kafka.Prelude.{
  ℕ, zero, suc, ◌≡◌, refl, ◌∙◌, ap, Bool, true, false, not, arith, if◌then◌else◌,
}
use mq_kafka.Sidebar.{Body, expanded, collapsed, is_wide, toggle, hover_in, hover_out}

-- Whether the style sheet shows the whole sidebar: on a wide page unless it is collapsed, on a
-- small one only while it is open.
abbrev pub is_shown : ℕ → Body → Bool
is_shown width b = if is_wide width then not b.sidebar_collapse else b.sidebar_open

-- The button shows the sidebar where it is hidden and hides it where it is shown, on a page of any
-- width, and triggers the event that says which.
pub toggle-is_shown :
    (width : ℕ) (b : Body)
    → (is_shown width (toggle width b).0 ≡ not (is_shown width b))
      × ((toggle width b).1 ≡ (if is_shown width b then collapsed else expanded))
unfolding toggle
toggle-is_shown width b = ground arith

abbrev pub toggles : ℕ → ℕ → Body → Body
toggles zero width b = b
toggles (suc n) width b = toggles n width (toggle width b).0

-- A sidebar that the pointer has opened: all that the button changes is the collapsed mark.
toggles-frame :
    (n width : ℕ) (b : Body)
    → is_wide width ≡ true
    → record (toggles n width b) { sidebar_collapse = true } ≡ record b { sidebar_collapse = true }
unfolding toggle
toggles-frame zero width b w = refl
toggles-frame (suc n) width b w = toggles-frame n width (toggle width b).0 w ∙ ground arith

hover_out_lem :
    (width : ℕ) (b : Body)
    → is_wide width ≡ true
    → b.sidebar_mini ≡ true
    → b.expanded_on_hover ≡ true
    → hover_out width b ≡ record b { expanded_on_hover = false; sidebar_collapse = true }
unfolding hover_out
hover_out_lem width b w m e = ground arith

left : Body → Body
left b = record b { expanded_on_hover = false }

opened : Body → Body
opened b = record b { sidebar_collapse = false; expanded_on_hover = true }

-- On a wide page with a small sidebar, a collapsed sidebar that the pointer opened is collapsed
-- again when the pointer leaves, however often the button was clicked in between, and nothing else
-- of the body has changed.
pub hover_toggles_leave :
    (n width : ℕ) (b : Body)
    → is_wide width ≡ true
    → b.sidebar_mini ≡ true
    → b.sidebar_collapse ≡ true
    → b.expanded_on_hover ≡ false
    → hover_out width (toggles n width (hover_in width b)) ≡ b
unfolding hover_in opened left
hover_toggles_leave n width b w m c e =
    let entered : hover_in width b ≡ opened b = ground arith in
    let frame = toggles-frame n width (opened b) w in
    ap (λ x. hover_out width (toggles n width x)) entered
    ∙ hover_out_lem width (toggles n width (opened b)) w (ap (λ x. x.sidebar_mini) frame ∙ m)
        (ap (λ x. x.expanded_on_hover) frame)
    ∙ ap left frame
    ∙ ground arith
