-- ===== src/Overlay/Draw/TabBar/Bounds.antt =====
-- The index that the strip of tabs gives.
use l2voice_chat.Base.{ℕ, ◌+◌, ◌<◌, List, [], ◌∷◌, length, ◌==◌, if◌then◌else◌, arith, if_intro}
use l2voice_chat.Base.Int.{ℤ, pos, negsuc}
use l2voice_chat.Overlay.Draw.TabBar.{
  Tab, Texture, clamp_active, visible_count, draw_tab_strip, l2_tab_bar,
}

draw_tab_strip_lem :
    (i : ℕ) (tabs : List Tab) (active : ℕ)
    → active < i + length tabs
    → (draw_tab_strip i tabs active).1 < i + length tabs
unfolding draw_tab_strip
draw_tab_strip_lem i [] active h = h
draw_tab_strip_lem i (t ∷ ts) active h =
    let now = if t.visible then (if t.clicked then i else active) else active in
    let less : now < i + 1 + length ts = ground (arith, h) in
    omega (arith, draw_tab_strip_lem (i + 1) ts now less)

clamp_active_lem : (active : ℤ) (count : ℕ) → 0 < count → clamp_active active count < count
unfolding clamp_active
clamp_active_lem (pos n) count h = ground arith
clamp_active_lem (negsuc n) count h = h

-- Whatever index the caller keeps, the active tab is one of the strip's, where it has any; so the
-- names of the tabs are never read beyond their end.
pub l2_tab_bar_lem :
    (tabs : List Tab) (active : ℤ) → 0 < length tabs → (l2_tab_bar tabs active).1 < length tabs
unfolding l2_tab_bar
l2_tab_bar_lem tabs active some_tab =
    let first = clamp_active active (length tabs) in
    let clamped = clamp_active_lem active (length tabs) some_tab in
    let inside = draw_tab_strip_lem 0 tabs first (omega (arith, clamped)) in
    if_intro (λ (x : List (ℕ × Texture) × ℕ). x.1 < length tabs) (visible_count tabs == 0) some_tab
      (omega (arith, inside))
