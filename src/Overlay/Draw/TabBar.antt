-- ===== src/Overlay/Draw/TabBar.antt =====
-- `L2TabBar`, a strip of tabs, without its places and texts.
pub mod Bounds
use l2voice_chat.Base.{
  ℕ, zero, suc, ◌+◌, Bool, true, false, List, [], ◌∷◌, Option, none, some, length, ◌==◌,
  if◌then◌else◌,
}
use l2voice_chat.Base.Int.{ℤ, pos, negsuc}
use l2voice_chat.Base.{ltb}

-- A tab: whether it is visible, and whether its button is clicked and hovered over.
pub record Tab : Type 0 where
  pub visible : Bool
  pub clicked : Bool
  pub hovered : Bool

pub data Texture : Type 0 where
  selected : Texture
  unselected_over : Texture
  unselected : Texture

-- `if (active < 0 || active >= count) active = 0;`
unfoldable pub clamp_active : ℤ → ℕ → ℕ
clamp_active (pos n) count = if ltb n count then n else 0
clamp_active (negsuc n) count = 0

unfoldable pub visible_count : List Tab → ℕ
visible_count [] = 0
visible_count (t ∷ ts) = (if t.visible then 1 else 0) + visible_count ts

-- The loop from tab `i` on: what is drawn of each visible tab, and the active one afterwards. A tab
-- is drawn before those behind it are asked.
unfoldable pub draw_tab_strip : ℕ → List Tab → ℕ → List (ℕ × Texture) × ℕ
draw_tab_strip i [] active = ([], active)
draw_tab_strip i (t ∷ ts) active =
    let now = if t.visible then (if t.clicked then i else active) else active in
    let (drawn, last) = draw_tab_strip (i + 1) ts now in
    let texture =
      if i == now then selected else if t.hovered then unselected_over else unselected in
    (if t.visible then (i, texture) ∷ drawn else drawn, last)

-- With a place for the active tab: what is drawn, and the result. Nothing visible gives 0.
unfoldable pub l2_tab_bar : List Tab → ℤ → List (ℕ × Texture) × ℕ
unfolding clamp_active visible_count draw_tab_strip
l2_tab_bar tabs active =
    if visible_count tabs == 0
    then ([], 0)
    else draw_tab_strip 0 tabs (clamp_active active (length tabs))
