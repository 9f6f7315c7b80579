-- ===== src/Overlay/Screen.antt =====
-- The life of the overlay's backends on the game's device: `HookEndScene` and `HookReset`. Devices
-- are numbers; Direct3D, ImGui's drawing and the installation of the window procedure are left out.
pub mod Ready
mod Tests
use l2voice_chat.Base.{
  ℕ, Bool, true, false, not, ◌&&◌, ◌||◌, Option, none, some, ◌==◌, if◌then◌else◌,
}
use l2voice_chat.Overlay.Window.{Panel, release_all}

-- What a frame meets: whether the device is neither lost nor resetting, the device, whether the
-- window has the focus, whether the toggle key is down, and `io.WantCaptureMouse` after drawing.
pub record Frame : Type 0 where
  pub cooperative : Bool
  pub dev : ℕ
  pub has_focus : Bool
  pub key_down : Bool
  pub wants_mouse : Bool

-- `ctx` is whether there is an ImGui context; `known_dev` and `was_key_down` are statics.
pub record Screen : Type 0 where
  pub panel : Panel
  pub ctx : Bool
  pub known_dev : Option ℕ
  pub visible : Bool
  pub was_key_down : Bool
  pub captures_mouse : Bool

-- `broken` is a frame begun on a backend that is not initialised, which ImGui does not allow.
pub data Drawing : Type 0 where
  skipped : Drawing
  drawn : Drawing
  broken : Drawing

-- `dev != s_knownDev`
abbrev pub is_known_dev : ℕ → Option ℕ → Bool
is_known_dev dev none = false
is_known_dev dev (some d) = d == dev

abbrev pub is_some : {A : Type 0} → Option A → Bool
is_some none = false
is_some (some x) = true

-- The backends are shut down where the device is another one.
unfoldable pub note_device : ℕ → Screen → Screen
note_device dev s =
    if is_known_dev dev s.known_dev
    then s
    else if is_some s.known_dev && (s.ctx && s.panel.backend_init)
    then record s {
      known_dev = some dev;
      panel = record (s.panel) { backend_init = false; dx9 = none; win32 = false };
    }
    else record s { known_dev = some dev }

-- The toggle key acts on its way down, and only with the focus.
unfoldable pub toggle_visible : Bool → Bool → Screen → Screen
toggle_visible has_focus key_down s = record s {
  visible = if has_focus && (key_down && not s.was_key_down) then not s.visible else s.visible;
  was_key_down = key_down;
}

unfoldable pub init_backends : ℕ → Panel → Panel
init_backends dev p =
    if p.backend_init
    then p
    else record p { backend_init = true; textures = true; dx9 = some dev; win32 = true }

-- The end of the hook: a frame is drawn while the overlay is visible.
unfoldable pub draw_frame : Bool → Screen → Screen × Drawing
draw_frame wants_mouse s =
    if s.visible
    then (
      record s { captures_mouse = wants_mouse },
      if is_some s.panel.dx9 && s.panel.win32 then drawn else broken,
    )
    else (record s { captures_mouse = false }, skipped)

unfoldable pub hook_end_scene : Frame → Screen → Screen × Drawing
unfolding note_device toggle_visible init_backends draw_frame
hook_end_scene f s =
    let t = toggle_visible f.has_focus f.key_down (note_device f.dev s) in
    if not f.cooperative
    then (
      if s.ctx && s.panel.backend_init then record s { panel = release_all s.panel } else s,
      skipped,
    )
    else draw_frame f.wants_mouse (record t { panel = init_backends f.dev t.panel })

-- `HookReset`, given whether the reset succeeds.
unfoldable pub hook_reset : Bool → ℕ → Screen → Screen
hook_reset ok dev s =
    if not s.ctx
    then s
    else if ok
    then record s { panel = record (s.panel) { backend_init = true; dx9 = some dev } }
    else if s.panel.backend_init
    then record s { panel = release_all s.panel }
    else record s { panel = record (s.panel) { textures = false } }
