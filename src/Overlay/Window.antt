-- ===== src/Overlay/Window.antt =====
-- `HookedWndProc`: which window messages the game gets, and how a key is bound. Dear ImGui and the
-- game's own procedure are parameters: the message carries what ImGui wants.
pub mod Wm
pub mod Binding
mod Tests
use l2voice_chat.Base.{
  ℕ, ◌+◌, ◌*◌, ◌/◌, ◌%◌, Bool, true, false, not, ◌&&◌, ◌||◌, Option, none, some, leb, ◌==◌,
  if◌then◌else◌,
}
use l2voice_chat.Base.Int.{ℤ, pos}
use l2voice_chat.Voice.State.{Voice}
use l2voice_chat.Overlay.Window.Wm
use l2voice_chat.Voice.Prefs.{
  set_ptt_proximity_vk, set_ptt_party_vk, set_ptt_clan_vk, set_ptt_ally_vk,
}

-- A message with its `wParam`, whether the Alt key is down, and `io.WantCaptureMouse` and
-- `io.WantCaptureKeyboard` after ImGui has seen it.
pub record Msg : Type 0 where
  pub msg : ℕ
  pub wp : ℕ
  pub alt_down : Bool
  pub wants_mouse : Bool
  pub wants_keyboard : Bool

-- The globals that the procedure touches; `textures` says whether those of the overlay are held.
-- `dx9` and `win32` are the state of ImGui's two backends: the device that the first was made for,
-- and whether the second was initialised.
pub record Panel : Type 0 where
  pub toggle_vk : ℕ
  pub capture_next_key : Bool
  pub capture_next_slot : ℕ
  pub backend_init : Bool
  pub textures : Bool
  pub dx9 : Option ℕ
  pub win32 : Bool

-- VK_RETURN and VK_ESCAPE.
abbrev pub vk_return : ℕ
vk_return = 0x0d

abbrev pub vk_escape : ℕ
vk_escape = 0x1b

-- Shift, Ctrl and Alt, and the left and right one of each.
abbrev pub is_modifier : ℕ → Bool
is_modifier vk = (leb 0x10 vk && leb vk 0x12) || (leb 0xa0 vk && leb vk 0xa5)

-- `isDisplayTransition`
unfoldable pub is_display_transition : Msg → Bool
is_display_transition m =
    (m.msg == Wm.stylechanging
      || (m.msg == Wm.size || (m.msg == Wm.displaychange || m.msg == Wm.windowposchanging)))
    || ((m.msg == Wm.syscommand && m.wp % 0x10000 / 16 * 16 == 0xf100)
        || (((m.msg == Wm.syskeydown || m.msg == Wm.syskeyup) && m.wp == vk_return)
            || ((m.msg == Wm.keydown || m.msg == Wm.keyup) && (m.wp == vk_return && m.alt_down))))

-- Both backends are shut down, and the textures released.
abbrev pub release_all : Panel → Panel
release_all p = record p { backend_init = false; textures = false; dx9 = none; win32 = false }

unfoldable pub release_display : Msg → Panel → Panel
unfolding is_display_transition
release_display m p = if is_display_transition m && p.backend_init then release_all p else p

-- `capturedVk`, which is 0 where the message is no key to bind.
unfoldable pub captured_vk : Msg → ℕ
captured_vk m =
    if m.msg == Wm.keydown
    then (if m.wp == vk_escape || is_modifier m.wp then 0 else m.wp)
    else if m.msg == Wm.rbuttondown
    then 2
    else if m.msg == Wm.mbuttondown
    then 4
    else if m.msg == Wm.xbuttondown
    then (if m.wp / 0x10000 % 0x10000 == 1 then 5 else 6)
    else 0

abbrev pub is_cancel : Msg → Bool
is_cancel m = m.msg == Wm.keydown && m.wp == vk_escape

unfoldable pub bind_slot : {F : Type 0} → ℕ → ℕ → Voice F → Voice F
unfolding set_ptt_proximity_vk set_ptt_party_vk set_ptt_clan_vk set_ptt_ally_vk
bind_slot slot vk v =
    if slot == 1
    then set_ptt_party_vk (pos vk) v
    else if slot == 2
    then set_ptt_clan_vk (pos vk) v
    else if slot == 3
    then set_ptt_ally_vk (pos vk) v
    else set_ptt_proximity_vk (pos vk) v

-- The answer while ImGui runs: `none` where the game's own procedure is called.
unfoldable pub imgui_reply : Msg → Option ℕ
imgui_reply m =
    let is_mouse =
      (leb Wm.mousefirst m.msg && leb m.msg Wm.mouselast)
      || (m.msg == Wm.mousewheel || m.msg == Wm.mousehwheel) in
    let is_key =
      m.msg == Wm.keydown
      || (m.msg == Wm.keyup
          || (m.msg == Wm.syskeydown || (m.msg == Wm.syskeyup || m.msg == Wm.char))) in
    if m.wants_mouse && m.msg == Wm.setcursor
    then some 1
    else if is_mouse && m.wants_mouse
    then some 0
    else if is_key && m.wants_keyboard
    then some 0
    else none

-- The end of the procedure.
unfoldable pub pass_on : {F : Type 0} → Msg → Panel → Voice F → Option ℕ × Panel × Voice F
unfolding imgui_reply
pass_on m p v = (if p.backend_init then imgui_reply m else none, p, v)

-- The procedure behind the release of the display.
unfoldable pub dispatch_msg : {F : Type 0} → Msg → Panel → Voice F → Option ℕ × Panel × Voice F
unfolding captured_vk bind_slot pass_on
dispatch_msg m p v =
    if m.msg == Wm.keydown && m.wp == p.toggle_vk
    then (some 0, p, v)
    else if p.capture_next_key && is_cancel m
    then (some 0, record p { capture_next_key = false }, v)
    else if p.capture_next_key && not (captured_vk m == 0)
    then (
      some 0,
      record p { capture_next_key = false },
      bind_slot p.capture_next_slot (captured_vk m) v,
    )
    else pass_on m p v

unfoldable pub hooked_wnd_proc : {F : Type 0} → Msg → Panel → Voice F → Option ℕ × Panel × Voice F
unfolding release_display dispatch_msg
hooked_wnd_proc m p v = dispatch_msg m (release_display m p) v
