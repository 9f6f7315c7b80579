-- ===== src/Overlay/Input.antt =====
-- What the game gets to see of the mouse: `HookGetAsyncKeyState` and the two DirectInput hooks. The
-- functions of Windows that they stand before are parameters. `captures` is `g_imguiCapturesMouse`.
pub mod Compact
mod Tests
use l2voice_chat.Base.{
  ℕ, zero, suc, ◌+◌, ◌*◌, Bool, true, false, not, ◌&&◌, ◌||◌, List, [], ◌∷◌, ◌++◌, Option, none,
  some, ltb, leb, ◌==◌, if◌then◌else◌, take, drop, replicate, get_elem?, set, length,
}

-- VK_LBUTTON, VK_RBUTTON, VK_MBUTTON, VK_XBUTTON1 and VK_XBUTTON2.
abbrev pub is_mouse_key : ℕ → Bool
is_mouse_key vk = vk == 1 || (vk == 2 || (vk == 4 || (vk == 5 || vk == 6)))

-- `original` is `none` where the hook has no original to call.
unfoldable pub hook_get_async_key_state : Bool → Option (ℕ → ℕ) → ℕ → ℕ
hook_get_async_key_state captures original vk =
    if captures && is_mouse_key vk then 0 else elim original [ none ↦ 0 | some f ↦ f vk ]

-- The bytes that `GetDeviceState` wrote, `size` of them: three axes of 4 bytes, then the buttons,
-- 8 of them where there is room for a DIMOUSESTATE2, and 4 where there is only a DIMOUSESTATE.
-- `failed` is the result of the original, or a null pointer.
unfoldable pub scrub_buttons : ℕ → List ℕ → List ℕ
scrub_buttons n state = take 12 state ++ (replicate n 0 ++ drop (12 + n) state)

unfoldable pub hook_di_get_device_state : Bool → Bool → ℕ → List ℕ → List ℕ
unfolding scrub_buttons
hook_di_get_device_state captures failed size state =
    if failed || not captures
    then state
    else if leb 20 size
    then scrub_buttons 8 state
    else if leb 16 size
    then scrub_buttons 4 state
    else state

-- DIDEVICEOBJECTDATA, as far as it is looked at: the offset, and the rest.
pub record DeviceEvent : Type 0 where
  pub ofs : ℕ
  pub value : ℕ

-- DIMOFS_BUTTON0 is 12.
unfoldable pub is_button : DeviceEvent → Bool
is_button e = leb 12 e.ofs && leb e.ofs 19

-- The loop of `HookDIGetDeviceData` over the buffer, with `left` rounds to go: `i` is the place read
-- and `w` the one written.
unfoldable pub drop_buttons : ℕ → ℕ → ℕ → List DeviceEvent → ℕ × List DeviceEvent
unfolding is_button
drop_buttons zero i w events = (w, events)
drop_buttons (suc left) i w events = elim (get_elem? events i) [
  | none ↦ (w, events)
  | some e ↦ elim (is_button e) [
    | true ↦ drop_buttons left (i + 1) w events
    | false ↦ drop_buttons left (i + 1) (w + 1) (if w == i then events else set events w e)
  ]
]

-- `count` and the buffer after the call; `count` is at most the length of the buffer.
unfoldable pub hook_di_get_device_data : Bool → Bool → ℕ → List DeviceEvent → ℕ × List DeviceEvent
unfolding drop_buttons
hook_di_get_device_data captures failed count events =
    if failed || not captures then (count, events) else drop_buttons count 0 0 events
