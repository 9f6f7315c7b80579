-- ===== src/Overlay/Input/Tests.antt =====
-- The input hooks on concrete buffers.
use l2voice_chat.Base.{ℕ, true, false, not, List, [], ◌∷◌, some, ◌≡◌, refl, keep, take, length}
use l2voice_chat.Overlay.Input.{
  DeviceEvent, is_button, hook_get_async_key_state, hook_di_get_device_state,
  hook_di_get_device_data,
}
use l2voice_chat.Overlay.Input.Compact.{hook_di_get_device_data-keep}

abbrev event : ℕ → ℕ → DeviceEvent
event ofs value = record { ofs = ofs; value = value }

-- A movement, a press, a movement, a release and a turn of the wheel.
abbrev events : List DeviceEvent
events = event 0 5 ∷ event 12 128 ∷ event 4 3 ∷ event 12 0 ∷ event 8 120 ∷ []

hook_di_get_device_data-keep_example :
    let (count, buffer) = hook_di_get_device_data true false (length events) events in
    (count ≡ length (keep (λ e. not (is_button e)) events))
    × (take count buffer ≡ keep (λ e. not (is_button e)) events)
hook_di_get_device_data-keep_example = hook_di_get_device_data-keep events

hook_di_get_device_data_moves :
    take 3 (hook_di_get_device_data true false 5 events).1
    ≡ event 0 5 ∷ event 4 3 ∷ event 8 120 ∷ []
unfolding hook_di_get_device_data
hook_di_get_device_data_moves = refl

-- The four buttons of a DIMOUSESTATE are cleared, and its axes are not.
hook_di_get_device_state_small :
    hook_di_get_device_state true false 16
      (1 ∷ 1 ∷ 1 ∷ 1 ∷ 2 ∷ 2 ∷ 2 ∷ 2 ∷ 3 ∷ 3 ∷ 3 ∷ 3 ∷ 128 ∷ 128 ∷ 0 ∷ 128 ∷ [])
    ≡ 1 ∷ 1 ∷ 1 ∷ 1 ∷ 2 ∷ 2 ∷ 2 ∷ 2 ∷ 3 ∷ 3 ∷ 3 ∷ 3 ∷ 0 ∷ 0 ∷ 0 ∷ 0 ∷ []
unfolding hook_di_get_device_state
hook_di_get_device_state_small = refl

hook_get_async_key_state_left : hook_get_async_key_state true (some (λ vk. 32768)) 1 ≡ 0
unfolding hook_get_async_key_state
hook_get_async_key_state_left = refl
