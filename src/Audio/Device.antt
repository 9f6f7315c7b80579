-- ===== src/Audio/Device.antt =====
-- What client/voice/audio_io.cpp asks of miniaudio, a library that is not modelled: the devices
-- that it lists, in order, and whether a device could be initialised and started.
use l2voice_chat.Base.{
  ℕ, Bool, List, [], ◌∷◌, Option, none, some, map, Bytes, bytes_eq, if◌then◌else◌,
}

pub record Device : Type 0 where
  pub name : Bytes
  pub id : ℕ

-- The answers of one attempt: `ma_context_init` and `ma_context_get_devices` (`none` where one of
-- them fails), `ma_device_init` for the device chosen, and `ma_device_start`.
pub record Answers : Type 0 where
  pub devices : Option (List Device)
  pub init_ok : Option ℕ → Bool
  pub start_ok : Option ℕ → Bool

-- The names that `EnumerateCaptureDevices` and `EnumeratePlaybackDevices` return.
unfoldable pub enumerate : Answers → List Bytes
enumerate a = elim a.devices [ none ↦ [] | some ds ↦ map (λ d. d.name) ds ]

-- The first device with the name.
unfoldable pub find_device : Bytes → List Device → Option ℕ
find_device name [] = none
find_device name (d ∷ ds) = if bytes_eq d.name name then some d.id else find_device name ds

-- `selectedId`, where `useSelectedId` becomes true: the default device is `none`.
unfoldable pub select_device : Answers → Bytes → Option ℕ
unfolding find_device
select_device a [] = none
select_device a (c ∷ name) = elim a.devices [ none ↦ none | some ds ↦ find_device (c ∷ name) ds ]
