-- ===== src/Audio/Capture.antt =====
-- `AudioCapture` of client/voice/audio_io.cpp: the miniaudio callback cuts the microphone's samples
-- into frames of 20 ms.
pub mod Frames
mod Tests
use l2voice_chat.Base.{
  ℕ, zero, suc, Bool, true, false, not, ◌||◌, List, [], ◌∷◌, ◌++◌, length, take, drop, leb, ◌==◌,
  if◌then◌else◌, Bytes,
}
use l2voice_chat.Base.Int.{ℤ}
use l2voice_chat.Audio.Ring.{frame_samples}
use l2voice_chat.Audio.Device.{Answers, select_device}

-- `has_cb` is whether a callback is set.
pub record Capture : Type 0 where
  pub has_cb : Bool
  pub partial : List ℤ
  pub running : Bool

-- The `while` loop: the frames handed to the callback in order, and what stays in `partial`. A
-- round takes a frame off, so the number of samples is enough fuel.
unfoldable pub drain : ℕ → List ℤ → List (List ℤ) × List ℤ
drain zero xs = ([], xs)
drain (suc f) xs =
    let rest = drain f (drop frame_samples xs) in
    if leb frame_samples (length xs) then (take frame_samples xs ∷ rest.0, rest.1) else ([], xs)

-- `DataCallback` on the samples `input`.
unfoldable pub data_callback : Capture → List ℤ → List (List ℤ) × Capture
unfolding drain
data_callback c input =
    if not c.has_cb || length input == 0
    then ([], c)
    else let joined = c.partial ++ input in
      let (frames, rest) = drain (length joined) joined in (frames, record c { partial = rest })

-- `Start`: the callback is stored even where the device then fails.
unfoldable pub start : Capture → Answers → Bytes → Capture × Bool
unfolding select_device
start c a name =
    if c.running
    then (c, true)
    else let set = record c { has_cb = true } in
      let chosen = select_device a name in
      if not (a.init_ok chosen)
      then (set, false)
      else if not (a.start_ok chosen)
      then (set, false)
      else (record set { running = true }, true)

unfoldable pub stop : Capture → Capture
stop c = if c.running then record c { running = false; partial = [] } else c
