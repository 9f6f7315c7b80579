-- ===== src/Audio/Capture/Tests.antt =====
-- Samples that complete a frame.
use l2voice_chat.Base.{true, [], ◌∷◌, ◌++◌, ◌≡◌, refl, arith, length, replicate, length-replicate}
use l2voice_chat.Base.Int.{pos}
use l2voice_chat.Audio.Capture.{Capture, data_callback}
use l2voice_chat.Audio.Capture.Frames.{Cut, data_callback-Cut}

abbrev nearly_full : Capture
nearly_full = record { has_cb = true; partial = replicate 959 (pos 4); running = true }

data_callback-Cut_example : Cut (nearly_full.partial ++ (pos 5 ∷ pos 6 ∷ [])) (
  (data_callback nearly_full (pos 5 ∷ pos 6 ∷ [])).0,
  (data_callback nearly_full (pos 5 ∷ pos 6 ∷ [])).1.partial,
)
data_callback-Cut_example =
    data_callback-Cut nearly_full (pos 5 ∷ pos 6 ∷ []) refl
      (omega (arith, length-replicate 959 (pos 4)))

one_frame : length (data_callback nearly_full (pos 5 ∷ pos 6 ∷ [])).0 ≡ 1
unfolding data_callback
one_frame = refl
