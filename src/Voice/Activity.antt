-- ===== src/Voice/Activity.antt =====
-- The voice detector at the end of `Apm::ProcessFrame` in client/voice/apm.cpp. The measured
-- loudness and the result of RNNoise are parameters, as the two comparisons made with them.
pub mod Hangover
use l2voice_chat.Base.{
  ℕ, ◌-◌, Bool, true, false, ◌&&◌, ◌||◌, List, [], ◌∷◌, ltb, ◌==◌, if◌then◌else◌,
}

-- `is_speaking_` and `speech_hangover_frames_`.
pub record Detector : Type 0 where
  pub is_speaking : Bool
  pub hangover_frames : ℕ

abbrev pub fresh_detector : Detector
fresh_detector = record { is_speaking = false; hangover_frames = 0 }

-- `current_frame_speaking`: the probability of RNNoise where it ran, and else the loudness.
unfoldable pub frame_speaks : Bool → Bool → ℕ → Bool → Bool → Bool
frame_speaks ns_enabled rnn samples likely loud =
    if ns_enabled && (rnn && samples == 960) then likely else loud

unfoldable pub detect : Bool → Detector → Detector
detect true d = record { is_speaking = true; hangover_frames = 25 }
detect false d =
    if ltb 0 d.hangover_frames
    then record { is_speaking = true; hangover_frames = d.hangover_frames - 1 }
    else record d { is_speaking = false }

-- The detector after a history of frames, the newest first.
unfoldable pub detect_all : List Bool → Detector
unfolding detect
detect_all [] = fresh_detector
detect_all (c ∷ past) = detect c (detect_all past)
