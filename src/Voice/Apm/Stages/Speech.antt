-- ===== src/Voice/Apm/Stages/Speech.antt =====
-- Whether the player speaks, over frames of any content: the hangover of 25 frames.
use l2voice_chat.Base.{Bool, List, [], ◌∷◌, Option, ◌≡◌, ap, ◌∙◌, arith, take}
use l2voice_chat.Base.Int.{ℤ}
use l2voice_chat.Voice.Activity.{fresh_detector, detect, detect_all}
use l2voice_chat.Voice.Activity.Hangover.{any_true, detect_all_lem}
use l2voice_chat.Voice.Apm.{SignalOps, Libraries, Apm}
use l2voice_chat.Voice.Apm.Stages.{
  cancel_echo, filter_frame, clean_frame, gate_noise, suppress_noise, is_speech, control_gain,
  frame_rms, process_frame,
}

module _ (sig : SignalOps) (lib : Libraries sig) where
  open sig use {floats}
  open floats use {F}

  clean_frame-detector :
      (aec_ref : Option (List ℤ)) (pcm : List ℤ) (a : Apm sig lib)
      → (clean_frame sig lib aec_ref pcm a).1.detector ≡ a.detector
  unfolding clean_frame cancel_echo filter_frame
  clean_frame-detector aec_ref pcm a = ground arith

  suppress_noise-detector :
      (rms : F) (pcm : List ℤ) (a : Apm sig lib)
      → (suppress_noise sig lib rms pcm a).3.detector ≡ a.detector
  unfolding suppress_noise gate_noise
  suppress_noise-detector rms pcm a = ground arith

  control_gain-detector :
      (rms : F) (pcm : List ℤ) (a : Apm sig lib)
      → (control_gain sig lib rms pcm a).2.detector ≡ a.detector
  unfolding control_gain
  control_gain-detector rms pcm a = ground arith

  -- What the detector is told of a frame: `current_frame_speaking`.
  unfoldable pub judge : Option (List ℤ) → List ℤ → Apm sig lib → Bool
  unfolding clean_frame suppress_noise is_speech frame_rms
  judge aec_ref pcm a =
      let (clean, b) = clean_frame sig lib aec_ref pcm a in
      is_speech sig lib (suppress_noise sig lib (frame_rms sig lib clean) clean b).0
        (frame_rms sig lib clean) clean b

  -- No other stage touches the detector.
  process_frame-detect :
      (aec_ref : Option (List ℤ)) (s : ℤ) (pcm : List ℤ) (a : Apm sig lib)
      → (process_frame sig lib aec_ref (s ∷ pcm) a).2.detector
        ≡ detect (judge aec_ref (s ∷ pcm) a) a.detector
  unfolding process_frame judge
  process_frame-detect aec_ref s pcm a =
      let cleaned = clean_frame sig lib aec_ref (s ∷ pcm) a in
      let speech = judge aec_ref (s ∷ pcm) a in
      let quiet = suppress_noise sig lib (frame_rms sig lib cleaned.0) cleaned.0 cleaned.1 in
      control_gain-detector quiet.2 quiet.1
        (record (quiet.3) { detector = detect speech quiet.3.detector })
      ∙ ap (detect speech) (
          suppress_noise-detector (frame_rms sig lib cleaned.0) cleaned.0 cleaned.1
          ∙ clean_frame-detector aec_ref (s ∷ pcm) a)

  -- The state after frames that are not empty, with their references, the newest first.
  unfoldable pub process_all : List (Option (List ℤ) × ℤ × List ℤ) → Apm sig lib → Apm sig lib
  unfolding process_frame
  process_all [] a = a
  process_all ((aec_ref, s, pcm) ∷ past) a =
      (process_frame sig lib aec_ref (s ∷ pcm) (process_all past a)).2

  -- What the detector was told of each of them.
  unfoldable pub judge_all : List (Option (List ℤ) × ℤ × List ℤ) → Apm sig lib → List Bool
  unfolding process_all judge
  judge_all [] a = []
  judge_all ((aec_ref, s, pcm) ∷ past) a =
      judge aec_ref (s ∷ pcm) (process_all past a) ∷ judge_all past a

  process_all-detect_all :
      (past : List (Option (List ℤ) × ℤ × List ℤ)) (a : Apm sig lib)
      → a.detector ≡ fresh_detector
      → (process_all past a).detector ≡ detect_all (judge_all past a)
  unfolding process_all judge_all detect_all
  process_all-detect_all [] a fresh = fresh
  process_all-detect_all ((aec_ref, s, pcm) ∷ past) a fresh =
      process_frame-detect aec_ref s pcm (process_all past a)
      ∙ ap (detect (judge aec_ref (s ∷ pcm) (process_all past a)))
          (process_all-detect_all past a fresh)

  -- After any frames that are not empty, from a processor that is new or was reset, and whatever
  -- RNNoise, Speex and the floats answer: the player counts as speaking exactly when one of the last
  -- 26 frames, the present one among them, was judged to be speech. No stage but the detector
  -- touches this.
  pub process_all_lem :
      (past : List (Option (List ℤ) × ℤ × List ℤ)) (a : Apm sig lib)
      → a.detector ≡ fresh_detector
      → (process_all past a).detector.is_speaking ≡ any_true (take 26 (judge_all past a))
  process_all_lem past a fresh =
      ap (λ d. d.is_speaking) (process_all-detect_all past a fresh)
      ∙ detect_all_lem (judge_all past a)
