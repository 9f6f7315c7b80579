-- ===== src/Voice/Activity/Hangover.antt =====
-- The hangover: speech is reported for 25 frames after the last frame that speaks.
use l2voice_chat.Base.{
  ℕ, zero, suc, ◌+◌, ◌≤◌, Bool, true, false, ◌||◌, List, [], ◌∷◌, ◌≡◌, refl, arith, ltb, take, ◌∙◌,
  sym,
}
use l2voice_chat.Voice.Activity.{Detector, detect, detect_all}

unfoldable pub any_true : List Bool → Bool
any_true [] = false
any_true (b ∷ bs) = b || any_true bs

hangover-bound : (h : List Bool) → (detect_all h).hangover_frames ≤ 25
unfolding detect_all detect
hangover-bound [] = omega arith
hangover-bound (true ∷ h) = omega arith
hangover-bound (false ∷ h) = ground (arith, hangover-bound h)

any_true-take :
    (k : ℕ) (h : List Bool)
    → k ≤ 25
    → any_true (take k h) ≡ ltb 25 ((detect_all h).hangover_frames + k)
unfolding detect_all detect any_true
any_true-take zero h le = ground (arith, hangover-bound h)
any_true-take (suc k) [] le = ground arith
any_true-take (suc k) (true ∷ h) le = ground arith
any_true-take (suc k) (false ∷ h) le =
    ground (arith, any_true-take k h (omega arith), hangover-bound h)

detect-silent : (d : Detector) → (detect false d).is_speaking ≡ ltb 25 (d.hangover_frames + 25)
unfolding detect
detect-silent d = ground arith

-- After any history, the detector reports speech exactly when one of the last 26 frames, the
-- present one among them, was found to speak.
pub detect_all_lem : (h : List Bool) → (detect_all h).is_speaking ≡ any_true (take 26 h)
unfolding detect_all any_true
detect_all_lem [] = refl
detect_all_lem (true ∷ h) = unfold detect in refl
detect_all_lem (false ∷ h) = detect-silent (detect_all h) ∙ sym (any_true-take 25 h (omega arith))
