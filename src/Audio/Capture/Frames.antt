-- ===== src/Audio/Capture/Frames.antt =====
-- The callback neither loses, repeats nor reorders a sample.
use l2voice_chat.Base.{
  ℕ, zero, suc, ◌≤◌, ◌<◌, true, List, [], ◌∷◌, ◌++◌, ◌≡◌, refl, ap, ◌∙◌, inl, inr, arith,
  append-nil, append_assoc, length, take, drop, leb, Bool-cases, All, take-append-drop, length-drop,
  length-take, leb→le, suc-==-zero,
}
use l2voice_chat.Base.Int.{ℤ}
use l2voice_chat.Audio.Ring.{frame_samples}
use l2voice_chat.Audio.Capture.{Capture, drain, data_callback}

abbrev pub joined : List (List ℤ) → List ℤ
joined [] = []
joined (f ∷ fs) = f ++ joined fs

abbrev pub IsFrame : List ℤ → Type 0
IsFrame f = length f ≡ frame_samples

-- What the loop leaves of the samples `xs`.
pub record Cut (xs : List ℤ) (out : List (List ℤ) × List ℤ) : Type 0 where
  pub whole : joined out.0 ++ out.1 ≡ xs
  pub frames : All IsFrame out.0
  pub rest : length out.1 < frame_samples

drain-Cut : (f : ℕ) (xs : List ℤ) → length xs ≤ f → Cut xs (drain f xs)
unfolding drain
drain-Cut zero xs h = record { whole = refl; frames = tt; rest = omega arith }
drain-Cut (suc f) xs h = elim (Bool-cases (leb frame_samples (length xs))) [
  | inl more ↦
      let ih =
        drain-Cut f (drop frame_samples xs)
          (omega (arith, length-drop frame_samples xs, leb→le _ _ more)) in
      rw more (record {
        whole =
            append_assoc (take frame_samples xs) _ _
            ∙ ap (λ t. take frame_samples xs ++ t) ih.whole
            ∙ take-append-drop frame_samples xs;
        frames = (omega (arith, length-take frame_samples xs, leb→le _ _ more), ih.frames);
        rest = ih.rest;
      })
  | inr less ↦ rw less (record { whole = refl; frames = tt; rest = ground arith })
]

-- Where a callback is set and less than a frame is kept, `DataCallback` hands on frames of exactly
-- 960 samples, keeps less than a frame, and these are the kept and the new samples in order.
pub data_callback-Cut :
    (c : Capture) (input : List ℤ)
    → c.has_cb ≡ true
    → length c.partial < frame_samples
    → Cut (c.partial ++ input) ((data_callback c input).0, (data_callback c input).1.partial)
unfolding data_callback
data_callback-Cut c [] h k = rw (h, append-nil) (record { whole = refl; frames = tt; rest = k })
data_callback-Cut c (x ∷ xs) h k =
    rw (h, suc-==-zero)
      (drain-Cut (length (c.partial ++ x ∷ xs)) (c.partial ++ x ∷ xs) (omega arith))
