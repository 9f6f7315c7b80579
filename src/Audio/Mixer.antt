-- ===== src/Audio/Mixer.antt =====
-- The mixing step of client/voice/audio_io.cpp: the sources, and how the playback callback adds
-- each of them to the stereo output.
use l2voice_chat.Base.{ℕ, ◌+◌, ◌/◌, Bool, List, [], ◌∷◌, length, ltb, ◌==◌, if◌then◌else◌}
use l2voice_chat.Base.Int.{ℤ, pos, negsuc, ◌+ℤ◌, ltb_ℤ, sub_ℕ}
use l2voice_chat.Base.Dict.{Dict}
use l2voice_chat.Audio.Ring.{MonoRing, available, pop}
use l2voice_chat.Audio.Float.{FloatOps}

abbrev pub int16_max : ℤ
int16_max = pos 32767

abbrev pub int16_min : ℤ
int16_min = negsuc 32767

-- `if (l > 32767) l = 32767; else if (l < -32768) l = -32768;`
unfoldable pub saturate : ℤ → ℤ
saturate l = if ltb_ℤ int16_max l then int16_max else if ltb_ℤ l int16_min then int16_min else l

-- One frame of the stereo output.
abbrev pub Stereo : Type 0
Stereo = ℤ × ℤ

-- `(a + b) / 2` of C, which rounds towards zero.
unfoldable pub half_sum : ℤ → ℤ → ℤ
half_sum a b = elim (a +ℤ b) [ pos n ↦ pos (n / 2) | negsuc n ↦ sub_ℕ 0 ((n + 1) / 2) ]

module _ (ops : FloatOps) where
  open ops use {F, add, mul, less, cos, sin, of_int, to_int, quarter_pi}

  pub record Source : Type 0 where
    pub ring : MonoRing
    pub gain : F
    pub pan : F
    pub volume : F
    pub muted : Bool
    pub last_mix : ℕ

  -- `PanGains`: the left and the right gain.
  unfoldable pub pan_gains : F → F × F
  pan_gains pan =
      let low = if less pan (of_int (negsuc 0)) then of_int (negsuc 0) else pan in
      let p = if less (of_int (pos 1)) low then of_int (pos 1) else low in
      let theta = mul (add p (of_int (pos 1))) quarter_pi in (cos theta, sin theta)

  -- One sample mixed into one frame of the output.
  unfoldable pub mix_frame : F × F → F → Stereo → ℤ → Stereo
  unfolding saturate
  mix_frame (lpan, rpan) gain (l, r) s = (
    saturate (l +ℤ to_int (mul (mul (of_int s) lpan) gain)),
    saturate (r +ℤ to_int (mul (mul (of_int s) rpan) gain)),
  )

  -- The loop over the `got` samples popped: they go into the first frames of the output.
  unfoldable pub mix : F × F → F → List Stereo → List ℤ → List Stereo
  unfolding mix_frame
  mix pans gain out [] = out
  mix pans gain [] (s ∷ ss) = []
  mix pans gain (o ∷ out) (s ∷ ss) = mix_frame pans gain o s ∷ mix pans gain out ss

  -- The body of the loop over the sources, at time `now`.
  unfoldable pub mix_source : ℕ → F → ℕ → List Stereo → Source → List Stereo × Source
  unfolding mix pan_gains
  mix_source now master frame_count out src =
      if available src.ring == 0
      then (out, src)
      else let (got, ring) = pop src.ring (if ltb 1024 frame_count then 1024 else frame_count) in
        if src.muted
        then (out, record src { ring = ring })
        else if length got == 0
        then (out, record src { ring = ring })
        else let gain = mul (mul src.gain src.volume) master in
          (mix (pan_gains src.pan) gain out got, record src { ring = ring; last_mix = now })

  unfoldable pub mix_sources : ℕ → F → ℕ → List Stereo → Dict ℕ Source → List Stereo × Dict ℕ Source
  unfolding mix_source
  mix_sources now master frame_count out [] = (out, [])
  mix_sources now master frame_count out ((id, src) ∷ rest) =
      let (out', src') = mix_source now master frame_count out src in
      let (out'', rest') = mix_sources now master frame_count out' rest in
      (out'', (id, src') ∷ rest')
