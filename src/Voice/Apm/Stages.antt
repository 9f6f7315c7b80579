-- ===== src/Voice/Apm/Stages.antt =====
-- `Apm::ProcessFrame`, stage by stage.
pub mod Speech
use l2voice_chat.Base.{
  ℕ, Bool, true, false, not, ◌&&◌, ◌||◌, List, [], ◌∷◌, ◌++◌, map, Option, none, some, ◌==◌,
  if◌then◌else◌, length, take, drop,
}
use l2voice_chat.Base.Int.{ℤ, pos, negsuc}
use l2voice_chat.Voice.Activity.{Detector, frame_speaks, detect}
use l2voice_chat.Voice.Apm.{SignalOps, Libraries, ApmConfig, Filter, Apm}

module _ (sig : SignalOps) (lib : Libraries sig) where
  open sig use {
    floats, literal, at_most, pow_ten, log_ten, D, zero_double, widen, add_double, divide,
    square_root, narrow,
  }
  open floats use {F, add, sub, mul, div, less, abs, of_int, to_int}
  open lib use {Rnn, rnnoise_process_frame, echo_cancellation}

  abbrev pub one : F
  one = of_int (pos 1)

  unfoldable pub clamp : F → F → F → F
  clamp v lo hi = if less v lo then lo else if less hi v then hi else v

  unfoldable pub db_to_linear : F → F
  db_to_linear db = pow_ten (div db (of_int (pos 20)))

  unfoldable pub linear_to_db : F → F
  linear_to_db lin =
      if at_most lin (literal 1 9) then of_int (negsuc 179) else mul (of_int (pos 20)) (log_ten lin)

  -- The cut to 16 bits and the conversion.
  unfoldable pub to_sample : F → ℤ
  to_sample v =
      if less (of_int (pos 32767)) v
      then to_int (of_int (pos 32767))
      else if less v (of_int (negsuc 32767))
      then to_int (of_int (negsuc 32767))
      else to_int v

  -- `pcm[i] * (1.0f / 32768.0f)`
  abbrev pub to_unit : ℤ → F
  to_unit s = mul (of_int s) (div one (of_int (pos 32768)))

  -- The loop of the filter from the state `z1`, `z2`.
  unfoldable pub high_pass : Filter sig lib → F → F → List ℤ → List ℤ × F × F
  unfolding to_sample
  high_pass f z1 z2 [] = ([], z1, z2)
  high_pass f z1 z2 (s ∷ pcm) =
      let x = to_unit s in
      let y = add (mul f.b0 x) z1 in
      let (rest, w1, w2) =
        high_pass f (add (sub (mul f.b1 x) (mul f.a1 y)) z2) (sub (mul f.b2 x) (mul f.a2 y)) pcm in
      (to_sample (mul y (of_int (pos 32768))) ∷ rest, w1, w2)

  unfoldable pub sum_squares : D → List ℤ → D
  sum_squares acc [] = acc
  sum_squares acc (s ∷ pcm) = sum_squares (add_double acc (widen (mul (to_unit s) (to_unit s)))) pcm

  unfoldable pub frame_rms : List ℤ → F
  unfolding sum_squares
  frame_rms pcm = narrow (square_root (divide (sum_squares zero_double pcm) (length pcm)))

  unfoldable pub cancel_echo : Option (List ℤ) → List ℤ → Apm sig lib → List ℤ × Apm sig lib
  cancel_echo none pcm a = (pcm, a)
  cancel_echo (some aec_ref) pcm a = elim a.aec_state [
    | none ↦ (pcm, a)
    | some e ↦
        let (out, e') = echo_cancellation e pcm aec_ref in
        if a.cfg.aec_enabled && length pcm == 960
        then (out, record a { aec_state = some e' })
        else (pcm, a)
  ]

  unfoldable pub filter_frame : List ℤ → Apm sig lib → List ℤ × Apm sig lib
  unfolding high_pass
  filter_frame pcm a =
      let (out, z1, z2) = high_pass a.hpf a.hpf_z1 a.hpf_z2 pcm in
      if a.cfg.hpf_enabled then (out, record a { hpf_z1 = z1; hpf_z2 = z2 }) else (pcm, a)

  -- `max_vad` after the two halves, the samples, and the state.
  unfoldable pub denoise : Rnn → List ℤ → F × List ℤ × Rnn
  unfolding to_sample
  denoise st pcm =
      let (p, first, st') = rnnoise_process_frame st (map of_int (take 480 pcm)) in
      let (q, second, st'') = rnnoise_process_frame st' (map of_int (drop 480 pcm)) in
      let low = if less (of_int (pos 0)) p then p else of_int (pos 0) in
      (if less low q then q else low, map to_sample first ++ map to_sample second, st'')

  -- The gate that stands in for RNNoise: the samples, their loudness, and the state.
  unfoldable pub gate_noise : F → List ℤ → Apm sig lib → List ℤ × F × Apm sig lib
  unfolding db_to_linear
  gate_noise rms pcm a =
      let floor =
        (if less rms a.noise_floor
          then add (mul (literal 20 2) a.noise_floor) (mul (sub one (literal 20 2)) rms)
          else add (mul (literal 99 2) a.noise_floor) (mul (sub one (literal 99 2)) rms)) in
      let quiet = db_to_linear (of_int (negsuc 44)) in
      let doubled = mul floor (of_int (pos 2)) in
      let threshold = if less quiet doubled then doubled else quiet in
      let target = if less rms threshold then literal 20 2 else one in
      let moved = add (mul (literal 5 1) a.ns_envelope) (mul (sub one (literal 5 1)) target) in
      let envelope = if less moved (literal 20 2) then literal 20 2 else moved in
      let b = record a { noise_floor = floor; ns_envelope = envelope } in
      if less envelope (literal 999 3)
      then (map (λ s. to_int (mul (of_int s) envelope)) pcm, mul rms envelope, b)
      else (pcm, rms, b)

  -- `rnn_state_ != nullptr`
  unfoldable pub has_rnn : Apm sig lib → Bool
  has_rnn a = elim a.rnn_state [ none ↦ false | some st ↦ true ]

  -- The noise stage: `max_vad`, the samples, their loudness, and the state.
  unfoldable pub suppress_noise : F → List ℤ → Apm sig lib → F × List ℤ × F × Apm sig lib
  unfolding denoise gate_noise frame_rms
  suppress_noise rms pcm a =
      let (gated, quieter, b) = gate_noise rms pcm a in
      let none_heard = of_int (pos 0) in
      let gate : F × List ℤ × F × Apm sig lib = (none_heard, gated, quieter, b) in
      if not a.cfg.ns_enabled then (none_heard, pcm, rms, a) else elim a.rnn_state [
        | none ↦ gate
        | some st ↦
            let (vad, out, st') = denoise st pcm in
            if length pcm == 960
            then (vad, out, frame_rms out, record a { rnn_state = some st' })
            else gate
      ]

  -- Whether the frame is speech, from the probability and the loudness before the noise stage.
  unfoldable pub is_speech : F → F → List ℤ → Apm sig lib → Bool
  unfolding has_rnn linear_to_db
  is_speech vad rms pcm a =
      frame_speaks a.cfg.ns_enabled (has_rnn a) (length pcm) (less (literal 85 2) vad)
        (less (of_int (negsuc 41)) (linear_to_db rms))

  unfoldable pub control_gain : F → List ℤ → Apm sig lib → List ℤ × F × Apm sig lib
  unfolding db_to_linear clamp to_sample
  control_gain rms pcm a =
      let desired =
        clamp (div (db_to_linear (of_int (negsuc 17))) rms) (literal 25 2) (of_int (pos 6)) in
      let step = if less a.agc_gain desired then literal 5 2 else literal 30 2 in
      let gain = add (mul (sub one step) a.agc_gain) (mul step desired) in
      let b = record a { agc_gain = gain } in
      if not (a.cfg.agc_enabled && less (literal 1 4) rms)
      then (pcm, rms, a)
      else if less (literal 1 3) (abs (sub gain one))
      then (map (λ s. to_sample (mul (of_int s) gain)) pcm, mul rms gain, b)
      else (pcm, rms, b)

  -- The frame after the first two stages, which is measured.
  unfoldable pub clean_frame : Option (List ℤ) → List ℤ → Apm sig lib → List ℤ × Apm sig lib
  unfolding cancel_echo filter_frame
  clean_frame aec_ref pcm a = let (near, b) = cancel_echo aec_ref pcm a in filter_frame near b

  -- The loudness that is returned, the samples, and the state. `none` is the null reference.
  unfoldable pub process_frame : Option (List ℤ) → List ℤ → Apm sig lib → F × List ℤ × Apm sig lib
  unfolding clean_frame frame_rms suppress_noise is_speech control_gain
  process_frame aec_ref [] a = (of_int (pos 0), [], a)
  process_frame aec_ref (s ∷ pcm) a =
      let (clean, b) = clean_frame aec_ref (s ∷ pcm) a in
      let rms = frame_rms clean in
      let (vad, quiet, left, c) = suppress_noise rms clean b in
      let speech = is_speech vad rms clean b in
      let (out, level, d) =
        control_gain left quiet (record c { detector = detect speech c.detector }) in
      (level, out, d)
