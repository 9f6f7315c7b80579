-- ===== src/Audio/Playback/Tests.antt =====
-- Two sources, one of them muted, with integers in place of the floating-point numbers.
use l2voice_chat.Base.{zero, ◌-◌, min, true, false, [], ◌∷◌, ◌≡◌, refl, arith, map}
use l2voice_chat.Base.Int.{ℤ, pos, ◌+ℤ◌, ltb_ℤ}
use l2voice_chat.Audio.Ring.{available, pop, read_from, slot}
use l2voice_chat.Audio.Float.{FloatOps}
use l2voice_chat.Audio.Mixer.{Source}
use l2voice_chat.Audio.Playback.{Playback, data_callback}
use l2voice_chat.Audio.Playback.Mixing.{
  IsOutput, waiting, data_callback-IsOutput, data_callback_drains,
}

-- A product that is right for the factors 0 and 1.
abbrev times : ℤ → ℤ → ℤ
times (pos zero) b = pos 0
times a (pos zero) = pos 0
times a b = a

abbrev integers : FloatOps
integers = record {
  F = ℤ;
  add = ◌+ℤ◌;
  sub = λ a b. a;
  mul = times;
  div = λ a b. a;
  less = ltb_ℤ;
  abs = λ a. a;
  cos = λ a. pos 1;
  sin = λ a. pos 1;
  of_int = λ a. a;
  to_int = λ a. a;
  quarter_pi = pos 1;
  epsilon = pos 0;
}

abbrev loud : Source integers
loud = record {
  ring = record { buf = λ i. pos 30000; wr = 3; rd = 0 };
  gain = pos 1;
  pan = pos 0;
  volume = pos 1;
  muted = false;
  last_mix = 0;
}

abbrev speakers : Playback integers
speakers = record {
  sources = (7, loud) ∷ (8, record loud { muted = true }) ∷ (9, loud) ∷ [];
  master_gain = pos 1;
  running = true;
  aec_ref = λ i. pos 0;
  aec_wr = 0;
}

-- Two voices at 30000 are cut to the largest sample; the muted one is not heard.
saturated :
    (data_callback integers 50 2 speakers).0 ≡ (pos 32767, pos 32767) ∷ (pos 32767, pos 32767) ∷ []
unfolding data_callback available pop read_from slot ◌+ℤ◌
saturated = refl

data_callback-IsOutput_example : IsOutput 2 (data_callback integers 50 2 speakers).0
data_callback-IsOutput_example = data_callback-IsOutput integers 50 2 speakers

data_callback_drains_example :
    waiting integers (data_callback integers 50 2 speakers).1.sources
    ≡ map (λ w. (w.0, w.1 - min 1024 2)) (waiting integers speakers.sources)
data_callback_drains_example = data_callback_drains integers 50 2 speakers (omega arith)

abbrev hushed : Playback integers
hushed = record speakers { sources = (8, record loud { muted = true }) ∷ [] }
