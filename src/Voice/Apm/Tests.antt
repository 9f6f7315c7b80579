-- ===== src/Voice/Apm/Tests.antt =====
-- The audio processing with integers for the floats, and libraries that change nothing.
use l2voice_chat.Base.{ℕ, [], ◌∷◌, none, some, ◌≡◌, refl, take}
use l2voice_chat.Base.Int.{ℤ, pos, ◌+ℤ◌, ltb_ℤ}
use l2voice_chat.Voice.Tests.{integers}
use l2voice_chat.Voice.Activity.Hangover.{any_true}
use l2voice_chat.Voice.Apm.{SignalOps, Libraries, new_apm, reset}
use l2voice_chat.Voice.Apm.Stages.Speech.{process_all, judge_all, process_all_lem}

abbrev signals : SignalOps
signals = record {
  floats = integers;
  literal = λ m k. pos 0;
  at_most = λ a b. ltb_ℤ a b;
  pow_ten = λ x. x;
  log_ten = λ x. x;
  D = ℤ;
  zero_double = pos 0;
  widen = λ x. x;
  add_double = ◌+ℤ◌;
  divide = λ acc n. acc;
  square_root = λ x. x;
  narrow = λ x. x;
}

-- RNNoise hears speech in everything; there is no echo canceller.
abbrev libraries : Libraries signals
libraries = record {
  Rnn = ℕ;
  Echo = ℕ;
  rnnoise_create = some 0;
  rnnoise_process_frame = λ st xs. (pos 1, xs, st);
  echo_state_init = none;
  echo_cancellation = λ e near far. (near, e);
  echo_state_reset = λ e. e;
}

process_all_lem_example :
    (process_all signals libraries
      ((none, pos 3, pos 4 ∷ []) ∷ (some [], pos 0, []) ∷ [])
      (reset signals libraries (new_apm signals libraries))).detector.is_speaking
    ≡ any_true (
        take 26 (
          judge_all signals libraries
            ((none, pos 3, pos 4 ∷ []) ∷ (some [], pos 0, []) ∷ [])
            (reset signals libraries (new_apm signals libraries))))
unfolding reset
process_all_lem_example =
    process_all_lem signals libraries ((none, pos 3, pos 4 ∷ []) ∷ (some [], pos 0, []) ∷ [])
      (reset signals libraries (new_apm signals libraries)) refl
