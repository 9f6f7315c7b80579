-- ===== src/Voice/Apm.antt =====
-- The audio processing before a frame is sent, client/voice/apm.cpp: its state, its filter's
-- coefficients and `Reset`. RNNoise and the echo canceller of Speex are parameters, and so are the
-- functions of the floats that other parts do not use.
pub mod Stages
mod Tests
use l2voice_chat.Base.{ℕ, Bool, true, false, List, Option, none, some}
use l2voice_chat.Base.Int.{ℤ, pos, negsuc}
use l2voice_chat.Audio.Float.{FloatOps}
use l2voice_chat.Voice.Activity.{Detector, fresh_detector}

-- The flags that voice.ini switches; the numbers of `ApmConfig` are never changed.
pub record ApmConfig : Type 0 where
  pub aec_enabled : Bool
  pub hpf_enabled : Bool
  pub ns_enabled : Bool
  pub agc_enabled : Bool

-- `D` is the type double. `literal m k` is the float of the literal with the digits `m`, of which
-- `k` stand behind the point.
pub record SignalOps : Type 1 where
  pub floats : FloatOps
  pub literal : ℕ → ℕ → floats.F
  -- `a <= b`
  pub at_most : floats.F → floats.F → Bool
  pub pow_ten : floats.F → floats.F
  pub log_ten : floats.F → floats.F
  pub D : Type 0
  pub zero_double : D
  pub widen : floats.F → D
  pub add_double : D → D → D
  -- `acc / samples`, `std::sqrt` and the conversion to float.
  pub divide : D → ℕ → D
  pub square_root : D → D
  pub narrow : D → floats.F

-- `rnnoise_create` and `rnnoise_process_frame`, with the probability, the samples and the state;
-- `speex_echo_state_init`, `speex_echo_cancellation` for the microphone and the reference, and
-- `speex_echo_state_reset`.
pub record Libraries (sig : SignalOps) : Type 1 where
  pub Rnn : Type 0
  pub Echo : Type 0
  pub rnnoise_create : Option Rnn
  pub rnnoise_process_frame : Rnn → List sig.floats.F → sig.floats.F × List sig.floats.F × Rnn
  pub echo_state_init : Option Echo
  pub echo_cancellation : Echo → List ℤ → List ℤ → List ℤ × Echo
  pub echo_state_reset : Echo → Echo

module _ (sig : SignalOps) (lib : Libraries sig) where
  open sig use {floats, literal}
  open floats use {F, add, sub, mul, div, cos, sin, of_int}
  open lib use {Rnn, Echo, rnnoise_create, echo_state_init, echo_state_reset}

  -- The coefficients of the high-pass filter.
  pub record Filter : Type 0 where
    pub b0 : F
    pub b1 : F
    pub b2 : F
    pub a1 : F
    pub a2 : F

  pub record Apm : Type 0 where
    pub cfg : ApmConfig
    pub hpf : Filter
    pub hpf_z1 : F
    pub hpf_z2 : F
    pub rnn_state : Option Rnn
    pub aec_state : Option Echo
    pub noise_floor : F
    pub ns_envelope : F
    pub agc_gain : F
    pub detector : Detector

  -- `kPi`
  abbrev pub pi : F
  pi = literal 314159265358979323846 20

  unfoldable pub design_hpf : F → F → Filter
  design_hpf cutoff_hz sample_rate =
      let two = of_int (pos 2) in
      let one = of_int (pos 1) in
      let w0 = div (mul (mul two pi) cutoff_hz) sample_rate in
      let cos_w0 = cos w0 in
      let alpha = div (sin w0) (mul two (literal 7071 4)) in
      let a0 = add one alpha in
      record {
        b0 = div (div (add one cos_w0) two) a0;
        b1 = div (mul (of_int (negsuc 0)) (add one cos_w0)) a0;
        b2 = div (div (add one cos_w0) two) a0;
        a1 = div (mul (of_int (negsuc 1)) cos_w0) a0;
        a2 = div (sub one alpha) a0;
      }

  -- The constructor.
  unfoldable pub new_apm : Apm
  unfolding design_hpf
  new_apm = record {
    cfg = record { aec_enabled = true; hpf_enabled = true; ns_enabled = true; agc_enabled = true };
    hpf = design_hpf (of_int (pos 80)) (of_int (pos 48000));
    hpf_z1 = of_int (pos 0);
    hpf_z2 = of_int (pos 0);
    rnn_state = rnnoise_create;
    aec_state = echo_state_init;
    noise_floor = literal 1 4;
    ns_envelope = of_int (pos 1);
    agc_gain = of_int (pos 1);
    detector = fresh_detector;
  }

  unfoldable pub configure : ApmConfig → Apm → Apm
  configure cfg a = record a { cfg = cfg }

  unfoldable pub reset : Apm → Apm
  reset a = record a {
    hpf_z1 = of_int (pos 0);
    hpf_z2 = of_int (pos 0);
    noise_floor = literal 1 4;
    ns_envelope = of_int (pos 1);
    agc_gain = of_int (pos 1);
    detector = fresh_detector;
    rnn_state = rnnoise_create;
    aec_state = elim a.aec_state [ none ↦ none | some e ↦ some (echo_state_reset e) ];
  }
