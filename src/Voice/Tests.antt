-- ===== src/Voice/Tests.antt =====
-- The values that the module's tests share: integers in place of the floats, and a player at rest.
use l2voice_chat.Base.{zero, true, false, [], ◌∷◌, ◌++◌, Bytes, codes}
use l2voice_chat.Base.Int.{ℤ, pos, ◌+ℤ◌, ltb_ℤ}
use l2voice_chat.Audio.Float.{FloatOps}
use l2voice_chat.Network.State.{Net, initial}
use l2voice_chat.Voice.State.{Config, Voice}
use l2voice_chat.Wire.{Packet}
use l2voice_chat.Voice.Incoming.{Listener}
use l2voice_chat.Voice.Prefs.{default_config}

-- A product that is right for the factors 0 and 1.
abbrev times : ℤ → ℤ → ℤ
times (pos zero) b = pos 0
times a (pos zero) = pos 0
times a b = a

abbrev pub integers : FloatOps
integers = record {
  F = ℤ;
  add = ◌+ℤ◌;
  sub = λ a b. a;
  mul = times;
  div = λ a b. a;
  less = ltb_ℤ;
  abs = λ a. a;
  cos = λ a. pos 1;
  sin = λ a. pos 1;
  of_int = λ a. a;
  to_int = λ a. a;
  quarter_pi = pos 1;
  epsilon = pos 0;
}

-- 92 is the backslash.
abbrev pub ini : Bytes
ini = codes "C:" ++ (92 ∷ codes "voice.ini")

abbrev pub connection : Net
connection = record initial { connected = true; session_id = 7; udp_port = 9 }

abbrev pub settings : Config ℤ
settings = record (default_config integers) { char_name = codes "Ana" }

abbrev pub player : Voice ℤ
player = record {
  cfg = settings;
  ch_prefs = record { enabled = λ i. true; volume = λ i. pos 1; active_tx_channel = pos 0 };
  running = true;
  ini_path = ini;
  ini_writes = [];
  tx_seq = 65535;
  net = connection;
  speakers = record { channel = []; last_time = []; writes = [] };
  last_port_count = 0;
  out_of_world_at = 0;
  voice_suspended = false;
  counter = 1;
  last_speak_cleanup = 0;
}

abbrev pub listener : Listener integers
listener = record {
  playback = record {
    sources = [];
    master_gain = pos 1;
    running = true;
    aec_ref = λ i. pos 0;
    aec_wr = 0;
  };
  local_muted = [];
  local_volume = [];
  prioritize_clan_leader = false;
  prioritize_party_leader = false;
}

-- A packet for CC.
abbrev pub command : Packet
command = record { channel = 4; src = 5; seq = 1; gain = 255; pan = pos 0; payload = 1 ∷ [] }
