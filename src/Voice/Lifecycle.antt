-- ===== src/Voice/Lifecycle.antt =====
-- The life of the module: `Init`, the keep-alive thread, `DecoderFor` and `Shutdown` of
-- client/voice/voice.cpp. What they call outside is asked of a `Setup`.
pub mod Orderly
pub mod Success
pub mod Tests
use l2voice_chat.Base.{
  ℕ, ◌+◌, ◌-◌, Bool, true, false, not, ◌&&◌, ◌||◌, List, [], ◌∷◌, ◌++◌, none, some, ◌==◌,
  if◌then◌else◌, Bytes, codes,
}
use l2voice_chat.Base.Int.{ℤ, pos}
use l2voice_chat.Audio.Float.{FloatOps}
use l2voice_chat.Audio.Device.{Answers}
use l2voice_chat.Audio.Capture
use l2voice_chat.Audio.Playback
use l2voice_chat.Network.Session
use l2voice_chat.Network.Commands.{send_keepalive}
use l2voice_chat.Voice.Speaking.{Speakers, clear, flush, speak_path}
use l2voice_chat.Voice.State.{Config, Voice}
use l2voice_chat.Voice.Prefs.{IniReader, is_nonzero, flag, ini_read_int, load_channel_prefs}
use l2voice_chat.Voice.Presence.{refresh_client_ports}
use l2voice_chat.Voice.Incoming.{Listener}
use l2voice_chat.Voice.Apm.{ApmConfig}

-- What `Init` meets: voice.ini, whether libopus gives an encoder, the answers about the devices,
-- whether Winsock starts, the ports of the game, and the clock.
pub record Setup : Type 0 where
  pub ini : IniReader
  pub encoder_ok : Bool
  pub playback : Answers
  pub capture : Answers
  pub winsock : Bool
  pub ports : List ℕ
  pub now : ℕ

-- A stage is on unless the file says 0.
abbrev pub stage : IniReader → Bytes → Bytes → Bool
stage r path key = is_nonzero (ini_read_int r path key (pos 1))

abbrev pub read_apm : IniReader → Bytes → ApmConfig
read_apm r path = record {
  aec_enabled = stage r path (codes "apm_aec");
  hpf_enabled = stage r path (codes "apm_hpf");
  ns_enabled = stage r path (codes "apm_ns");
  agc_enabled = stage r path (codes "apm_agc");
}

-- The section of the speakers is removed, since it may be stale.
unfoldable pub clear_speak_ini : Bytes → Speakers → Speakers
unfolding speak_path
clear_speak_ini ini s = elim (speak_path ini) [
  | none ↦ s
  | some path ↦ record s { writes = s.writes ++ (clear path ∷ flush path ∷ []) }
]

unfoldable pub is_known : ℕ → List ℕ → Bool
is_known src [] = false
is_known src (d ∷ ds) = d == src || is_known src ds

-- `DecoderFor`: the sources with a decoder, and whether there is one for `src`; `created` is whether
-- libopus makes one.
unfoldable pub decoder_for : Bool → ℕ → List ℕ → Bool × List ℕ
unfolding is_known
decoder_for created src ds =
    if is_known src ds then (true, ds) else if created then (true, src ∷ ds) else (false, ds)

module _ (ops : FloatOps) where
  open ops use {F}

  -- `Mod` with the statics beside it; `keepalive` is the number of keep-alive threads, and
  -- `text_writes` collects the texts that went to voice.ini.
  pub record Client : Type 0 where
    pub voice : Voice F
    pub listener : Listener ops
    pub capture : Capture.Capture
    pub apm : ApmConfig
    pub encoder_ready : Bool
    pub decoders : List ℕ
    pub keepalive : ℕ
    pub text_writes : List (Bytes × Bytes)

  -- The first steps of `Init`, which always succeed.
  unfoldable pub load_settings : Setup → Config F → Client → Client
  unfolding load_channel_prefs clear_speak_ini
  load_settings s cfg c =
      let v = load_channel_prefs ops s.ini (record (c.voice) { cfg = cfg }) in
      record c {
        voice = record v { speakers = clear_speak_ini v.ini_path v.speakers };
        apm = read_apm s.ini v.ini_path;
      }

  -- The devices: the playback is stopped again where the capture does not start.
  unfoldable pub start_audio : Setup → Config F → Client → Client × Bool
  unfolding Playback.start Playback.stop Playback.set_master_volume Capture.start
  start_audio s cfg c =
      let (p, playing) = Playback.start ops c.listener.playback s.playback cfg.playback_device in
      let louder = Playback.set_master_volume ops cfg.master_volume p in
      let (r, recording) = Capture.start c.capture s.capture cfg.capture_device in
      if not playing
      then (record c { listener = record (c.listener) { playback = p } }, false)
      else if not recording
      then (
        record c {
          listener = record (c.listener) { playback = Playback.stop ops louder };
          capture = r;
        },
        false,
      )
      else (record c { listener = record (c.listener) { playback = louder }; capture = r }, true)

  -- The connection, if the settings ask for it, with the callbacks of `client_hooks`.
  unfoldable pub connect : Setup → Config F → Voice F → Voice F
  unfolding Session.start refresh_client_ports
  connect s cfg v =
      if cfg.auto_connect
      then refresh_client_ports s.now s.ports (record v { net = (Session.start s.winsock v.net).0 })
      else v

  -- `encoder.Init` and what is behind it.
  unfoldable pub start_all : Setup → Config F → Client → Client × Bool
  unfolding start_audio connect
  start_all s cfg c =
      let ready = c.encoder_ready || s.encoder_ok in
      let (d, started) = start_audio s cfg (record c { encoder_ready = true }) in
      if not ready then (c, false) else if not started then (d, false) else (
        record d {
          voice = record (connect s cfg d.voice) { running = true };
          keepalive = d.keepalive + 1;
        },
        true,
      )

  unfoldable pub init : Setup → Config F → Client → Client × Bool
  unfolding load_settings start_all
  init s cfg c =
      if c.voice.running
      then (c, true)
      else if not cfg.enabled
      then (c, false)
      else start_all s cfg (load_settings s cfg c)

  -- The keep-alive thread is only detached: it ends by itself, with its round.
  unfoldable pub shutdown : Client → Client
  unfolding Playback.stop Capture.stop Session.stop
  shutdown c = if not c.voice.running then c else record c {
    voice = record (c.voice) { running = false; net = Session.stop c.voice.net };
    listener = record (c.listener) { playback = Playback.stop ops c.listener.playback };
    capture = Capture.stop c.capture;
    decoders = [];
  }

  -- What a keep-alive thread does at the end of its round, also where the module was stopped during
  -- the round.
  unfoldable pub tell_alive : Client → Client
  unfolding send_keepalive
  tell_alive c =
      if c.voice.net.connected && not (c.voice.net.session_id == 0)
      then record c { voice = record (c.voice) { net = send_keepalive c.voice.net } }
      else c

  -- The end of a round of a keep-alive thread, some five seconds after its start, or half a second
  -- at most after `Shutdown`; without the module the thread then ends.
  unfoldable pub keepalive_round : Client → Client
  unfolding tell_alive
  keepalive_round c =
      if c.keepalive == 0
      then c
      else if c.voice.running
      then tell_alive c
      else record (tell_alive c) { keepalive = c.keepalive - 1 }
