-- ===== src/Voice/Lifecycle/Orderly.antt =====
-- What `Init`, `Shutdown`, the keep-alive threads and the overlay's setters keep: no device and no
-- connection runs unless the module runs.
use l2voice_chat.Base.{
  ℕ, ◌≤◌, Bool, true, false, not, List, Option, none, some, ◌≡◌, arith, Bytes, if_cases,
}
use l2voice_chat.Audio.Float.{FloatOps}
use l2voice_chat.Audio.Device.{Answers}
use l2voice_chat.Audio.Capture
use l2voice_chat.Audio.Playback
use l2voice_chat.Network.Commands.{send_keepalive}
use l2voice_chat.Network.Session
use l2voice_chat.Network.Session.{set_client_ports, try_send_auth, suspend_ws, resume_ws}
use l2voice_chat.Voice.State.{Config, Voice}
use l2voice_chat.Voice.Prefs.{load_channel_prefs, ini_write_int}
use l2voice_chat.Voice.Presence.{
  note_ports, refresh_client_ports, suspend_voice, resume_voice, cleanup_speakers, poll_frame,
  on_render_frame,
}
use l2voice_chat.Voice.Lifecycle.{
  Setup, Client, load_settings, start_audio, start_all, init, shutdown, tell_alive, keepalive_round,
}
use l2voice_chat.Voice.Panel.{
  ini_write_text, restart_capture, set_capture_device, restart_playback, set_playback_device,
  set_master_volume, set_char_name,
}

-- What `RefreshClientPorts` leaves.
refresh-keeps :
    {F : Type 0} (now : ℕ) (ports : List ℕ) (v : Voice F)
    → ((refresh_client_ports now ports v).running ≡ v.running)
      × ((refresh_client_ports now ports v).net.started ≡ v.net.started)
unfolding refresh_client_ports note_ports set_client_ports try_send_auth
refresh-keeps now ports v = ground arith

-- What a round of the poll leaves.
pub on_render_frame-keeps :
    {F : Type 0} (now : ℕ) (ports : List ℕ) (v : Voice F)
    → (on_render_frame now ports v).running ≡ v.running
unfolding on_render_frame poll_frame suspend_voice resume_voice cleanup_speakers
    refresh_client_ports note_ports
on_render_frame-keeps now ports v = ground arith

module _ {ops : FloatOps} where
  open ops use {F}

  -- A device and the connection run only while the module runs, which then has a keep-alive thread
  -- and its encoder.
  pub record IsOrderly (c : Client ops) : Type 0 where
    pub captures : c.capture.running ≡ true → c.voice.running ≡ true
    pub plays : c.listener.playback.running ≡ true → c.voice.running ≡ true
    pub connects : c.voice.net.started ≡ true → c.voice.running ≡ true
    pub thread : c.voice.running ≡ true → 1 ≤ c.keepalive
    pub encodes : c.voice.running ≡ true → c.encoder_ready ≡ true

  load_settings-IsOrderly :
      (s : Setup) (cfg : Config F) {c : Client ops}
      → IsOrderly c
      → IsOrderly (load_settings ops s cfg c)
  unfolding load_settings load_channel_prefs
  load_settings-IsOrderly s cfg o = record {
    captures = o.captures;
    plays = o.plays;
    connects = o.connects;
    thread = o.thread;
    encodes = o.encodes;
  }

  load_settings_still :
      (s : Setup) (cfg : Config F) (c : Client ops)
      → c.voice.running ≡ false
      → (load_settings ops s cfg c).voice.running ≡ false
  unfolding load_settings load_channel_prefs
  load_settings_still s cfg c still = still

  -- The devices, from a module at rest.
  start_audio_lem :
      (s : Setup) (cfg : Config F) (c : Client ops)
      → c.capture.running ≡ false
      → c.listener.playback.running ≡ false
      → ((start_audio ops s cfg c).0.capture.running ≡ (start_audio ops s cfg c).1)
        × ((start_audio ops s cfg c).0.listener.playback.running ≡ (start_audio ops s cfg c).1)
        × ((start_audio ops s cfg c).0.voice ≡ c.voice)
        × ((start_audio ops s cfg c).0.encoder_ready ≡ c.encoder_ready)
        × ((start_audio ops s cfg c).0.keepalive ≡ c.keepalive)
  unfolding start_audio Playback.start Playback.stop Playback.set_master_volume Capture.start
  start_audio_lem s cfg c quiet silent = ground arith

  start_all-IsOrderly :
      (s : Setup) (cfg : Config F) (c : Client ops)
      → c.voice.running ≡ false
      → IsOrderly c
      → IsOrderly (start_all ops s cfg c).0
  unfolding start_all
  start_all-IsOrderly s cfg c still o =
      let (recording, playing, same, ready, thread) =
        start_audio_lem s cfg (record c { encoder_ready = true }) (ground arith) (ground arith) in
      ground arith

  pub init-IsOrderly :
      (s : Setup) (cfg : Config F) (c : Client ops) → IsOrderly c → IsOrderly (init ops s cfg c).0
  unfolding init
  init-IsOrderly s cfg c o =
      if_cases {A = Client ops × Bool} (λ r. IsOrderly r.0) c.voice.running (λ running. o)
        (λ still.
          if_cases {A = Client ops × Bool} (λ r. IsOrderly r.0) (not cfg.enabled) (λ disabled. o)
            (λ enabled.
              start_all-IsOrderly s cfg (load_settings ops s cfg c)
                (load_settings_still s cfg c still) (load_settings-IsOrderly s cfg o)))

  pub shutdown-IsOrderly : (c : Client ops) → IsOrderly c → IsOrderly (shutdown ops c)
  unfolding shutdown Playback.stop Capture.stop Session.stop
  shutdown-IsOrderly c o = ground arith

  pub keepalive_round-IsOrderly : (c : Client ops) → IsOrderly c → IsOrderly (keepalive_round ops c)
  unfolding keepalive_round tell_alive send_keepalive
  keepalive_round-IsOrderly c o = ground arith

  pub keepalive_round-running :
      (c : Client ops) → (keepalive_round ops c).voice.running ≡ c.voice.running
  unfolding keepalive_round tell_alive send_keepalive
  keepalive_round-running c = ground arith

  pub set_capture_device-IsOrderly :
      (a : Answers) (name : Option Bytes) (c : Client ops)
      → IsOrderly c
      → IsOrderly (set_capture_device ops a name c)
  unfolding set_capture_device ini_write_text restart_capture Capture.start Capture.stop
  set_capture_device-IsOrderly a none c o = o
  set_capture_device-IsOrderly a (some name) c o = ground arith

  pub set_playback_device-IsOrderly :
      (a : Answers) (name : Option Bytes) (c : Client ops)
      → IsOrderly c
      → IsOrderly (set_playback_device ops a name c)
  unfolding set_playback_device ini_write_text restart_playback Playback.start Playback.stop
      Playback.set_master_volume
  set_playback_device-IsOrderly a none c o = o
  set_playback_device-IsOrderly a (some name) c o = ground arith

  pub set_master_volume-IsOrderly :
      (half g : F) (c : Client ops) → IsOrderly c → IsOrderly (set_master_volume ops half g c)
  unfolding set_master_volume ini_write_int Playback.set_master_volume
  set_master_volume-IsOrderly half g c o = ground arith

  pub set_char_name-IsOrderly :
      (now : ℕ) (ports : List ℕ) (name : Option Bytes) (c : Client ops)
      → IsOrderly c
      → IsOrderly (set_char_name ops now ports name c)
  unfolding set_char_name ini_write_text
  set_char_name-IsOrderly now ports none c o = o
  set_char_name-IsOrderly now ports (some name) c o = ground arith

  start_all-running :
      (s : Setup) (cfg : Config F) (c : Client ops)
      → c.voice.running ≡ false
      → IsOrderly c
      → (start_all ops s cfg c).0.voice.running ≡ (start_all ops s cfg c).1
  unfolding start_all
  start_all-running s cfg c still o =
      let (recording, playing, same, ready, thread) =
        start_audio_lem s cfg (record c { encoder_ready = true }) (ground arith) (ground arith) in
      ground arith

  pub init-running :
      (s : Setup) (cfg : Config F) (c : Client ops)
      → IsOrderly c
      → (init ops s cfg c).0.voice.running ≡ (init ops s cfg c).1
  unfolding init
  init-running s cfg c o =
      if_cases {A = Client ops × Bool} (λ r. r.0.voice.running ≡ r.1) c.voice.running
        (λ running. running)
        (λ still.
          if_cases {A = Client ops × Bool} (λ r. r.0.voice.running ≡ r.1) (not cfg.enabled)
            (λ disabled. still)
            (λ enabled.
              start_all-running s cfg (load_settings ops s cfg c)
                (load_settings_still s cfg c still) (load_settings-IsOrderly s cfg o)))

  pub init_again :
      (s : Setup) (cfg : Config F) (c : Client ops)
      → c.voice.running ≡ true
      → (init ops s cfg c).0.voice.running ≡ true
  unfolding init
  init_again s cfg c running =
      if_cases {A = Client ops × Bool} (λ r. r.0.voice.running ≡ true) c.voice.running
        (λ h. running) (λ still. cc)
