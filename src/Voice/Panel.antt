-- ===== src/Voice/Panel.antt =====
-- What the overlay shows of the module and sets in it: the devices, the name, the volume, places on
-- the screen, and `SnapshotOverlayState` of client/voice/voice.cpp.
use l2voice_chat.Base.{
  ℕ, Bool, List, [], ◌∷◌, ◌++◌, Option, none, some, ltb, if◌then◌else◌, Bytes, codes, take,
}
use l2voice_chat.Base.Int.{ℤ, pos}
use l2voice_chat.Audio.Float.{FloatOps}
use l2voice_chat.Audio.Device.{Answers}
use l2voice_chat.Audio.Capture
use l2voice_chat.Audio.Playback
use l2voice_chat.Voice.State.{Voice}
use l2voice_chat.Voice.Prefs.{IniReader, ini_read_int, ini_write_int}
use l2voice_chat.Voice.Presence.{refresh_client_ports}
use l2voice_chat.Voice.Incoming.{Listener}
use l2voice_chat.Voice.Lifecycle.{Client}

-- `GetMiniListPos` and `GetMicIconPos`: the pair of `x` and `y`.
unfoldable pub get_mini_list_pos : {F : Type 0} → IniReader → Voice F → ℤ × ℤ
unfolding ini_read_int
get_mini_list_pos r v = (
  ini_read_int r v.ini_path (codes "mini_list_x") (pos 0),
  ini_read_int r v.ini_path (codes "mini_list_y") (pos 0),
)

unfoldable pub save_mini_list_pos : {F : Type 0} → ℤ → ℤ → Voice F → Voice F
unfolding ini_write_int
save_mini_list_pos x y v =
    ini_write_int (codes "mini_list_y") y (ini_write_int (codes "mini_list_x") x v)

unfoldable pub get_mic_icon_pos : {F : Type 0} → IniReader → Voice F → ℤ × ℤ
unfolding ini_read_int
get_mic_icon_pos r v = (
  ini_read_int r v.ini_path (codes "mic_icon_x") (pos 0),
  ini_read_int r v.ini_path (codes "mic_icon_y") (pos 0),
)

unfoldable pub save_mic_icon_pos : {F : Type 0} → ℤ → ℤ → Voice F → Voice F
unfolding ini_write_int
save_mic_icon_pos x y v =
    ini_write_int (codes "mic_icon_y") y (ini_write_int (codes "mic_icon_x") x v)

module _ (ops : FloatOps) where
  open ops use {F, add, mul, of_int, to_int}

  -- `WritePrivateProfileStringW` of a text, where there is a voice.ini.
  unfoldable pub ini_write_text : Bytes → Bytes → Client ops → Client ops
  ini_write_text key text c = elim c.voice.ini_path [
    | [] ↦ c
    | _ ∷ _ ↦ record c { text_writes = c.text_writes ++ ((key, text) ∷ []) }
  ]

  -- A capture that runs starts again, on the device.
  unfoldable pub restart_capture : Answers → Client ops → Client ops
  unfolding Capture.start Capture.stop
  restart_capture a c =
      if c.capture.running
      then record c {
        capture = (Capture.start (Capture.stop c.capture) a c.voice.cfg.capture_device).0;
      }
      else c

  -- `none` is a null pointer.
  unfoldable pub set_capture_device : Answers → Option Bytes → Client ops → Client ops
  unfolding ini_write_text restart_capture
  set_capture_device a none c = c
  set_capture_device a (some name) c = restart_capture a (
      ini_write_text (codes "capture_device") (take 127 name) (record c {
        voice = record (c.voice) { cfg = record (c.voice.cfg) { capture_device = take 127 name } };
      }))

  -- The volume of the settings is set again.
  unfoldable pub restart_playback : Answers → Client ops → Client ops
  unfolding Playback.start Playback.stop Playback.set_master_volume
  restart_playback a c =
      if c.listener.playback.running
      then record c {
        listener = record (c.listener) {
          playback =
              Playback.set_master_volume ops c.voice.cfg.master_volume
                (Playback.start ops (Playback.stop ops c.listener.playback) a
                  c.voice.cfg.playback_device).0;
        };
      }
      else c

  unfoldable pub set_playback_device : Answers → Option Bytes → Client ops → Client ops
  unfolding ini_write_text restart_playback
  set_playback_device a none c = c
  set_playback_device a (some name) c = restart_playback a (
      ini_write_text (codes "playback_device") (take 127 name) (record c {
        voice = record (c.voice) { cfg = record (c.voice.cfg) { playback_device = take 127 name } };
      }))

  -- `GetCaptureDevice` and `GetPlaybackDevice` with a buffer for `room` bytes and the NUL.
  unfoldable pub get_capture_device : ℕ → Client ops → Bytes
  get_capture_device room c = take room c.voice.cfg.capture_device

  unfoldable pub get_playback_device : ℕ → Client ops → Bytes
  get_playback_device room c = take room c.voice.cfg.playback_device

  -- `half` is the literal `0.5f`.
  unfoldable pub set_master_volume : F → F → Client ops → Client ops
  unfolding Playback.set_master_volume ini_write_int
  set_master_volume half g c = record c {
    listener = record (c.listener) {
      playback = Playback.set_master_volume ops g c.listener.playback;
    };
    voice =
        ini_write_int (codes "master_volume") (to_int (add (mul g (of_int (pos 100))) half))
          c.voice;
  }

  -- The ports are reported again, with the new name.
  unfoldable pub set_char_name : ℕ → List ℕ → Option Bytes → Client ops → Client ops
  unfolding ini_write_text refresh_client_ports
  set_char_name now ports none c = c
  set_char_name now ports (some name) c =
      let d = ini_write_text (codes "char_name") (take 63 name) (record c {
        voice = record (c.voice) { cfg = record (c.voice.cfg) { char_name = take 63 name } };
      }) in
      record d { voice = refresh_client_ports now ports d.voice }

  abbrev pub set_prioritize_clan_leader : Bool → Listener ops → Listener ops
  set_prioritize_clan_leader active l = record l { prioritize_clan_leader = active }

  abbrev pub set_prioritize_party_leader : Bool → Listener ops → Listener ops
  set_prioritize_party_leader active l = record l { prioritize_party_leader = active }

  unfoldable pub has_active_speakers : ℕ → Client ops → Bool
  unfolding Playback.active_speakers
  has_active_speakers now c = ltb 0 (Playback.active_speakers ops now c.listener.playback.sources)

  pub record OverlayState : Type 0 where
    pub ws_connected : Bool
    pub session_id : ℕ
    pub player_id : ℕ
    pub active_speakers : ℕ
    pub require_focus : Bool
    pub always_on : Bool
    pub ptt_proximity_vk : ℤ
    pub master_volume : F
    pub ch_enabled : ℕ → Bool
    pub ch_volume : ℕ → F
    pub char_name : Bytes
    pub capture_device : Bytes
    pub playback_device : Bytes

  -- The names of the devices are left empty.
  unfoldable pub snapshot_overlay_state : ℕ → Client ops → OverlayState
  unfolding Playback.active_speakers
  snapshot_overlay_state now c = record {
    ws_connected = c.voice.net.connected;
    session_id = c.voice.net.session_id;
    player_id = c.voice.net.player_id;
    active_speakers = Playback.active_speakers ops now c.listener.playback.sources;
    require_focus = c.voice.cfg.require_focus;
    always_on = c.voice.cfg.always_on;
    ptt_proximity_vk = c.voice.cfg.ptt_proximity;
    master_volume = c.listener.playback.master_gain;
    ch_enabled = c.voice.ch_prefs.enabled;
    ch_volume = c.voice.ch_prefs.volume;
    char_name = take 63 c.voice.cfg.char_name;
    capture_device = [];
    playback_device = [];
  }
