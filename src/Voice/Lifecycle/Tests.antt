-- ===== src/Voice/Lifecycle/Tests.antt =====
-- The module is started and stopped, and its devices change.
use l2voice_chat.Base.{◌==◌, ◌&&◌, ◌||◌, true, false, [], ◌∷◌, none, some, ◌≡◌, refl, codes}
use l2voice_chat.Base.Int.{pos}
use l2voice_chat.Audio.Device.{Answers}
use l2voice_chat.Voice.Tests.{integers, listener, player}
use l2voice_chat.Voice.Prefs.{IniReader}
use l2voice_chat.Voice.Lifecycle.{Setup, Client, init, shutdown}
use l2voice_chat.Voice.Lifecycle.Success.{opens, init_lem}
use l2voice_chat.Voice.Panel.{set_capture_device, set_playback_device, set_master_volume}

-- A file that says nothing.
abbrev pub silent_ini : IniReader
silent_ini = record { string = λ key. []; int = λ key fallback. fallback }

-- Two devices, of which the default one and the first work.
abbrev pub machine : Answers
machine = record {
  devices =
      some (record { name = codes "USB"; id = 1 } ∷ record { name = codes "HDMI"; id = 2 } ∷ []);
  init_ok = λ id. elim id [ none ↦ true | some n ↦ n == 1 ];
  start_ok = λ id. true;
}

abbrev pub setup : Setup
setup = record {
  ini = silent_ini;
  encoder_ok = true;
  playback = machine;
  capture = machine;
  winsock = true;
  ports = 50001 ∷ [];
  now = 1000;
}

abbrev pub unloaded : Client integers
unloaded = record {
  voice = record player { running = false; net = record (player.net) { started = false } };
  listener = record listener { playback = record (listener.playback) { running = false } };
  capture = record { has_cb = false; partial = []; running = false };
  apm = record { aec_enabled = true; hpf_enabled = true; ns_enabled = true; agc_enabled = true };
  encoder_ready = false;
  decoders = [];
  keepalive = 0;
  text_writes = [];
}

abbrev started : Client integers
started = (init integers setup player.cfg unloaded).0

init_starts : (init integers setup player.cfg unloaded).1 ≡ true
unfolding init
init_starts = refl

-- No microphone: the output is stopped again.
init_no_microphone :
    (init integers
      (record setup { capture = record machine { start_ok = λ id. false } })
      player.cfg
      unloaded).0.listener.playback.running
    ≡ false
unfolding init
init_no_microphone = refl

shutdown-init : (shutdown integers started).capture.running ≡ false
unfolding shutdown init
shutdown-init = refl

-- A device that does not start leaves the capture stopped, and a device that would work is then not
-- started either.
set_capture_device_again :
    (set_capture_device integers machine
      (some (codes "USB"))
      (set_capture_device integers machine (some (codes "HDMI")) started)).capture.running
    ≡ false
unfolding set_capture_device init
set_capture_device_again = refl

-- A change of the device takes the volume back to that of the start.
set_playback_device_volume :
    (set_playback_device integers machine
      (some (codes "USB"))
      (set_master_volume integers (pos 0) (pos 0) started)).listener.playback.master_gain
    ≡ pos 1
unfolding set_playback_device set_master_volume init
set_playback_device_volume = refl

-- Neither device starts where the microphone does not open.
abbrev deaf : Setup
deaf = record setup { capture = record machine { start_ok = λ id. false } }

init_lem_example :
    let (d, ok) = init integers deaf player.cfg unloaded in
    (ok ≡ (true && ((false || true) && (opens machine [] && opens deaf.capture []))))
    × (d.voice.running ≡ ok)
    × (d.listener.playback.running ≡ ok)
    × (d.capture.running ≡ ok)
init_lem_example = init_lem integers deaf player.cfg unloaded refl refl refl
