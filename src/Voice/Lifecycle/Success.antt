-- ===== src/Voice/Lifecycle/Success.antt =====
-- When `Init` succeeds.
use l2voice_chat.Base.{
  Bool, true, false, not, ◌&&◌, ◌||◌, ◌≡◌, refl, arith, Bytes, if◌then◌else◌, sym, ◌∙◌, subst,
}
use l2voice_chat.Audio.Float.{FloatOps}
use l2voice_chat.Audio.Device.{Answers, select_device}
use l2voice_chat.Audio.Capture
use l2voice_chat.Audio.Playback
use l2voice_chat.Voice.State.{Config}
use l2voice_chat.Voice.Prefs.{load_channel_prefs}
use l2voice_chat.Voice.Lifecycle.{Setup, Client, load_settings, start_audio, start_all, init}

-- Whether the device of that name, or the default one, can be opened and started.
abbrev pub opens : Answers → Bytes → Bool
opens a name = a.init_ok (select_device a name) && a.start_ok (select_device a name)

module _ (ops : FloatOps) where
  open ops use {F}

  playback_start_lem :
      (p : Playback.Playback ops) (a : Answers) (name : Bytes)
      → p.running ≡ false
      → ((Playback.start ops p a name).1 ≡ opens a name)
        × ((Playback.start ops p a name).0.running ≡ opens a name)
  unfolding Playback.start
  playback_start_lem p a name h = ground arith

  capture_start_lem :
      (c : Capture.Capture) (a : Answers) (name : Bytes)
      → c.running ≡ false
      → ((Capture.start c a name).1 ≡ opens a name)
        × ((Capture.start c a name).0.running ≡ opens a name)
  unfolding Capture.start
  capture_start_lem c a name h = ground arith

  stop_lem : (p : Playback.Playback ops) → (Playback.stop ops p).running ≡ false
  unfolding Playback.stop
  stop_lem p = ground arith

  -- Both devices run, or neither does.
  abbrev RunsIf : Bool → Client ops × Bool → Type 0
  RunsIf ok (d, done) = (done ≡ ok) × (d.listener.playback.running ≡ ok) × (d.capture.running ≡ ok)

  start_audio_lem :
      (s : Setup) (cfg : Config F) (c : Client ops)
      → c.listener.playback.running ≡ false
      → c.capture.running ≡ false
      → RunsIf
          (opens s.playback cfg.playback_device && opens s.capture cfg.capture_device)
          (start_audio ops s cfg c)
  unfolding start_audio Playback.set_master_volume
  start_audio_lem s cfg c silent deaf = ground (
    arith,
    playback_start_lem c.listener.playback s.playback cfg.playback_device silent,
    capture_start_lem c.capture s.capture cfg.capture_device deaf,
    stop_lem (
        Playback.set_master_volume ops cfg.master_volume
          (Playback.start ops c.listener.playback s.playback cfg.playback_device).0),
  )

  start_all_lem :
      (s : Setup) (cfg : Config F) (c : Client ops)
      → c.voice.running ≡ false
      → c.listener.playback.running ≡ false
      → c.capture.running ≡ false
      → let ok =
          (c.encoder_ready || s.encoder_ok)
          && (opens s.playback cfg.playback_device && opens s.capture cfg.capture_device) in
        RunsIf ok (start_all ops s cfg c) × ((start_all ops s cfg c).0.voice.running ≡ ok)
  unfolding start_all
  start_all_lem s cfg c idle silent deaf =
      ground (arith, start_audio_lem s cfg (record c { encoder_ready = true }) silent deaf)

  load_settings_idle :
      (s : Setup) (cfg : Config F) (c : Client ops)
      → c.voice.running ≡ false
      → (load_settings ops s cfg c).voice.running ≡ false
  unfolding load_settings load_channel_prefs
  load_settings_idle s cfg c idle = idle

  -- A start of the module that is at rest succeeds exactly when the settings enable it, there is an
  -- encoder, and both devices open; and a device runs afterwards exactly when it succeeded, so that
  -- a start that fails half way leaves neither running.
  pub init_lem :
      (s : Setup) (cfg : Config F) (c : Client ops)
      → c.voice.running ≡ false
      → c.listener.playback.running ≡ false
      → c.capture.running ≡ false
      → let (d, ok) = init ops s cfg c in
        (ok ≡ (
          cfg.enabled
          && ((c.encoder_ready || s.encoder_ok)
              && (opens s.playback cfg.playback_device && opens s.capture cfg.capture_device))))
        × (d.voice.running ≡ ok)
        × (d.listener.playback.running ≡ ok)
        × (d.capture.running ≡ ok)
  unfolding init load_settings
  init_lem s cfg c idle silent deaf =
      let both = opens s.playback cfg.playback_device && opens s.capture cfg.capture_device in
      let ready = (c.encoder_ready || s.encoder_ok) && both in
      let Q = λ (ok : Bool) (r : Client ops × Bool).
        (r.1 ≡ ok)
        × (r.0.voice.running ≡ r.1)
        × (r.0.listener.playback.running ≡ r.1)
        × (r.0.capture.running ≡ r.1) in
      let all = start_all ops s cfg (load_settings ops s cfg c) in
      let ((done, playing, recording), on) =
        start_all_lem s cfg (load_settings ops s cfg c) (load_settings_idle s cfg c idle) silent
          deaf in
      subst
        (λ b.
          Q (cfg.enabled && ready)
            (if b then (c, true) else if not cfg.enabled then (c, false) else all))
        (sym idle)
        (elim cfg.enabled as (λ b. Q (b && ready) (if not b then (c, false) else all)) [
          | true ↦ (done, on ∙ sym done, playing ∙ sym done, recording ∙ sym done)
          | false ↦ (refl, idle, silent, deaf)
        ])
