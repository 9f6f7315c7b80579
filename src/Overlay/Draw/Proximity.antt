-- ===== src/Overlay/Draw/Proximity.antt =====
-- `DrawProximityTab`: volume, focus, keys, devices, and the speakers nearby.
pub mod Mute
use l2voice_chat.Base.{
  ℕ, Bool, false, not, ◌||◌, List, [], ◌∷◌, ◌++◌, Option, some, Bytes, codes, decimal,
}
use l2voice_chat.Base.Int.{pos, ltb_ℤ}
use l2voice_chat.Audio.Float.{FloatOps}
use l2voice_chat.Audio.Playback.{Playback, SpeakerInfo, set_source_muted, set_source_volume}
use l2voice_chat.Voice.Prefs.{set_require_focus, set_always_on, set_active_tx_channel}
use l2voice_chat.Voice.Lifecycle.{Client}
use l2voice_chat.Voice.Panel.{set_master_volume, set_playback_device, set_capture_device}
use l2voice_chat.Overlay.Draw.{
  changed, pressed, Moment, Ui, on_voice, on_client, on_playback, rebind, ask_speaker_name,
  get_speaker_list,
}

-- What the row of a speaker shows: a name or a number, and whether he speaks.
pub record SpeakerRow : Type 0 where
  pub label : Bytes
  pub speaking : Bool

-- The name where it is known and not empty.
unfoldable pub speaker_label : ℕ → Option Bytes → Bytes
unfolding decimal
speaker_label src (some (c ∷ name)) = c ∷ name
speaker_label src _ = codes "sid=" ++ decimal src

module _ (ops : FloatOps) where
  open ops use {F}

  pub record SpeakerInput : Type 0 where
    pub mute : Option Bool
    pub volume : Option F

  -- A device is chosen by its name, and the default of the system by the empty one.
  pub record ProximityInput : Type 0 where
    pub volume : Option F
    pub focus : Option Bool
    pub always_on : Option Bool
    pub transmit : Bool
    pub rebind : Bool
    pub playback_device : Option Bytes
    pub capture_device : Option Bytes
    pub mute_all : Bool
    pub speaker : ℕ → SpeakerInput

  -- The settings above the list of devices, and the devices.
  unfoldable pub set_proximity : Moment ops → ProximityInput → Ui ops → Ui ops
  unfolding set_master_volume set_require_focus set_always_on set_active_tx_channel rebind
      set_playback_device set_capture_device
  set_proximity t input u =
      let louder = changed input.volume (λ x. on_client ops (set_master_volume ops t.half x)) u in
      let focused =
        changed input.focus (λ b. on_client ops (on_voice ops (set_require_focus b))) louder in
      let open_mic =
        changed input.always_on (λ b. on_client ops (on_voice ops (set_always_on b))) focused in
      let sending =
        pressed input.transmit (on_client ops (on_voice ops (set_active_tx_channel (pos 0))))
          open_mic in
      let bound = rebind ops 0 input.rebind sending in
      let heard =
        changed input.playback_device
          (λ d. on_client ops (set_playback_device ops t.playback_devices (some d))) bound in
      changed input.capture_device
        (λ d. on_client ops (set_capture_device ops t.capture_devices (some d))) heard

  -- `anyUnmuted`
  unfoldable pub any_unmuted : List (SpeakerInfo ops) → Bool
  any_unmuted [] = false
  any_unmuted (s ∷ ss) = not s.muted || any_unmuted ss

  -- The loop behind the button for all.
  unfoldable pub mute_each : Bool → List (SpeakerInfo ops) → Playback ops → Playback ops
  unfolding set_source_muted
  mute_each b [] p = p
  mute_each b (s ∷ ss) p = mute_each b ss (set_source_muted ops s.src_id b p)

  -- The button mutes all, or, where all are muted, none.
  unfoldable pub toggle_all : List (SpeakerInfo ops) → Playback ops → Playback ops
  unfolding any_unmuted mute_each
  toggle_all infos = mute_each (any_unmuted infos) infos

  -- `room` is 47, of a buffer of 48 bytes.
  unfoldable pub draw_speaker :
      ℕ → SpeakerInput → SpeakerInfo ops → Client ops → SpeakerRow × Client ops
  unfolding set_source_muted set_source_volume ask_speaker_name speaker_label
  draw_speaker now input s c =
      let muted = changed input.mute (λ b. on_playback ops (set_source_muted ops s.src_id b)) c in
      let (name, asked) = ask_speaker_name ops 47 s.src_id muted in
      (
        record { label = speaker_label s.src_id name; speaking = ltb_ℤ s.ms_since_mix (pos 200) },
        changed input.volume (λ x. on_playback ops (set_source_volume ops now s.src_id x)) asked,
      )

  unfoldable pub draw_speakers :
      ℕ → (ℕ → SpeakerInput) → List (SpeakerInfo ops) → Client ops → List SpeakerRow × Client ops
  unfolding draw_speaker
  draw_speakers now inputs [] c = ([], c)
  draw_speakers now inputs (s ∷ ss) c =
      let (row, d) = draw_speaker now (inputs s.src_id) s c in
      let (rows, e) = draw_speakers now inputs ss d in (row ∷ rows, e)

  unfoldable pub draw_proximity_tab :
      Moment ops → ProximityInput → Ui ops → List SpeakerRow × Ui ops
  unfolding set_proximity get_speaker_list toggle_all draw_speakers
  draw_proximity_tab t input u =
      let set = set_proximity t input u in
      let (infos, c) = get_speaker_list ops t.now set.client in
      let all = pressed input.mute_all (on_playback ops (toggle_all infos)) c in
      let (rows, d) = draw_speakers t.now input.speaker infos all in
      (rows, record set { client = d })
