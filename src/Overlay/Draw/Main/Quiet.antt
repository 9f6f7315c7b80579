-- ===== src/Overlay/Draw/Main/Quiet.antt =====
-- What the proximity tab and the support window say to the service.
use l2voice_chat.Base.{
  ℕ, Bool, true, false, List, [], ◌∷◌, Option, none, some, Bytes, ◌≡◌, subst, sym, arith, if_intro,
}
use l2voice_chat.Base.Int.{pos}
use l2voice_chat.Audio.Float.{FloatOps}
use l2voice_chat.Audio.Device.{Answers}
use l2voice_chat.Audio.Playback.{SpeakerInfo}
use l2voice_chat.Network.State.{Net}
use l2voice_chat.Voice.State.{Voice, or_nobody}
use l2voice_chat.Overlay.Names.{is_admin_name}
use l2voice_chat.Voice.Prefs.{set_require_focus, set_always_on, set_active_tx_channel}
use l2voice_chat.Voice.Lifecycle.{Client}
use l2voice_chat.Voice.Panel.{
  OverlayState, snapshot_overlay_state, set_master_volume, set_playback_device, set_capture_device,
  ini_write_text, restart_playback, restart_capture,
}
use l2voice_chat.Overlay.Draw.{
  Moment, Ui, changed, pressed, on_client, on_voice, rebind, ask_speaker_name, get_speaker_list,
}
use l2voice_chat.Overlay.Draw.Talk.{Talk, asks_speaker}
use l2voice_chat.Overlay.Draw.Talk.Widgets.{
  changed-Talk, net_of, ini_write_int_net, set_active_tx_channel_net, rebind-Talk,
}
use l2voice_chat.Overlay.Draw.Proximity.{
  ProximityInput, SpeakerInput, set_proximity, draw_speaker, draw_speakers, draw_proximity_tab,
}
use l2voice_chat.Overlay.Draw.MiniList.{is_local_admin}
use l2voice_chat.Overlay.Draw.SupportWindow.{SupportInput, draw_support_window, draw_open_support}

module _ (ops : FloatOps) where
  open ops use {F}

  set_master_volume_net :
      (half g : F) (c : Client ops) → net_of ops (set_master_volume ops half g c) ≡ net_of ops c
  unfolding set_master_volume
  set_master_volume_net half g c = ini_write_int_net _ _ c.voice

  set_require_focus_net : (b : Bool) (v : Voice F) → (set_require_focus b v).net ≡ v.net
  unfolding set_require_focus
  set_require_focus_net b v = ini_write_int_net _ _ _

  set_always_on_net : (b : Bool) (v : Voice F) → (set_always_on b v).net ≡ v.net
  unfolding set_always_on
  set_always_on_net b v = ini_write_int_net _ _ _

  ini_write_text_net :
      (key text : Bytes) (c : Client ops)
      → net_of ops (ini_write_text ops key text c) ≡ net_of ops c
  unfolding ini_write_text
  ini_write_text_net key text c = ground arith

  set_playback_device_net :
      (a : Answers) (name : Bytes) (c : Client ops)
      → net_of ops (set_playback_device ops a (some name) c) ≡ net_of ops c
  unfolding set_playback_device restart_playback
  set_playback_device_net a name c =
      if_intro (λ (d : Client ops). net_of ops d ≡ net_of ops c) _ (ini_write_text_net _ _ _)
        (ini_write_text_net _ _ _)

  set_capture_device_net :
      (a : Answers) (name : Bytes) (c : Client ops)
      → net_of ops (set_capture_device ops a (some name) c) ≡ net_of ops c
  unfolding set_capture_device restart_capture
  set_capture_device_net a name c =
      if_intro (λ (d : Client ops). net_of ops d ≡ net_of ops c) _ (ini_write_text_net _ _ _)
        (ini_write_text_net _ _ _)

module _ (ops : FloatOps) {quiet : Bool} {n : Net} where
  open ops use {F}

  -- A widget of a setting that leaves the connection alone.
  setting-Talk :
      {A : Type 0} (o : Option A) (f : A → Ui ops → Ui ops)
      → ((a : A) (u : Ui ops) → net_of ops (f a u).client ≡ net_of ops u.client)
      → (u : Ui ops) → Talk quiet n (net_of ops u.client)
      → Talk quiet n (net_of ops (changed o f u).client)
  setting-Talk none f k u h = h
  setting-Talk (some a) f k u h = subst (Talk quiet n) (sym (k a u)) h

  pub button-Talk :
      (b : Bool) (f : Ui ops → Ui ops)
      → ((u : Ui ops) → net_of ops (f u).client ≡ net_of ops u.client)
      → (u : Ui ops) → Talk quiet n (net_of ops u.client)
      → Talk quiet n (net_of ops (pressed b f u).client)
  button-Talk true f k u h = subst (Talk quiet n) (sym (k u)) h
  button-Talk false f k u h = h

  set_proximity-Talk :
      (t : Moment ops) (input : ProximityInput ops) (u : Ui ops)
      → Talk quiet n (net_of ops u.client)
      → Talk quiet n (net_of ops (set_proximity ops t input u).client)
  unfolding set_proximity
  set_proximity-Talk t input u h =
      let set_volume = λ (x : F). on_client ops (set_master_volume ops t.half x) in
      let set_focus = λ (b : Bool). on_client ops (on_voice ops (set_require_focus b)) in
      let set_mic = λ (b : Bool). on_client ops (on_voice ops (set_always_on b)) in
      let set_sending = on_client ops (on_voice ops (set_active_tx_channel (pos 0))) in
      let set_playback =
        λ (d : Bytes). on_client ops (set_playback_device ops t.playback_devices (some d)) in
      let set_capture =
        λ (d : Bytes). on_client ops (set_capture_device ops t.capture_devices (some d)) in
      let u1 = changed input.volume set_volume u in
      let u2 = changed input.focus set_focus u1 in
      let u3 = changed input.always_on set_mic u2 in
      let u4 = pressed input.transmit set_sending u3 in
      let u5 = rebind ops 0 input.rebind u4 in
      let u6 = changed input.playback_device set_playback u5 in
      let h1 =
        setting-Talk input.volume set_volume (λ x w. set_master_volume_net ops t.half x w.client) u
          h in
      let h2 =
        setting-Talk input.focus set_focus (λ b w. set_require_focus_net ops b w.client.voice) u1
          h1 in
      let h3 =
        setting-Talk input.always_on set_mic (λ b w. set_always_on_net ops b w.client.voice) u2
          h2 in
      let h4 =
        button-Talk input.transmit set_sending (λ w. set_active_tx_channel_net 0 w.client.voice) u3
          h3 in
      let h6 =
        setting-Talk input.playback_device set_playback
          (λ d w. set_playback_device_net ops t.playback_devices d w.client) u5
          (rebind-Talk ops 0 input.rebind u4 h4) in
      setting-Talk input.capture_device set_capture
        (λ d w. set_capture_device_net ops t.capture_devices d w.client) u6 h6

  draw_speaker-Talk :
      (now : ℕ) (input : SpeakerInput ops) (s : SpeakerInfo ops) (c : Client ops)
      → Talk quiet n (net_of ops c)
      → Talk quiet n (net_of ops (draw_speaker ops now input s c).1)
  unfolding draw_speaker ask_speaker_name
  draw_speaker-Talk now input s c h =
      changed-Talk (net_of ops) input.volume _
        (asks_speaker s.src_id (changed-Talk (net_of ops) input.mute _ {s = c} h (λ b e. h)))
        (λ x e. asks_speaker s.src_id (changed-Talk (net_of ops) input.mute _ {s = c} h (λ b e. h)))

  pub get_speaker_list-Talk :
      (now : ℕ) (c : Client ops)
      → Talk quiet n (net_of ops c)
      → Talk quiet n (net_of ops (get_speaker_list ops now c).1)
  unfolding get_speaker_list
  get_speaker_list-Talk now c h = h

  draw_speakers-Talk :
      (now : ℕ) (inputs : ℕ → SpeakerInput ops) (ss : List (SpeakerInfo ops)) (c : Client ops)
      → Talk quiet n (net_of ops c)
      → Talk quiet n (net_of ops (draw_speakers ops now inputs ss c).1)
  unfolding draw_speakers
  draw_speakers-Talk now inputs [] c h = h
  draw_speakers-Talk now inputs (s ∷ ss) c h =
      draw_speakers-Talk now inputs ss _ (draw_speaker-Talk now (inputs s.src_id) s c h)

  pub draw_proximity_tab-Talk :
      (t : Moment ops) (input : ProximityInput ops) (u : Ui ops)
      → Talk quiet n (net_of ops u.client)
      → Talk quiet n (net_of ops (draw_proximity_tab ops t input u).1.client)
  unfolding draw_proximity_tab
  draw_proximity_tab-Talk t input u h =
      let set = set_proximity ops t input u in
      let (infos, c) = get_speaker_list ops t.now set.client in
      draw_speakers-Talk t.now input.speaker infos _ (
        if_intro (λ (d : Client ops). Talk quiet n (net_of ops d)) input.mute_all
          (get_speaker_list-Talk t.now set.client (set_proximity-Talk t input u h))
          (get_speaker_list-Talk t.now set.client (set_proximity-Talk t input u h)))

  pub is_local_admin-Talk :
      (st : OverlayState ops) (c : Client ops)
      → Talk quiet n (net_of ops c)
      → Talk quiet n (net_of ops (is_local_admin ops st c).1)
  unfolding is_local_admin
  is_local_admin-Talk st c h =
      elim st.char_name
        as (λ name. Talk quiet n (
          net_of ops
            (elim name as (λ _. Bool × Client ops) [
              | [] ↦
                  let (known, d) = ask_speaker_name ops 63 st.session_id c in
                  (is_admin_name (or_nobody known), d)
              | x ∷ rest ↦ (is_admin_name (x ∷ rest), c)
            ]).1)) [ [] ↦ unfold ask_speaker_name in asks_speaker st.session_id h | x ∷ rest ↦ h ]

  pub draw_support_window-Talk :
      (host : Bytes) (t : Moment ops) (input : SupportInput) (u : Ui ops)
      → Talk quiet n (net_of ops u.client)
      → Talk quiet n (net_of ops (draw_support_window ops host t input u).client)
  unfolding draw_support_window draw_open_support
  draw_support_window-Talk host t input u h =
      let P = λ (w : Ui ops). Talk quiet n (net_of ops w.client) in
      let st = snapshot_overlay_state ops t.now u.client in
      let asked = is_local_admin-Talk st u.client h in
      if_intro P u.support_open (if_intro P input.shown asked asked) h
