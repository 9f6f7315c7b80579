-- ===== src/Overlay/Draw/Main/Minimized.antt =====
-- What the icon and the list of speakers say to the service.
use l2voice_chat.Base.{
  ℕ, Bool, true, false, not, ◌&&◌, ◌==◌, List, [], ◌∷◌, Option, ◌≡◌, subst, sym, ◌∙◌, if_intro,
  if_cases,
}
use l2voice_chat.Base.Int.{ℤ}
use l2voice_chat.Audio.Float.{FloatOps}
use l2voice_chat.Audio.Playback.{SpeakerInfo}
use l2voice_chat.Network.State.{Net}
use l2voice_chat.Voice.State.{Voice}
use l2voice_chat.Voice.Prefs.{IniReader}
use l2voice_chat.Voice.Lifecycle.{Client}
use l2voice_chat.Voice.Incoming.{get_group_roster}
use l2voice_chat.Voice.Panel.{
  OverlayState, snapshot_overlay_state, save_mini_list_pos, save_mic_icon_pos, get_mini_list_pos,
  get_mic_icon_pos,
}
use l2voice_chat.Overlay.Draw.{
  Moment, Ui, pressed, on_client, on_voice, ask_speaker_name, get_speaker_list,
}
use l2voice_chat.Overlay.Draw.Talk.{Talk, asks_speaker}
use l2voice_chat.Overlay.Draw.Talk.Widgets.{
  net_of, ini_write_int_net, set_active_tx_channel_net, set_channel_enabled-Talk,
}
use l2voice_chat.Overlay.Draw.MiniList.{
  IconInput, MiniInput, MiniView, leads_party, transmit_button, hear_button, is_local_admin,
  draw_minimized, draw_mini_rows, draw_mini_body, draw_mini_list, mini_buttons, focus_buttons,
  toggle_speaker,
}
use l2voice_chat.Overlay.Draw.Position.{persist}
use l2voice_chat.Overlay.Draw.Main.Quiet.{get_speaker_list-Talk, is_local_admin-Talk}

module _ {F : Type 0} where
  save_mic_icon_pos_net : (x y : ℤ) (v : Voice F) → (save_mic_icon_pos x y v).net ≡ v.net
  unfolding save_mic_icon_pos
  save_mic_icon_pos_net x y v = ini_write_int_net _ _ _ ∙ ini_write_int_net _ _ v

  save_mini_list_pos_net : (x y : ℤ) (v : Voice F) → (save_mini_list_pos x y v).net ≡ v.net
  unfolding save_mini_list_pos
  save_mini_list_pos_net x y v = ini_write_int_net _ _ _ ∙ ini_write_int_net _ _ v

module _ (ops : FloatOps) {quiet : Bool} {n : Net} where
  pub draw_minimized-Talk :
      (r : IniReader) (t : Moment ops) (input : IconInput) (u : Ui ops)
      → Talk quiet n (net_of ops u.client)
      → Talk quiet n (net_of ops (draw_minimized ops r t input u).client)
  unfolding draw_minimized
  draw_minimized-Talk r t input u h =
      let P = λ (w : Ui ops). Talk quiet n (net_of ops w.client) in
      let (x, y) = input.place in
      let saved = get_mic_icon_pos r u.client.voice in
      let (place, save) = persist saved t.now input.place u.icon_place in
      let seen : Ui ops = record u { icon_place = place } in
      let store = on_client ops (on_voice ops (save_mic_icon_pos x y)) in
      let kept =
        if_intro P save {x = store seen} {y = seen}
          (subst (Talk quiet n) (sym (save_mic_icon_pos_net x y u.client.voice)) h) h in
      if_intro P input.shown (if_intro P input.restore kept kept) h

  draw_mini_rows-Talk :
      (now : ℕ) (select : ℕ → Bool) (ss : List (SpeakerInfo ops)) (c : Client ops)
      → Talk quiet n (net_of ops c)
      → Talk quiet n (net_of ops (draw_mini_rows ops now select ss c).1)
  unfolding draw_mini_rows ask_speaker_name toggle_speaker
  draw_mini_rows-Talk now select [] c h = h
  draw_mini_rows-Talk now select (s ∷ ss) c h =
      let P = λ (d : Client ops). Talk quiet n (net_of ops d) in
      draw_mini_rows-Talk now select ss _
        (if_intro P (select s.src_id) (asks_speaker s.src_id h) (asks_speaker s.src_id h))

  transmit_button-Talk :
      (input : MiniInput) (channel : ℕ) (c : Client ops)
      → Talk quiet n (net_of ops c)
      → Talk quiet n (net_of ops (transmit_button ops input channel c))
  transmit_button-Talk input channel c h =
      if_intro (λ (d : Client ops). Talk quiet n (net_of ops d)) (input.transmit channel)
        (subst (Talk quiet n) (sym (set_active_tx_channel_net channel c.voice)) h) h

  hear_button-Talk :
      (st : OverlayState ops) (input : MiniInput) (slot : ℕ) (c : Client ops)
      → ((i : ℕ) → input.hear i ≡ true → quiet ≡ false)
      → Talk quiet n (net_of ops c)
      → Talk quiet n (net_of ops (hear_button ops st input slot c))
  hear_button-Talk st input slot c q h =
      if_cases (λ (d : Client ops). Talk quiet n (net_of ops d)) (input.hear slot)
        (λ e. set_channel_enabled-Talk slot (not (st.ch_enabled slot)) c.voice (q slot e) h)
        (λ e. h)

  focus_buttons-Talk :
      (st : OverlayState ops) (input : MiniInput) (c : Client ops)
      → Talk quiet n (net_of ops c)
      → Talk quiet n (net_of ops (focus_buttons ops st input c))
  unfolding focus_buttons
  focus_buttons-Talk st input c h =
      let P = λ (d : Client ops). Talk quiet n (net_of ops d) in
      let clan = c.voice.net.state.role == 2 && input.clan_focus in
      let party = leads_party st.player_id (get_group_roster 1 c.voice.net) && input.party_focus in
      if_intro P party (if_intro P clan h h) (if_intro P clan h h)

  mini_buttons-Talk :
      (st : OverlayState ops) (input : MiniInput) (c : Client ops)
      → ((i : ℕ) → input.hear i ≡ true → quiet ≡ false)
      → Talk quiet n (net_of ops c)
      → Talk quiet n (net_of ops (mini_buttons ops st input c))
  unfolding mini_buttons
  mini_buttons-Talk st input c q h =
      let c1 = transmit_button ops input 0 c in
      let c2 = transmit_button ops input 1 c1 in
      let c3 = transmit_button ops input 2 c2 in
      let c4 = transmit_button ops input 3 c3 in
      let sent = transmit_button-Talk input 3 c3 (
        transmit_button-Talk input 2 c2
          (transmit_button-Talk input 1 c1 (transmit_button-Talk input 0 c h))) in
      let c5 = hear_button ops st input 1 c4 in
      let c6 = hear_button ops st input 2 c5 in
      let heard =
        hear_button-Talk st input 3 c6 q
          (hear_button-Talk st input 2 c5 q (hear_button-Talk st input 1 c4 q sent)) in
      focus_buttons-Talk st input (hear_button ops st input 3 c6) heard

  draw_mini_body-Talk :
      (r : IniReader) (t : Moment ops) (input : MiniInput) (st : OverlayState ops)
      (infos : List (SpeakerInfo ops)) (u : Ui ops)
      → ((i : ℕ) → input.hear i ≡ true → quiet ≡ false)
      → Talk quiet n (net_of ops u.client)
      → Talk quiet n (net_of ops (draw_mini_body ops r t input st infos u).1.client)
  unfolding draw_mini_body
  draw_mini_body-Talk r t input st infos u q h =
      let P = λ (d : Client ops). Talk quiet n (net_of ops d) in
      let (x, y) = input.place in
      let saved = get_mini_list_pos r u.client.voice in
      let save = (persist saved t.now input.place u.mini_place).1 in
      let placed = pressed save (on_voice ops (save_mini_list_pos x y)) u.client in
      let (rows, c) = draw_mini_rows ops t.now input.select infos placed in
      let quiet_place =
        if_intro P save (subst (Talk quiet n) (sym (save_mini_list_pos_net x y u.client.voice)) h)
          h in
      mini_buttons-Talk st input (is_local_admin ops st c).1 q (
        is_local_admin-Talk ops st c
          (draw_mini_rows-Talk t.now input.select infos placed quiet_place))

  pub draw_mini_list-Talk :
      (r : IniReader) (t : Moment ops) (input : MiniInput) (u : Ui ops)
      → ((i : ℕ) → input.hear i ≡ true → quiet ≡ false)
      → Talk quiet n (net_of ops u.client)
      → Talk quiet n (net_of ops (draw_mini_list ops r t input u).1.client)
  unfolding draw_mini_list
  draw_mini_list-Talk r t input u q h =
      let heard = get_speaker_list-Talk ops t.now u.client h in
      let (infos, c) = get_speaker_list ops t.now u.client in
      let st = snapshot_overlay_state ops t.now u.client in
      if_intro (λ (x : Option MiniView × Ui ops). Talk quiet n (net_of ops x.1.client)) _ heard
        (draw_mini_body-Talk r t input st infos (record u { client = c }) q heard)
