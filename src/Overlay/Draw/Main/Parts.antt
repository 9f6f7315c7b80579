-- ===== src/Overlay/Draw/Main/Parts.antt =====
-- What a frame of the overlay says to the service, part by part.
use l2voice_chat.Base.{
  ℕ, ◌+◌, Bool, true, false, not, ◌&&◌, ◌==◌, ltb, leb, List, [], ◌∷◌, Option, none, Bytes, ◌≡◌,
  ◌⊎◌, inl, inr, refl, subst, sym, ap, ◌∙◌, if_intro, if◌then◌else◌,
}
use l2voice_chat.Audio.Float.{FloatOps}
use l2voice_chat.Json.{GroupMember}
use l2voice_chat.Network.State.{Net, ClientState}
use l2voice_chat.Network.Commands.{send_clan_set_mode, send_cc_grant_speak}
use l2voice_chat.Voice.State.{get_player_name}
use l2voice_chat.Voice.Prefs.{IniReader}
use l2voice_chat.Voice.Incoming.{get_group_roster}
use l2voice_chat.Voice.Lifecycle.{Client}
use l2voice_chat.Voice.Panel.{OverlayState, snapshot_overlay_state}
use l2voice_chat.Overlay.Draw.{Moment, Ui, changed, pressed, on_net, on_client, ask_speaker_name}
use l2voice_chat.Overlay.Draw.Talk.{Talk, asks_speaker, get_player_name-Talk, Talk-state}
use l2voice_chat.Overlay.Draw.Talk.Widgets.{net_of}
use l2voice_chat.Overlay.Draw.Members.Rights.{LeavesAlone, IsMild, draw_group_tab-Talk}
use l2voice_chat.Overlay.Draw.Proximity.{draw_proximity_tab}
use l2voice_chat.Overlay.Draw.MiniList.{draw_minimized}
use l2voice_chat.Overlay.Draw.SupportWindow.{draw_support_window}
use l2voice_chat.Overlay.Draw.Main.Quiet.{
  draw_proximity_tab-Talk, draw_support_window-Talk, is_local_admin-Talk,
}
use l2voice_chat.Overlay.Draw.Main.Minimized.{draw_minimized-Talk, draw_mini_list-Talk}
use l2voice_chat.Overlay.Draw.Main.{
  PanelInput, poll_in_background, draw_grants, draw_cc_leader, draw_group, draw_cc, draw_tabs,
  mode_button, draw_modes, draw_body, draw_panel, set_language_pref,
}

-- What keeps a frame from saying more: of each part either the player does not use it, or has no
-- right to it.
pub record IsMildFrame (ops : FloatOps) (quiet : Bool) (input : PanelInput ops) (n : Net)
    : Type 0 where
  pub settings : (channel : ℕ) → LeavesAlone ops quiet (input.group channel)
  pub rows : (channel : ℕ) → IsMild channel (λ id. ((input.group channel).row id).remote) n
  pub hear : (slot : ℕ) → input.mini.hear slot ≡ true → quiet ≡ false
  pub grants : ((n.player_id == n.state.cc_leader_id) ≡ false) ⊎ ((id : ℕ) → input.grant id ≡ none)
  pub modes : (leb 1 n.state.role ≡ false) ⊎ ((mode : ℕ) → input.mode mode ≡ false)

pub and_false : (a b : Bool) → b ≡ false → (a && b) ≡ false
and_false true b e = e
and_false false b e = refl

module _ (ops : FloatOps) {quiet : Bool} {n : Net} where
  poll_in_background-Talk :
      (t : Moment ops) (u : Ui ops)
      → Talk quiet n (net_of ops u.client)
      → Talk quiet n (net_of ops (poll_in_background ops t u).client)
  unfolding poll_in_background
  poll_in_background-Talk t u h =
      let P = λ (w : Ui ops). Talk quiet n (net_of ops w.client) in
      let st = snapshot_overlay_state ops t.now u.client in
      if_intro P (st.ws_connected && ltb 0 st.player_id)
        (if_intro P (ltb (u.last_bg_poll_ms + 10000) t.now) (is_local_admin-Talk ops st u.client h)
          h)
        h

  draw_grants-Talk :
      (me : ℕ) (grant : ℕ → Option Bool) (ms : List GroupMember) (c : Client ops)
      → ((id : ℕ) → grant id ≡ none)
      → Talk quiet n (net_of ops c)
      → Talk quiet n (net_of ops (draw_grants ops me grant ms c))
  unfolding draw_grants
  draw_grants-Talk me grant [] c idle h = h
  draw_grants-Talk me grant (m ∷ ms) c idle h =
      let asked = on_net ops (λ x. (get_player_name m.player_id x).1) c in
      let told =
        changed (grant m.player_id) (λ b. on_net ops (send_cc_grant_speak m.player_id b)) asked in
      let told_quiet : Talk quiet n (net_of ops told) =
        rw (idle m.player_id) (get_player_name-Talk m.player_id h) in
      draw_grants-Talk me grant ms (if m.player_id == me then c else told) idle (
        if_intro (λ (d : Client ops). Talk quiet n (net_of ops d)) (m.player_id == me) h told_quiet)

  draw_cc_leader-Talk :
      (grant : ℕ → Option Bool) (c : Client ops)
      → ((n.player_id == n.state.cc_leader_id) ≡ false) ⊎ ((id : ℕ) → grant id ≡ none)
      → Talk quiet n (net_of ops c)
      → Talk quiet n (net_of ops (draw_cc_leader ops grant c))
  unfolding draw_cc_leader
  draw_cc_leader-Talk grant c (inl other) h =
      let me = c.voice.net.player_id in
      let is_leader = me == c.voice.net.state.cc_leader_id in
      let not_leader : is_leader ≡ false =
        ap (λ id. id == c.voice.net.state.cc_leader_id) (Talk-state h).1
        ∙ (ap (λ (x : ClientState). n.player_id == x.cc_leader_id) (Talk-state h).0 ∙ other) in
      let granted = draw_grants ops me grant (get_group_roster 4 c.voice.net) c in
      subst (λ b. Talk quiet n (net_of ops (if b then granted else c)))
        (sym (and_false (not (me == 0)) is_leader not_leader)) h
  draw_cc_leader-Talk grant c (inr idle) h =
      let me = c.voice.net.player_id in
      if_intro (λ (d : Client ops). Talk quiet n (net_of ops d))
        (not (me == 0) && me == c.voice.net.state.cc_leader_id)
        (draw_grants-Talk me grant (get_group_roster 4 c.voice.net) c idle h) h

  mode_button_idle :
      (press : ℕ → Bool) (mode : ℕ) (c : Client ops)
      → press mode ≡ false
      → Talk quiet n (net_of ops c)
      → Talk quiet n (net_of ops (mode_button ops press mode c))
  mode_button_idle press mode c e h =
      subst (λ b. Talk quiet n (net_of ops (pressed b (on_net ops (send_clan_set_mode mode)) c)))
        (sym e) h

  draw_modes-Talk :
      (press : ℕ → Bool) (c : Client ops)
      → (leb 1 n.state.role ≡ false) ⊎ ((mode : ℕ) → press mode ≡ false)
      → Talk quiet n (net_of ops c)
      → Talk quiet n (net_of ops (draw_modes ops press c))
  unfolding draw_modes
  draw_modes-Talk press c (inl plain) h =
      rw (ap (λ (x : ClientState). leb 1 x.role) (Talk-state h).0 ∙ plain) h
  draw_modes-Talk press c (inr idle) h =
      if_intro (λ (d : Client ops). Talk quiet n (net_of ops d)) (leb 1 c.voice.net.state.role)
        (mode_button_idle press 4 _ (idle 4) (
          mode_button_idle press 3 _ (idle 3) (
            mode_button_idle press 2 _ (idle 2)
              (mode_button_idle press 1 _ (idle 1) (mode_button_idle press 0 c (idle 0) h)))))
        h

  draw_group-Talk :
      (t : Moment ops) (st : OverlayState ops) (input : PanelInput ops) (channel : ℕ) (u : Ui ops)
      → IsMildFrame ops quiet input n
      → Talk quiet n (net_of ops u.client)
      → Talk quiet n (net_of ops (draw_group ops t st input channel u).client)
  draw_group-Talk t st input channel u mild h =
      if_intro (λ (w : Ui ops). Talk quiet n (net_of ops w.client)) (input.tab channel)
        (draw_group_tab-Talk ops t st channel (input.group channel) u (mild.settings channel)
          (mild.rows channel) h)
        h

  draw_cc-Talk :
      (t : Moment ops) (st : OverlayState ops) (input : PanelInput ops) (u : Ui ops)
      → IsMildFrame ops quiet input n
      → Talk quiet n (net_of ops u.client)
      → Talk quiet n (net_of ops (draw_cc ops t st input u).client)
  unfolding draw_cc
  draw_cc-Talk t st input u mild h =
      let P = λ (w : Ui ops). Talk quiet n (net_of ops w.client) in
      if_intro P (u.client.voice.net.state.cc_id == 0) h (
        if_intro P (input.tab 4)
          (draw_cc_leader-Talk input.grant _ mild.grants
            (draw_group_tab-Talk ops t st 4 (input.group 4) u (mild.settings 4) (mild.rows 4) h))
          h)

  draw_tabs-Talk :
      (t : Moment ops) (st : OverlayState ops) (input : PanelInput ops) (u : Ui ops)
      → IsMildFrame ops quiet input n
      → Talk quiet n (net_of ops u.client)
      → Talk quiet n (net_of ops (draw_tabs ops t st input u).client)
  unfolding draw_tabs
  draw_tabs-Talk t st input u mild h =
      let u0 =
        pressed (input.tab 0) (λ (w : Ui ops). (draw_proximity_tab ops t input.proximity w).1) u in
      let h0 =
        if_intro (λ (w : Ui ops). Talk quiet n (net_of ops w.client)) (input.tab 0)
          (draw_proximity_tab-Talk ops t input.proximity u h) h in
      let u1 = draw_group ops t st input 1 u0 in
      let u2 = draw_group ops t st input 2 u1 in
      let u3 = draw_group ops t st input 3 u2 in
      draw_cc-Talk t st input u3 mild (
        draw_group-Talk t st input 3 u2 mild
          (draw_group-Talk t st input 2 u1 mild (draw_group-Talk t st input 1 u0 mild h0)))

  draw_body-Talk :
      (path : Bool) (t : Moment ops) (st : OverlayState ops) (input : PanelInput ops) (u : Ui ops)
      → IsMildFrame ops quiet input n
      → Talk quiet n (net_of ops u.client)
      → Talk quiet n (net_of ops (draw_body ops path t st input u).client)
  unfolding draw_body ask_speaker_name set_language_pref
  draw_body-Talk path t st input u mild h =
      let P = λ (w : Ui ops). Talk quiet n (net_of ops w.client) in
      let clicked = pressed input.minimize (λ (w : Ui ops). record w { minimized = true }) u in
      let named = on_client ops (λ c. (ask_speaker_name ops 47 st.session_id c).1) clicked in
      let named_h : Talk quiet n (net_of ops named.client) =
        asks_speaker st.session_id (if_intro P input.minimize h h) in
      let tabs = pressed input.tabs_shown (draw_tabs ops t st input) named in
      let tabs_h =
        if_intro P input.tabs_shown (draw_tabs-Talk t st input named mild named_h) named_h in
      let moded_h = draw_modes-Talk input.mode tabs.client mild.modes tabs_h in
      let moded = on_client ops (draw_modes ops input.mode) tabs in
      let drawn = if_intro P (st.session_id == 0) {x = named} {y = moded} named_h moded_h in
      if_intro P input.language drawn drawn

  pub draw_panel-Talk :
      (host : Bytes) (path : Bool) (r : IniReader) (t : Moment ops) (input : PanelInput ops)
      (u : Ui ops)
      → IsMildFrame ops quiet input n
      → Talk quiet n (net_of ops u.client)
      → Talk quiet n (net_of ops (draw_panel ops host path r t input u).client)
  unfolding draw_panel
  draw_panel-Talk host path r t input u mild h =
      let P = λ (w : Ui ops). Talk quiet n (net_of ops w.client) in
      let supported = draw_support_window ops host t input.support u in
      let polled = poll_in_background ops t supported in
      let polled_h =
        poll_in_background-Talk t supported
          (draw_support_window-Talk ops host t input.support u h) in
      let icon = draw_minimized ops r t input.icon polled in
      let st = snapshot_overlay_state ops t.now polled.client in
      if_intro P polled.minimized
        (draw_mini_list-Talk ops r t input.mini icon mild.hear
          (draw_minimized-Talk ops r t input.icon polled polled_h))
        (if_intro P input.shown (draw_body-Talk path t st input polled mild polled_h) polled_h)
