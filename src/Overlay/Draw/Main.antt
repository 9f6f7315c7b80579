-- ===== src/Overlay/Draw/Main.antt =====
-- `DrawPanel`, the whole frame of the overlay, and `SetLanguagePref`.
pub mod Quiet
pub mod Minimized
pub mod Parts
pub mod Rights
use l2voice_chat.Base.{
  ℕ, ◌+◌, Bool, true, not, ◌&&◌, List, [], ◌∷◌, ◌++◌, Option, ltb, leb, ◌==◌, if◌then◌else◌, Bytes,
}
use l2voice_chat.Audio.Float.{FloatOps}
use l2voice_chat.Json.{GroupMember}
use l2voice_chat.Network.Commands.{send_clan_set_mode, send_cc_grant_speak}
use l2voice_chat.Voice.State.{get_player_name}
use l2voice_chat.Voice.Prefs.{IniReader}
use l2voice_chat.Voice.Incoming.{get_group_roster}
use l2voice_chat.Voice.Lifecycle.{Client}
use l2voice_chat.Voice.Panel.{OverlayState, snapshot_overlay_state}
use l2voice_chat.Overlay.Draw.{changed, pressed, Moment, Ui, on_net, on_client, ask_speaker_name}
use l2voice_chat.Overlay.Draw.Members.{GroupInput, draw_group_tab}
use l2voice_chat.Overlay.Draw.Proximity.{ProximityInput, draw_proximity_tab}
use l2voice_chat.Overlay.Draw.MiniList.{
  IconInput, MiniInput, is_local_admin, draw_minimized, draw_mini_list,
}
use l2voice_chat.Overlay.Draw.SupportWindow.{SupportInput, poll_now, draw_support_window}

module _ (ops : FloatOps) where
  -- What the widgets of a frame answer. A tab has the number of its channel.
  pub record PanelInput : Type 0 where
    pub support : SupportInput
    pub icon : IconInput
    pub mini : MiniInput
    pub shown : Bool
    pub minimize : Bool
    pub tabs_shown : Bool
    pub tab : ℕ → Bool
    pub proximity : ProximityInput ops
    pub group : ℕ → GroupInput ops
    pub grant : ℕ → Option Bool
    pub mode : ℕ → Bool
    pub language : Bool

  -- `SetLanguagePref`, given whether the path of the library is known.
  unfoldable pub set_language_pref : Bool → ℕ → Ui ops → Ui ops
  set_language_pref path lang u = record u {
    language = lang;
    language_writes = if path then u.language_writes ++ (lang ∷ []) else u.language_writes;
  }

  -- The poll in the background: more than ten seconds after the last, and with a player.
  unfoldable pub poll_in_background : Moment ops → Ui ops → Ui ops
  unfolding snapshot_overlay_state is_local_admin poll_now
  poll_in_background t u =
      let st = snapshot_overlay_state ops t.now u.client in
      let (is_gm, c) = is_local_admin ops st u.client in
      if st.ws_connected && ltb 0 st.player_id
      then (if ltb (u.last_bg_poll_ms + 10000) t.now
          then record u {
            last_bg_poll_ms = t.now;
            client = c;
            chat = poll_now st.player_id t.now is_gm u.chat;
          }
          else u)
      else u

  -- The loop over the members of the command channel, but for oneself.
  unfoldable pub draw_grants : ℕ → (ℕ → Option Bool) → List GroupMember → Client ops → Client ops
  unfolding get_player_name send_cc_grant_speak
  draw_grants me grant [] c = c
  draw_grants me grant (m ∷ ms) c =
      let asked = on_net ops (λ n. (get_player_name m.player_id n).1) c in
      let told =
        changed (grant m.player_id) (λ b. on_net ops (send_cc_grant_speak m.player_id b)) asked in
      draw_grants me grant ms (if m.player_id == me then c else told)

  -- Only the leader of the command channel grants the right to speak.
  unfoldable pub draw_cc_leader : (ℕ → Option Bool) → Client ops → Client ops
  unfolding draw_grants get_group_roster
  draw_cc_leader grant c =
      let me = c.voice.net.player_id in
      if not (me == 0) && me == c.voice.net.state.cc_leader_id
      then draw_grants me grant (get_group_roster 4 c.voice.net) c
      else c

  abbrev pub draw_group : Moment ops → OverlayState ops → PanelInput → ℕ → Ui ops → Ui ops
  draw_group t st input channel =
      pressed (input.tab channel) (λ u. (draw_group_tab ops t st channel (input.group channel) u).1)

  -- The tab of the command channel is there while the player is in one.
  unfoldable pub draw_cc : Moment ops → OverlayState ops → PanelInput → Ui ops → Ui ops
  unfolding draw_group_tab draw_cc_leader
  draw_cc t st input u =
      if u.client.voice.net.state.cc_id == 0
      then u
      else pressed (input.tab 4)
          (λ w.
            on_client ops (draw_cc_leader input.grant)
              (draw_group_tab ops t st 4 (input.group 4) w).1)
          u

  unfoldable pub draw_tabs : Moment ops → OverlayState ops → PanelInput → Ui ops → Ui ops
  unfolding draw_proximity_tab draw_group_tab draw_cc
  draw_tabs t st input u = draw_cc t st input (
      draw_group t st input 3 (
        draw_group t st input 2 (
          draw_group t st input 1
            (pressed (input.tab 0) (λ w. (draw_proximity_tab ops t input.proximity w).1) u))))

  -- `SendClanSetMode` of a button.
  abbrev pub mode_button : (ℕ → Bool) → ℕ → Client ops → Client ops
  mode_button press mode = pressed (press mode) (on_net ops (send_clan_set_mode mode))

  -- The leader and the sub-leaders choose the mode of the clan.
  unfoldable pub draw_modes : (ℕ → Bool) → Client ops → Client ops
  unfolding send_clan_set_mode
  draw_modes press c =
      if leb 1 c.voice.net.state.role
      then mode_button press 4
          (mode_button press 3 (mode_button press 2 (mode_button press 1 (mode_button press 0 c))))
      else c

  -- The inside of the window; before there is a session there are no tabs.
  unfoldable pub draw_body : Bool → Moment ops → OverlayState ops → PanelInput → Ui ops → Ui ops
  unfolding ask_speaker_name draw_tabs draw_modes set_language_pref
  draw_body path t st input u =
      let clicked = pressed input.minimize (λ w. record w { minimized = true }) u in
      let named = on_client ops (λ c. (ask_speaker_name ops 47 st.session_id c).1) clicked in
      let tabs = pressed input.tabs_shown (draw_tabs t st input) named in
      let moded = on_client ops (draw_modes input.mode) tabs in
      pressed input.language (set_language_pref path (if u.language == 0 then 1 else 0))
        (if st.session_id == 0 then named else moded)

  -- The frame: the support window, the poll, and then the icon with the list, or the window.
  unfoldable pub draw_panel : Bytes → Bool → IniReader → Moment ops → PanelInput → Ui ops → Ui ops
  unfolding draw_support_window poll_in_background draw_minimized draw_mini_list
      snapshot_overlay_state draw_body
  draw_panel host path r t input u =
      let polled = poll_in_background t (draw_support_window ops host t input.support u) in
      let iconic =
        (draw_mini_list ops r t input.mini (draw_minimized ops r t input.icon polled)).1 in
      let st = snapshot_overlay_state ops t.now polled.client in
      if polled.minimized then iconic else pressed input.shown (draw_body path t st input) polled
