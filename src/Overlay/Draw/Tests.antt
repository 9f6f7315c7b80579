-- ===== src/Overlay/Draw/Tests.antt =====
-- The overlay drawn for a member and for a leader, and its parts.
use l2voice_chat.Base.{
  ◌==◌, ◌||◌, take, ◌⊎◌, true, false, not, [], ◌∷◌, some, All, length, ◌≡◌, refl, arith, codes,
}
use mathlib.Core.List.{Perm}
use l2voice_chat.Base.Int.{pos}
use l2voice_chat.Audio.Playback.{
  SpeakerInfo, get_speaker_infos, is_source_muted, set_source_muted, get_source_volume,
}
use l2voice_chat.Voice.Tests.{integers, player}
use l2voice_chat.Voice.Lifecycle.Tests.{silent_ini}
use l2voice_chat.Voice.Panel.{snapshot_overlay_state}
use l2voice_chat.Overlay.Draw.{Ui}
use l2voice_chat.Overlay.Draw.Talk.Said.{Said}
use l2voice_chat.Overlay.Draw.Members.{draw_group_tab, draw_roster}
use l2voice_chat.Overlay.Draw.Members.Order.{ids, row_ids, picked_first, IsTab, draw_group_tab-perm}
use l2voice_chat.Overlay.Draw.Position.{persist, same_place, written_place}
use l2voice_chat.Overlay.Draw.Position.Throttle.{
  IsSpaced, write_times, write_times-IsSpaced, persist_settles,
}
use l2voice_chat.Overlay.Draw.Proximity.{toggle_all}
use l2voice_chat.Overlay.Draw.Proximity.Mute.{HasUnmuted, AllMuted, toggle_all-AllMuted}
use l2voice_chat.Overlay.Draw.MiniList.{toggle_speaker}
use l2voice_chat.Overlay.Draw.MiniList.Click.{toggle_speaker-set_source_muted}
use l2voice_chat.Overlay.Draw.SupportWindow.{draw_tickets}
use l2voice_chat.Overlay.Support.{AdminTicket}
use l2voice_chat.Overlay.Support.Send.{send_admin_reply}
use l2voice_chat.Overlay.Draw.Main.{draw_panel}
use l2voice_chat.Overlay.Draw.Main.Rights.{draw_panel-Said, draw_panel_idle}
use l2voice_chat.Overlay.Draw.Frames.{
  clan, net, speaking, client, moment, group, no_chat, nowhere, ui, row, support, frame,
}

draw_panel-Said_example :
    let after =
      (draw_panel integers
        (codes "10.0.0.1")
        true
        silent_ini
        moment
        (frame true)
        ui).client.voice.net in
    Said false net.sent after.sent × (after.state ≡ net.state)
draw_panel-Said_example =
    draw_panel-Said integers (codes "10.0.0.1") true silent_ini moment (frame true) ui refl refl

-- The same player as leader of the clan and of the command channel.
abbrev leading : Ui integers
leading = record ui {
  client = record client {
    voice = record player {
      net = record net { state = record (net.state) { role = 2; cc_leader_id = 9 } };
    };
  };
}

draw_panel_idle_example :
    let after =
      (draw_panel integers
        (codes "10.0.0.1")
        true
        silent_ini
        moment
        (frame false)
        leading).client.voice.net in
    Said true leading.client.voice.net.sent after.sent
    × (after.state ≡ leading.client.voice.net.state)
draw_panel_idle_example =
    draw_panel_idle integers (codes "10.0.0.1") true silent_ini moment (frame false) leading
      (λ channel. refl, λ channel. refl, λ channel id. refl, λ slot. refl, λ id. refl, λ mode. refl)

-- The leader uses every button.
leader_speaks :
    length
      (draw_panel integers
        (codes "10.0.0.1")
        true
        silent_ini
        moment
        (frame true)
        leading).client.voice.net.sent
    ≡ 24
unfolding draw_panel
leader_speaks = refl

draw_group_tab-perm_example :
    let st = snapshot_overlay_state integers 1000 client in
    let rows = (draw_group_tab integers moment st 2 (group true) ui).0.rows in
    (row_ids rows ≡ ids (picked_first (λ m. m.clan_role == 2 || m.clan_role == 1) (take 64 clan)))
    × Perm (row_ids rows) (ids (take 64 clan))
draw_group_tab-perm_example =
    draw_group_tab-perm integers moment (snapshot_overlay_state integers 1000 client) 2
      (λ m. m.clan_role == 2 || m.clan_role == 1) clan (group true) ui IsTab.clan

draw_roster_leaders :
    row_ids (draw_roster integers moment 2 (λ id. row true) clan client).0 ≡ 4 ∷ 6 ∷ 5 ∷ 9 ∷ []
unfolding draw_roster
draw_roster_leaders = refl

write_times-IsSpaced_example : IsSpaced 0 (
    write_times
      (pos 0, pos 0)
      ((300, (pos 1, pos 1)) ∷ (400, (pos 2, pos 2)) ∷ (600, (pos 3, pos 3)) ∷ [])
      nowhere)
write_times-IsSpaced_example =
    write_times-IsSpaced (pos 0, pos 0)
      ((300, (pos 1, pos 1)) ∷ (400, (pos 2, pos 2)) ∷ (600, (pos 3, pos 3)) ∷ []) nowhere

persist_settles_example :
    ((persist (pos 0, pos 0) 300 (pos 1, pos 1) nowhere).0.written ≡ some (pos 1, pos 1))
    × ((persist (pos 0, pos 0) 300 (pos 1, pos 1) nowhere).1
        ≡ not (same_place (pos 1, pos 1) (written_place (pos 0, pos 0) nowhere)))
persist_settles_example = persist_settles (pos 0, pos 0) 300 (pos 1, pos 1) nowhere (omega arith)

toggle_all-AllMuted_example :
    let (infos, q) = get_speaker_infos integers 1000 64 speaking in
    let after = toggle_all integers infos q in
    (HasUnmuted integers infos × AllMuted integers true infos after)
    ⊎ (All (λ s. s.muted ≡ true) infos × AllMuted integers false infos after)
toggle_all-AllMuted_example = toggle_all-AllMuted integers 1000 speaking

abbrev speaker : SpeakerInfo integers
speaker = record { src_id = 7; gain = pos 1; volume = pos 1; muted = false; ms_since_mix = pos 100 }

toggle_speaker-set_source_muted_example :
    let p = (toggle_speaker integers 1000 speaker client).listener.playback in
    let q = set_source_muted integers 7 false p in
    (is_source_muted integers 7 q ≡ false) × (get_source_volume integers 7 q ≡ pos 0)
toggle_speaker-set_source_muted_example =
    toggle_speaker-set_source_muted integers refl refl 1000 speaker client refl

-- A game master selects the ticket 2 while the chat of the ticket 1 is the one that was read: the
-- reply goes to the ticket 1.
draw_tickets_reply :
    let ticket : AdminTicket = record {
      chat_id = pos 2;
      char_id = pos 5;
      char_name = codes "Bo";
      status = pos 1;
      last_message_at = pos 0;
      unread_by_admin = true;
      unread_count = pos 1;
    } in
    let chat = record (ui.chat) {
      known = record (ui.chat.known) {
        admin_tickets = ticket ∷ [];
        admin_selected_chat_id = pos 1;
        admin_active_chat = record no_chat { id = pos 1 };
      };
    } in
    let input = record ((support true).admin) { close = false } in
    (draw_tickets (codes "10.0.0.1") 9 input chat).requests
    ≡ send_admin_reply (codes "10.0.0.1") 9 (pos 1) (codes "oi") ∷ []
unfolding draw_tickets
draw_tickets_reply = refl
