-- ===== src/Overlay/Draw/MiniList.antt =====
-- `DrawMinimized` and `DrawMinimizedSpeakerList`: what is there while the panel is minimized.
pub mod Click
use l2voice_chat.Base.{
  ℕ, Bool, false, not, ◌&&◌, ◌||◌, List, [], ◌∷◌, length, Option, none, some, ◌==◌, if◌then◌else◌,
  Bytes, codes,
}
use l2voice_chat.Base.Int.{ℤ, pos, ◌+ℤ◌, ltb_ℤ}
use l2voice_chat.Audio.Float.{FloatOps}
use l2voice_chat.Audio.Playback.{SpeakerInfo, set_source_muted, set_source_volume}
use l2voice_chat.Json.{GroupMember}
use l2voice_chat.Voice.State.{or_nobody}
use l2voice_chat.Voice.Prefs.{IniReader, set_active_tx_channel, set_channel_enabled}
use l2voice_chat.Voice.Incoming.{Listener, get_group_roster}
use l2voice_chat.Voice.Lifecycle.{Client}
use l2voice_chat.Voice.Panel.{
  OverlayState, snapshot_overlay_state, get_mini_list_pos, save_mini_list_pos, get_mic_icon_pos,
  save_mic_icon_pos, set_prioritize_clan_leader, set_prioritize_party_leader,
}
use l2voice_chat.Overlay.Names.{is_admin_name}
use l2voice_chat.Overlay.Support.{Support, AdminTicket}
use l2voice_chat.Overlay.Draw.{
  pressed, Moment, Ui, on_voice, on_client, on_playback, ask_speaker_name, get_speaker_list,
}
use l2voice_chat.Overlay.Draw.Position.{persist}

-- The picture beside a name.
pub data Mic : Type 0 where
  blocked : Mic
  talking : Mic
  quiet : Mic

abbrev pub mic : Bool → Bool → Mic
mic muted speaking = if muted then blocked else if speaking then talking else quiet

abbrev pub mini_label : Bytes → Bytes
mini_label [] = codes "jogador"
mini_label (x ∷ name) = x ∷ name

-- The sum of `unread_count`.
unfoldable pub unread_sum : List AdminTicket → ℤ
unfolding ◌+ℤ◌
unread_sum [] = pos 0
unread_sum (t ∷ ts) = t.unread_count +ℤ unread_sum ts

-- The number in the badge.
unfoldable pub unread_badge : Bool → Support → ℤ
unfolding unread_sum
unread_badge is_gm s = if is_gm then unread_sum s.admin_tickets else s.player_chat.unread_count

-- Whether the player is the first of the roster of the party.
unfoldable pub leads_party : ℕ → List GroupMember → Bool
leads_party id [] = false
leads_party id (m ∷ ms) = m.player_id == id && not (id == 0)

-- The microphone icon: whether its window is there, where it is, and a double click on it.
pub record IconInput : Type 0 where
  pub shown : Bool
  pub place : ℤ × ℤ
  pub restore : Bool

pub record MiniInput : Type 0 where
  pub shown : Bool
  pub place : ℤ × ℤ
  pub select : ℕ → Bool
  pub support : Bool
  pub transmit : ℕ → Bool
  pub hear : ℕ → Bool
  pub clan_focus : Bool
  pub party_focus : Bool

pub record MiniView : Type 0 where
  pub rows : List (Bytes × Mic)
  pub admin : Bool
  pub badge : ℤ

module _ (ops : FloatOps) where
  open ops use {F, of_int}

  -- `IsAdminName` of the name of the own character, or else of the session's, and the client after
  -- the question for it. `localName` has room for 63 bytes.
  unfoldable pub is_local_admin : OverlayState ops → Client ops → Bool × Client ops
  unfolding is_admin_name ask_speaker_name
  is_local_admin st c = elim st.char_name [
    | [] ↦
        let (name, d) = ask_speaker_name ops 63 st.session_id c in
        (is_admin_name (or_nobody name), d)
    | x ∷ name ↦ (is_admin_name (x ∷ name), c)
  ]

  unfoldable pub draw_minimized : IniReader → Moment ops → IconInput → Ui ops → Ui ops
  unfolding get_mic_icon_pos persist save_mic_icon_pos
  draw_minimized r t input u =
      let saved = get_mic_icon_pos r u.client.voice in
      let (place, save) = persist saved t.now input.place u.icon_place in
      let placed =
        pressed save (on_client ops (on_voice ops (save_mic_icon_pos input.place.0 input.place.1)))
          (record u { icon_place = place }) in
      if input.shown then pressed input.restore (λ w. record w { minimized = false }) placed else u

  -- A click on the name of a speaker. The volume is set to 1 or to 0.
  unfoldable pub toggle_speaker : ℕ → SpeakerInfo ops → Client ops → Client ops
  unfolding set_source_muted set_source_volume
  toggle_speaker now s = on_playback ops (λ p.
      set_source_volume ops now s.src_id (of_int (pos (if s.muted then 1 else 0)))
        (set_source_muted ops s.src_id (not s.muted) p))

  unfoldable pub draw_mini_rows :
      ℕ → (ℕ → Bool) → List (SpeakerInfo ops) → Client ops → List (Bytes × Mic) × Client ops
  unfolding ask_speaker_name toggle_speaker
  draw_mini_rows now select [] c = ([], c)
  draw_mini_rows now select (s ∷ ss) c =
      let (name, asked) = ask_speaker_name ops 47 s.src_id c in
      let (rows, d) =
        draw_mini_rows now select ss (pressed (select s.src_id) (toggle_speaker now s) asked) in
      ((mini_label (or_nobody name), mic s.muted (ltb_ℤ s.ms_since_mix (pos 200))) ∷ rows, d)

  -- `drawTxBtn`
  abbrev pub transmit_button : MiniInput → ℕ → Client ops → Client ops
  transmit_button input channel =
      pressed (input.transmit channel) (on_voice ops (set_active_tx_channel (pos channel)))

  -- `drawHearToggleBtn`
  abbrev pub hear_button : OverlayState ops → MiniInput → ℕ → Client ops → Client ops
  hear_button st input slot =
      pressed (input.hear slot)
        (on_voice ops (set_channel_enabled (pos slot) (not (st.ch_enabled slot))))

  abbrev pub on_filters : (Listener ops → Listener ops) → Client ops → Client ops
  on_filters f c = record c { listener = f c.listener }

  -- The two buttons that focus a leader, which only the leaders themselves have.
  unfoldable pub focus_buttons : OverlayState ops → MiniInput → Client ops → Client ops
  unfolding leads_party get_group_roster
  focus_buttons st input c =
      let clan = c.voice.net.state.role == 2 in
      let party = leads_party st.player_id (get_group_roster 1 c.voice.net) in
      pressed (party && input.party_focus)
        (on_filters (λ l. set_prioritize_party_leader ops (not l.prioritize_party_leader) l))
        (pressed (clan && input.clan_focus)
          (on_filters (λ l. set_prioritize_clan_leader ops (not l.prioritize_clan_leader) l)) c)

  -- The buttons below the list.
  unfoldable pub mini_buttons : OverlayState ops → MiniInput → Client ops → Client ops
  unfolding set_active_tx_channel set_channel_enabled focus_buttons
  mini_buttons st input c = focus_buttons st input (
      hear_button st input 3 (
        hear_button st input 2 (
          hear_button st input 1 (
            transmit_button input 3
              (transmit_button input 2 (transmit_button input 1 (transmit_button input 0 c)))))))

  -- The inside of the window.
  unfoldable pub draw_mini_body :
      IniReader
      → Moment ops
      → MiniInput
      → OverlayState ops
      → List (SpeakerInfo ops)
      → Ui ops
      → MiniView × Ui ops
  unfolding get_mini_list_pos persist save_mini_list_pos draw_mini_rows is_local_admin unread_badge
      mini_buttons
  draw_mini_body r t input st infos u =
      let saved = get_mini_list_pos r u.client.voice in
      let (place, save) = persist saved t.now input.place u.mini_place in
      let placed =
        pressed save (on_voice ops (save_mini_list_pos input.place.0 input.place.1)) u.client in
      let (rows, c) = draw_mini_rows t.now input.select infos placed in
      let (admin, d) = is_local_admin st c in
      (
        record { rows = rows; admin = admin; badge = unread_badge admin u.chat.known },
        record u {
          mini_place = place;
          support_open = if input.support then not u.support_open else u.support_open;
          client = mini_buttons st input d;
        },
      )

  -- Nothing is shown where there is neither a speaker nor a round trip time.
  unfoldable pub draw_mini_list :
      IniReader → Moment ops → MiniInput → Ui ops → Option MiniView × Ui ops
  unfolding snapshot_overlay_state get_speaker_list draw_mini_body
  draw_mini_list r t input u =
      let st = snapshot_overlay_state ops t.now u.client in
      let (infos, c) = get_speaker_list ops t.now u.client in
      let heard = on_client ops (λ old. c) u in
      let (view, w) = draw_mini_body r t input st infos heard in
      if (length infos == 0 && ltb_ℤ c.voice.net.last_rtt_ms (pos 0)) || not input.shown
      then (none, heard)
      else (some view, w)
