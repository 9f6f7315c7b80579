-- ===== src/Overlay/Draw/Members.antt =====
-- `DrawMemberRow` and `DrawGroupTab`: the tabs of party, clan, alliance and command channel.
pub mod Order
pub mod Rights
use l2voice_chat.Base.{
  ℕ, Bool, true, false, not, ◌&&◌, ◌||◌, List, [], ◌∷◌, ◌++◌, length, keep, Option, none, some, leb,
  ◌==◌, if◌then◌else◌, Bytes, codes, decimal,
}
use l2voice_chat.Base.Int.{ℤ, pos, negsuc}
use l2voice_chat.Audio.Float.{FloatOps}
use l2voice_chat.Json.{GroupMember}
use l2voice_chat.Network.State.{Net}
use l2voice_chat.Network.Commands.{send_clan_remote_mute}
use l2voice_chat.Voice.State.{get_player_name}
use l2voice_chat.Voice.Prefs.{set_channel_enabled, set_channel_volume, set_active_tx_channel}
use l2voice_chat.Voice.Incoming.{get_group_roster, pref_slot, set_player_muted, set_player_volume}
use l2voice_chat.Voice.Lifecycle.{Client}
use l2voice_chat.Voice.Panel.{OverlayState}
use l2voice_chat.Overlay.Names.{vk_to_string}
use l2voice_chat.Overlay.Draw.{
  changed, pressed, Moment, Ui, on_net, on_voice, on_listener, on_client, is_capturing, rebind,
}

-- What a row shows: a mark before the name, the name or the number, whether the member is offline,
-- and whether there is a button for the remote mute.
pub record Row : Type 0 where
  pub player_id : ℕ
  pub glyph : Option Bytes
  pub label : Bytes
  pub dimmed : Bool
  pub remote_button : Bool

-- `canRemoteMute`
unfoldable pub can_remote_mute : ℕ → GroupMember → Net → Bool
can_remote_mute channel m n =
    (channel == 2 || channel == 3)
    && (leb 1 n.state.role
        && (not (m.player_id == 0)
            && (not (m.player_id == 0xffffffff) && not (m.player_id == n.player_id))))

-- The name where it is known and not empty.
unfoldable pub player_label : ℕ → Option Bytes → Bytes
unfolding decimal
player_label id (some (c ∷ name)) = c ∷ name
player_label id _ = codes "pid=" ++ decimal id

-- Whether a member is drawn in the first of the two passes.
unfoldable pub is_priority : ℕ → GroupMember → Bool
is_priority channel m =
    if channel == 2
    then m.clan_role == 2 || m.clan_role == 1
    else if channel == 4
    then m.cc_can_speak
    else false

unfoldable pub member_glyph : ℕ → ℕ → GroupMember → Option Bytes
member_glyph channel leader m =
    if channel == 2
    then (if m.clan_role == 2
        then some (codes "L")
        else if m.clan_role == 1
        then some (codes "S")
        else none)
    else if channel == 4
    then (if m.player_id == leader
        then some (codes "L")
        else if m.cc_can_speak
        then some (codes "*")
        else none)
    else none

abbrev pub eq_ℤ : ℤ → ℕ → Bool
eq_ℤ (pos n) k = n == k
eq_ℤ (negsuc n) k = false

-- The name of the key that is bound to a channel.
unfoldable pub key_label : ℕ → ℤ → Bytes
unfolding vk_to_string
key_label lang vk =
    if eq_ℤ vk 0
    then (if lang == 0 then codes "nenhuma" else codes "none")
    else vk_to_string lang vk 31

module _ (ops : FloatOps) where
  open ops use {F}

  -- The checkbox, the button and the slider of a row.
  pub record RowInput : Type 0 where
    pub mute : Option Bool
    pub remote : Bool
    pub volume : Option F

  unfoldable pub draw_member_row :
      Moment ops → ℕ → Option Bytes → RowInput → GroupMember → Client ops → Row × Client ops
  unfolding get_player_name set_player_muted set_player_volume can_remote_mute player_label
      send_clan_remote_mute
  draw_member_row t channel glyph input m c =
      let (known, n) = get_player_name m.player_id c.voice.net in
      let asked = on_net ops (λ old. n) c in
      let muted =
        changed input.mute (λ b. on_listener ops (set_player_muted ops t.now m.player_id b))
          asked in
      let button = can_remote_mute channel m muted.voice.net in
      let scope = if channel == 2 then codes "clan" else codes "ally" in
      let told =
        pressed (button && input.remote)
          (on_net ops (send_clan_remote_mute m.player_id (not m.remote_muted) (some scope)))
          muted in
      (
        record {
          player_id = m.player_id;
          glyph = glyph;
          label = player_label m.player_id known;
          dimmed = not m.voice_active;
          remote_button = button;
        },
        changed input.volume (λ x. on_listener ops (set_player_volume ops t.now m.player_id x))
            told,
      )

  -- A loop over the roster that draws the members that pass a test.
  unfoldable pub draw_loop :
      Moment ops
      → ℕ
      → (GroupMember → Bool)
      → (GroupMember → Option Bytes)
      → (ℕ → RowInput)
      → List GroupMember
      → Client ops
      → List Row × Client ops
  unfolding draw_member_row
  draw_loop t channel passes glyph inputs [] c = ([], c)
  draw_loop t channel passes glyph inputs (m ∷ ms) c =
      let (row, d) = draw_member_row t channel (glyph m) (inputs m.player_id) m c in
      let (rows, after) = draw_loop t channel passes glyph inputs ms (if passes m then d else c) in
      (if passes m then row ∷ rows else rows, after)

  -- Two passes for clan and CC, and else one.
  unfoldable pub draw_roster :
      Moment ops → ℕ → (ℕ → RowInput) → List GroupMember → Client ops → List Row × Client ops
  unfolding draw_loop is_priority member_glyph
  draw_roster t channel inputs ms c =
      let glyph = member_glyph channel c.voice.net.state.cc_leader_id in
      let (first, d) = draw_loop t channel (is_priority channel) glyph inputs ms c in
      let (second, e) = draw_loop t channel (λ m. not (is_priority channel m)) glyph inputs ms d in
      if channel == 2 || channel == 4
      then (first ++ second, e)
      else draw_loop t channel (λ m. true) (λ m. none) inputs ms c

  pub record GroupInput : Type 0 where
    pub hear : Option Bool
    pub transmit : Option Bool
    pub volume : Option F
    pub rebind : Bool
    pub row : ℕ → RowInput

  -- `key` is `none` for CC, and while a key is asked for; `active_count` is the number of members with a voice session.
  pub record GroupView : Type 0 where
    pub hears : Bool
    pub transmits : Bool
    pub key : Option Bytes
    pub active_count : ℕ
    pub rows : List Row

  abbrev pub or_else : {A : Type 0} → A → Option A → A
  or_else a none = a
  or_else a (some b) = b

  -- `pttVk`
  unfoldable pub channel_key : ℕ → Client ops → ℤ
  channel_key channel c =
      let cfg = c.voice.cfg in
      if channel == 1
      then cfg.ptt_party
      else if channel == 2
      then cfg.ptt_clan
      else if channel == 3
      then cfg.ptt_ally
      else pos 0

  -- The settings above the list.
  unfoldable pub set_group : Moment ops → ℕ → GroupInput → Client ops → Client ops
  unfolding set_channel_enabled set_channel_volume set_active_tx_channel pref_slot
  set_group t channel input c =
      let slot = pref_slot channel in
      let heard = changed input.hear (λ b. on_voice ops (set_channel_enabled (pos slot) b)) c in
      let sending =
        changed input.transmit
          (λ b. on_voice ops (set_active_tx_channel (pos (if b then channel else 0)))) heard in
      changed input.volume (λ x. on_voice ops (set_channel_volume ops t.half t.ftos (pos slot) x))
        sending

  -- The tab of a channel from 1 to 4, where `st` was taken at the start of the frame.
  unfoldable pub draw_group_tab :
      Moment ops → OverlayState ops → ℕ → GroupInput → Ui ops → GroupView × Ui ops
  unfolding set_group rebind draw_roster get_group_roster channel_key key_label
  draw_group_tab t st channel input u =
      let set = on_client ops (set_group t channel input) u in
      let bound =
        if leb 1 channel && leb channel 3 then rebind ops channel input.rebind set else set in
      let roster = get_group_roster channel bound.client.voice.net in
      let (rows, c) = draw_roster t channel input.row roster bound.client in
      (
        record {
          hears = or_else (st.ch_enabled (pref_slot channel)) input.hear;
          transmits =
              or_else (eq_ℤ u.client.voice.ch_prefs.active_tx_channel channel) input.transmit;
          key =
              if (leb 1 channel && leb channel 3) && not (is_capturing ops channel u)
              then some (key_label u.language (channel_key channel u.client))
              else none;
          active_count = length (keep (λ (m : GroupMember). m.voice_active) roster);
          rows = rows;
        },
        record bound { client = c },
      )
