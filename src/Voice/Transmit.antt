-- ===== src/Voice/Transmit.antt =====
-- `OnCaptureFrame`: which channel a captured frame goes to, and whether it is sent. Audio
-- processing and the Opus encoder are parameters: the frame carries what they make of it.
pub mod Gate
pub mod Route
mod Tests
use l2voice_chat.Base.{
  ℕ, zero, ◌+◌, ◌%◌, ◌^◌, Bool, true, false, not, ◌&&◌, ◌||◌, [], ◌∷◌, Option, none, some, ltb,
  ◌==◌, if◌then◌else◌, Bytes, take,
}
use l2voice_chat.Base.Int.{ℤ, pos, negsuc}
use l2voice_chat.Network.State.{Net}
use l2voice_chat.Network.Commands.{send_proximity_frame, send_group_frame}
use l2voice_chat.Voice.Speaking.{note_speaker, release_speaker}
use l2voice_chat.Voice.State.{Config, Voice, or_nobody, get_player_name}

-- What a captured frame meets: its length, the clock, `apm.IsSpeaking()` after it, whether the
-- game's window has the focus, the keys that are down, and the packet of the encoder, which is
-- `none` where `Encode` returns no positive length.
pub record Frame : Type 0 where
  pub samples : ℕ
  pub now : ℕ
  pub speaking : Bool
  pub foreground : Bool
  pub pressed : ℤ → Bool
  pub encoded : Option Bytes

-- `held`; the key 0 is none.
unfoldable pub held : Frame → ℤ → Bool
held f (pos zero) = false
held f vk = f.pressed vk

-- `if (sel < 0 || sel > 4) sel = 0;`
unfoldable pub clamp_channel : ℤ → ℕ
clamp_channel (pos n) = if ltb 4 n then 0 else n
clamp_channel (negsuc n) = 0

-- The channel of the main key: proximity becomes clan while a clan mode is on.
unfoldable pub selected_channel : ℤ → ℕ → ℕ
unfolding clamp_channel
selected_channel active mode =
    let sel = clamp_channel active in if sel == 0 && not (mode == 0) then 2 else sel

-- `channel` and `ptt_held`; 255 is no channel.
unfoldable pub choose_channel : {F : Type 0} → Config F → Frame → ℕ → ℕ × Bool
unfolding held
choose_channel cfg f sel =
    if held f cfg.ptt_party
    then (1, true)
    else if held f cfg.ptt_clan
    then (2, true)
    else if held f cfg.ptt_ally
    then (3, true)
    else if held f cfg.ptt_proximity
    then (sel, true)
    else if cfg.always_on
    then (sel, false)
    else (255, false)

-- `transmit`
unfoldable pub is_transmitting : {F : Type 0} → Config F → Frame → ℕ × Bool → Bool
is_transmitting cfg f (channel, ptt_held) =
    (not cfg.require_focus || f.foreground)
    && (not (channel == 255) && (ptt_held || cfg.always_on && f.speaking))

-- `my_name`, and the network after the query that may find it.
unfoldable pub my_name : {F : Type 0} → Config F → Net → Bytes × Net
unfolding get_player_name or_nobody
my_name cfg n = elim cfg.char_name [
  | c ∷ name ↦ (take 63 (c ∷ name), n)
  | [] ↦
      if n.player_id == 0
      then ([], n)
      else let (name, n') = get_player_name n.player_id n in (or_nobody name, n')
]

-- A packet takes a sequence number and goes to the network.
unfoldable pub dispatch : {F : Type 0} → ℕ → Bytes → Voice F → Voice F
dispatch channel opus v = record v {
  tx_seq = (v.tx_seq + 1) % 2 ^ 16;
  net =
      (if channel == 0
        then send_proximity_frame v.tx_seq opus v.net
        else send_group_frame channel v.tx_seq opus v.net);
}

-- The end of the transmitting branch: encode, count, send.
unfoldable pub send_frame : {F : Type 0} → Frame → ℕ → Voice F → Voice F
send_frame f channel v =
    if not v.net.connected
    then v
    else elim f.encoded [ none ↦ v | some opus ↦ dispatch channel opus v ]

-- The speaker of a transmitted frame; a player without a name is not noted.
unfoldable pub note_self : {F : Type 0} → ℕ → ℕ → Bytes → Voice F → Voice F
unfolding note_speaker
note_self now channel [] v = v
note_self now channel (c ∷ name) v = record v {
  speakers = note_speaker now v.ini_path (c ∷ name) channel v.speakers;
}

unfoldable pub release_self : {F : Type 0} → Bytes → Voice F → Voice F
unfolding release_speaker
release_self [] v = v
release_self (c ∷ name) v = record v { speakers = release_speaker v.ini_path (c ∷ name) v.speakers }

-- What is done for a full frame once the channel is chosen.
unfoldable pub route_frame : {F : Type 0} → Frame → ℕ × Bool → Voice F → Voice F
route_frame f chosen v =
    let (name, n) = my_name v.cfg v.net in
    if is_transmitting v.cfg f chosen
    then send_frame f chosen.0 (note_self f.now chosen.0 name (record v { net = n }))
    else release_self name (record v { net = n })

unfoldable pub on_capture_frame : {F : Type 0} → Frame → Voice F → Voice F
on_capture_frame f v =
    if not v.running
    then v
    else if not (f.samples == 960)
    then v
    else let sel = selected_channel v.ch_prefs.active_tx_channel v.net.state.clan_mode in
      route_frame f (choose_channel v.cfg f sel) v
