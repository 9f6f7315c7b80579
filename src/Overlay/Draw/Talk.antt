-- ===== src/Overlay/Draw/Talk.antt =====
-- What drawing says to the service: questions for names, and the settings of the player's channels.
pub mod Listen
pub mod Said
pub mod Widgets
use l2voice_chat.Base.{
  ℕ, Bool, true, false, ◌&&◌, ◌||◌, ◌==◌, not, List, [], ◌∷◌, ◌++◌, Option, none, some, All,
  All-append, append_assoc, append-nil, Bytes, ◌≡◌, ◌⊎◌, refl, inl, inr, sym, ◌∙◌, arith, if_intro,
  if◌then◌else◌, Bool-cases,
}
use l2voice_chat.Base.Int.{ℤ, pos, negsuc}
use l2voice_chat.Base.Dict.{insert, member}
use l2voice_chat.Audio.Float.{FloatOps}
use l2voice_chat.Audio.Playback.{Playback, SpeakerInfo, get_speaker_infos}
use l2voice_chat.Json.{GroupMember}
use l2voice_chat.Network.State.{Net, Message, text, send}
use l2voice_chat.Network.Commands.{
  send_name_query, send_player_name_query, send_set_channel_enabled, send_set_channel_volume,
  name_query, player_name_query,
}
use l2voice_chat.Voice.State.{get_player_name, get_speaker_name}

-- The steps of drawing on the connection. With `quiet` there are only questions for names.
pub data Talk (quiet : Bool) (n : Net) : Net → Type 0 where
  silent : Talk quiet n n
  asks_speaker : (src : ℕ) {m : Net} → Talk quiet n m → Talk quiet n (send_name_query src m)
  asks_player : (id : ℕ) {m : Net} → Talk quiet n m → Talk quiet n (send_player_name_query id m)
  hears :
      (channel : ℕ) (b : Bool) {m : Net}
      → quiet ≡ false
      → Talk quiet n m
      → Talk quiet n (send_set_channel_enabled channel b m)
  louder :
      (channel : ℕ) (volume : Bytes) {m : Net}
      → quiet ≡ false
      → Talk quiet n m
      → Talk quiet n (send_set_channel_volume channel volume m)

module _ {quiet : Bool} where
  pub Talk-trans : {a b c : Net} → Talk quiet a b → Talk quiet b c → Talk quiet a c
  Talk-trans h silent = h
  Talk-trans h (asks_speaker src k) = asks_speaker src (Talk-trans h k)
  Talk-trans h (asks_player id k) = asks_player id (Talk-trans h k)
  Talk-trans h (hears channel b q k) = hears channel b q (Talk-trans h k)
  Talk-trans h (louder channel volume q k) = louder channel volume q (Talk-trans h k)

  pub get_speaker_name-Talk :
      (src : ℕ) {n m : Net} → Talk quiet n m → Talk quiet n (get_speaker_name src m).1
  unfolding get_speaker_name
  get_speaker_name-Talk src h = asks_speaker src h

  pub get_player_name-Talk :
      (id : ℕ) {n m : Net} → Talk quiet n m → Talk quiet n (get_player_name id m).1
  unfolding get_player_name
  get_player_name-Talk id h = asks_player id h

  -- What the service said, and who the player is, stays.
  pub Talk-state : {n m : Net} → Talk quiet n m → (m.state ≡ n.state) × (m.player_id ≡ n.player_id)
  unfolding send_name_query send_player_name_query send_set_channel_enabled send_set_channel_volume
  Talk-state silent = (refl, refl)
  Talk-state (asks_speaker src h) = ground (arith, Talk-state h)
  Talk-state (asks_player id h) = ground (arith, Talk-state h)
  Talk-state (hears channel b q h) = ground (arith, Talk-state h)
  Talk-state (louder channel volume q h) = ground (arith, Talk-state h)
