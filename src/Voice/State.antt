-- ===== src/Voice/State.antt =====
-- The state of the module: `Config`, `ChannelPrefs`, `Mod`, and the statics beside it. `F` is the
-- type of the floats.
use l2voice_chat.Base.{[], ℕ, Bool, List, Bytes, Option, none, some, take}
use l2voice_chat.Base.Int.{ℤ}
use l2voice_chat.Base.Dict.{nat_eq, lookup}
use l2voice_chat.Network.State.{Net}
use l2voice_chat.Network.Commands.{send_name_query, send_player_name_query}
use l2voice_chat.Voice.Speaking.{Speakers}

pub record Config (F : Type 0) : Type 0 where
  pub ws_url : Bytes
  pub capture_device : Bytes
  pub playback_device : Bytes
  pub min_dist_cm : F
  pub max_dist_cm : F
  pub ptt_proximity : ℤ
  pub ptt_party : ℤ
  pub ptt_clan : ℤ
  pub ptt_ally : ℤ
  pub enabled : Bool
  pub auto_connect : Bool
  pub require_focus : Bool
  pub always_on : Bool
  pub master_volume : F
  pub char_name : Bytes

-- The arrays of four are functions on the indices.
pub record ChannelPrefs (F : Type 0) : Type 0 where
  pub enabled : ℕ → Bool
  pub volume : ℕ → F
  pub active_tx_channel : ℤ

-- `ini_writes` collects what went to voice.ini, oldest first; an empty `ini_path` is none.
pub record Voice (F : Type 0) : Type 0 where
  pub cfg : Config F
  pub ch_prefs : ChannelPrefs F
  pub running : Bool
  pub ini_path : Bytes
  pub ini_writes : List (Bytes × ℤ)
  pub tx_seq : ℕ
  pub net : Net
  pub speakers : Speakers
  pub last_port_count : ℕ
  pub out_of_world_at : ℕ
  pub voice_suspended : Bool
  pub counter : ℕ
  pub last_speak_cleanup : ℕ

-- `CachedPlayerName` and `CachedName`: at most `cap - 1` bytes; `none` is the result false.
unfoldable pub cached_player_name : ℕ → ℕ → Net → Option Bytes
unfolding lookup
cached_player_name id room n = elim (lookup id n.player_name_cache) [
  | none ↦ none
  | some name ↦ some (take room name)
]

unfoldable pub cached_name : ℕ → ℕ → Net → Option Bytes
unfolding lookup
cached_name src room n = elim (lookup src n.name_cache) [
  | none ↦ none
  | some name ↦ some (take room name)
]

-- The buffer after such a call: empty where there is no name.
unfoldable pub or_nobody : Option Bytes → Bytes
or_nobody (some name) = name
or_nobody none = []

-- `GetPlayerName` and `GetSpeakerName` with a buffer of 64 bytes: they ask first, and then look.
unfoldable pub get_player_name : ℕ → Net → Option Bytes × Net
unfolding send_player_name_query cached_player_name
get_player_name id n = let n' = send_player_name_query id n in (cached_player_name id 63 n', n')

unfoldable pub get_speaker_name : ℕ → Net → Option Bytes × Net
unfolding send_name_query cached_name
get_speaker_name src n = let n' = send_name_query src n in (cached_name src 63 n', n')
