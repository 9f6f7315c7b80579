-- ===== src/Network/State.antt =====
-- The state of `VoiceNetwork::Impl`.
use l2voice_chat.Base.{ℕ, Bool, true, false, List, [], ◌∷◌, ◌++◌, Bytes}
use l2voice_chat.Base.Int.{ℤ, negsuc}
use l2voice_chat.Base.Dict.{Dict}
use l2voice_chat.Json.{GroupMember}

-- What is handed to `ws.send`.
pub data Message : Type 0 where
  text : Bytes → Message
  binary : Bytes → Message

-- `VoiceNetwork::Toast`; the text is a C string of at most 191 bytes.
pub record Toast : Type 0 where
  pub id : ℕ
  pub text : Bytes
  pub severity : ℕ
  pub created_ms : ℕ
  pub dismiss_ms : ℕ

-- The `cs_` fields: the snapshot that the service pushes.
pub record ClientState : Type 0 where
  pub role : ℕ
  pub clan_id : ℕ
  pub ally_id : ℕ
  pub party_id : ℕ
  pub cc_id : ℕ
  pub cc_leader_id : ℕ
  pub cc_can_speak : Bool
  pub clan_mode : ℕ
  pub opted_out : Bool
  pub party_members : List GroupMember
  pub clan_members : List GroupMember
  pub ally_members : List GroupMember
  pub cc_members : List GroupMember

-- A map to `bool` whose values are never read is kept as in the source. `sent` collects what went
-- to `ws.send`, oldest first; `reconnect` and `started` are the state of the WebSocket library that
-- `SuspendWs` and `ResumeWs` set.
pub record Net : Type 0 where
  pub client_ports : List ℕ
  pub char_name : Bytes
  pub session_id : ℕ
  pub player_id : ℕ
  pub udp_host : Bytes
  pub udp_port : ℕ
  pub connected : Bool
  pub auth_sent : Bool
  pub name_cache : Dict ℕ Bytes
  pub name_query_inflight : Dict ℕ Bool
  pub player_name_cache : Dict ℕ Bytes
  pub player_name_inflight : Dict ℕ Bool
  pub toasts : List Toast
  pub next_toast_id : ℕ
  pub last_ping_sent_ms : ℕ
  pub last_rtt_ms : ℤ
  pub state : ClientState
  pub reconnect : Bool
  pub started : Bool
  pub sent : List Message

abbrev pub initial_state : ClientState
initial_state = record {
  role = 0;
  clan_id = 0;
  ally_id = 0;
  party_id = 0;
  cc_id = 0;
  cc_leader_id = 0;
  cc_can_speak = false;
  clan_mode = 0;
  opted_out = false;
  party_members = [];
  clan_members = [];
  ally_members = [];
  cc_members = [];
}

-- A new `VoiceNetwork`, before `Start`.
abbrev pub initial : Net
initial = record {
  client_ports = [];
  char_name = [];
  session_id = 0;
  player_id = 0;
  udp_host = [];
  udp_port = 0;
  connected = false;
  auth_sent = false;
  name_cache = [];
  name_query_inflight = [];
  player_name_cache = [];
  player_name_inflight = [];
  toasts = [];
  next_toast_id = 1;
  last_ping_sent_ms = 0;
  last_rtt_ms = negsuc 0;
  state = initial_state;
  reconnect = true;
  started = false;
  sent = [];
}

-- `ws.send`
abbrev pub send : Message → Net → Net
send m n = record n { sent = n.sent ++ (m ∷ []) }
