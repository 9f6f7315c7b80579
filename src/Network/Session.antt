-- ===== src/Network/Session.antt =====
-- The life of the WebSocket connection: `TrySendAuth`, the message callback of `StartWs`, and the
-- methods that start, suspend, resume and feed it.
pub mod Auth
pub mod Reach
pub mod Sound
mod Tests
use l2voice_chat.Base.{
  ℕ, Bool, true, false, not, ◌&&◌, ◌||◌, List, [], ◌∷◌, Option, none, some, if◌then◌else◌, Bytes,
  bytes_eq, length,
}
use l2voice_chat.Json.{make_auth_json}
use l2voice_chat.Wire.{Packet, decode_packet}
use l2voice_chat.Network.State.{Net, text, send}
use l2voice_chat.Network.Receive.{Env}
use l2voice_chat.Network.Handle.{handle_ws_message}

-- `ports.empty()`
abbrev pub is_empty : List ℕ → Bool
is_empty [] = true
is_empty (p ∷ ps) = false

unfoldable pub try_send_auth : Net → Net
try_send_auth n =
    if is_empty n.client_ports
    then n
    else if n.auth_sent
    then n
    else if not n.connected
    then n
    else record (send (text (make_auth_json n.client_ports n.char_name)) n) { auth_sent = true }

-- A change of the name or of the ports asks for a new authentication.
unfoldable pub set_client_ports : List ℕ → Bytes → Net → Net
unfolding bytes_eq try_send_auth
set_client_ports ports name n =
    if bytes_eq n.char_name name && bytes_eq n.client_ports ports
    then n
    else try_send_auth (record n { char_name = name; client_ports = ports; auth_sent = false })

-- `WebSocketMessageType`, with the data of a message.
pub data Event : Type 0 where
  opened : Event
  closed : Event
  failed : Event
  binary_message : Bytes → Event
  text_message : Bytes → Event
  other : Event

-- The callbacks that `Start` and `SetWsOpenHook` store, beside `on_auth` in `Env`.
pub record Hooks : Type 0 where
  pub env : Env
  pub on_ws_open : Net → Net
  pub on_packet : Packet → Net → Net

unfoldable pub handle_open : (Net → Net) → Net → Net
unfolding try_send_auth
handle_open hook n = try_send_auth (hook (record n { connected = true; auth_sent = false }))

unfoldable pub handle_close : Net → Net
handle_close n = record n {
  connected = false;
  auth_sent = false;
  session_id = 0;
  player_id = 0;
  udp_port = 0;
  name_cache = [];
  name_query_inflight = [];
  player_name_cache = [];
  player_name_inflight = [];
}

-- The callback that `StartWs` sets; `none` is an exception that leaves it.
unfoldable pub handle_event : Hooks → Event → Net → Option Net
unfolding handle_open handle_close handle_ws_message decode_packet
handle_event h opened n = some (handle_open h.on_ws_open n)
handle_event h closed n = some (handle_close n)
handle_event h failed n = some (handle_close n)
handle_event h (binary_message b) n = elim (decode_packet b) [
  | none ↦ some n
  | some p ↦ some (h.on_packet p n)
]
handle_event h (text_message s) n = handle_ws_message h.env s n
handle_event h other n = some n

unfoldable pub suspend_ws : Net → Net
suspend_ws n = record n {
  reconnect = false;
  started = false;
  connected = false;
  auth_sent = false;
  session_id = 0;
  udp_port = 0;
}

unfoldable pub resume_ws : Net → Net
resume_ws n = record n { reconnect = true; started = true }

-- `Start`, given whether `InitWinsock` succeeds.
unfoldable pub start : Bool → Net → Net × Bool
start winsock n = if winsock then (record n { started = true }, true) else (n, false)

unfoldable pub stop : Net → Net
stop n = record n { started = false }
