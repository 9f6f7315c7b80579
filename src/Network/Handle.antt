-- ===== src/Network/Handle.antt =====
-- `HandleWsMessage`: a text message is told by the first of the known words that stands in it.
pub mod Pong
pub mod AuthOk
use l2voice_chat.Base.{
  ℕ, ◌+◌, ◌-◌, ◌%◌, ◌^◌, Bool, true, false, List, [], ◌∷◌, Option, none, some, ltb, leb, ◌==◌,
  if◌then◌else◌, Bytes, codes, contains,
}
use l2voice_chat.Base.Int.{ℤ, pos}
use l2voice_chat.Base.Dict.{Dict, nat_eq, insert, erase}
use l2voice_chat.Json.{extract_string, extract_number, or_zero}
use l2voice_chat.Network.State.{Net}
use l2voice_chat.Network.Receive.{
  Env, stoi, word16, split_colon, or_empty, handle_client_state, handle_notification,
}

-- A cache with the name that came, if it is not empty.
unfoldable pub learn_name : ℕ → Bytes → Dict ℕ Bytes → Dict ℕ Bytes
unfolding insert
learn_name id [] cache = cache
learn_name id (c ∷ name) cache = insert id (c ∷ name) cache

unfoldable pub handle_name_result : Bytes → Net → Net
unfolding extract_string extract_number or_zero or_empty erase learn_name
handle_name_result s n =
    let id = or_zero (extract_number s (codes "src_id")) % 2 ^ 32 in
    let name = or_empty (extract_string s (codes "name")) in
    record n {
      name_query_inflight = erase id n.name_query_inflight;
      name_cache = learn_name id name n.name_cache;
    }

unfoldable pub handle_player_name_result : Bytes → Net → Net
unfolding extract_string extract_number or_zero or_empty erase learn_name
handle_player_name_result s n =
    let id = or_zero (extract_number s (codes "player_id")) % 2 ^ 32 in
    let name = or_empty (extract_string s (codes "name")) in
    record n {
      player_name_inflight = erase id n.player_name_inflight;
      player_name_cache = learn_name id name n.player_name_cache;
    }

-- `(int)(now_ms - (int64_t)t_echo)`, cut to 0..99999: `d` is the low 32 bits of the difference.
unfoldable pub round_trip : ℕ → ℕ → ℕ
round_trip now t =
    let d = (now + 2 ^ 64 - t) % 2 ^ 32 in
    if leb (2 ^ 31) d then 0 else if ltb 99999 d then 99999 else d

unfoldable pub handle_pong : ℕ → Bytes → Net → Net
unfolding extract_number round_trip
handle_pong now s n = elim (extract_number s (codes "t")) [
  | none ↦ n
  | some t ↦ record n { last_rtt_ms = pos (round_trip now t) }
]

-- What a complete `auth_ok` stores, before the callback.
abbrev pub authorized : ℕ → Option ℕ → Bytes → ℕ → Net → Net
authorized sid pid host port n = record n {
  session_id = sid % 2 ^ 32;
  player_id = elim pid [ none ↦ n.player_id | some p ↦ p % 2 ^ 32 ];
  udp_host = host;
  udp_port = port;
}

-- The rest of the handler, from `auth_ok` on: `none` is the exception of `std::stoi`.
unfoldable pub handle_auth_ok : Env → Bytes → Net → Option Net
unfolding extract_string extract_number split_colon stoi word16
handle_auth_ok env s n = elim (extract_number s (codes "session_id")) [
  | none ↦ some n
  | some sid ↦ elim (extract_string s (codes "udp_endpoint")) [
    | none ↦ some n
    | some endpoint ↦ elim (split_colon endpoint) [
      | none ↦ some n
      | some (host, rest) ↦ elim (stoi rest) [
        | none ↦ none
        | some v ↦
            if word16 v == 0
            then some n
            else some (
                env.on_auth
                  (authorized sid (extract_number s (codes "your_player_id")) host (word16 v) n))
      ]
    ]
  ]
]

unfoldable pub handle_ws_message : Env → Bytes → Net → Option Net
unfolding handle_name_result handle_player_name_result handle_client_state handle_notification
    handle_pong handle_auth_ok
handle_ws_message env s n =
    if contains (codes "\"name_result\"") s
    then some (handle_name_result s n)
    else if contains (codes "\"player_name_result\"") s
    then some (handle_player_name_result s n)
    else if contains (codes "\"client_state\"") s
    then some (handle_client_state s n)
    else if contains (codes "\"notification\"") s
    then some (handle_notification env s n)
    else if contains (codes "\"pong\"") s
    then some (handle_pong env.now s n)
    else if contains (codes "\"auth_ok\"") s
    then handle_auth_ok env s n
    else some n
