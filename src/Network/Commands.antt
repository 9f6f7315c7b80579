-- ===== src/Network/Commands.antt =====
-- The control messages that the client sends as text, and the audio frames that it sends as binary.
-- The texts of volumes come from `snprintf("%.3f")`, which is a parameter.
pub mod Guards
use l2voice_chat.Base.{
  ℕ, ◌+◌, ◌-◌, Bool, true, false, not, ◌&&◌, ◌||◌, List, [], ◌∷◌, ◌++◌, Option, none, some, ltb,
  ◌==◌, if◌then◌else◌, Bytes, codes, decimal, length,
}
use l2voice_chat.Base.Int.{ℤ, pos, negsuc}
use l2voice_chat.Base.Dict.{nat_eq, member, insert}
use l2voice_chat.Wire.{audio_frame, keepalive_frame, is_sendable}
use l2voice_chat.Network.State.{Net, text, binary, send}

abbrev pub bool_text : Bool → Bytes
bool_text b = if b then codes "true" else codes "false"

-- `std::to_string(int)`
unfoldable pub decimal_ℤ : ℤ → Bytes
unfolding decimal
decimal_ℤ (pos n) = decimal n
decimal_ℤ (negsuc n) = b'-' ∷ decimal (n + 1)

-- The guard of every command: `if (!connected) return;`.
abbrev pub when_connected : Bytes → Net → Net
when_connected s n = if not n.connected then n else send (text s) n

-- The guard of a command with a target: `if (!connected || target == 0) return;`.
abbrev pub when_target : ℕ → Bytes → Net → Net
when_target target s n = if not n.connected || target == 0 then n else send (text s) n

unfoldable pub send_proximity_frame : ℕ → Bytes → Net → Net
unfolding is_sendable audio_frame
send_proximity_frame seq opus n =
    if is_sendable n.session_id opus
    then send (binary (audio_frame 0 n.session_id seq opus)) n
    else n

unfoldable pub send_group_frame : ℕ → ℕ → Bytes → Net → Net
unfolding is_sendable audio_frame
send_group_frame channel seq opus n =
    if is_sendable n.session_id opus && not (ltb channel 1 || ltb 3 channel)
    then send (binary (audio_frame channel n.session_id seq opus)) n
    else n

unfoldable pub send_keepalive : Net → Net
unfolding keepalive_frame
send_keepalive n = if n.session_id == 0 then n else send (binary (keepalive_frame n.session_id)) n

-- `SendPingTick` at time `now`: at most one ping in 2 seconds.
unfoldable pub send_ping_tick : ℕ → Net → Net
unfolding decimal
send_ping_tick now n =
    if not n.connected || ltb now (n.last_ping_sent_ms + 2000)
    then n
    else send (text (codes "{\"type\":\"ping\",\"t\":" ++ (decimal now ++ codes "}")))
        (record n { last_ping_sent_ms = now })

unfoldable pub send_set_channel_enabled : ℕ → Bool → Net → Net
unfolding decimal
send_set_channel_enabled channel enabled = when_connected (
    codes "{\"type\":\"set_channel_enabled\",\"channel\":"
    ++ (decimal channel ++ (codes ",\"enabled\":" ++ (bool_text enabled ++ codes "}"))))

-- `volume` is the text that `ftos` makes of the volume.
unfoldable pub send_set_channel_volume : ℕ → Bytes → Net → Net
unfolding decimal
send_set_channel_volume channel volume = when_connected (
    codes "{\"type\":\"set_channel_volume\",\"channel\":"
    ++ (decimal channel ++ (codes ",\"volume\":" ++ (volume ++ codes "}"))))

unfoldable pub send_set_player_mute : ℕ → Bool → Net → Net
unfolding decimal
send_set_player_mute target muted = when_target target (
    codes "{\"type\":\"set_player_mute\",\"target_id\":"
    ++ (decimal target ++ (codes ",\"muted\":" ++ (bool_text muted ++ codes "}"))))

unfoldable pub send_set_player_volume : ℕ → Bytes → Net → Net
unfolding decimal
send_set_player_volume target volume = when_target target (
    codes "{\"type\":\"set_player_volume\",\"target_id\":"
    ++ (decimal target ++ (codes ",\"volume\":" ++ (volume ++ codes "}"))))

unfoldable pub send_clan_set_mode : ℕ → Net → Net
unfolding decimal
send_clan_set_mode mode =
    when_connected (codes "{\"type\":\"clan_set_mode\",\"mode\":" ++ (decimal mode ++ codes "}"))

unfoldable pub send_whisper_set : ℕ → ℤ → Net → Net
unfolding decimal decimal_ℤ
send_whisper_set mode vk = when_connected (
    codes "{\"type\":\"whisper_set\",\"mode\":"
    ++ (decimal mode ++ (codes ",\"key\":" ++ (decimal_ℤ vk ++ codes "}"))))

unfoldable pub send_clan_promote_sub_leader : ℕ → Bool → Net → Net
unfolding decimal
send_clan_promote_sub_leader target promote = when_target target (
    codes "{\"type\":\""
    ++ ((if promote then codes "clan_promote_subleader" else codes "clan_demote_subleader")
        ++ (codes "\",\"target_id\":" ++ (decimal target ++ codes "}"))))

-- A null `scope` is `none`.
unfoldable pub send_clan_remote_mute : ℕ → Bool → Option Bytes → Net → Net
unfolding decimal
send_clan_remote_mute target muted none n = n
send_clan_remote_mute target muted (some scope) n =
    when_target target
      (codes "{\"type\":\"clan_remote_mute\",\"target_id\":"
        ++ (decimal target
            ++ (codes ",\"muted\":"
                ++ (bool_text muted ++ (codes ",\"scope\":\"" ++ (scope ++ codes "\"}"))))))
      n

unfoldable pub send_cc_grant_speak : ℕ → Bool → Net → Net
unfolding decimal
send_cc_grant_speak target granted = when_target target (
    codes "{\"type\":\"cc_grant_speak\",\"target_id\":"
    ++ (decimal target ++ (codes ",\"granted\":" ++ (bool_text granted ++ codes "}"))))

unfoldable pub send_clan_opt_out_unified : Bool → Net → Net
send_clan_opt_out_unified opt_out =
    when_connected
      (codes "{\"type\":\"clan_opt_out_unified\",\"opt_out\":" ++ (bool_text opt_out ++ codes "}"))

abbrev pub name_query : ℕ → Bytes
name_query src = codes "{\"type\":\"name_query\",\"src_id\":" ++ (decimal src ++ codes "}")

abbrev pub player_name_query : ℕ → Bytes
player_name_query id =
    codes "{\"type\":\"player_name_query\",\"player_id\":" ++ (decimal id ++ codes "}")

unfoldable pub send_name_query : ℕ → Net → Net
unfolding member insert
send_name_query src n =
    if not n.connected || src == 0
    then n
    else if member src n.name_cache
    then n
    else if member src n.name_query_inflight
    then n
    else send (text (name_query src))
        (record n { name_query_inflight = insert src true n.name_query_inflight })

unfoldable pub send_player_name_query : ℕ → Net → Net
unfolding member insert
send_player_name_query id n =
    if not n.connected || id == 0
    then n
    else if member id n.player_name_cache
    then n
    else if member id n.player_name_inflight
    then n
    else send (text (player_name_query id))
        (record n { player_name_inflight = insert id true n.player_name_inflight })
