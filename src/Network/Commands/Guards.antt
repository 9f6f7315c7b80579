-- ===== src/Network/Commands/Guards.antt =====
-- When the client sends, and when it keeps silent.
use l2voice_chat.Base.{ℕ, ◌+◌, ◌≤◌, ◌<◌, Bool, true, false, ◌≡◌, ◌≢◌, arith, some, Bytes, length}
use l2voice_chat.Base.Int.{ℤ}
use l2voice_chat.Base.Dict.{nat_eq, lookup-insert_self}
use l2voice_chat.Network.State.{Net}
use l2voice_chat.Network.Commands.{
  send_group_frame, send_ping_tick, send_set_channel_enabled, send_set_channel_volume,
  send_set_player_mute, send_set_player_volume, send_clan_set_mode, send_whisper_set,
  send_clan_promote_sub_leader, send_clan_remote_mute, send_cc_grant_speak,
  send_clan_opt_out_unified, send_name_query, send_player_name_query,
}

-- A call of `SendGroupFrame` that sends anything had a known session, a channel from 1 to 3 and a
-- payload of 1 to 1024 bytes.
pub send_group_frame_needs :
    (channel seq : ℕ) (opus : Bytes) (n : Net)
    → (send_group_frame channel seq opus n).sent ≢ n.sent
    → (n.session_id ≢ 0) × (1 ≤ channel) × (channel ≤ 3) × (1 ≤ length opus) × (length opus ≤ 1024)
unfolding send_group_frame
send_group_frame_needs channel seq opus n h = ground arith

-- Without a connection no control command sends anything or changes the session.
pub commands_offline :
    (n : Net) (id mode : ℕ) (flag : Bool) (volume scope : Bytes) (vk : ℤ)
    → n.connected ≡ false
    → (send_set_channel_enabled mode flag n ≡ n)
      × (send_set_channel_volume mode volume n ≡ n)
      × (send_set_player_mute id flag n ≡ n)
      × (send_set_player_volume id volume n ≡ n)
      × (send_clan_set_mode mode n ≡ n)
      × (send_whisper_set mode vk n ≡ n)
      × (send_clan_promote_sub_leader id flag n ≡ n)
      × (send_clan_remote_mute id flag (some scope) n ≡ n)
      × (send_cc_grant_speak id flag n ≡ n)
      × (send_clan_opt_out_unified flag n ≡ n)
      × (send_name_query id n ≡ n)
      × (send_player_name_query id n ≡ n)
unfolding send_set_channel_enabled send_set_channel_volume send_set_player_mute
    send_set_player_volume send_clan_set_mode send_whisper_set send_clan_promote_sub_leader
    send_clan_remote_mute send_cc_grant_speak send_clan_opt_out_unified send_name_query
    send_player_name_query
commands_offline n id mode flag volume scope vk h =
    (rw h, rw h, rw h, rw h, rw h, rw h, rw h, rw h, rw h, rw h, rw h, rw h)

-- The ping of `SendPingTick` is throttled: where the clock has moved on by less than two seconds
-- since a call that sent a ping, the next call sends none.
pub send_ping_tick_throttled :
    (now later : ℕ) (n : Net)
    → (send_ping_tick now n).sent ≢ n.sent
    → later < now + 2000
    → send_ping_tick later (send_ping_tick now n) ≡ send_ping_tick now n
unfolding send_ping_tick
send_ping_tick_throttled now later n h k = ground arith

-- A name is asked for once: until the answer comes or the connection closes, a repeated
-- `SendNameQuery` sends nothing and changes nothing.
pub send_name_query_once :
    (src : ℕ) (n : Net) → send_name_query src (send_name_query src n) ≡ send_name_query src n
unfolding send_name_query
send_name_query_once src n = ground (arith, lookup-insert_self src true n.name_query_inflight)
