-- ===== src/Network/Session/Reach.antt =====
-- What holds of the session whatever events come and whatever the client calls, in any order, each
-- ending before the next begins.
use l2voice_chat.Base.{
  ℕ, Bool, List, ◌≡◌, refl, arith, Option, none, some, Bytes, Option-cases, inl, inr,
}
use l2voice_chat.Wire.{Packet, decode_packet}
use l2voice_chat.Base.Int.{ℤ}
use l2voice_chat.Network.State.{Net, initial}
use l2voice_chat.Network.Commands.{
  send_proximity_frame, send_group_frame, send_keepalive, send_ping_tick, send_name_query,
  send_player_name_query, send_set_channel_enabled, send_set_channel_volume, send_set_player_mute,
  send_set_player_volume, send_clan_set_mode, send_whisper_set, send_clan_promote_sub_leader,
  send_clan_remote_mute, send_cc_grant_speak, send_clan_opt_out_unified,
}
use l2voice_chat.Network.Session.{
  Event, Hooks, opened, closed, failed, binary_message, text_message, other, set_client_ports,
  handle_event, suspend_ws, resume_ws, start, stop,
}
use l2voice_chat.Network.Session.Sound.{
  IsSound, OkSound, sound, Keeps, IsSound-some, initial-IsSound, set_client_ports-IsSound,
  try_send_auth-IsSound, handle_close-IsSound, handle_ws_message-IsSound,
}

-- Everything that happens to a session: an event of the connection, with the clock, the language and
-- the callbacks of its moment `i`, or a call of the client, one constructor for each method that
-- changes the session. Each is taken as one step.
pub data Step {I : Type 0} (h : I → Hooks) : Net → Net → Type 0 where
  event : (i : I) (e : Event) {n m : Net} → handle_event (h i) e n ≡ some m → Step h n m
  started : (winsock : Bool) {n : Net} → Step h n (start winsock n).0
  report : (ports : List ℕ) (name : Bytes) {n : Net} → Step h n (set_client_ports ports name n)
  suspended : {n : Net} → Step h n (suspend_ws n)
  resumed : {n : Net} → Step h n (resume_ws n)
  stopped : {n : Net} → Step h n (stop n)
  proximity : (seq : ℕ) (opus : Bytes) {n : Net} → Step h n (send_proximity_frame seq opus n)
  group :
      (channel seq : ℕ) (opus : Bytes) {n : Net} → Step h n (send_group_frame channel seq opus n)
  keepalive : {n : Net} → Step h n (send_keepalive n)
  ping : (now : ℕ) {n : Net} → Step h n (send_ping_tick now n)
  ask_name : (src : ℕ) {n : Net} → Step h n (send_name_query src n)
  ask_player : (id : ℕ) {n : Net} → Step h n (send_player_name_query id n)
  enabled : (c : ℕ) (on : Bool) {n : Net} → Step h n (send_set_channel_enabled c on n)
  volume : (c : ℕ) (printed : Bytes) {n : Net} → Step h n (send_set_channel_volume c printed n)
  player_mute : (id : ℕ) (on : Bool) {n : Net} → Step h n (send_set_player_mute id on n)
  player_volume :
      (id : ℕ) (printed : Bytes) {n : Net} → Step h n (send_set_player_volume id printed n)
  mode : (m : ℕ) {n : Net} → Step h n (send_clan_set_mode m n)
  whisper : (m : ℕ) (vk : ℤ) {n : Net} → Step h n (send_whisper_set m vk n)
  promoted : (id : ℕ) (on : Bool) {n : Net} → Step h n (send_clan_promote_sub_leader id on n)
  remote_mute :
      (id : ℕ) (on : Bool) (reason : Option Bytes) {n : Net}
      → Step h n (send_clan_remote_mute id on reason n)
  granted : (id : ℕ) (on : Bool) {n : Net} → Step h n (send_cc_grant_speak id on n)
  opted : (out : Bool) {n : Net} → Step h n (send_clan_opt_out_unified out n)

-- The states that a new session comes to.
pub data Reach {I : Type 0} (h : I → Hooks) : Net → Type 0 where
  fresh : Reach h initial
  next : {n m : Net} → Reach h n → Step h n m → Reach h m

module _ {I : Type 0} (h : I → Hooks) (auth_keeps : (i : I) → Keeps (h i).env.on_auth)
    (open_keeps : (i : I) → Keeps (h i).on_ws_open)
    (packet_keeps : (i : I) (p : Packet) → Keeps ((h i).on_packet p)) where
  handle_event-IsSound :
      (i : I) (e : Event) {n : Net} → IsSound n → OkSound (handle_event (h i) e n)
  unfolding handle_event
  handle_event-IsSound i opened v = sound (
      try_send_auth-IsSound (
        open_keeps i _
          (record { authenticated = λ e. refl; endpoint = v.endpoint; few_toasts = v.few_toasts })))
  handle_event-IsSound i closed v = sound (handle_close-IsSound v)
  handle_event-IsSound i failed v = sound (handle_close-IsSound v)
  handle_event-IsSound i (binary_message b) v = elim (Option-cases (decode_packet b)) [
    | inl e ↦ rw (e, handle_event) (sound v)
    | inr (p, e) ↦ rw (e, handle_event) (sound (packet_keeps i p _ v))
  ]
  handle_event-IsSound i (text_message s) v = handle_ws_message-IsSound (h i).env (auth_keeps i) s v
  handle_event-IsSound i other v = sound v

  Step-IsSound : {n m : Net} → Step h n m → IsSound n → IsSound m
  unfolding suspend_ws
  Step-IsSound (event i e p) v = IsSound-some (handle_event-IsSound i e v) p
  Step-IsSound (started winsock) v = unfold start in ground arith
  Step-IsSound (report ports name) v = set_client_ports-IsSound ports name v
  Step-IsSound suspended v = record {
    authenticated = λ e. cc;
    endpoint = λ e. refl;
    few_toasts = v.few_toasts;
  }
  Step-IsSound resumed v = unfold resume_ws in ground arith
  Step-IsSound stopped v = unfold stop in ground arith
  Step-IsSound (proximity seq opus) v = unfold send_proximity_frame in ground arith
  Step-IsSound (group channel seq opus) v = unfold send_group_frame in ground arith
  Step-IsSound keepalive v = unfold send_keepalive in ground arith
  Step-IsSound (ping now) v = unfold send_ping_tick in ground arith
  Step-IsSound (ask_name src) v = unfold send_name_query in ground arith
  Step-IsSound (ask_player id) v = unfold send_player_name_query in ground arith
  Step-IsSound (enabled c on) v = unfold send_set_channel_enabled in ground arith
  Step-IsSound (volume c printed) v = unfold send_set_channel_volume in ground arith
  Step-IsSound (player_mute id on) v = unfold send_set_player_mute in ground arith
  Step-IsSound (player_volume id printed) v = unfold send_set_player_volume in ground arith
  Step-IsSound (mode m) v = unfold send_clan_set_mode in ground arith
  Step-IsSound (whisper m vk) v = unfold send_whisper_set in ground arith
  Step-IsSound (promoted id on) v = unfold send_clan_promote_sub_leader in ground arith
  Step-IsSound (remote_mute id on none) v = unfold send_clan_remote_mute in v
  Step-IsSound (remote_mute id on (some r)) v = unfold send_clan_remote_mute in ground arith
  Step-IsSound (granted id on) v = unfold send_cc_grant_speak in ground arith
  Step-IsSound (opted out) v = unfold send_clan_opt_out_unified in ground arith

  -- Where the callbacks for an authentication, an open connection and a packet keep these three
  -- facts, and each event and each call of the client ends before the next begins: in every state
  -- that a session comes to, whatever the order of the events and the calls, the clock and the
  -- language at each of them, an authentication is marked as sent only while the connection is
  -- open, a session id is known only with a port, and at most five toasts wait.
  pub Reach-IsSound : {n : Net} → Reach h n → IsSound n
  Reach-IsSound fresh = initial-IsSound
  Reach-IsSound (next r s) = Step-IsSound s (Reach-IsSound r)
