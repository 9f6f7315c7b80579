-- ===== src/Overlay/Draw/Talk/Said.antt =====
-- The texts that these steps hand to the WebSocket.
use l2voice_chat.Base.{
  ℕ, Bool, false, not, ◌||◌, ◌==◌, List, [], ◌∷◌, ◌++◌, All, All-append, append_assoc, append-nil,
  Bytes, ◌≡◌, sym, if_intro, codes, decimal,
}
use l2voice_chat.Base.Dict.{nat_eq, member}
use l2voice_chat.Network.State.{Net, Message, text}
use l2voice_chat.Network.Commands.{
  send_name_query, send_player_name_query, send_set_channel_enabled, send_set_channel_volume,
  name_query, player_name_query, bool_text,
}
use l2voice_chat.Overlay.Draw.Talk.{Talk, silent, asks_speaker, asks_player, hears, louder}

-- A question for a name, or, where `quiet` is false, a setting of one of the player's channels.
pub data IsPlain (quiet : Bool) : Message → Type 0 where
  speaker : (src : ℕ) → IsPlain quiet (text (name_query src))
  player : (id : ℕ) → IsPlain quiet (text (player_name_query id))
  enabled :
      (channel : ℕ) (b : Bool)
      → quiet ≡ false
      → IsPlain quiet (
          text (
            codes "{\"type\":\"set_channel_enabled\",\"channel\":"
            ++ (decimal channel ++ (codes ",\"enabled\":" ++ (bool_text b ++ codes "}")))))
  volume :
      (channel : ℕ) (x : Bytes)
      → quiet ≡ false
      → IsPlain quiet (
          text (
            codes "{\"type\":\"set_channel_volume\",\"channel\":"
            ++ (decimal channel ++ (codes ",\"volume\":" ++ (x ++ codes "}")))))

-- The second list is the first with more messages, all of them plain.
abbrev pub Said : Bool → List Message → List Message → Type 0
Said quiet before after =
    (more : List Message) × (after ≡ before ++ more) × All (IsPlain quiet) more

module _ {quiet : Bool} where
  Said-one :
      (a : List Message) {b : List Message} {m : Message}
      → Said quiet a b
      → IsPlain quiet m
      → Said quiet a (b ++ (m ∷ []))
  Said-one a (more, e, h) p =
      (more ++ (_ ∷ []), rw e (append_assoc a more _), All-append (IsPlain quiet) more _ h (p, tt))

  pub Talk-Said : {n m : Net} → Talk quiet n m → Said quiet n.sent m.sent
  unfolding send_name_query send_player_name_query send_set_channel_enabled send_set_channel_volume
  Talk-Said {n} silent = ([], sym (append-nil n.sent), tt)
  Talk-Said {n} (asks_speaker src {m} h) =
      let said = Talk-Said h in
      let P = λ (x : Net). Said quiet n.sent x.sent in
      if_intro P (not m.connected || src == 0) said (
        if_intro P (member src m.name_cache) said
          (if_intro P (member src m.name_query_inflight) said (Said-one n.sent said (speaker src))))
  Talk-Said {n} (asks_player id {m} h) =
      let said = Talk-Said h in
      let P = λ (x : Net). Said quiet n.sent x.sent in
      if_intro P (not m.connected || id == 0) said (
        if_intro P (member id m.player_name_cache) said
          (if_intro P (member id m.player_name_inflight) said (Said-one n.sent said (player id))))
  Talk-Said {n} (hears channel b {m} q h) =
      let said = Talk-Said h in
      if_intro (λ (x : Net). Said quiet n.sent x.sent) (not m.connected) said
        (Said-one n.sent said (enabled channel b q))
  Talk-Said {n} (louder channel x {m} q h) =
      let said = Talk-Said h in
      if_intro (λ (x : Net). Said quiet n.sent x.sent) (not m.connected) said
        (Said-one n.sent said (volume channel x q))
