-- ===== src/Voice/Incoming/Session.antt =====
-- What a packet does to the session: it only asks for names.
use l2voice_chat.Base.{
  ℕ, Bool, List, [], ◌∷◌, Option, none, some, arith, if_intro, Bytes, ◌&&◌, ◌||◌, ◌==◌, ltb, not,
  ◌≡◌, ◌⊎◌, refl, inl, inr, Option-cases,
}
use l2voice_chat.Base.Int.{ℤ}
use l2voice_chat.Audio.Float.{FloatOps}
use l2voice_chat.Json.{GroupMember}
use l2voice_chat.Wire.{Packet}
use l2voice_chat.Network.State.{Net}
use l2voice_chat.Network.Commands.{send_name_query, send_player_name_query}
use l2voice_chat.Network.Session.Sound.{IsSound}
use l2voice_chat.Voice.Speaking.{stricmp_eq}
use l2voice_chat.Voice.State.{Voice, or_nobody, get_player_name, get_speaker_name}
use l2voice_chat.Voice.Incoming.{
  Listener, search_roster, search_groups, get_player_id_by_name, get_group_roster, is_other_name,
  is_other_than, clan_filter, party_filter, is_filtered, play_named, play, decode_and_play,
  on_incoming_packet, clan_leader, party_leader, pref_slot,
}

get_player_name-IsSound : (id : ℕ) {n : Net} → IsSound n → IsSound (get_player_name id n).1
unfolding get_player_name send_player_name_query
get_player_name-IsSound id v = ground arith

send_name_query-IsSound : (src : ℕ) {n : Net} → IsSound n → IsSound (send_name_query src n)
unfolding send_name_query
send_name_query-IsSound src v = ground arith

get_speaker_name-IsSound : (src : ℕ) {n : Net} → IsSound n → IsSound (get_speaker_name src n).1
unfolding get_speaker_name send_name_query
get_speaker_name-IsSound src v = ground arith

option-IsSound :
    {A B : Type 0} (o : Option A) (x : B × Net) (f : A → B × Net)
    → IsSound x.1
    → ((a : A) → IsSound (f a).1)
    → IsSound (elim o as (λ _. B × Net) [ none ↦ x | some a ↦ f a ]).1
option-IsSound none x f v w = v
option-IsSound (some a) x f v w = w a

search_roster-IsSound :
    (name : Bytes) (ms : List GroupMember) {n : Net}
    → IsSound n
    → IsSound (search_roster name ms n).1
unfolding search_roster
search_roster-IsSound name [] v = v
search_roster-IsSound name (m ∷ ms) {n} v =
    let asked = get_player_name-IsSound m.player_id v in
    let rest = search_roster-IsSound name ms asked in
    option-IsSound (get_player_name m.player_id n).0 _ _ rest
      (λ found. if_intro (λ (x : Option ℕ × Net). IsSound x.1) (stricmp_eq found name) asked rest)

search_groups-IsSound :
    (name : Bytes) (gs : List ℕ) {n : Net} → IsSound n → IsSound (search_groups name gs n).1
unfolding search_groups
search_groups-IsSound name [] v = v
search_groups-IsSound name (g ∷ gs) {n} v =
    let found = search_roster-IsSound name (get_group_roster g n) v in
    option-IsSound (search_roster name (get_group_roster g n) n).0 _ _
      (search_groups-IsSound name gs found) (λ id. found)

get_player_id_by_name-IsSound :
    (name : Bytes) {n : Net} → IsSound n → IsSound (get_player_id_by_name name n).1
unfolding get_player_id_by_name
get_player_id_by_name-IsSound [] v = v
get_player_id_by_name-IsSound (c ∷ name) v = search_groups-IsSound (c ∷ name) (1 ∷ 2 ∷ 3 ∷ 4 ∷ []) v

is_other_name-IsSound :
    (leader : ℕ) (name : Bytes) {n : Net} → IsSound n → IsSound (is_other_name leader name n).1
unfolding is_other_name
is_other_name-IsSound leader [] v = v
is_other_name-IsSound leader (c ∷ name) v = get_player_id_by_name-IsSound (c ∷ name) v

is_other_than-IsSound :
    (leader src : ℕ) {n : Net} → IsSound n → IsSound (is_other_than leader src n).1
unfolding is_other_than
is_other_than-IsSound leader src {n} v =
    let asked = get_speaker_name-IsSound src v in
    option-IsSound (get_speaker_name src n).0 _ _ asked
      (λ name. is_other_name-IsSound leader name asked)

pub list_cases : (xs : List ℤ) → (xs ≡ []) ⊎ ((x : ℤ) × (rest : List ℤ) × (xs ≡ x ∷ rest))
list_cases [] = inl refl
list_cases (x ∷ rest) = inr (x, rest, refl)

module _ (ops : FloatOps) where
  clan_filter-IsSound :
      (channel src : ℕ) (l : Listener ops) {n : Net}
      → IsSound n
      → IsSound (clan_filter ops channel src l n).1
  unfolding clan_filter
  clan_filter-IsSound channel src l {n} v =
      if_intro (λ (x : Bool × Net). IsSound x.1)
        (l.prioritize_clan_leader && (channel == 2 || (channel == 3 || channel == 8)))
        (is_other_than-IsSound (clan_leader (get_group_roster 2 n)) src v) v

  party_filter-IsSound :
      (channel src : ℕ) (l : Listener ops) {n : Net}
      → IsSound n
      → IsSound (party_filter ops channel src l n).1
  unfolding party_filter
  party_filter-IsSound channel src l {n} v =
      if_intro (λ (x : Bool × Net). IsSound x.1) (l.prioritize_party_leader && channel == 1)
        (is_other_than-IsSound (party_leader (get_group_roster 1 n)) src v) v

  is_filtered-IsSound :
      (channel src : ℕ) (l : Listener ops) {n : Net}
      → IsSound n
      → IsSound (is_filtered ops channel src l n).1
  unfolding is_filtered
  is_filtered-IsSound channel src l {n} v =
      let first = clan_filter-IsSound channel src l v in
      if_intro (λ (x : Bool × Net). IsSound x.1) (clan_filter ops channel src l n).0 first
        (party_filter-IsSound channel src l first)

  play_named-IsSound :
      (now : ℕ) (packet : Packet) (pcm : List ℤ) (name : Bytes) (l : Listener ops) (v : Voice ops.F)
      → IsSound v.net
      → IsSound (play_named ops now packet pcm name l v).1.net
  unfolding play_named
  play_named-IsSound now packet pcm [] l v s = s
  play_named-IsSound now packet pcm (c ∷ name) l v s = get_player_id_by_name-IsSound (c ∷ name) s

  play-IsSound :
      (now : ℕ) (packet : Packet) (pcm : List ℤ) (l : Listener ops) (v : Voice ops.F)
      → IsSound v.net
      → IsSound (play ops now packet pcm l v).1.net
  unfolding play
  play-IsSound now packet pcm l v s =
      play_named-IsSound now packet pcm (or_nobody (get_speaker_name packet.src v.net).0) l
        (record v { net = (get_speaker_name packet.src v.net).1 })
        (get_speaker_name-IsSound packet.src s)

  decode_and_play-IsSound :
      (decode : ℕ → Option (Bytes → List ℤ)) (now : ℕ) (packet : Packet) (l : Listener ops)
      (v : Voice ops.F)
      → IsSound v.net
      → IsSound (decode_and_play ops decode now packet l v).1.net
  unfolding decode_and_play
  decode_and_play-IsSound decode now packet l v s = elim (Option-cases (decode packet.src)) [
    | inl e ↦ rw (e, decode_and_play) s
    | inr (d, e) ↦
        rw (e, decode_and_play)
          (elim (list_cases (d packet.payload)) [
            | inl f ↦ rw f s
            | inr (x, pcm, f) ↦ rw f (play-IsSound now packet (x ∷ pcm) l v s)
          ])
  ]

  -- `OnIncomingPacket` keeps the session sound.
  pub on_incoming_packet-IsSound :
      (decode : ℕ → Option (Bytes → List ℤ)) (now : ℕ) (packet : Packet) (l : Listener ops)
      (v : Voice ops.F)
      → IsSound v.net
      → IsSound (on_incoming_packet ops decode now packet l v).1.net
  unfolding on_incoming_packet
  on_incoming_packet-IsSound decode now packet l v s =
      let slot = pref_slot packet.channel in
      let asked = send_name_query-IsSound packet.src s in
      let heard = is_filtered-IsSound packet.channel packet.src l asked in
      let n = send_name_query packet.src v.net in
      if_intro (λ (x : Listener ops × Voice ops.F). IsSound x.1.net)
        (ltb slot 4 && not (v.ch_prefs.enabled slot)) asked
        (if_intro (λ (x : Listener ops × Voice ops.F). IsSound x.1.net)
          (is_filtered ops packet.channel packet.src l n).0 heard
          (decode_and_play-IsSound decode now packet l
            (record v { net = (is_filtered ops packet.channel packet.src l n).1 }) heard))
