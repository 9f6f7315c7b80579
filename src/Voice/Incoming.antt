-- ===== src/Voice/Incoming.antt =====
-- `OnIncomingPacket`: which packets are heard, and how loud. The Opus decoders are a parameter.
pub mod Filter
pub mod Session
mod Tests
use l2voice_chat.Base.{
  ℕ, ◌+◌, ◌-◌, Bool, true, false, not, ◌&&◌, ◌||◌, List, [], ◌∷◌, Option, none, some, ltb, ◌==◌,
  if◌then◌else◌, Bytes, take, map,
}
use l2voice_chat.Base.Int.{ℤ, pos}
use l2voice_chat.Base.Dict.{Dict, nat_eq, lookup, insert}
use l2voice_chat.Audio.Float.{FloatOps}
use l2voice_chat.Audio.Playback.{
  Playback, SpeakerInfo, enqueue, get_speaker_infos, set_source_muted, set_source_volume,
}
use l2voice_chat.Json.{GroupMember}
use l2voice_chat.Wire.{Packet}
use l2voice_chat.Network.State.{Net}
use l2voice_chat.Network.Commands.{send_name_query}
use l2voice_chat.Voice.Speaking.{stricmp_eq, note_speaker}
use l2voice_chat.Voice.State.{Voice, or_nobody, get_player_name, get_speaker_name}

-- `GetGroupMembers` with room for 64.
unfoldable pub get_group_roster : ℕ → Net → List GroupMember
get_group_roster group n = take 64 (
    if group == 1
    then n.state.party_members
    else if group == 2
    then n.state.clan_members
    else if group == 3
    then n.state.ally_members
    else if group == 4
    then n.state.cc_members
    else [])

-- The loop over a roster: the first member whose name is known and equal up to case.
unfoldable pub search_roster : Bytes → List GroupMember → Net → Option ℕ × Net
unfolding get_player_name
search_roster name [] n = (none, n)
search_roster name (m ∷ ms) n =
    let (known, n') = get_player_name m.player_id n in
    let rest = search_roster name ms n' in
    elim known [
      | none ↦ rest
      | some found ↦ if stricmp_eq found name then (some m.player_id, n') else rest
    ]

-- The loop over the groups, with `todo` groups left.
unfoldable pub search_groups : Bytes → List ℕ → Net → ℕ × Net
unfolding search_roster get_group_roster
search_groups name [] n = (0, n)
search_groups name (g ∷ gs) n =
    let (found, n') = search_roster name (get_group_roster g n) n in
    let rest = search_groups name gs n' in elim found [ none ↦ rest | some id ↦ (id, n') ]

unfoldable pub get_player_id_by_name : Bytes → Net → ℕ × Net
unfolding search_groups
get_player_id_by_name [] n = (0, n)
get_player_id_by_name (c ∷ name) n = search_groups (c ∷ name) (1 ∷ 2 ∷ 3 ∷ 4 ∷ []) n

-- The first member with the role 2, or nobody, who is 0.
unfoldable pub clan_leader : List GroupMember → ℕ
clan_leader [] = 0
clan_leader (m ∷ ms) = let rest = clan_leader ms in if m.clan_role == 2 then m.player_id else rest

unfoldable pub party_leader : List GroupMember → ℕ
party_leader [] = 0
party_leader (m ∷ ms) = m.player_id

-- Whether a name is somebody else's than the leader's; the empty name is nobody's.
unfoldable pub is_other_name : ℕ → Bytes → Net → Bool × Net
unfolding get_player_id_by_name
is_other_name leader [] n = (false, n)
is_other_name leader (c ∷ name) n =
    let (id, n') = get_player_id_by_name (c ∷ name) n in (not (id == leader), n')

-- Whether a source with a known name is somebody else than the leader.
unfoldable pub is_other_than : ℕ → ℕ → Net → Bool × Net
unfolding get_speaker_name is_other_name
is_other_than leader src n =
    let (known, n') = get_speaker_name src n in
    elim known [ none ↦ (false, n') | some name ↦ is_other_name leader name n' ]

-- `prefSlot`: CC uses the settings of clan.
unfoldable pub pref_slot : ℕ → ℕ
pref_slot channel = if channel == 4 then 2 else channel

module _ (ops : FloatOps) where
  open ops use {F, mul, div, of_int}

  -- The statics beside `Mod` that a packet meets, and `playback`.
  pub record Listener : Type 0 where
    pub playback : Playback ops
    pub local_muted : Dict ℕ Bool
    pub local_volume : Dict ℕ F
    pub prioritize_clan_leader : Bool
    pub prioritize_party_leader : Bool

  unfoldable pub is_player_muted : ℕ → Listener → Bool
  unfolding lookup
  is_player_muted id l = elim (lookup id l.local_muted) [ none ↦ false | some b ↦ b ]

  unfoldable pub get_player_volume : ℕ → Listener → F
  unfolding lookup
  get_player_volume id l = elim (lookup id l.local_volume) [ none ↦ of_int (pos 1) | some x ↦ x ]

  -- The clan leader's filter.
  unfoldable pub clan_filter : ℕ → ℕ → Listener → Net → Bool × Net
  unfolding is_other_than clan_leader get_group_roster
  clan_filter channel src l n =
      if l.prioritize_clan_leader && (channel == 2 || (channel == 3 || channel == 8))
      then is_other_than (clan_leader (get_group_roster 2 n)) src n
      else (false, n)

  unfoldable pub party_filter : ℕ → ℕ → Listener → Net → Bool × Net
  unfolding is_other_than party_leader get_group_roster
  party_filter channel src l n =
      if l.prioritize_party_leader && channel == 1
      then is_other_than (party_leader (get_group_roster 1 n)) src n
      else (false, n)

  -- Both filters, in their order.
  unfoldable pub is_filtered : ℕ → ℕ → Listener → Net → Bool × Net
  unfolding clan_filter party_filter
  is_filtered channel src l n =
      let (blocked, n') = clan_filter channel src l n in
      if blocked then (true, n') else party_filter channel src l n'

  -- What the listener's own settings for the player make of the gain.
  unfoldable pub player_gain : ℕ → Listener → F → F
  unfolding is_player_muted get_player_volume
  player_gain id l gain =
      if id == 0
      then gain
      else if is_player_muted id l
      then of_int (pos 0)
      else mul gain (get_player_volume id l)

  -- The gain that the packet and the settings of its channel give.
  unfoldable pub channel_gain : Packet → Voice F → F
  unfolding pref_slot
  channel_gain packet v =
      let slot = pref_slot packet.channel in
      let wire = div (of_int (pos packet.gain)) (of_int (pos 255)) in
      if ltb slot 4 then mul wire (v.ch_prefs.volume slot) else wire

  abbrev pub packet_pan : Packet → F
  packet_pan packet = div (of_int packet.pan) (of_int (pos 127))

  -- The end of `OnIncomingPacket`, for the speaker's name; an empty name is one that is not known.
  unfoldable pub play_named : ℕ → Packet → List ℤ → Bytes → Listener → Voice F → Listener × Voice F
  play_named now packet pcm [] l v = (
    record l {
      playback =
          enqueue ops now packet.src pcm (channel_gain packet v) (packet_pan packet) l.playback;
    },
    v,
  )
  play_named now packet pcm (c ∷ name) l v =
      let (id, n) = get_player_id_by_name (c ∷ name) v.net in
      (
        record l {
          playback =
              enqueue ops now packet.src pcm (player_gain id l (channel_gain packet v))
                (packet_pan packet) l.playback;
        },
        record v {
          net = n;
          speakers = note_speaker now v.ini_path (c ∷ name) packet.channel v.speakers;
        },
      )

  -- What is done with a frame that is decoded.
  unfoldable pub play : ℕ → Packet → List ℤ → Listener → Voice F → Listener × Voice F
  unfolding play_named
  play now packet pcm l v =
      let (known, n) = get_speaker_name packet.src v.net in
      play_named now packet pcm (or_nobody known) l (record v { net = n })

  -- `decode` is `none` where no decoder could be made, and its result is empty where `Decode` fails.
  unfoldable pub decode_and_play :
      (ℕ → Option (Bytes → List ℤ)) → ℕ → Packet → Listener → Voice F → Listener × Voice F
  decode_and_play decode now packet l v = elim (decode packet.src) [
    | none ↦ (l, v)
    | some d ↦ elim (d packet.payload) [ [] ↦ (l, v) | x ∷ pcm ↦ play now packet (x ∷ pcm) l v ]
  ]

  unfoldable pub on_incoming_packet :
      (ℕ → Option (Bytes → List ℤ)) → ℕ → Packet → Listener → Voice F → Listener × Voice F
  on_incoming_packet decode now packet l v =
      let slot = pref_slot packet.channel in
      let asked = send_name_query packet.src v.net in
      if ltb slot 4 && not (v.ch_prefs.enabled slot)
      then (l, record v { net = asked })
      else let (blocked, n) = is_filtered packet.channel packet.src l asked in
        if blocked
        then (l, record v { net = n })
        else decode_and_play decode now packet l (record v { net = n })

  -- The loop of `UpdateActiveSpeakerLocalMuteVolume`: every source with the player's name.
  unfoldable pub update_sources :
      ℕ → Bytes → Bool → F → List (SpeakerInfo ops) → Playback ops → Net → Playback ops × Net
  unfolding get_speaker_name set_source_muted set_source_volume
  update_sources now name muted volume [] p n = (p, n)
  update_sources now name muted volume (s ∷ ss) p n =
      let (known, n') = get_speaker_name s.src_id n in
      let skip = update_sources now name muted volume ss p n' in
      let set =
        update_sources now name muted volume ss
          (set_source_volume ops now s.src_id (if muted then of_int (pos 0) else volume)
            (set_source_muted ops s.src_id muted p))
          n' in
      elim known [ none ↦ skip | some found ↦ if stricmp_eq found name then set else skip ]

  unfoldable pub update_active_speaker : ℕ → ℕ → Listener → Net → Listener × Net
  unfolding get_player_name get_speaker_infos update_sources is_player_muted get_player_volume
  update_active_speaker now id l n =
      let (known, n') = get_player_name id n in
      elim known [
        | none ↦ (l, n')
        | some [] ↦ (l, n')
        | some (c ∷ name) ↦
            let (rows, p) = get_speaker_infos ops now 64 l.playback in
            let (p', n'') =
              update_sources now (c ∷ name) (is_player_muted id l) (get_player_volume id l) rows p
                n' in
            (record l { playback = p' }, n'')
      ]

  unfoldable pub set_player_muted : ℕ → ℕ → Bool → Listener → Net → Listener × Net
  unfolding insert update_active_speaker
  set_player_muted now id muted l n =
      update_active_speaker now id (record l { local_muted = insert id muted l.local_muted }) n

  unfoldable pub set_player_volume : ℕ → ℕ → F → Listener → Net → Listener × Net
  unfolding insert update_active_speaker
  set_player_volume now id volume l n =
      update_active_speaker now id (record l { local_volume = insert id volume l.local_volume }) n
