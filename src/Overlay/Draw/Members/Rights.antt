-- ===== src/Overlay/Draw/Members/Rights.antt =====
-- What the tabs of the channels may say to the service.
use l2voice_chat.Base.{
  ℕ, Bool, true, false, not, ◌&&◌, ◌||◌, ◌==◌, leb, List, [], ◌∷◌, Option, none, some, codes, Bytes,
  ◌≡◌, ◌⊎◌, subst, sym, ap, arith, if_intro, if◌then◌else◌,
}
use l2voice_chat.Audio.Float.{FloatOps}
use l2voice_chat.Json.{GroupMember}
use l2voice_chat.Network.State.{Net, ClientState}
use l2voice_chat.Network.Commands.{send_clan_remote_mute}
use l2voice_chat.Voice.State.{get_player_name}
use l2voice_chat.Voice.Incoming.{set_player_muted, pref_slot}
use l2voice_chat.Voice.Lifecycle.{Client}
use l2voice_chat.Voice.Panel.{OverlayState}
use l2voice_chat.Overlay.Draw.{Moment, Ui, changed, pressed, on_net, on_listener}
use l2voice_chat.Overlay.Draw.Talk.{Talk, Talk-state, get_player_name-Talk}
use l2voice_chat.Overlay.Draw.Talk.Widgets.{
  changed-Talk, net_of, set_active_tx_channel_net, set_channel_enabled-Talk,
  set_channel_volume-Talk, rebind-Talk,
}
use l2voice_chat.Overlay.Draw.Talk.Listen.{set_player_muted-Talk, set_player_volume-Talk}
use l2voice_chat.Overlay.Draw.Members.{
  Row, RowInput, GroupInput, can_remote_mute, is_priority, member_glyph, draw_member_row, draw_loop,
  draw_roster, set_group, draw_group_tab,
}

-- Who has no right to mute others remotely in a channel: whoever is no leader of the clan, and
-- everybody in party and CC.
abbrev pub IsPlainIn : ℕ → ClientState → Type 0
IsPlainIn channel s = (leb 1 s.role ≡ false) ⊎ ((channel == 2 || channel == 3) ≡ false)

can_remote_mute-IsPlainIn :
    (channel : ℕ) (m : GroupMember) (n : Net)
    → IsPlainIn channel n.state
    → can_remote_mute channel m n ≡ false
unfolding can_remote_mute
can_remote_mute-IsPlainIn channel m n h = ground arith

-- No remote mute is sent from any row: the player may not, or does not press the button.
abbrev pub IsMild : ℕ → (ℕ → Bool) → Net → Type 0
IsMild channel press n =
    (m : GroupMember) (x : Net)
    → x.state ≡ n.state
    → (can_remote_mute channel m x && press m.player_id) ≡ false

pub IsPlainIn-IsMild :
    (channel : ℕ) (press : ℕ → Bool) (n : Net) → IsPlainIn channel n.state → IsMild channel press n
IsPlainIn-IsMild channel press n plain m x e =
    ap (λ b. b && press m.player_id)
      (can_remote_mute-IsPlainIn channel m x (subst (IsPlainIn channel) (sym e) plain))

module _ (ops : FloatOps) {quiet : Bool} {n : Net} where
  draw_member_row-Talk :
      (t : Moment ops) (channel : ℕ) (glyph : Option Bytes) (inputs : ℕ → RowInput ops)
      (m : GroupMember) (c : Client ops)
      → IsMild channel (λ id. (inputs id).remote) n
      → Talk quiet n (net_of ops c)
      → Talk quiet n (net_of ops (draw_member_row ops t channel glyph (inputs m.player_id) m c).1)
  unfolding draw_member_row
  draw_member_row-Talk t channel glyph inputs m c mild h =
      let input = inputs m.player_id in
      let (known, asked) = get_player_name m.player_id c.voice.net in
      let d = on_net ops (λ old. asked) c in
      let muted =
        changed input.mute (λ b. on_listener ops (set_player_muted ops t.now m.player_id b)) d in
      let heard : Talk quiet n (net_of ops muted) =
        changed-Talk (net_of ops) input.mute _ {s = d} (get_player_name-Talk m.player_id h) (λ b e.
          set_player_muted-Talk ops t.now m.player_id b c.listener
            (get_player_name-Talk m.player_id h)) in
      let scope = if channel == 2 then codes "clan" else codes "ally" in
      let tell = on_net ops (send_clan_remote_mute m.player_id (not m.remote_muted) (some scope)) in
      let told : Talk quiet n (
          net_of ops
            (pressed (can_remote_mute channel m muted.voice.net && input.remote) tell muted)) =
        subst (λ b. Talk quiet n (net_of ops (pressed b tell muted)))
          (sym (mild m (net_of ops muted) (Talk-state heard).0)) heard in
      changed-Talk (net_of ops) input.volume _ told
        (λ x e. set_player_volume-Talk ops t.now m.player_id x _ told)

  draw_loop-Talk :
      (t : Moment ops) (channel : ℕ) (passes : GroupMember → Bool)
      (glyph : GroupMember → Option Bytes) (inputs : ℕ → RowInput ops) (ms : List GroupMember)
      (c : Client ops)
      → IsMild channel (λ id. (inputs id).remote) n
      → Talk quiet n (net_of ops c)
      → Talk quiet n (net_of ops (draw_loop ops t channel passes glyph inputs ms c).1)
  unfolding draw_loop
  draw_loop-Talk t channel passes glyph inputs [] c mild h = h
  draw_loop-Talk t channel passes glyph inputs (m ∷ ms) c mild h =
      draw_loop-Talk t channel passes glyph inputs ms _ mild (
        if_intro (λ d. Talk quiet n (net_of ops d)) (passes m)
          (draw_member_row-Talk t channel (glyph m) inputs m c mild h) h)

  pub draw_roster-Talk :
      (t : Moment ops) (channel : ℕ) (inputs : ℕ → RowInput ops) (ms : List GroupMember)
      (c : Client ops)
      → IsMild channel (λ id. (inputs id).remote) n
      → Talk quiet n (net_of ops c)
      → Talk quiet n (net_of ops (draw_roster ops t channel inputs ms c).1)
  unfolding draw_roster
  draw_roster-Talk t channel inputs ms c mild h =
      let glyph = member_glyph channel c.voice.net.state.cc_leader_id in
      if_intro (λ (x : List Row × Client ops). Talk quiet n (net_of ops x.1))
        (channel == 2 || channel == 4)
        (draw_loop-Talk t channel (λ m. not (is_priority channel m)) glyph inputs ms _ mild
          (draw_loop-Talk t channel (is_priority channel) glyph inputs ms c mild h))
        (draw_loop-Talk t channel (λ m. true) (λ m. none) inputs ms c mild h)

-- Where only questions are allowed, the settings of the channel are left alone.
abbrev pub LeavesAlone : (ops : FloatOps) → Bool → GroupInput ops → Type 0
LeavesAlone ops quiet input =
    ((b : Bool) → input.hear ≡ some b → quiet ≡ false)
    × ((x : ops.F) → input.volume ≡ some x → quiet ≡ false)

module _ (ops : FloatOps) {quiet : Bool} {n : Net} where
  pub set_group-Talk :
      (t : Moment ops) (channel : ℕ) (input : GroupInput ops) (c : Client ops)
      → LeavesAlone ops quiet input
      → Talk quiet n (net_of ops c)
      → Talk quiet n (net_of ops (set_group ops t channel input c))
  unfolding set_group
  set_group-Talk t channel input c q h =
      let heard =
        changed-Talk (net_of ops) input.hear _ {s = c} h
          (λ b e. set_channel_enabled-Talk (pref_slot channel) b c.voice (q.0 b e) h) in
      let sending = changed-Talk (net_of ops) input.transmit _ heard (λ b e.
        subst (Talk quiet n) (sym (set_active_tx_channel_net (if b then channel else 0) _))
          heard) in
      changed-Talk (net_of ops) input.volume _ sending
        (λ x e. set_channel_volume-Talk ops t (pref_slot channel) x _ (q.1 x e) sending)

  pub draw_group_tab-Talk :
      (t : Moment ops) (st : OverlayState ops) (channel : ℕ) (input : GroupInput ops) (u : Ui ops)
      → LeavesAlone ops quiet input
      → IsMild channel (λ id. (input.row id).remote) n
      → Talk quiet n (net_of ops u.client)
      → Talk quiet n (net_of ops (draw_group_tab ops t st channel input u).1.client)
  unfolding draw_group_tab
  draw_group_tab-Talk t st channel input u q mild h =
      let set = set_group-Talk t channel input u.client q h in
      draw_roster-Talk ops t channel input.row _ _ mild (
        if_intro (λ (w : Ui ops). Talk quiet n (net_of ops w.client))
          (leb 1 channel && leb channel 3) (rebind-Talk ops channel input.rebind _ set) set)
