-- ===== src/Overlay/Draw/Main/Rights.antt =====
-- What a frame of the overlay may say to the service, by the rights of the player.
use l2voice_chat.Base.{
  ℕ, Bool, true, false, ◌==◌, leb, Option, none, some, Bytes, ◌≡◌, inl, inr, refl, sym, ap, ◌∙◌,
  arith,
}
use l2voice_chat.Audio.Float.{FloatOps}
use l2voice_chat.Voice.Prefs.{IniReader}
use l2voice_chat.Overlay.Draw.{Moment, Ui}
use l2voice_chat.Overlay.Draw.Talk.{silent, Talk-state}
use l2voice_chat.Overlay.Draw.Talk.Said.{Said, Talk-Said}
use l2voice_chat.Overlay.Draw.Members.{can_remote_mute}
use l2voice_chat.Overlay.Draw.Members.Rights.{IsPlainIn-IsMild}
use l2voice_chat.Overlay.Draw.Main.{PanelInput, draw_panel}
use l2voice_chat.Overlay.Draw.Main.Parts.{IsMildFrame, and_false, draw_panel-Talk}

-- In a frame, whoever is neither leader nor sub-leader of the clan, nor the leader of the command
-- channel, hands nothing to the WebSocket but questions for names and the settings of the own
-- channels, whatever is pressed: no remote mute, no mode of the clan and no right to speak; and what
-- the service said of the player's roles is as it was. What the support chat asks over HTTP is not
-- part of this.
pub draw_panel-Said :
    (ops : FloatOps) (host : Bytes) (path : Bool) (r : IniReader) (t : Moment ops)
    (input : PanelInput ops) (u : Ui ops)
    → u.client.voice.net.state.role ≡ 0
    → (u.client.voice.net.player_id == u.client.voice.net.state.cc_leader_id) ≡ false
    → let after = (draw_panel ops host path r t input u).client.voice.net in
      Said false u.client.voice.net.sent after.sent × (after.state ≡ u.client.voice.net.state)
draw_panel-Said ops host path r t input u role other =
    let n = u.client.voice.net in
    let plain : leb 1 n.state.role ≡ false = ap (leb 1) role in
    let mild : IsMildFrame ops false input n = record {
      settings = λ channel. (λ b e. refl, λ x e. refl);
      rows = λ channel. IsPlainIn-IsMild channel _ n (inl plain);
      hear = λ slot e. refl;
      grants = inl other;
      modes = inl plain;
    } in
    let talk = draw_panel-Talk ops host path r t input u mild silent in
    (Talk-Said talk, (Talk-state talk).0)

-- Whether the player uses no widget of a frame that tells the voice service something over the
-- WebSocket; those of the support chat may be used.
abbrev pub IsIdle : (ops : FloatOps) → PanelInput ops → Type 0
IsIdle ops input =
    ((channel : ℕ) → (input.group channel).hear ≡ none)
    × ((channel : ℕ) → (input.group channel).volume ≡ none)
    × ((channel id : ℕ) → ((input.group channel).row id).remote ≡ false)
    × ((slot : ℕ) → input.mini.hear slot ≡ false)
    × ((id : ℕ) → input.grant id ≡ none)
    × ((mode : ℕ) → input.mode mode ≡ false)

none_is_not_some : {A : Type 0} {o : Option A} {a : A} → o ≡ none → o ≡ some a → true ≡ false
none_is_not_some e k = ground arith

true_is_not_false : {b : Bool} → b ≡ false → b ≡ true → true ≡ false
true_is_not_false e k = sym k ∙ e

-- A frame in which no switch, slider or button is used that tells the voice service something hands
-- only questions for names to the WebSocket, also for a leader; and what the service said of the
-- player's roles is as it was. What the support chat polls and asks over HTTP is not part of this.
pub draw_panel_idle :
    (ops : FloatOps) (host : Bytes) (path : Bool) (r : IniReader) (t : Moment ops)
    (input : PanelInput ops) (u : Ui ops)
    → IsIdle ops input
    → let after = (draw_panel ops host path r t input u).client.voice.net in
      Said true u.client.voice.net.sent after.sent × (after.state ≡ u.client.voice.net.state)
draw_panel_idle ops host path r t input u (hear, volume, remote, mini, grant, mode) =
    let n = u.client.voice.net in
    let mild : IsMildFrame ops true input n = record {
      settings = λ channel.
          (λ b e. none_is_not_some (hear channel) e, λ x e. none_is_not_some (volume channel) e);
      rows =
          λ channel m x e. and_false (can_remote_mute channel m x) _ (remote channel m.player_id);
      hear = λ slot e. true_is_not_false (mini slot) e;
      grants = inr grant;
      modes = inr mode;
    } in
    let talk = draw_panel-Talk ops host path r t input u mild silent in
    (Talk-Said talk, (Talk-state talk).0)
