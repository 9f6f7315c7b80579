-- ===== src/Voice/Transmit/Route.antt =====
-- Where a frame goes that is sent.
use l2voice_chat.Base.{
  ℕ, zero, suc, ◌+◌, ◌%◌, ◌^◌, ◌≤◌, ◌<◌, true, false, not, [], ◌∷◌, ◌++◌, none, some, ◌≡◌, refl, ap,
  ◌∙◌, arith, ◌==◌, if◌then◌else◌, Bytes, take, ◌⊎◌, inl, inr,
}
use l2voice_chat.Base.Int.{ℤ}
use l2voice_chat.Wire.{audio_frame, is_sendable}
use l2voice_chat.Network.State.{Net, binary}
use l2voice_chat.Network.Commands.{send_proximity_frame, send_group_frame}
use l2voice_chat.Voice.State.{Config, Voice}
use l2voice_chat.Voice.Transmit.{
  Frame, held, clamp_channel, selected_channel, choose_channel, is_transmitting, note_self,
  dispatch, send_frame, route_frame, on_capture_frame,
}
use l2voice_chat.Voice.Transmit.Gate.{NoKey, my_name_set, on_capture_frame-route}

-- Which channel the keys and the settings ask for: the explicit keys in their order, then the main
-- key, then speech where always-on is set. `sel` is the channel of the main key.
pub data Route {F : Type 0} (cfg : Config F) (f : Frame) (sel : ℕ) : ℕ → Type 0 where
  by_party : held f cfg.ptt_party ≡ true → Route cfg f sel 1
  by_clan : held f cfg.ptt_party ≡ false → held f cfg.ptt_clan ≡ true → Route cfg f sel 2
  by_ally :
      held f cfg.ptt_party ≡ false
      → held f cfg.ptt_clan ≡ false
      → held f cfg.ptt_ally ≡ true
      → Route cfg f sel 3
  by_main :
      held f cfg.ptt_party ≡ false
      → held f cfg.ptt_clan ≡ false
      → held f cfg.ptt_ally ≡ false
      → held f cfg.ptt_proximity ≡ true
      → Route cfg f sel sel
  by_voice : NoKey cfg f → cfg.always_on ≡ true → f.speaking ≡ true → Route cfg f sel sel

-- The channel of the main key, as the settings and the clan mode have it: 0 to 4, and clan in place
-- of proximity while a clan mode is on.
pub selected_channel_lem :
    (active : ℤ) (mode : ℕ)
    → (selected_channel active mode ≤ 4) × ((mode ≡ 0) ⊎ (0 < selected_channel active mode))
unfolding selected_channel clamp_channel
selected_channel_lem active zero = (ground arith, inl refl)
selected_channel_lem active (suc mode) = (ground arith, inr (ground arith))

Route-transmits :
    {F : Type 0} (cfg : Config F) (f : Frame) (sel channel : ℕ)
    → sel ≤ 4
    → (cfg.require_focus ≡ false) ⊎ (f.foreground ≡ true)
    → Route cfg f sel channel
    → (is_transmitting cfg f (choose_channel cfg f sel) ≡ true)
      × ((choose_channel cfg f sel).0 ≡ channel)
unfolding is_transmitting choose_channel
Route-transmits cfg f sel channel le focus (by_party p) = rw p (ground arith, refl)
Route-transmits cfg f sel channel le focus (by_clan p c) = rw (p, c) (ground arith, refl)
Route-transmits cfg f sel channel le focus (by_ally p c a) = rw (p, c, a) (ground arith, refl)
Route-transmits cfg f sel channel le focus (by_main p c a x) = rw (p, c, a, x) (ground arith, refl)
Route-transmits cfg f sel channel le focus (by_voice k a s) =
    rw (k.party, k.clan, k.ally, k.proximity, a, s) (ground arith, refl)

-- The channel to which the settings and the clan mode send the main key.
abbrev pub main_channel : {F : Type 0} → Voice F → ℕ
main_channel v = selected_channel v.ch_prefs.active_tx_channel v.net.state.clan_mode

-- A frame that is ready to leave: the module runs, the frame is full, the player has a name in the
-- settings and the focus where it is asked for, the connection is open, and the encoder gave a
-- packet that fits and there is a session to send it in.
pub record IsReady {F : Type 0} (f : Frame) (v : Voice F) (opus : Bytes) : Type 0 where
  pub is_running : v.running ≡ true
  pub is_full : f.samples ≡ 960
  pub letter : ℕ
  pub letters : Bytes
  pub is_named : v.cfg.char_name ≡ letter ∷ letters
  pub is_focused : (v.cfg.require_focus ≡ false) ⊎ (f.foreground ≡ true)
  pub is_connected : v.net.connected ≡ true
  pub is_encoded : f.encoded ≡ some opus
  pub fits : is_sendable v.net.session_id opus ≡ true

capture-send :
    {F : Type 0} (f : Frame) (v : Voice F) (opus : Bytes) (channel : ℕ)
    → (ready : IsReady f v opus) → Route v.cfg f (main_channel v) channel
    → on_capture_frame f v
      ≡ send_frame f channel (note_self f.now channel (take 63 (ready.letter ∷ ready.letters)) v)
unfolding route_frame
capture-send f v opus channel ready route =
    let (sends, where_to) =
      Route-transmits v.cfg f (main_channel v) channel
        (selected_channel_lem v.ch_prefs.active_tx_channel v.net.state.clan_mode).0 ready.is_focused
        route in
    rw
      (
        on_capture_frame-route f v ready.is_running ready.is_full,
        route_frame,
        my_name_set v.cfg v.net ready.letter ready.letters ready.is_named,
        sends,
        where_to,
      )
      refl

send_frame_lem :
    {F : Type 0} (f : Frame) (v : Voice F) (opus : Bytes) (channel : ℕ)
    → v.net.connected ≡ true
    → f.encoded ≡ some opus
    → send_frame f channel v ≡ dispatch channel opus v
unfolding send_frame
send_frame_lem f v opus channel c e =
    ap (λ b. if not b then v else elim f.encoded [ none ↦ v | some o ↦ dispatch channel o v ]) c
    ∙ ap (λ o. elim o [ none ↦ v | some p ↦ dispatch channel p v ]) e

abbrev frame_sent : ℕ → ℕ → Bytes → Net → Net
frame_sent channel seq opus n = record n {
  sent = n.sent ++ (binary (audio_frame channel n.session_id seq opus) ∷ []);
}

send_by_channel :
    (channel seq : ℕ) (opus : Bytes) (n : Net)
    → is_sendable n.session_id opus ≡ true
    → channel ≤ 3
    → (if channel == 0
        then send_proximity_frame seq opus n
        else send_group_frame channel seq opus n)
      ≡ frame_sent channel seq opus n
unfolding send_proximity_frame send_group_frame
send_by_channel zero seq opus n ok le = rw ok refl
send_by_channel (suc channel) seq opus n ok le = rw ok (ground arith)

-- A full frame while the module runs, of a player with a name in the settings and with the focus
-- where it is asked for, while the connection is open and in a session, for which the encoder gave
-- a packet of a length that is sent: if the keys or the voice route it to channel 0, 1, 2 or 3, it
-- goes out as one binary message, with that channel, the session and the present sequence number in
-- its header; nothing else of the connection changes, and the sequence number grows by one modulo
-- 2^16.
pub on_capture_frame_sends :
    {F : Type 0} (f : Frame) (v : Voice F) (opus : Bytes) (channel : ℕ)
    → IsReady f v opus
    → Route v.cfg f (main_channel v) channel
    → channel ≤ 3
    → ((on_capture_frame f v).net ≡ record v.net {
      sent = v.net.sent ++ (binary (audio_frame channel v.net.session_id v.tx_seq opus) ∷ []);
    })
      × ((on_capture_frame f v).tx_seq ≡ (v.tx_seq + 1) % 2 ^ 16)
unfolding note_self dispatch
on_capture_frame_sends f v opus channel ready route le =
    let w = note_self f.now channel (take 63 (ready.letter ∷ ready.letters)) v in
    rw
      (
        capture-send f v opus channel ready route,
        send_frame_lem f w opus channel ready.is_connected ready.is_encoded,
      )
      (send_by_channel channel v.tx_seq opus v.net ready.fits le, refl)

-- A frame as for `on_capture_frame_sends` (full, named, focused, connected, encoded) that is routed
-- to channel 4, which the settings allow for the main key, is not sent: the connection is unchanged,
-- and yet a sequence number is used.
pub on_capture_frame_drops_cc :
    {F : Type 0} (f : Frame) (v : Voice F) (opus : Bytes)
    → IsReady f v opus
    → Route v.cfg f (main_channel v) 4
    → ((on_capture_frame f v).net ≡ v.net)
      × ((on_capture_frame f v).tx_seq ≡ (v.tx_seq + 1) % 2 ^ 16)
unfolding note_self dispatch send_group_frame
on_capture_frame_drops_cc f v opus ready route =
    let w = note_self f.now 4 (take 63 (ready.letter ∷ ready.letters)) v in
    rw
      (
        capture-send f v opus 4 ready route,
        send_frame_lem f w opus 4 ready.is_connected ready.is_encoded,
        ready.fits,
      )
      (refl, refl)
