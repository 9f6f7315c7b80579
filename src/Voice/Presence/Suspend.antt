-- ===== src/Voice/Presence/Suspend.antt =====
-- The connection follows the player in and out of the world.
use l2voice_chat.Base.{
  ℕ, ◌+◌, ◌<◌, true, false, List, [], ◌≡◌, arith, ltb, ◌∙◌, sym, Bool, not, ◌&&◌, if◌then◌else◌,
}
use l2voice_chat.Network.State.{Net}
use l2voice_chat.Network.Commands.{send_ping_tick}
use l2voice_chat.Network.Session.{set_client_ports, try_send_auth, suspend_ws, resume_ws}
use l2voice_chat.Voice.State.{Voice}
use l2voice_chat.Voice.Presence.{
  note_ports, refresh_client_ports, suspend_voice, resume_voice, cleanup_speakers, poll_frame,
  on_render_frame,
}

-- A suspended connection is stopped, does not reconnect, and is not open.
pub record IsPaused {F : Type 0} (v : Voice F) : Type 0 where
  pub stopped : v.voice_suspended ≡ true → v.net.started ≡ false
  pub waiting : v.voice_suspended ≡ true → v.net.reconnect ≡ false

poll_frame-IsPaused :
    {F : Type 0} (now : ℕ) (ports : List ℕ) {v : Voice F}
    → IsPaused v
    → IsPaused (poll_frame now ports v)
unfolding poll_frame refresh_client_ports note_ports set_client_ports try_send_auth send_ping_tick
poll_frame-IsPaused now ports v = ground arith

suspend_voice-IsPaused :
    {F : Type 0} (now : ℕ) {v : Voice F} → IsPaused v → IsPaused (suspend_voice now v)
unfolding suspend_voice suspend_ws
suspend_voice-IsPaused now {v} p = ground arith

resume_voice-IsPaused : {F : Type 0} {v : Voice F} → IsPaused v → IsPaused (resume_voice v)
unfolding resume_voice resume_ws
resume_voice-IsPaused {v} p = ground arith

cleanup_speakers-IsPaused :
    {F : Type 0} (now : ℕ) {v : Voice F} → IsPaused v → IsPaused (cleanup_speakers now v)
unfolding cleanup_speakers
cleanup_speakers-IsPaused now {v} p = ground arith

-- `OnRenderFrame` keeps this: while the module counts as suspended, the connection is stopped and
-- does not reconnect of itself.
pub on_render_frame-IsPaused :
    {F : Type 0} (now : ℕ) (ports : List ℕ) (v : Voice F)
    → IsPaused v
    → IsPaused (on_render_frame now ports v)
unfolding on_render_frame
on_render_frame-IsPaused now ports v p =
    cleanup_speakers-IsPaused now
      (resume_voice-IsPaused (suspend_voice-IsPaused now (poll_frame-IsPaused now ports p)))

cleanup-net :
    {F : Type 0} (now : ℕ) (v : Voice F)
    → ((cleanup_speakers now v).voice_suspended ≡ v.voice_suspended)
      × ((cleanup_speakers now v).last_port_count ≡ v.last_port_count)
      × ((cleanup_speakers now v).net ≡ v.net)
unfolding cleanup_speakers
cleanup-net now v = ground arith

resume-in_world :
    {F : Type 0} (v : Voice F)
    → (resume_voice v).voice_suspended ≡ true
    → (resume_voice v).last_port_count ≡ 0
unfolding resume_voice
resume-in_world v h = ground arith

-- After `OnRenderFrame` the module is suspended only if the last poll found no port: a player who
-- is seen in the world is not left suspended.
pub on_render_frame-in_world :
    {F : Type 0} (now : ℕ) (ports : List ℕ) (v : Voice F)
    → (on_render_frame now ports v).voice_suspended ≡ true
    → (on_render_frame now ports v).last_port_count ≡ 0
unfolding on_render_frame
on_render_frame-in_world now ports v h =
    let w = resume_voice (suspend_voice now (poll_frame now ports v)) in
    (cleanup-net now w).1
    ∙ resume-in_world (suspend_voice now (poll_frame now ports v)) (sym (cleanup-net now w).0 ∙ h)

-- The connection is as before where `late` is false, and is stopped where it is true.
pub record IsStoppedIf (late : Bool) (before after : Net) : Type 0 where
  pub started : after.started ≡ (before.started && not late)
  pub reconnect : after.reconnect ≡ (before.reconnect && not late)
  pub connected : after.connected ≡ (before.connected && not late)
  pub authenticated : after.auth_sent ≡ (before.auth_sent && not late)
  pub session : after.session_id ≡ (if late then 0 else before.session_id)

poll-away :
    {F : Type 0} (now : ℕ) (v : Voice F)
    → v.last_port_count ≡ 0
    → ((poll_frame now [] v).voice_suspended ≡ v.voice_suspended)
      × ((poll_frame now [] v).out_of_world_at ≡ v.out_of_world_at)
      × ((poll_frame now [] v).last_port_count ≡ 0)
      × IsStoppedIf false v.net (poll_frame now [] v).net
unfolding poll_frame refresh_client_ports note_ports send_ping_tick
poll-away now v z = ground arith

suspend-resume-away :
    {F : Type 0} (now : ℕ) (v : Voice F)
    → v.last_port_count ≡ 0
    → v.voice_suspended ≡ false
    → 0 < v.out_of_world_at
    → let w = resume_voice (suspend_voice now v) in
      let late = ltb (v.out_of_world_at + 5000) now in
      (w.voice_suspended ≡ late) × IsStoppedIf late v.net w.net
unfolding resume_voice suspend_voice suspend_ws
suspend-resume-away now v z s o = ground arith

-- A player who left the world at a known time, with a module that is not suspended, and for whom no
-- port is found: if more than 5000 ms have passed since then, the frame suspends the module, stops
-- its connection, which does not reconnect of itself, is not open nor authenticated and has no
-- session any more; if not, the module is not suspended, and the connection is started, set to
-- reconnect, open and authenticated or not, with the session, as before.
pub on_render_frame-grace :
    {F : Type 0} (now : ℕ) (v : Voice F)
    → v.last_port_count ≡ 0
    → v.voice_suspended ≡ false
    → 0 < v.out_of_world_at
    → let w = on_render_frame now [] v in
      let late = ltb (v.out_of_world_at + 5000) now in
      (w.voice_suspended ≡ late) × IsStoppedIf late v.net w.net
unfolding on_render_frame
on_render_frame-grace now v z s o =
    let (kept, at, count, same) = poll-away now v z in
    let (flag, _, net) = cleanup-net now (resume_voice (suspend_voice now (poll_frame now [] v))) in
    let away = suspend-resume-away now (poll_frame now [] v) count (kept ∙ s) (omega (arith, at)) in
    ground arith
