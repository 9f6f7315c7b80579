-- ===== src/Voice/Presence.antt =====
-- In the world or not: `EnumerateOwnTcpPorts`, `RefreshClientPorts` and `OnRenderFrame`.
pub mod Suspend
mod Tests
use l2voice_chat.Base.{
  ℕ, ◌+◌, ◌-◌, ◌*◌, ◌/◌, ◌%◌, Bool, true, false, not, ◌&&◌, ◌||◌, List, [], ◌∷◌, Option, none, some,
  ltb, leb, ◌==◌, if◌then◌else◌, Bytes, length,
}
use l2voice_chat.Network.State.{Net}
use l2voice_chat.Network.Commands.{send_ping_tick}
use l2voice_chat.Network.Session.{is_empty, set_client_ports, suspend_ws, resume_ws}
use l2voice_chat.Voice.Speaking.{Speakers, write_voice_speak_ini}
use l2voice_chat.Voice.State.{Voice}

-- A row of the table that `GetExtendedTcpTable` fills, as the system stores it.
pub record TcpRow : Type 0 where
  pub owning_pid : ℕ
  pub local_port : ℕ
  pub remote_port : ℕ
  pub established : Bool

-- `ntohs((u_short)p)`
abbrev pub ntohs : ℕ → ℕ
ntohs p = p % 256 * 256 + p / 256 % 256

-- A row that is not passed over.
unfoldable pub is_own : ℕ → ℕ → TcpRow → Bool
is_own pid exclude r =
    r.owning_pid == pid
    && (not (ntohs r.remote_port == exclude)
        && (not (ntohs r.remote_port == 9014) && r.established))

unfoldable pub own_ports : ℕ → ℕ → List TcpRow → List ℕ
unfolding is_own
own_ports pid exclude [] = []
own_ports pid exclude (r ∷ rows) =
    if is_own pid exclude r
    then ntohs r.local_port ∷ own_ports pid exclude rows
    else own_ports pid exclude rows

-- `none` is a table that the system did not give.
unfoldable pub enumerate_own_tcp_ports : ℕ → ℕ → Option (List TcpRow) → List ℕ
unfolding own_ports
enumerate_own_tcp_ports pid exclude none = []
enumerate_own_tcp_ports pid exclude (some rows) = own_ports pid exclude rows

abbrev pub out_of_world_grace_ms : ℕ
out_of_world_grace_ms = 5000

-- The statics that a change of the number of ports sets.
unfoldable pub note_ports : {F : Type 0} → ℕ → List ℕ → Voice F → Voice F
note_ports now ports v =
    let at =
      (if v.last_port_count == 0 && not (is_empty ports)
        then 0
        else if ltb 0 v.last_port_count && is_empty ports
        then now
        else v.out_of_world_at) in
    record v { out_of_world_at = at; last_port_count = length ports }

-- `RefreshClientPorts`, given the clock and the ports that `EnumerateOwnTcpPorts` finds.
unfoldable pub refresh_client_ports : {F : Type 0} → ℕ → List ℕ → Voice F → Voice F
unfolding note_ports set_client_ports
refresh_client_ports now ports v =
    let v' = note_ports now ports v in
    if is_empty ports
    then v'
    else record v' { net = set_client_ports ports v'.cfg.char_name v'.net }

unfoldable pub suspend_voice : {F : Type 0} → ℕ → Voice F → Voice F
unfolding suspend_ws
suspend_voice now v =
    if not v.voice_suspended
      && (ltb 0 v.out_of_world_at && ltb (v.out_of_world_at + out_of_world_grace_ms) now)
    then record v { net = suspend_ws v.net; voice_suspended = true }
    else v

unfoldable pub resume_voice : {F : Type 0} → Voice F → Voice F
unfolding resume_ws
resume_voice v =
    if v.voice_suspended && ltb 0 v.last_port_count
    then record v { net = resume_ws v.net; voice_suspended = false }
    else v

unfoldable pub is_quiet : Speakers → Bool
is_quiet s = elim s.last_time [ [] ↦ true | _ ∷ _ ↦ false ]

unfoldable pub cleanup_speakers : {F : Type 0} → ℕ → Voice F → Voice F
unfolding is_quiet write_voice_speak_ini
cleanup_speakers now v =
    if leb (v.last_speak_cleanup + 100) now
    then record v {
      last_speak_cleanup = now;
      speakers =
          (if is_quiet v.speakers
            then v.speakers
            else write_voice_speak_ini now v.ini_path v.speakers);
    }
    else v

-- The beginning of `OnRenderFrame`: the poll on every 15th frame, and the ping.
unfoldable pub poll_frame : {F : Type 0} → ℕ → List ℕ → Voice F → Voice F
unfolding refresh_client_ports send_ping_tick
poll_frame now ports v =
    let polled = (if v.counter % 15 == 0 then refresh_client_ports now ports v else v) in
    record polled { counter = v.counter + 1; net = send_ping_tick now polled.net }

-- `OnRenderFrame`, whose reads of the clock all give `now`.
unfoldable pub on_render_frame : {F : Type 0} → ℕ → List ℕ → Voice F → Voice F
unfolding poll_frame suspend_voice resume_voice cleanup_speakers
on_render_frame now ports v =
    cleanup_speakers now (resume_voice (suspend_voice now (poll_frame now ports v)))
