-- ===== src/Loader.antt =====
-- The loading of the library, client/dllmain.cpp: `InitWorker`, one round of `PollLoop`, and
-- `Shutdown`. The hooks of the overlay, which `InitWorker` sets first, are not part of it.
pub mod Running
mod Tests
use l2voice_chat.Base.{ℕ, zero, suc, ◌+◌, Bool, true, false, not, List, if◌then◌else◌, Bytes}
use l2voice_chat.Audio.Float.{FloatOps}
use l2voice_chat.Voice.State.{Voice}
use l2voice_chat.Voice.Prefs.{load_config_from_ini}
use l2voice_chat.Voice.Presence.{on_render_frame}
use l2voice_chat.Voice.Lifecycle.{Setup, Client, init, shutdown}

-- The wait for the window of the game: `i` tries are over and `left` are to come.
unfoldable pub wait_window : (ℕ → Bool) → ℕ → ℕ → Bool
wait_window found i zero = false
wait_window found i (suc left) =
    let rest = wait_window found (i + 1) left in if found i then true else rest

module _ (ops : FloatOps) where
  open ops use {F}

  -- `polling` is `g_polling`: the thread of `PollLoop` runs while it is set.
  pub record Loader : Type 0 where
    pub client : Client ops
    pub polling : Bool

  -- `SetIniPath`, and the start with the settings of the file, which is always read.
  unfoldable pub start_module : Bytes → Setup → Loader → Loader
  unfolding load_config_from_ini init
  start_module path s l =
      let cfg = load_config_from_ini ops s.ini in
      let set = record (l.client) { voice = record (l.client.voice) { ini_path = path } } in
      let (c, ok) = init ops s cfg set in
      if not cfg.enabled
      then record l { client = set }
      else if not ok
      then record l { client = c }
      else record l { client = c; polling = true }

  unfoldable pub init_worker : (ℕ → Bool) → Bytes → Setup → Loader → Loader
  unfolding wait_window start_module
  init_worker found path s l = if not (wait_window found 0 100) then l else start_module path s l

  -- One round of the loop, every half second.
  unfoldable pub poll : ℕ → List ℕ → Loader → Loader
  unfolding on_render_frame
  poll now ports l =
      if l.polling
      then record l {
        client = record (l.client) { voice = on_render_frame now ports l.client.voice };
      }
      else l

  unfoldable pub detach : Loader → Loader
  unfolding shutdown
  detach l = record l { client = shutdown ops l.client; polling = false }
