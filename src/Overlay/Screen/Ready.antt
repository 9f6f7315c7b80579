-- ===== src/Overlay/Screen/Ready.antt =====
-- When the backends are ready for a frame.
use l2voice_chat.Base.{ℕ, Bool, true, false, ◌≡◌, ◌≢◌, arith}
use l2voice_chat.Overlay.Window.{Msg, Panel, release_display}
use l2voice_chat.Overlay.Screen.{
  Frame, Screen, broken, is_some, note_device, toggle_visible, init_backends, draw_frame,
  hook_end_scene, hook_reset,
}

-- The flag that says so is right.
pub record IsReady (p : Panel) : Type 0 where
  pub device : p.backend_init ≡ true → is_some p.dx9 ≡ true
  pub window : p.backend_init ≡ true → p.win32 ≡ true

release_display-IsReady : (m : Msg) (p : Panel) → IsReady p → IsReady (release_display m p)
unfolding release_display
release_display-IsReady m p r = ground arith

hook_end_scene-IsReady :
    (f : Frame) (s : Screen) → IsReady s.panel → IsReady (hook_end_scene f s).0.panel
unfolding hook_end_scene note_device toggle_visible init_backends draw_frame
hook_end_scene-IsReady f s r = ground arith

hook_end_scene-draws : (f : Frame) (s : Screen) → IsReady s.panel → (hook_end_scene f s).1 ≢ broken
unfolding hook_end_scene note_device toggle_visible init_backends draw_frame
hook_end_scene-draws f s r = ground arith

hook_reset-IsReady :
    (ok : Bool) (dev : ℕ) (s : Screen)
    → (ok ≡ true → s.panel.win32 ≡ true)
    → IsReady s.panel
    → IsReady (hook_reset ok dev s).panel
unfolding hook_reset
hook_reset-IsReady ok dev s held r = ground arith

-- A screen before its first frame, and what comes to it: messages of the window, frames, and resets
-- of the device, of which those that succeed find the backend for the window initialised.
pub data Run : Screen → Type 0 where
  begun : {s : Screen} → s.panel.backend_init ≡ false → Run s
  message : {s : Screen} (m : Msg) → Run s → Run (record s { panel = release_display m s.panel })
  frame : {s : Screen} (f : Frame) → Run s → Run (hook_end_scene f s).0
  after_reset :
      {s : Screen} (ok : Bool) (dev : ℕ)
      → (ok ≡ true → s.panel.win32 ≡ true)
      → Run s
      → Run (hook_reset ok dev s)

Run-IsReady : {s : Screen} → Run s → IsReady s.panel
Run-IsReady (begun off) = record { device = λ h. cc; window = λ h. cc }
Run-IsReady (message {s} m r) = release_display-IsReady m s.panel (Run-IsReady r)
Run-IsReady (frame {s} f r) = hook_end_scene-IsReady f s (Run-IsReady r)
Run-IsReady (after_reset {s} ok dev held r) = hook_reset-IsReady ok dev s held (Run-IsReady r)

-- From before the first frame on, through messages that release the display, lost devices, changes
-- of the device and resets, in any order: no frame is begun on a backend of ImGui that is not
-- initialised, if each reset that succeeds finds the backend for the window initialised.
pub hook_end_scene-Run : {s : Screen} (f : Frame) → Run s → (hook_end_scene f s).1 ≢ broken
hook_end_scene-Run {s} f r = hook_end_scene-draws f s (Run-IsReady r)
