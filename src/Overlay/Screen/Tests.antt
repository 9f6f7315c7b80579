-- ===== src/Overlay/Screen/Tests.antt =====
-- Frames, a lost device, and the two orders of a change of the display.
use l2voice_chat.Base.{true, false, none, ◌≡◌, ◌≢◌, refl}
use l2voice_chat.Overlay.Window.{Msg, release_display}
use l2voice_chat.Overlay.Window.Wm
use l2voice_chat.Overlay.Screen.{Frame, Screen, broken, drawn, hook_end_scene, hook_reset}
use l2voice_chat.Overlay.Screen.Ready.{begun, message, frame, after_reset, hook_end_scene-Run}

abbrev screen : Screen
screen = record {
  panel = record {
    toggle_vk = 45;
    capture_next_key = false;
    capture_next_slot = 0;
    backend_init = false;
    textures = false;
    dx9 = none;
    win32 = false;
  };
  ctx = true;
  known_dev = none;
  visible = true;
  was_key_down = false;
  captures_mouse = false;
}

abbrev plain_frame : Frame
plain_frame = record {
  cooperative = true;
  dev = 1;
  has_focus = true;
  key_down = false;
  wants_mouse = false;
}

abbrev resized : Msg
resized = record {
  msg = Wm.size;
  wp = 0;
  alt_down = false;
  wants_mouse = false;
  wants_keyboard = false;
}

abbrev shown : Screen
shown = (hook_end_scene plain_frame screen).0

shown_draws : (hook_end_scene plain_frame shown).1 ≡ drawn
unfolding hook_end_scene
shown_draws = refl

-- A reset of a device in use, then a message of the display.
hook_end_scene-Run_example :
    (hook_end_scene plain_frame (record (hook_reset true 1 shown) {
      panel = release_display resized (hook_reset true 1 shown).panel;
    })).1
    ≢ broken
unfolding hook_end_scene
hook_end_scene-Run_example =
    hook_end_scene-Run plain_frame (
      message resized
        (after_reset true 1 (λ h. refl) (frame plain_frame (begun {s = screen} refl))))

abbrev released : Screen
released = record shown { panel = release_display resized shown.panel }

-- The other order, in which a message of the display comes before the reset: the frame is broken.
broken_reset : (hook_end_scene plain_frame (hook_reset true 1 released)).1 ≡ broken
unfolding hook_end_scene hook_reset release_display
broken_reset = refl
