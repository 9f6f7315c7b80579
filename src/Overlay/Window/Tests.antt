-- ===== src/Overlay/Window/Tests.antt =====
-- A player binds the key of the party channel.
use l2voice_chat.Base.{ℕ, some, true, false, [], ◌∷◌, ◌++◌, ◌≡◌, refl}
use l2voice_chat.Base.Int.{pos}
use l2voice_chat.Voice.Tests.{player}
use l2voice_chat.Overlay.Window.{Msg, Panel, bind_slot}
use l2voice_chat.Overlay.Window.Wm
use l2voice_chat.Overlay.Window.Binding.{Presses, IsBound, handle_messages, hooked_wnd_proc-binds}

abbrev message : ℕ → ℕ → Msg
message msg wp = record {
  msg = msg;
  wp = wp;
  alt_down = false;
  wants_mouse = false;
  wants_keyboard = false;
}

-- Insert shows and hides the panel; it waits for the key of slot 1.
abbrev panel : Panel
panel = record {
  toggle_vk = 45;
  capture_next_key = true;
  capture_next_slot = 1;
  backend_init = true;
  textures = true;
  dx9 = some 1;
  win32 = true;
}

-- The mouse moves, Ctrl goes down, then G, then H.
hooked_wnd_proc-binds_example :
    ((handle_messages
        ((message Wm.mousefirst 0 ∷ message Wm.keydown 17 ∷ [])
          ++ (message Wm.keydown b'G' ∷ message Wm.keydown b'H' ∷ []))
        (panel, player)).0.capture_next_key
      ≡ false)
    × IsBound 1 b'G' player
        (handle_messages
          ((message Wm.mousefirst 0 ∷ message Wm.keydown 17 ∷ [])
            ++ (message Wm.keydown b'G' ∷ message Wm.keydown b'H' ∷ []))
          (panel, player)).1
hooked_wnd_proc-binds_example =
    hooked_wnd_proc-binds (message Wm.mousefirst 0 ∷ message Wm.keydown 17 ∷ [])
      (message Wm.keydown b'G') (message Wm.keydown b'H' ∷ []) b'G' panel player refl
      (refl, (refl, tt)) (Presses.key refl refl)

bind_slot_party : (bind_slot 1 b'G' player).cfg.ptt_party ≡ pos b'G'
unfolding bind_slot
bind_slot_party = refl
