-- ===== src/Voice/Transmit/Tests.antt =====
-- Frames of a player at rest, with a key and without.
use l2voice_chat.Base.{
  ◌+◌, ◌%◌, ◌^◌, true, false, [], ◌∷◌, ◌++◌, some, ◌≡◌, refl, arith, inr, take, codes, none,
}
use l2voice_chat.Base.Int.{ℤ, pos}
use l2voice_chat.Base.Dict.{text_eq, lookup}
use l2voice_chat.Wire.{audio_frame, is_sendable}
use l2voice_chat.Network.State.{binary}
use l2voice_chat.Voice.State.{Voice}
use l2voice_chat.Voice.Tests.{player, connection}
use l2voice_chat.Voice.Transmit.{Frame, held, on_capture_frame, selected_channel}
use l2voice_chat.Voice.Transmit.Gate.{NoKey, unfocused, on_capture_frame_gated}
use l2voice_chat.Voice.Transmit.Route.{
  Route, by_party, by_voice, main_channel, IsReady, on_capture_frame_sends,
  on_capture_frame_drops_cc,
}

-- A frame in which the player speaks.
abbrev speech : Frame
speech = record {
  samples = 960;
  now = 1000;
  speaking = true;
  foreground = true;
  pressed = λ vk. false;
  encoded = some (1 ∷ 2 ∷ []);
}

abbrev all_keys : Frame
all_keys = record speech { pressed = λ vk. true }

abbrev behind : Frame
behind = record all_keys { foreground = false }

abbrev commander : Voice ℤ
commander = record player { ch_prefs = record (player.ch_prefs) { active_tx_channel = pos 4 } }

speech-fits : is_sendable 7 (1 ∷ 2 ∷ []) ≡ true
unfolding is_sendable
speech-fits = refl

all_keys-IsReady : IsReady all_keys player (1 ∷ 2 ∷ [])
all_keys-IsReady = record {
  is_running = refl;
  is_full = refl;
  letter = b'A';
  letters = codes "na";
  is_named = refl;
  is_focused = inr refl;
  is_connected = refl;
  is_encoded = refl;
  fits = speech-fits;
}

party-key : Route player.cfg all_keys (main_channel player) 1
unfolding held
party-key = by_party refl

speech-IsReady : IsReady speech commander (1 ∷ 2 ∷ [])
speech-IsReady = record {
  is_running = refl;
  is_full = refl;
  letter = b'A';
  letters = codes "na";
  is_named = refl;
  is_focused = inr refl;
  is_connected = refl;
  is_encoded = refl;
  fits = speech-fits;
}

speech-NoKey : NoKey commander.cfg speech
unfolding held
speech-NoKey = record { party = refl; clan = refl; ally = refl; proximity = refl }

cc-Route : Route commander.cfg speech (main_channel commander) 4
unfolding selected_channel
cc-Route = by_voice speech-NoKey refl refl

on_capture_frame_gated_example :
    ((on_capture_frame behind player).net ≡ player.net)
    × ((on_capture_frame behind player).tx_seq ≡ player.tx_seq)
    × (lookup (take 63 (b'A' ∷ codes "na")) (on_capture_frame behind player).speakers.last_time
        ≡ none)
on_capture_frame_gated_example =
    on_capture_frame_gated behind player b'A' (codes "na") refl refl refl (unfocused refl refl)

on_capture_frame_sends_example :
    ((on_capture_frame all_keys player).net ≡ record connection {
      sent = connection.sent ++ (binary (audio_frame 1 7 65535 (1 ∷ 2 ∷ [])) ∷ []);
    })
    × ((on_capture_frame all_keys player).tx_seq ≡ (65535 + 1) % 2 ^ 16)
on_capture_frame_sends_example =
    on_capture_frame_sends all_keys player (1 ∷ 2 ∷ []) 1 all_keys-IsReady party-key (omega arith)

on_capture_frame_drops_cc_example :
    ((on_capture_frame speech commander).net ≡ connection)
    × ((on_capture_frame speech commander).tx_seq ≡ (65535 + 1) % 2 ^ 16)
on_capture_frame_drops_cc_example =
    on_capture_frame_drops_cc speech commander (1 ∷ 2 ∷ []) speech-IsReady cc-Route
