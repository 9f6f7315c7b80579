-- ===== src/Voice/Prefs/Tests.antt =====
-- Settings at work.
use l2voice_chat.Base.{ℕ, ◌≢◌, false, [], ◌∷◌, ◌++◌, ◌≡◌, refl, none, arith, codes}
use l2voice_chat.Base.Int.{pos}
use l2voice_chat.Network.State.{initial}
use l2voice_chat.Network.Commands.{send_ping_tick}
use l2voice_chat.Network.Session.Sound.{IsSound}
use l2voice_chat.Network.Session.Reach.{Reach, fresh, next, event, ping}
use l2voice_chat.Network.Session.{
  opened, binary_message, Hooks, handle_event, handle_open, set_client_ports,
}
use l2voice_chat.Wire.{decode_packet}
use l2voice_chat.Voice.Tests.{listener, command, integers, player}
use l2voice_chat.Voice.Prefs.{
  IniReader, set_active_tx_channel, load_channel_prefs, set_channel_volume,
}
use l2voice_chat.Voice.Prefs.Laws.{
  set_active_tx_channel-load, set_channel_volume-bounds, client-IsSound, client_hooks, Occasion,
  IsCut,
}

-- A file in which every number is 3.
abbrev threes : IniReader
threes = record { string = λ key. []; int = λ key fallback. pos 3 }

set_active_tx_channel-load_example :
    ((set_active_tx_channel (pos 3) player).ini_writes
      ≡ [] ++ ((codes "active_tx_channel", pos 3) ∷ []))
    × ((load_channel_prefs integers threes
          (set_active_tx_channel (pos 3) player)).ch_prefs.active_tx_channel
        ≡ (set_active_tx_channel (pos 3) player).ch_prefs.active_tx_channel)
set_active_tx_channel-load_example =
    set_active_tx_channel-load integers threes 3 b'C' (b':' ∷ 92 ∷ codes "voice.ini") player
      (omega arith) refl (λ d. refl)

two-one : ◌≢◌ {A = ℕ} 2 1
two-one = omega arith

set_channel_volume-bounds_example :
    let volume =
      (set_channel_volume integers (pos 0) (λ x. []) (pos 1) (pos 7) player).ch_prefs.volume in
    IsCut integers (pos 0) (λ x. []) (pos 7) (volume 1)
    × (integers.less (volume 1) (integers.of_int (pos 0)) ≡ false)
    × (integers.less (integers.of_int (pos 2)) (volume 1) ≡ false)
    × (volume 2 ≡ player.ch_prefs.volume 2)
set_channel_volume-bounds_example =
    set_channel_volume-bounds integers (pos 0) (λ x. []) refl refl refl 1 2 (pos 7) player
      (omega arith) two-one

-- The client of the tests at a time, with a port and no decoder.
abbrev occasion : ℕ → Occasion integers (pos 0) (λ x. [])
occasion t = record {
  now = t;
  lang = 0;
  prefs = player.ch_prefs;
  ports = λ n. 50001 ∷ [];
  name = codes "Ana";
  decode = λ src. none;
  listener = listener;
  voice = player;
}

abbrev hooks : Occasion integers (pos 0) (λ x. []) → Hooks
hooks = client_hooks integers (pos 0) (λ x. [])

-- The connection opens at 10 ms, a packet comes at 30 ms, and the ping is sent.
opened-Reach : Reach hooks (
    send_ping_tick 40 (
      (hooks (occasion 30)).on_packet command
        (handle_open (set_client_ports (50001 ∷ []) (codes "Ana")) initial)))
unfolding handle_event decode_packet
opened-Reach =
    next
      (next (next fresh (event (occasion 10) opened refl)) (
        event (occasion 30) (binary_message (1 ∷ 4 ∷ 1 ∷ 0 ∷ 5 ∷ 0 ∷ 0 ∷ 0 ∷ 255 ∷ 0 ∷ 1 ∷ []))
          refl))
      (ping 40)

client-IsSound_example : IsSound (
    send_ping_tick 40 (
      (hooks (occasion 30)).on_packet command
        (handle_open (set_client_ports (50001 ∷ []) (codes "Ana")) initial)))
client-IsSound_example = client-IsSound integers (pos 0) (λ x. []) opened-Reach
