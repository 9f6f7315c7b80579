-- ===== src/Voice/Incoming/Tests.antt =====
-- A packet for CC that is decoded, and one while the clan is switched off.
use l2voice_chat.Base.{ℕ, Option, some, ◌==◌, not, [], ◌∷◌, List, Bytes, ◌≡◌, refl}
use l2voice_chat.Base.Int.{ℤ, pos}
use l2voice_chat.Network.Commands.{send_name_query}
use l2voice_chat.Voice.State.{Voice}
use l2voice_chat.Voice.Tests.{listener, command, integers, player}
use l2voice_chat.Voice.Incoming.{pref_slot, on_incoming_packet}

-- Every payload is decoded to two samples.
abbrev two_samples : ℕ → Option (Bytes → List ℤ)
two_samples src = some (λ payload. pos 4 ∷ pos 5 ∷ [])

abbrev without_clan : Voice ℤ
without_clan = record player { ch_prefs = record (player.ch_prefs) { enabled = λ i. not (i == 2) } }

on_incoming_packet-without_clan :
    on_incoming_packet integers two_samples 1000 command listener without_clan
    ≡ (listener, record without_clan { net = send_name_query 5 without_clan.net })
unfolding on_incoming_packet pref_slot
on_incoming_packet-without_clan = refl
