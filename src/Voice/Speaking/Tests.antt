-- ===== src/Voice/Speaking/Tests.antt =====
-- Speakers at work; 92 is the backslash.
use l2voice_chat.Base.{[], bytes_eq, ◌∷◌, ◌++◌, ◌≡◌, refl, some, arith, codes, Bytes}
use l2voice_chat.Base.Dict.{text_eq, lookup}
use l2voice_chat.Voice.Speaking.{
  Speakers, speaking_channel, speak_path, write_voice_speak_ini, note_speaker,
}
use l2voice_chat.Voice.Speaking.Window.{
  Distinct, distinct_nil, distinct_cons, write_voice_speak_ini_lem, if_active, kept_channel,
  IsTracked,
}
use l2voice_chat.Base.Int.{pos}
use l2voice_chat.Voice.Speaking.Query.{speaking_channel-note_speaker}
use l2voice_chat.Voice.Speaking.Tracked.{nobody, noted, Tracks-IsTracked}

abbrev ini : Bytes
ini = codes "C:" ++ (92 ∷ codes "voice.ini")

abbrev two : Speakers
two = record {
  channel = (codes "Ana", 1) ∷ (codes "Bo", 2) ∷ [];
  last_time = (codes "Ana", 1000) ∷ (codes "Bo", 300) ∷ [];
  writes = [];
}

two-path : speak_path ini ≡ some (codes "C:" ++ (92 ∷ codes "l2voice_speak.ini"))
unfolding speak_path
two-path = refl

two-Distinct : Distinct two.last_time
unfolding lookup bytes_eq
two-Distinct = distinct_cons refl (distinct_cons refl distinct_nil)

write_voice_speak_ini_lem_example :
    (lookup (codes "Bo") (write_voice_speak_ini 1100 ini two).last_time
      ≡ if_active 1100 (lookup (codes "Bo") two.last_time))
    × (lookup (codes "Bo") (write_voice_speak_ini 1100 ini two).channel
        ≡ kept_channel 1100 (lookup (codes "Bo") two.last_time) (lookup (codes "Bo") two.channel))
write_voice_speak_ini_lem_example =
    write_voice_speak_ini_lem 1100 ini (codes "C:" ++ (92 ∷ codes "l2voice_speak.ini")) two two-path
      two-Distinct (codes "Bo")

Tracks-IsTracked_example :
    IsTracked
      (note_speaker 5 ini (codes "Ana") 1 (record { channel = []; last_time = []; writes = [] }))
Tracks-IsTracked_example = Tracks-IsTracked (noted 5 ini (codes "Ana") 1 nobody)

speaking_channel-note_speaker_example :
    speaking_channel 1599 (b'Z' ∷ codes "oe") (note_speaker 1000 ini (b'Z' ∷ codes "oe") 3 two)
    ≡ pos 3
speaking_channel-note_speaker_example =
    speaking_channel-note_speaker 1000 1599 ini (codes "C:" ++ (92 ∷ codes "l2voice_speak.ini"))
      b'Z' (codes "oe") 3 two two-path two-Distinct (omega arith)
