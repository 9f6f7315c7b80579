-- ===== src/Voice/Speaking.antt =====
-- Who speaks on which channel: `g_speaker_channel`, `g_speaker_last_time`, and the file
-- l2voice_speak.ini, which the game polls. Strings are C strings: the NUL at the end is not kept.
pub mod Window
pub mod Query
pub mod Tracked
mod Tests
use l2voice_chat.Base.{
  ℕ, ◌+◌, ◌-◌, Bool, ◌&&◌, ◌||◌, List, [], ◌∷◌, ◌++◌, map, Option, none, some, ltb, leb, ◌==◌,
  if◌then◌else◌, Bytes, codes, decimal, is_digit, bytes_eq,
}
use l2voice_chat.Base.Int.{ℤ, pos, negsuc}
use l2voice_chat.Base.Dict.{Dict, text_eq, lookup, insert, erase}

abbrev pub is_alnum : ℕ → Bool
is_alnum c = (leb b'A' c && leb c b'Z') || (leb b'a' c && leb c b'z') || is_digit c

-- The loop of `SanitizeName`, with `room` bytes left in the buffer.
unfoldable pub sanitize_name : ℕ → Bytes → Bytes
sanitize_name room [] = []
sanitize_name room (c ∷ s) =
    let kept = sanitize_name (room - 1) s in
    let skipped = sanitize_name room s in
    if room == 0 then [] else if is_alnum c then c ∷ kept else skipped

-- A call of `WritePrivateProfileStringA`: a value for a name under `VoiceSpeak`, the removal of that
-- section, and the call with null pointers that writes the cache to the disk.
pub data SpeakWrite : Type 0 where
  put : Bytes → Bytes → Bytes → SpeakWrite
  clear : Bytes → SpeakWrite
  flush : Bytes → SpeakWrite

-- `writes` collects the calls, oldest first.
pub record Speakers : Type 0 where
  pub channel : Dict Bytes ℕ
  pub last_time : Dict Bytes ℕ
  pub writes : List SpeakWrite

-- The path up to its last backslash, which is 92.
unfoldable pub folder : Bytes → Option Bytes
folder [] = none
folder (c ∷ s) = elim (folder s) [
  | some f ↦ some (c ∷ f)
  | none ↦ if c == 92 then some (c ∷ []) else none
]

-- The file next to voice.ini; paths are ASCII and shorter than `MAX_PATH`. There is none where the
-- path is empty or has no backslash.
unfoldable pub speak_path : Bytes → Option Bytes
unfolding folder
speak_path ini = elim (folder ini) [ none ↦ none | some f ↦ some (f ++ codes "l2voice_speak.ini") ]

-- `now - last_time < 600`
abbrev pub is_active : ℕ → ℕ → Bool
is_active now t = ltb now (t + 600)

-- The value written for a speaker.
unfoldable pub speak_value : ℕ → Dict Bytes ℕ → Bytes → ℕ → Bytes
unfolding decimal lookup
speak_value now channel name t =
    if is_active now t
    then decimal (elim (lookup name channel) [ some ch ↦ ch | none ↦ 0 ])
    else codes "255"

abbrev pub speak_write : ℕ → Bytes → Dict Bytes ℕ → Bytes × ℕ → SpeakWrite
speak_write now path channel (name, t) =
    put path (sanitize_name 63 name) (speak_value now channel name t)

unfoldable pub expired_keys : ℕ → Dict Bytes ℕ → List Bytes
expired_keys now [] = []
expired_keys now ((name, t) ∷ m) =
    if is_active now t then expired_keys now m else name ∷ expired_keys now m

unfoldable pub erase_all : List Bytes → Dict Bytes ℕ → Dict Bytes ℕ
unfolding erase
erase_all [] m = m
erase_all (k ∷ ks) m = erase_all ks (erase k m)

-- `WriteVoiceSpeakIni`
unfoldable pub write_voice_speak_ini : ℕ → Bytes → Speakers → Speakers
unfolding speak_path expired_keys erase_all
write_voice_speak_ini now ini s = elim (speak_path ini) [
  | none ↦ s
  | some path ↦
      let expired = expired_keys now s.last_time in
      record s {
        writes =
            s.writes ++ (map (speak_write now path s.channel) s.last_time ++ (flush path ∷ []));
        last_time = erase_all expired s.last_time;
        channel = erase_all expired s.channel;
      }
]

-- A frame of `name`, sent or received at time `now`: both maps, and then the file.
unfoldable pub note_speaker : ℕ → Bytes → Bytes → ℕ → Speakers → Speakers
unfolding insert write_voice_speak_ini
note_speaker now ini name ch s =
    write_voice_speak_ini now ini
      (record s { channel = insert name ch s.channel; last_time = insert name now s.last_time })

-- What `OnCaptureFrame` does for the player's own name when it does not transmit.
unfoldable pub release_speaker : Bytes → Bytes → Speakers → Speakers
unfolding lookup erase speak_path
release_speaker ini name s = elim (lookup name s.last_time) [
  | none ↦ s
  | some t ↦ record s {
    writes = s.writes ++ (elim (speak_path ini) [
      | none ↦ []
      | some path ↦ put path (sanitize_name 63 name) (codes "255") ∷ flush path ∷ []
    ]);
    last_time = erase name s.last_time;
    channel = erase name s.channel;
  }
]

-- `_stricmp(a, b) == 0` in the C locale.
abbrev pub lower : ℕ → ℕ
lower c = if leb b'A' c && leb c b'Z' then c + 32 else c

abbrev pub stricmp_eq : Bytes → Bytes → Bool
stricmp_eq a b = bytes_eq (map lower a) (map lower b)

-- `(chIt != end()) ? chIt->second : -1`
unfoldable pub channel_of : Bytes → Speakers → ℤ
unfolding lookup
channel_of name s = elim (lookup name s.channel) [ none ↦ negsuc 0 | some ch ↦ pos ch ]

-- The second search, over the rest of the map.
unfoldable pub search_speakers : ℕ → Bytes → Dict Bytes ℕ → Speakers → ℤ
unfolding channel_of
search_speakers now name [] s = negsuc 0
search_speakers now name ((k, t) ∷ m) s =
    let rest = search_speakers now name m s in
    if stricmp_eq k name && is_active now t then channel_of k s else rest

-- `GetPlayerSpeakingChannelImpl`; a null name is the empty one.
unfoldable pub speaking_channel : ℕ → Bytes → Speakers → ℤ
unfolding lookup channel_of search_speakers
speaking_channel now [] s = negsuc 0
speaking_channel now (c ∷ name) s =
    let search = search_speakers now (c ∷ name) s.last_time s in
    elim (lookup (c ∷ name) s.last_time) [
      | none ↦ search
      | some t ↦ if is_active now t then channel_of (c ∷ name) s else search
    ]
