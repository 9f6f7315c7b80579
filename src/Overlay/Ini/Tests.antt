-- ===== src/Overlay/Ini/Tests.antt =====
-- The game asks about a speaker, and the overlay names keys and players.
use l2voice_chat.Base.{true, false, [], ◌∷◌, none, some, ◌≡◌, refl, codes}
use l2voice_chat.Base.Int.{pos}
use l2voice_chat.Voice.Speaking.{Speakers}
use l2voice_chat.Overlay.Names.{is_admin_name, vk_to_string}
use l2voice_chat.Overlay.Ini.{
  wrote, hooked_int, hooked_get_private_profile_int_w, hooked_get_private_profile_string_a,
}

-- Ana was heard on channel 1 at the time 1000.
abbrev speakers : Speakers
speakers = record {
  channel = (codes "Ana", 1) ∷ [];
  last_time = (codes "Ana", 1000) ∷ [];
  writes = [];
}

hooked_int_speaks :
    hooked_get_private_profile_int_w 1200 speakers none
      (some (codes "VoiceSpeak"))
      (some (codes "ana"))
      (pos 0)
    ≡ 1
unfolding hooked_int
hooked_int_speaks = refl

-- Too late: -1, as an unsigned number.
hooked_int_silent :
    hooked_get_private_profile_int_w 1600 speakers none
      (some (codes "VoiceSpeak"))
      (some (codes "Ana"))
      (pos 0)
    ≡ 4294967295
unfolding hooked_int
hooked_int_silent = refl

hooked_string_silent :
    hooked_get_private_profile_string_a 1600 speakers none
      (some (codes "VoiceSpeak"))
      (some (codes "Ana"))
      none
      8
    ≡ wrote (codes "-1")
unfolding hooked_get_private_profile_string_a
hooked_string_silent = refl

is_admin_name_gm : is_admin_name (codes "gm-Ana") ≡ true
unfolding is_admin_name
is_admin_name_gm = refl

is_admin_name_player : is_admin_name (codes "Gmork") ≡ false
unfolding is_admin_name
is_admin_name_player = refl

vk_to_string_function : vk_to_string 0 (pos 0x7b) 31 ≡ codes "F12"
unfolding vk_to_string
vk_to_string_function = refl
