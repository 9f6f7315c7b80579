-- ===== src/Overlay/Ini.antt =====
-- The hooks on the ini functions of Windows, through which the game asks who speaks:
-- `HookedGetPrivateProfileIntW` and its kin. The functions of Windows are parameters, `none` where
-- there is no original, and know the file. Texts in wide characters are ASCII.
mod Tests
use l2voice_chat.Base.{
  ℕ, ◌+◌, ◌-◌, ◌*◌, ◌%◌, ◌^◌, Bool, true, false, ◌&&◌, [], ◌∷◌, ◌++◌, Option, none, some, ltb, ◌==◌,
  if◌then◌else◌, Bytes, bytes_eq, codes, take, length,
}
use l2voice_chat.Base.Int.{ℤ, pos, negsuc}
use l2voice_chat.Network.Commands.{decimal_ℤ}
use l2voice_chat.Voice.Speaking.{Speakers, speaking_channel}

-- The conversion to UINT.
unfoldable pub to_uint : ℤ → ℕ
to_uint (pos n) = n % 2 ^ 32
to_uint (negsuc n) = 2 ^ 32 - 1 - n % 2 ^ 32

-- The name in a question about a speaker: the section is `VoiceSpeak`, and there is a key.
unfoldable pub asked_name : Option Bytes → Option Bytes → Option Bytes
unfolding bytes_eq
asked_name none key = none
asked_name (some section) key = if bytes_eq section (codes "VoiceSpeak") then key else none

-- What a call that reads a text does to the buffer: it is written, left, or the text does not fit
-- and the C runtime ends the program.
pub data TextReply : Type 0 where
  wrote : Bytes → TextReply
  untouched : TextReply
  aborted : TextReply

module _ (now : ℕ) (s : Speakers) where
  -- `cut` is what the hook makes of the name: the wide one keeps 63 bytes.
  unfoldable pub hooked_int :
      (Bytes → Bytes)
      → Option (Option Bytes → Option Bytes → ℤ → ℕ)
      → Option Bytes
      → Option Bytes
      → ℤ
      → ℕ
  unfolding to_uint asked_name speaking_channel
  hooked_int cut original section key fallback = elim (asked_name section key) [
    | some name ↦ to_uint (speaking_channel now (cut name) s)
    | none ↦ elim original [ some f ↦ f section key fallback | none ↦ to_uint fallback ]
  ]

  abbrev pub hooked_get_private_profile_int_w :
      Option (Option Bytes → Option Bytes → ℤ → ℕ) → Option Bytes → Option Bytes → ℤ → ℕ
  hooked_get_private_profile_int_w = hooked_int (take 63)

  abbrev pub hooked_get_private_profile_int_a :
      Option (Option Bytes → Option Bytes → ℤ → ℕ) → Option Bytes → Option Bytes → ℤ → ℕ
  hooked_get_private_profile_int_a = hooked_int (λ name. name)

  -- The end of both, where there is no original: `size` is that of the buffer.
  unfoldable pub default_text : Option Bytes → ℕ → TextReply
  default_text none size = untouched
  default_text (some text) size = if ltb 0 size then wrote (take (size - 1) text) else untouched

  -- `swprintf_s` does not truncate.
  unfoldable pub hooked_get_private_profile_string_w :
      Option (Option Bytes → Option Bytes → Option Bytes → ℕ → TextReply)
      → Option Bytes
      → Option Bytes
      → Option Bytes
      → ℕ
      → TextReply
  unfolding asked_name speaking_channel decimal_ℤ default_text
  hooked_get_private_profile_string_w original section key fallback size =
      elim (asked_name section key) [
        | some name ↦
            let text = decimal_ℤ (speaking_channel now (take 63 name) s) in
            if ltb (length text) size then wrote text else aborted
        | none ↦ elim original [
          | some f ↦ f section key fallback size
          | none ↦ default_text fallback size
        ]
      ]

  -- `_snprintf_s` does, but has no place for the end of the text in an empty buffer.
  unfoldable pub hooked_get_private_profile_string_a :
      Option (Option Bytes → Option Bytes → Option Bytes → ℕ → TextReply)
      → Option Bytes
      → Option Bytes
      → Option Bytes
      → ℕ
      → TextReply
  unfolding asked_name speaking_channel decimal_ℤ default_text
  hooked_get_private_profile_string_a original section key fallback size =
      elim (asked_name section key) [
        | some name ↦
            if ltb 0 size
            then wrote (take (size - 1) (decimal_ℤ (speaking_channel now name s)))
            else aborted
        | none ↦ elim original [
          | some f ↦ f section key fallback size
          | none ↦ default_text fallback size
        ]
      ]
