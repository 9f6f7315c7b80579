-- ===== src/Overlay/Names.antt =====
-- Names that the overlay reads or shows: `IsAdminName` and `VkToString`.
use l2voice_chat.Base.{
  ℕ, ◌+◌, ◌-◌, Bool, false, ◌&&◌, ◌||◌, List, [], ◌∷◌, ◌++◌, map, Option, none, some, leb, ◌==◌,
  if◌then◌else◌, Bytes, bytes_eq, codes, decimal, take, length,
}
use l2voice_chat.Base.Int.{ℤ, pos, negsuc}
use l2voice_chat.Network.Commands.{decimal_ℤ}
use l2voice_chat.Voice.Speaking.{lower}

-- `_strnicmp(name, prefix, n) == 0`, where `n` is the length of the prefix.
abbrev pub starts_with : Bytes → Bytes → Bool
starts_with prefix name = bytes_eq (map lower prefix) (map lower (take (length prefix) name))

unfoldable pub starts_with_one : List Bytes → Bytes → Bool
unfolding bytes_eq
starts_with_one [] name = false
starts_with_one (p ∷ ps) name = starts_with p name || starts_with_one ps name

-- The empty name, or a null pointer, is nobody's.
unfoldable pub is_admin_name : Bytes → Bool
unfolding starts_with_one
is_admin_name [] = false
is_admin_name (c ∷ name) =
    starts_with_one
      (codes "GM "
        ∷ codes "GM-"
        ∷ codes "Admin "
        ∷ codes "[GM]"
        ∷ codes "(GM)"
        ∷ codes "ADM "
        ∷ codes "ADM-"
        ∷ codes "[ADM]"
        ∷ codes "(ADM)"
        ∷ codes "Staff "
        ∷ [])
      (c ∷ name)

-- The text in Portuguese for the language 0, and else the one in English.
abbrev pub in_language : ℕ → Bytes → Bytes → Option Bytes
in_language lang portuguese english = some (if lang == 0 then portuguese else english)

-- The keys with a name of their own. 195 and 167 are the c with a cedilla.
unfoldable pub fixed_name : ℕ → ℕ → Option Bytes
fixed_name lang vk =
    if vk == 1
    then in_language lang (codes "Mouse Esq.") (codes "Mouse L")
    else if vk == 2
    then in_language lang (codes "Mouse Dir.") (codes "Mouse R")
    else if vk == 4
    then in_language lang (codes "Mouse Meio") (codes "Mouse M")
    else if vk == 5
    then some (codes "Mouse 4")
    else if vk == 6
    then some (codes "Mouse 5")
    else if vk == 0x09
    then some (codes "Tab")
    else if vk == 0x14
    then some (codes "CapsLock")
    else if vk == 0x20
    then in_language lang (codes "Espa" ++ (195 ∷ 167 ∷ codes "o")) (codes "Space")
    else if vk == 0x2d
    then some (codes "Insert")
    else if vk == 0x24
    then some (codes "Home")
    else if vk == 0x23
    then some (codes "End")
    else if vk == 0x21
    then in_language lang (codes "PageUp") (codes "PgUp")
    else if vk == 0x22
    then in_language lang (codes "PageDn") (codes "PgDn")
    else if vk == 0xc0
    then some (codes "`")
    else none

-- A letter, a digit, a function key, or a number.
unfoldable pub plain_name : ℕ → Bytes
unfolding decimal
plain_name vk =
    if (leb b'A' vk && leb vk b'Z') || (leb b'0' vk && leb vk b'9')
    then vk ∷ []
    else if leb 0x70 vk && leb vk 0x87
    then b'F' ∷ decimal (vk - 0x70 + 1)
    else codes "vk=" ++ decimal vk

-- The buffer after the call, with room for `room` bytes and the NUL.
unfoldable pub vk_to_string : ℕ → ℤ → ℕ → Bytes
unfolding fixed_name plain_name decimal_ℤ
vk_to_string lang (negsuc n) room = take room (codes "vk=" ++ decimal_ℤ (negsuc n))
vk_to_string lang (pos vk) room =
    take room (elim (fixed_name lang vk) [ some name ↦ name | none ↦ plain_name vk ])
