-- ===== src/Overlay/Window/Wm.antt =====
-- The messages of Windows that the window procedure of client/voice/overlay.cpp asks for.
use l2voice_chat.Base.{ℕ}

abbrev pub size : ℕ
size = 0x0005

abbrev pub setcursor : ℕ
setcursor = 0x0020

abbrev pub windowposchanging : ℕ
windowposchanging = 0x0046

abbrev pub stylechanging : ℕ
stylechanging = 0x007c

abbrev pub displaychange : ℕ
displaychange = 0x007e

abbrev pub keydown : ℕ
keydown = 0x0100

abbrev pub keyup : ℕ
keyup = 0x0101

abbrev pub char : ℕ
char = 0x0102

abbrev pub syskeydown : ℕ
syskeydown = 0x0104

abbrev pub syskeyup : ℕ
syskeyup = 0x0105

abbrev pub syscommand : ℕ
syscommand = 0x0112

abbrev pub mousefirst : ℕ
mousefirst = 0x0200

abbrev pub rbuttondown : ℕ
rbuttondown = 0x0204

abbrev pub mbuttondown : ℕ
mbuttondown = 0x0207

abbrev pub mousewheel : ℕ
mousewheel = 0x020a

abbrev pub xbuttondown : ℕ
xbuttondown = 0x020b

abbrev pub mouselast : ℕ
mouselast = 0x020e

abbrev pub mousehwheel : ℕ
mousehwheel = 0x020e
