-- ===== src/Voice/Host.antt =====
-- `GetVoiceServerHost` of client/voice/voice.cpp: the host in the configured URL.
pub mod Laws
use l2voice_chat.Base.{
  ℕ, ◌-◌, ◌||◌, [], ◌∷◌, none, some, ltb, ◌==◌, if◌then◌else◌, Bytes, codes, after, take, length,
}

-- The text before the first `/` or `:`.
unfoldable pub host_part : Bytes → Bytes
host_part [] = []
host_part (c ∷ s) = if c == b'/' || c == b':' then [] else c ∷ host_part s

abbrev pub default_host : Bytes
default_host = codes "127.0.0.1"

-- The buffer after the call, with `cap` bytes for it; the URL is `cfg.ws_url`. With no buffer
-- nothing is written.
unfoldable pub get_voice_server_host : ℕ → Bytes → Bytes
unfolding host_part after
get_voice_server_host cap url = if cap == 0 then [] else elim (after (codes "://") url) [
  | none ↦ take (cap - 1) default_host
  | some p ↦ if ltb (length (host_part p)) cap then host_part p else take (cap - 1) default_host
]
