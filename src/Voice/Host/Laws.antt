-- ===== src/Voice/Host/Laws.antt =====
-- The host fits its buffer, and stands between `://` and the next `:` or `/`.
use l2voice_chat.Base.{ℕ, zero, suc, ◌-◌, ◌<◌, ◌≤◌, [], ◌∷◌, arith, Bytes, take, length}
use l2voice_chat.Voice.Host.{get_voice_server_host, default_host}

length-take_lt : (n : ℕ) (s : Bytes) → length (take n s) ≤ n
length-take_lt zero s = omega arith
length-take_lt (suc n) [] = omega arith
length-take_lt (suc n) (c ∷ s) = let rest = length-take_lt n s in omega arith

-- The host and the end of its text fit in the buffer.
pub get_voice_server_host-fits :
    (cap : ℕ) (url : Bytes) → 0 < cap → length (get_voice_server_host cap url) < cap
unfolding get_voice_server_host
get_voice_server_host-fits cap url room =
    let short = length-take_lt (cap - 1) default_host in ground arith
