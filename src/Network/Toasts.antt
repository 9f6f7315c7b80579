-- ===== src/Network/Toasts.antt =====
-- The notification queue: `AddToast` and `GetToasts`. Times are milliseconds of the steady clock.
pub mod Bounds
use l2voice_chat.Base.{
  ℕ, ◌+◌, ◌-◌, ◌%◌, ◌^◌, Bool, true, false, not, ◌&&◌, ◌||◌, List, [], ◌∷◌, ◌++◌, ltb, leb, ◌==◌,
  if◌then◌else◌, Bytes, length, take, keep,
}
use l2voice_chat.Network.State.{Net, Toast}

-- Whether a toast is still to be shown.
unfoldable pub is_live : ℕ → Toast → Bool
is_live now t = not (leb t.dismiss_ms now)

-- `while (toasts.size() >= 5) toasts.erase(toasts.begin());`
unfoldable pub cap_toasts : List Toast → List Toast
cap_toasts [] = []
cap_toasts (t ∷ ts) = if leb 5 (length (t ∷ ts)) then cap_toasts ts else t ∷ ts

-- The toast that `AddToast` makes; `_TRUNCATE` keeps 191 bytes of the text.
abbrev pub new_toast : ℕ → Bytes → ℕ → ℕ → Net → Toast
new_toast now text severity ttl n = record {
  id = n.next_toast_id;
  text = take 191 text;
  severity = severity;
  created_ms = now;
  dismiss_ms = now + ttl;
}

unfoldable pub add_toast : ℕ → Bytes → ℕ → ℕ → Net → Net
unfolding is_live cap_toasts
add_toast now text severity ttl n = record n {
  toasts = cap_toasts (keep (is_live now) n.toasts) ++ (new_toast now text severity ttl n ∷ []);
  next_toast_id = (n.next_toast_id + 1) % 2 ^ 32;
}

-- What `GetToasts` writes; a call with no buffer (`cap == 0`) only counts.
unfoldable pub get_toasts : ℕ → ℕ → Net → List Toast × ℕ
unfolding is_live
get_toasts now cap n =
    let live = keep (is_live now) n.toasts in
    if cap == 0 then ([], length live) else (take cap live, length (take cap live))
