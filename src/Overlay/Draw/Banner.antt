-- ===== src/Overlay/Draw/Banner.antt =====
-- `DrawToasts` and `DrawModeBanner`: what is on top of the screen. The macro that packs a colour is a
-- parameter; `seven_tenths` is the literal `0.7f`.
use l2voice_chat.Base.{
  ℕ, ◌+◌, ◌*◌, ◌/◌, ◌%◌, ◌^◌, Bool, true, false, List, Option, none, some, ◌==◌, if◌then◌else◌,
  Bytes, codes, map,
}
use l2voice_chat.Base.Int.{pos, pos_part, sub_ℕ, ltb_ℤ}
use l2voice_chat.Audio.Float.{FloatOps}
use l2voice_chat.Network.State.{Net, Toast}
use l2voice_chat.Network.Toasts.{get_toasts}

-- The name of the clan's mode, and whether the banner pulses.
unfoldable pub mode_banner : ℕ → Option (Bytes × Bool)
mode_banner mode =
    if mode == 1
    then some (codes "PVP", true)
    else if mode == 2
    then some (codes "SIEGE", true)
    else if mode == 3
    then some (codes "BOSS", false)
    else if mode == 4
    then some (codes "FARM", false)
    else none

module _ (ops : FloatOps) (col32 : ℕ → ℕ → ℕ → ℕ → ℕ) (seven_tenths : ops.F) where
  open ops use {F, mul, div, less, of_int, to_int}

  -- From 0 to 1 in the first 200 milliseconds, and back in the last 500.
  unfoldable pub toast_alpha : ℕ → Toast → F
  toast_alpha now t =
      let age = sub_ℕ now t.created_ms in
      let left = sub_ℕ t.dismiss_ms now in
      let alpha =
        if ltb_ℤ age (pos 200)
        then div (of_int age) (of_int (pos 200))
        else if ltb_ℤ left (pos 500)
        then div (of_int left) (of_int (pos 500))
        else of_int (pos 1) in
      let low = if less alpha (of_int (pos 0)) then of_int (pos 0) else alpha in
      if less (of_int (pos 1)) low then of_int (pos 1) else low

  unfoldable pub severity_color : ℕ → ℕ
  severity_color severity =
      if severity == 1
      then col32 240 180 40 255
      else if severity == 2
      then col32 220 60 60 255
      else if severity == 3
      then col32 80 200 100 255
      else col32 70 140 230 255

  -- `base | (alphaByte << 24)`; the second has no bits of the first.
  unfoldable pub with_alpha : ℕ → F → ℕ
  with_alpha c a =
      let alpha_byte = pos_part (to_int (mul (of_int (pos (c / 2 ^ 24 % 2 ^ 8))) a)) in
      c % 2 ^ 24 + alpha_byte * 2 ^ 24 % 2 ^ 32

  -- What is drawn of a toast: the box, the bar at its left, its frame, and the text.
  pub record ToastView : Type 0 where
    pub box : ℕ
    pub bar : ℕ
    pub frame : ℕ
    pub text_color : ℕ
    pub text : Bytes

  unfoldable pub draw_toast : ℕ → Toast → ToastView
  unfolding toast_alpha severity_color with_alpha
  draw_toast now t =
      let alpha = toast_alpha now t in
      let border = severity_color t.severity in
      record {
        box = with_alpha (col32 0x14 0x10 0x10 235) alpha;
        bar = with_alpha border alpha;
        frame = with_alpha border (mul alpha seven_tenths);
        text_color = with_alpha (col32 0xee 0xe4 0xd0 255) alpha;
        text = t.text;
      }

  -- At most eight toasts, from the top.
  unfoldable pub draw_toasts : ℕ → Net → List ToastView
  unfolding draw_toast get_toasts
  draw_toasts now n = map (draw_toast now) (get_toasts now 8 n).0
