-- ===== src/Voice/Presence/Tests.antt =====
-- A player who left the world at 1000 ms.
use l2voice_chat.Base.{◌+◌, true, [], ◌≡◌, refl, arith, ltb}
use l2voice_chat.Base.Int.{ℤ}
use l2voice_chat.Voice.State.{Voice}
use l2voice_chat.Voice.Tests.{player}
use l2voice_chat.Voice.Presence.{on_render_frame}
use l2voice_chat.Voice.Presence.Suspend.{
  IsPaused, IsStoppedIf, on_render_frame-IsPaused, on_render_frame-grace,
}

abbrev away : Voice ℤ
away = record player { out_of_world_at = 1000 }

away-suspended : (on_render_frame 7000 [] away).voice_suspended ≡ true
unfolding on_render_frame
away-suspended = refl

away-IsPaused : IsPaused away
away-IsPaused = record { stopped = λ h. cc; waiting = λ h. cc }

on_render_frame-IsPaused_example : IsPaused (on_render_frame 7000 [] away)
on_render_frame-IsPaused_example = on_render_frame-IsPaused 7000 [] away away-IsPaused

on_render_frame-grace_example :
    ((on_render_frame 7000 [] away).voice_suspended ≡ ltb (1000 + 5000) 7000)
    × IsStoppedIf (ltb (1000 + 5000) 7000) away.net (on_render_frame 7000 [] away).net
on_render_frame-grace_example = on_render_frame-grace 7000 away refl refl (omega arith)
