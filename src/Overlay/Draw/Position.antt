-- ===== src/Overlay/Draw/Position.antt =====
-- Where the microphone icon and the list of speakers stand, and when that is written to voice.ini.
pub mod Throttle
use l2voice_chat.Base.{ℕ, ◌+◌, Bool, true, false, ◌&&◌, none, some, ltb, ◌==◌, if◌then◌else◌}
use l2voice_chat.Base.Int.{ℤ, pos, negsuc}
use l2voice_chat.Overlay.Draw.{Place}

abbrev pub same_ℤ : ℤ → ℤ → Bool
same_ℤ (pos a) (pos b) = a == b
same_ℤ (negsuc a) (negsuc b) = a == b
same_ℤ _ _ = false

-- `cx != writtenX || cy != writtenY`, negated.
abbrev pub same_place : ℤ × ℤ → ℤ × ℤ → Bool
same_place (x, y) (a, b) = same_ℤ x a && same_ℤ y b

-- The place that was written last, which is read where it is not known; `saved` is what is read.
abbrev pub written_place : ℤ × ℤ → Place → ℤ × ℤ
written_place saved p = elim p.written [ none ↦ saved | some w ↦ w ]

-- The state after a frame, and whether the place is saved.
unfoldable pub persist : ℤ × ℤ → ℕ → ℤ × ℤ → Place → Place × Bool
persist saved now cur p =
    let known : Place = record p { written = some (written_place saved p) } in
    if same_place cur (written_place saved p)
    then (known, false)
    else if ltb (p.last_write_ms + 250) now
    then (record { written = some cur; last_write_ms = now }, true)
    else (known, false)
