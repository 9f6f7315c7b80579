-- ===== src/Overlay/Draw/Position/Throttle.antt =====
-- How often a place is written to voice.ini, and when it is right there.
use l2voice_chat.Base.{
  ℕ, ◌+◌, ◌<◌, Bool, true, false, List, [], ◌∷◌, some, ltb, if◌then◌else◌, ◌≡◌, refl, arith, ap,
  sym, not, if_intro, if_cases, ltb→lt, lt→ltb, Bool-cases, inl, inr, subst,
}
use l2voice_chat.Base.Int.{ℤ}
use l2voice_chat.Overlay.Draw.{Place}
use l2voice_chat.Overlay.Draw.Position.{same_ℤ, same_place, written_place, persist}

-- The times of the writes in a sequence of frames, each with its time and place.
unfoldable pub write_times : ℤ × ℤ → List (ℕ × (ℤ × ℤ)) → Place → List ℕ
unfolding persist
write_times saved [] p = []
write_times saved ((now, cur) ∷ frames) p =
    let (q, save) = persist saved now cur p in
    let rest = write_times saved frames q in if save then now ∷ rest else rest

-- Times that each come more than 250 milliseconds after the one before, and after `t`.
abbrev pub IsSpaced : ℕ → List ℕ → Type 0
IsSpaced t [] = Unit
IsSpaced t (w ∷ ws) = (t + 250 < w) × IsSpaced w ws

-- However a window is dragged, the writes of its place come more than 250 milliseconds apart, also
-- the first after the last one before.
pub write_times-IsSpaced :
    (saved : ℤ × ℤ) (frames : List (ℕ × (ℤ × ℤ))) (p : Place)
    → IsSpaced p.last_write_ms (write_times saved frames p)
unfolding write_times persist
write_times-IsSpaced saved [] p = tt
write_times-IsSpaced saved ((now, cur) ∷ frames) p =
    let known : Place = record p { written = some (written_place saved p) } in
    let stored : Place = record { written = some cur; last_write_ms = now } in
    let waits = write_times-IsSpaced saved frames known in
    let P = λ (x : Place × Bool).
      IsSpaced p.last_write_ms
        (if x.1 then now ∷ write_times saved frames x.0 else write_times saved frames x.0) in
    if_intro P (same_place cur (written_place saved p)) {x = (known, false)} waits (
      if_cases P (ltb (p.last_write_ms + 250) now) {x = (stored, true)} {y = (known, false)}
        (λ e. (ltb→lt (p.last_write_ms + 250) now e, write_times-IsSpaced saved frames stored))
        (λ e. waits))

same_ℤ_eq : (a b : ℤ) → same_ℤ a b ≡ true → a ≡ b
same_ℤ_eq a b e = ground arith

same_place_eq : (a b : ℤ × ℤ) → same_place a b ≡ true → a ≡ b
same_place_eq (x, y) (a, b) e = ground (arith, same_ℤ_eq x a, same_ℤ_eq y b)

-- A frame more than 250 milliseconds after the last write leaves the place of the window as the one
-- that was written, and writes it if, and only if, another was written before.
pub persist_settles :
    (saved : ℤ × ℤ) (now : ℕ) (cur : ℤ × ℤ) (p : Place)
    → p.last_write_ms + 250 < now
    → ((persist saved now cur p).0.written ≡ some cur)
      × ((persist saved now cur p).1 ≡ not (same_place cur (written_place saved p)))
unfolding persist
persist_settles saved now cur p late =
    let w = written_place saved p in
    let known : Place = record p { written = some w } in
    let stored : Place = record { written = some cur; last_write_ms = now } in
    let Settled = λ (x : Place × Bool) (b : Bool). (x.0.written ≡ some cur) × (x.1 ≡ not b) in
    let Shape = λ (b : Bool). Settled (if b then (known, false) else (stored, true)) b in
    subst
      (λ l.
        Settled
          (if same_place cur w
            then (known, false)
            else if l
            then (stored, true)
            else (known, false))
          (same_place cur w))
      (sym (lt→ltb (p.last_write_ms + 250) now late))
      (elim (Bool-cases (same_place cur w)) as (λ _. Shape (same_place cur w)) [
        | inl e ↦ subst Shape (sym e) (ap some (sym (same_place_eq cur w e)), refl)
        | inr e ↦ subst Shape (sym e) (refl, refl)
      ])
