-- ===== src/Overlay/Input/Compact.antt =====
-- The compaction in place keeps what is no button.
use l2voice_chat.Base.{
  ℕ, ◌+◌, Bool, true, false, not, List, [], ◌∷◌, ◌++◌, append_assoc, append-nil, some, ◌≡◌, refl,
  sym, ap, ◌∙◌, subst, arith, ◌==◌, if◌then◌else◌, take, keep, get_elem?, set, length,
  length-append, Bool-cases, inl, inr,
}
use l2voice_chat.Overlay.Input.{DeviceEvent, is_button, drop_buttons, hook_di_get_device_data}

get_elem?-append :
    {A : Type 0} (xs : List A) (x : A) (ys : List A)
    → get_elem? (xs ++ (x ∷ ys)) (length xs) ≡ some x
get_elem?-append [] x ys = refl
get_elem?-append (y ∷ xs) x ys = get_elem?-append xs x ys

set-append :
    {A : Type 0} (xs : List A) (x y : A) (ys : List A)
    → set (xs ++ (x ∷ ys)) (length xs) y ≡ xs ++ (y ∷ ys)
set-append [] x y ys = refl
set-append (z ∷ xs) x y ys = ap (λ t. z ∷ t) (set-append xs x y ys)

take-length : {A : Type 0} (xs ys : List A) → take (length xs) (xs ++ ys) ≡ xs
take-length [] ys = refl
take-length (x ∷ xs) ys = ap (λ t. x ∷ t) (take-length xs ys)

abbrev passes : DeviceEvent → Bool
passes e = not (is_button e)

-- What is passed over behind an event that is written to the first place of `junk`.
behind : List DeviceEvent → DeviceEvent → List DeviceEvent
behind [] e = []
behind (j ∷ junk) e = junk ++ (e ∷ [])

length-behind : (junk : List DeviceEvent) (e : DeviceEvent) → length (behind junk e) ≡ length junk
unfolding behind
length-behind [] e = refl
length-behind (j ∷ junk) e = omega (arith, length-append junk (e ∷ []))

-- The event is put in its place.
placed :
    (done junk : List DeviceEvent) (e : DeviceEvent) (rest : List DeviceEvent)
    → (if length done == length done + length junk
        then done ++ (junk ++ (e ∷ rest))
        else set (done ++ (junk ++ (e ∷ rest))) (length done) e)
      ≡ (done ++ (e ∷ [])) ++ (behind junk e ++ rest)
unfolding behind
placed done [] e rest =
    let here : (length done == length done + 0) ≡ true = ground arith in
    rw here (sym (append_assoc done (e ∷ []) rest))
placed done (j ∷ junk) e rest =
    let apart : (length done == length done + length (j ∷ junk)) ≡ false = ground arith in
    rw apart (
      set-append done j e (junk ++ (e ∷ rest))
      ∙ ap (λ t. done ++ (e ∷ t)) (sym (append_assoc junk (e ∷ []) rest))
      ∙ sym (append_assoc done (e ∷ []) ((junk ++ (e ∷ [])) ++ rest)))

-- What the loop gives in the end: the places below `count` hold `kept`.
abbrev Holds : List DeviceEvent → ℕ × List DeviceEvent → Type 0
Holds kept r = (r.0 ≡ length kept) × (take r.0 r.1 ≡ kept)

found :
    (done junk : List DeviceEvent) (e : DeviceEvent) (rest : List DeviceEvent) (i : ℕ)
    (events : List DeviceEvent)
    → i ≡ length done + length junk
    → events ≡ done ++ (junk ++ (e ∷ rest))
    → get_elem? events i ≡ some e
found done junk e rest i events at holds =
    rw (holds, at, sym (length-append done junk), sym (append_assoc done junk (e ∷ rest)))
      (get_elem?-append (done ++ junk) e rest)

-- With `done` written, `junk` passed over and `rest` to come, the loop keeps `done` and what passes
-- of `rest`.
drop_buttons-Holds :
    (done junk rest : List DeviceEvent) (i w : ℕ) (events : List DeviceEvent)
    → i ≡ length done + length junk
    → w ≡ length done
    → events ≡ done ++ (junk ++ rest)
    → Holds (done ++ keep passes rest) (drop_buttons (length rest) i w events)
unfolding drop_buttons
drop_buttons-Holds done junk [] i w events at wrote holds =
    rw append-nil (wrote, rw (wrote, holds) (take-length done (junk ++ [])))
drop_buttons-Holds done junk (e ∷ rest) i w events at wrote holds =
    rw (found done junk e rest i events at holds, drop_buttons)
      (elim (Bool-cases (is_button e)) [
        | inl button ↦ rw button (
            drop_buttons-Holds done (junk ++ (e ∷ [])) rest (i + 1) w events
              (omega (arith, length-append junk (e ∷ []))) wrote
              (holds ∙ ap (λ t. done ++ t) (sym (append_assoc junk (e ∷ []) rest))))
        | inr other ↦ rw other (
            subst
              (λ kept. Holds kept (
                drop_buttons (length rest) (i + 1) (w + 1)
                  (if w == i then events else set events w e)))
              (append_assoc done (e ∷ []) (keep passes rest))
              (drop_buttons-Holds (done ++ (e ∷ [])) (behind junk e) rest (i + 1) (w + 1)
                (if w == i then events else set events w e)
                (omega (arith, length-append done (e ∷ []), length-behind junk e))
                (omega (arith, length-append done (e ∷ [])))
                (rw (wrote, at, holds) (placed done junk e rest))))
      ])

-- While the overlay has the mouse, the buffered data of a mouse that the game gets are its events
-- without those of buttons, in their order: so many are counted, and they stand in front.
pub hook_di_get_device_data-keep :
    (events : List DeviceEvent)
    → let (count, buffer) = hook_di_get_device_data true false (length events) events in
      (count ≡ length (keep (λ e. not (is_button e)) events))
      × (take count buffer ≡ keep (λ e. not (is_button e)) events)
unfolding hook_di_get_device_data
hook_di_get_device_data-keep events = drop_buttons-Holds [] [] events 0 0 events refl refl refl
