-- ===== src/Overlay/Window/Binding.antt =====
-- How a key is bound: `HookedWndProc` over a sequence of messages, from the request of the panel.
use l2voice_chat.Base.{
  ℕ, Bool, true, false, leb, ◌/◌, ◌%◌, if◌then◌else◌, subst, sym, not, ◌&&◌, ◌||◌, List, [], ◌∷◌,
  ◌++◌, ◌≡◌, refl, ap, ◌∙◌, arith, ◌==◌, All,
}
use l2voice_chat.Base.Int.{pos}
use l2voice_chat.Voice.State.{Voice}
use l2voice_chat.Voice.Prefs.{
  set_ptt_proximity_vk, set_ptt_party_vk, set_ptt_clan_vk, set_ptt_ally_vk, ini_write_int,
}
use l2voice_chat.Overlay.Window.{
  Msg, Panel, release_display, captured_vk, is_cancel, bind_slot, pass_on, dispatch_msg,
  hooked_wnd_proc,
}
use l2voice_chat.Overlay.Window.Wm

-- The messages one after the other.
unfoldable pub handle_messages : {F : Type 0} → List Msg → Panel × Voice F → Panel × Voice F
handle_messages [] s = s
handle_messages (m ∷ ms) (p, v) =
    handle_messages ms ((hooked_wnd_proc m p v).1, (hooked_wnd_proc m p v).2)

-- The message is neither the toggle key nor `Escape` nor a key to bind for the procedure.
abbrev IsIdle : ℕ → Msg → Type 0
IsIdle toggle m =
    ((m.msg == Wm.keydown && m.wp == toggle) || (is_cancel m || not (captured_vk m == 0))) ≡ false

-- The message is a key or a button to bind for the procedure, and not the toggle key.
abbrev IsBindable : ℕ → Msg → Type 0
IsBindable toggle m =
    ((m.msg == Wm.keydown && m.wp == toggle) || (is_cancel m || captured_vk m == 0)) ≡ false

-- Shift, Ctrl and Alt are 16 to 18, and the left and right one of each 160 to 165.
abbrev is_shift : ℕ → Bool
is_shift vk = (leb 16 vk && leb vk 18) || (leb 160 vk && leb vk 165)

-- A message presses no key and no button but the left one: its number is not that of a key going
-- down (256), unless of Shift, Ctrl or Alt or without a code, nor that of the right button (516), of
-- the middle one (519) or of one at the side (523); and it is not the toggle key.
abbrev pub PressesNothing : ℕ → Msg → Type 0
PressesNothing toggle m =
    ((m.msg == 256 && (m.wp == toggle || not (m.wp == 0 || is_shift m.wp)))
      || (m.msg == 516 || (m.msg == 519 || m.msg == 523)))
    ≡ false

-- The code of the key or button that a message presses: a key that is neither the toggle key nor
-- Escape (27) nor Shift, Ctrl or Alt has its own, the right button 2, the middle one 4, and those at
-- the side 5 and 6.
pub data Presses (toggle : ℕ) (m : Msg) : ℕ → Type 0 where
  key :
      m.msg ≡ 256
      → (m.wp == 0 || (m.wp == toggle || (m.wp == 27 || is_shift m.wp))) ≡ false
      → Presses toggle m m.wp
  right : m.msg ≡ 516 → Presses toggle m 2
  middle : m.msg ≡ 519 → Presses toggle m 4
  side_first : m.msg ≡ 523 → m.wp / 65536 % 65536 ≡ 1 → Presses toggle m 5
  side_second : m.msg ≡ 523 → (m.wp / 65536 % 65536 == 1) ≡ false → Presses toggle m 6

PressesNothing-IsIdle : (toggle : ℕ) (m : Msg) → PressesNothing toggle m → IsIdle toggle m
unfolding captured_vk
PressesNothing-IsIdle toggle m h = ground arith

PressesNothing-All :
    (toggle : ℕ) (ms : List Msg) → All (PressesNothing toggle) ms → All (IsIdle toggle) ms
PressesNothing-All toggle [] h = tt
PressesNothing-All toggle (m ∷ ms) (h, hs) =
    (PressesNothing-IsIdle toggle m h, PressesNothing-All toggle ms hs)

Presses-captured_vk :
    (toggle k : ℕ) (m : Msg) → Presses toggle m k → (captured_vk m ≡ k) × IsBindable toggle m
unfolding captured_vk
Presses-captured_vk toggle _ m (key e h) = ground arith
Presses-captured_vk toggle _ m (right e) = ground arith
Presses-captured_vk toggle _ m (middle e) = ground arith
Presses-captured_vk toggle _ m (side_first e h) = ground arith
Presses-captured_vk toggle _ m (side_second e h) = ground arith

-- The four keys with which one speaks: slot 1 is that of the party, 2 of the clan, 3 of the alliance,
-- and any other of the speakers nearby. The one of the slot is the new one, the others stay, and so
-- do the settings of the channels and the connection.
pub record IsBound {F : Type 0} (slot k : ℕ) (before after : Voice F) : Type 0 where
  pub party : after.cfg.ptt_party ≡ (if slot == 1 then pos k else before.cfg.ptt_party)
  pub clan : after.cfg.ptt_clan ≡ (if slot == 2 then pos k else before.cfg.ptt_clan)
  pub ally : after.cfg.ptt_ally ≡ (if slot == 3 then pos k else before.cfg.ptt_ally)
  pub proximity :
      after.cfg.ptt_proximity
      ≡ (if slot == 1 || (slot == 2 || slot == 3) then before.cfg.ptt_proximity else pos k)
  pub prefs : after.ch_prefs ≡ before.ch_prefs
  pub net : after.net ≡ before.net

bind_slot-IsBound : {F : Type 0} (slot k : ℕ) (v : Voice F) → IsBound slot k v (bind_slot slot k v)
unfolding bind_slot set_ptt_proximity_vk set_ptt_party_vk set_ptt_clan_vk set_ptt_ally_vk
    ini_write_int
bind_slot-IsBound slot k v = ground arith

module _ {F : Type 0} where
  hooked_wnd_proc-closed :
      (m : Msg) (p : Panel) (v : Voice F)
      → p.capture_next_key ≡ false
      → ((hooked_wnd_proc m p v).1.capture_next_key ≡ false) × ((hooked_wnd_proc m p v).2 ≡ v)
  unfolding hooked_wnd_proc release_display dispatch_msg pass_on
  hooked_wnd_proc-closed m p v closed = ground arith

  hooked_wnd_proc-idle :
      (m : Msg) (p : Panel) (v : Voice F)
      → IsIdle p.toggle_vk m
      → ((hooked_wnd_proc m p v).1.toggle_vk ≡ p.toggle_vk)
        × ((hooked_wnd_proc m p v).1.capture_next_key ≡ p.capture_next_key)
        × ((hooked_wnd_proc m p v).1.capture_next_slot ≡ p.capture_next_slot)
        × ((hooked_wnd_proc m p v).2 ≡ v)
  unfolding hooked_wnd_proc release_display dispatch_msg pass_on
  hooked_wnd_proc-idle m p v idle = ground arith

  hooked_wnd_proc-bindable :
      (m : Msg) (p : Panel) (v : Voice F)
      → p.capture_next_key ≡ true
      → IsBindable p.toggle_vk m
      → ((hooked_wnd_proc m p v).1.capture_next_key ≡ false)
        × ((hooked_wnd_proc m p v).2 ≡ bind_slot p.capture_next_slot (captured_vk m) v)
  unfolding hooked_wnd_proc release_display dispatch_msg pass_on
  hooked_wnd_proc-bindable m p v waits bindable = ground arith

  handle_messages-closed :
      (ms : List Msg) (p : Panel) (v : Voice F)
      → p.capture_next_key ≡ false
      → ((handle_messages ms (p, v)).0.capture_next_key ≡ false)
        × ((handle_messages ms (p, v)).1 ≡ v)
  unfolding handle_messages
  handle_messages-closed [] p v closed = (closed, refl)
  handle_messages-closed (m ∷ ms) p v closed =
      let (still, same) = hooked_wnd_proc-closed m p v closed in
      let (ended, kept) =
        handle_messages-closed ms (hooked_wnd_proc m p v).1 (hooked_wnd_proc m p v).2 still in
      (ended, kept ∙ same)

  -- The run from a panel with this toggle key and this slot.
  handle_messages-binds :
      (toggle slot : ℕ) (before : List Msg) (m : Msg) (later : List Msg) (p : Panel) (v : Voice F)
      → p.toggle_vk ≡ toggle
      → p.capture_next_slot ≡ slot
      → p.capture_next_key ≡ true
      → All (IsIdle toggle) before
      → IsBindable toggle m
      → ((handle_messages (before ++ (m ∷ later)) (p, v)).0.capture_next_key ≡ false)
        × ((handle_messages (before ++ (m ∷ later)) (p, v)).1 ≡ bind_slot slot (captured_vk m) v)
  unfolding handle_messages
  handle_messages-binds toggle slot [] m later p v has_toggle has_slot waits idle bindable =
      let (done, bound) = hooked_wnd_proc-bindable m p v waits (rw has_toggle bindable) in
      let (ended, kept) =
        handle_messages-closed later (hooked_wnd_proc m p v).1 (hooked_wnd_proc m p v).2 done in
      (ended, kept ∙ bound ∙ ap (λ n. bind_slot n (captured_vk m) v) has_slot)
  handle_messages-binds toggle slot (b ∷ before) m later p v has_toggle has_slot waits idle
        bindable =
      let (t, c, n, same) = hooked_wnd_proc-idle b p v (rw has_toggle idle.0) in
      let (ended, bound) =
        handle_messages-binds toggle slot before m later (hooked_wnd_proc b p v).1
          (hooked_wnd_proc b p v).2 (t ∙ has_toggle) (n ∙ has_slot) (c ∙ waits) idle.1 bindable in
      (ended, bound ∙ ap (λ w. bind_slot slot (captured_vk m) w) same)

  -- While the panel waits for a key, the first message that presses one, or a button but the left
  -- one, ends the wait and is the key of the slot in question, with its code, and the other three
  -- keys, the settings of the channels and the connection stay: the messages before it, which press
  -- neither the toggle key nor another key (Shift, Ctrl and Alt apart) nor such a button, change none
  -- of these, and neither does any message behind it. The message that counts is neither the toggle key nor Escape, nor
  -- Shift, Ctrl or Alt.
  pub hooked_wnd_proc-binds :
      (before : List Msg) (m : Msg) (later : List Msg) (k : ℕ) (p : Panel) (v : Voice F)
      → p.capture_next_key ≡ true
      → All (PressesNothing p.toggle_vk) before
      → Presses p.toggle_vk m k
      → ((handle_messages (before ++ (m ∷ later)) (p, v)).0.capture_next_key ≡ false)
        × IsBound p.capture_next_slot k v (handle_messages (before ++ (m ∷ later)) (p, v)).1
  hooked_wnd_proc-binds before m later k p v waits idle presses =
      let (code, bindable) = Presses-captured_vk p.toggle_vk k m presses in
      let (ended, bound) =
        handle_messages-binds p.toggle_vk p.capture_next_slot before m later p v refl refl waits
          (PressesNothing-All p.toggle_vk before idle) bindable in
      (
        ended,
        subst (IsBound p.capture_next_slot k v)
            (sym (bound ∙ ap (λ c. bind_slot p.capture_next_slot c v) code))
            (bind_slot-IsBound p.capture_next_slot k v),
      )
