-- ===== src/Overlay/Draw/SupportWindow/Laws.antt =====
-- What the support window sends, and for whom.
use l2voice_chat.Base.{
  ℕ, Bool, ◌⊎◌, false, not, ◌&&◌, ◌||◌, List, [], ◌∷◌, ◌++◌, All, if◌then◌else◌, Bytes, ◌≡◌, arith,
}
use l2voice_chat.Base.Int.{ℤ}
use l2voice_chat.Overlay.Support.Send.{Request, send_player_message, send_report_bug}
use l2voice_chat.Overlay.Draw.{Chat}
use l2voice_chat.Overlay.Draw.SupportWindow.{Line, submit, submit_line, is_empty_text}

-- A line of input sends its text at most once, also where Enter and the button come together; it
-- sends it if, and only if, one of them comes and there is a text, and it is empty afterwards; else
-- the text stays.
pub submit_line_lem :
    (l : Line)
    → submit_line l ≡ (
        if not (is_empty_text l.text) && (l.entered || l.clicked)
        then (l.text ∷ [], [])
        else ([], l.text))
unfolding submit_line submit
submit_line_lem l = ground arith

-- What a player may ask of the service: a message in the own chat, and the report of a bug, neither
-- of them without a text.
pub data IsPlayerRequest (host : Bytes) (id : ℕ) : Request → Type 0 where
  message :
      (text : Bytes)
      → is_empty_text text ≡ false
      → IsPlayerRequest host id (send_player_message host id text)
  report :
      (title desc : Bytes) (cat prio : ℤ)
      → is_empty_text title ≡ false
      → is_empty_text desc ≡ false
      → IsPlayerRequest host id (send_report_bug host id title desc cat prio)

-- The requests of the second are those of the first with more of a player.
abbrev pub Asks : Bytes → ℕ → List Request → List Request → Type 0
Asks host id before after =
    (more : List Request) × (after ≡ before ++ more) × All (IsPlayerRequest host id) more

-- At most one poll more, as the player with this number, who is no game master.
abbrev pub PollsAsPlayer : ℕ → List (ℕ × Bool) → List (ℕ × Bool) → Type 0
PollsAsPlayer id before after = (after ≡ before) ⊎ (after ≡ before ++ ((id, false) ∷ []))

-- What the window of a player may add to what is asked and polled.
abbrev pub AsksAsPlayer : Bytes → ℕ → Chat → Chat → Type 0
AsksAsPlayer host id before after =
    Asks host id before.requests after.requests × PollsAsPlayer id before.polls after.polls
