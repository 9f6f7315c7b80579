-- ===== src/Overlay/Draw/SupportWindow/Lines.antt =====
-- The inputs of the support window, and what a line of input sends.
use l2voice_chat.Base.{Bool, true, false, List, [], ◌∷◌, ◌++◌, Option, if◌then◌else◌, Bytes}
use l2voice_chat.Base.Int.{ℤ}
use l2voice_chat.Overlay.Support.{Support}
use l2voice_chat.Overlay.Support.Send.{Request}
use l2voice_chat.Overlay.Draw.{Forms, Chat}

-- A line of input with its button: the text after the player's typing, whether Enter was pressed in
-- it, and whether the button was.
pub record Line : Type 0 where
  pub text : Bytes
  pub entered : Bool
  pub clicked : Bool

-- What an input sends where it is asked to, and what is left in it.
unfoldable pub submit : Bool → Bytes → List Bytes × Bytes
submit asked [] = ([], [])
submit asked (c ∷ text) = if asked then ((c ∷ text) ∷ [], []) else ([], c ∷ text)

unfoldable pub submit_line : Line → List Bytes × Bytes
unfolding submit
submit_line l =
    let (first, left) = submit l.entered l.text in
    let (second, rest) = submit l.clicked left in (first ++ second, rest)

abbrev pub start : (Bytes → Request) → List Bytes → List Request
start send [] = []
start send (text ∷ texts) = send text ∷ start send texts

abbrev pub post : List Request → Chat → Chat
post rs c = record c { requests = c.requests ++ rs }

abbrev pub on_forms : (Forms → Forms) → Chat → Chat
on_forms f c = record c { forms = f c.forms }

abbrev pub on_known : (Support → Support) → Chat → Chat
on_known f c = record c { known = f c.known }

pub record PlayerInput : Type 0 where
  pub chat_button : Bool
  pub bug_button : Bool
  pub line : Line
  pub title : Bytes
  pub desc : Bytes
  pub cat : ℤ
  pub prio : ℤ
  pub submit : Bool

-- `close` is the one button of a ticket, to close it or to open it again.
pub record AdminInput : Type 0 where
  pub tickets_button : Bool
  pub staff_button : Bool
  pub bugs_button : Bool
  pub ticket : ℤ → Bool
  pub close : Bool
  pub reply : Line
  pub staff : Line
  pub bug : ℤ → Bool
  pub status : Option ℤ
  pub priority : Option ℤ
  pub comment : Line

abbrev pub is_empty_text : Bytes → Bool
is_empty_text [] = true
is_empty_text (c ∷ text) = false
