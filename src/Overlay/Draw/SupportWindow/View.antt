-- ===== src/Overlay/Draw/SupportWindow/View.antt =====
-- The texts that `DrawSupportWindow` shows of what the polls have read.
use l2voice_chat.Base.{
  ℕ, ◌||◌, List, [], ◌∷◌, ◌++◌, map, ◌==◌, if◌then◌else◌, Bytes, bytes_eq, codes, take,
}
use l2voice_chat.Base.Int.{ℤ, pos}
use l2voice_chat.Network.Commands.{decimal_ℤ}
use l2voice_chat.Overlay.Support.{
  SupportMsg, AdminTicket, AdminGroupMsg, BugReportData, BugCommentData,
}
use l2voice_chat.Overlay.Draw.Position.{same_ℤ}

-- The state of the player's own chat.
unfoldable pub status_text : ℕ → ℤ → Bytes
status_text lang status =
    if same_ℤ status (pos 0) || same_ℤ status (pos 3)
    then (if lang == 0 then codes "Aberto" else codes "Open")
    else if same_ℤ status (pos 1)
    then (if lang == 0 then codes "Aguardando Admin" else codes "Waiting for Admin")
    else if same_ℤ status (pos 2)
    then (if lang == 0 then codes "Aguardando Jogador" else codes "Waiting for Player")
    else if same_ℤ status (pos 4)
    then (if lang == 0 then codes "Encerrado" else codes "Closed")
    else codes "Nenhum"

-- A sender and a message, on one line.
abbrev pub said_line : Bytes → Bytes → Bytes × Bytes
said_line sender message = (sender ++ codes ":", message)

-- The log of the player's chat, where a game master is marked.
unfoldable pub player_log : List SupportMsg → List (Bytes × Bytes)
player_log msgs =
    map
      (λ m.
        if m.is_admin
        then (codes "[ADMIN] " ++ (m.sender ++ codes ":"), m.message)
        else said_line m.sender m.message)
      msgs

-- The log of the ticket that a game master has open.
unfoldable pub ticket_log : List SupportMsg → List (Bytes × Bytes)
ticket_log msgs = map (λ m. said_line m.sender m.message) msgs

-- A line of a list with its mark, in a buffer of 128 bytes.
abbrev pub marked : Bytes → Bytes → Bytes
marked mark name = take 127 (mark ++ (codes " " ++ name))

unfoldable pub ticket_label : AdminTicket → Bytes
ticket_label t =
    marked
      (if same_ℤ t.status (pos 4)
        then codes "[x]"
        else if t.unread_by_admin
        then codes "[!]"
        else codes "[ ]")
      t.char_name

unfoldable pub ticket_title : ℕ → ℤ → Bytes
unfolding decimal_ℤ
ticket_title lang id =
    (if lang == 0 then codes "Atendimento #" else codes "Ticket #") ++ decimal_ℤ id

-- The chat of the staff, where the messages of the system are apart.
unfoldable pub staff_log : List AdminGroupMsg → List (Bytes × Bytes)
unfolding bytes_eq
staff_log msgs =
    map
      (λ m.
        if bytes_eq m.sender (codes "[SYSTEM]")
        then (codes "[SISTEMA] " ++ m.message, [])
        else said_line m.sender m.message)
      msgs

unfoldable pub bug_label : BugReportData → Bytes
bug_label b =
    marked
      (if same_ℤ b.status (pos 2)
        then codes "[v]"
        else if same_ℤ b.status (pos 3)
        then codes "[x]"
        else codes "[*]")
      b.title

-- The lines above the choices of a bug.
unfoldable pub bug_lines : BugReportData → List Bytes
unfolding decimal_ℤ
bug_lines b =
    (codes "Bug #" ++ (decimal_ℤ b.bug_id ++ (codes ": " ++ b.title)))
    ∷ (codes "Reporter: " ++ b.reporter)
    ∷ (codes "Desc: " ++ b.description)
    ∷ []

unfoldable pub comment_log : List BugCommentData → List (Bytes × Bytes)
comment_log cs = map (λ c. said_line c.sender c.comment) cs
