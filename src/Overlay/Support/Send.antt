-- ===== src/Overlay/Support/Send.antt =====
-- The `Send...Async` functions: the request that the thread posts, and what it does with the answer.
pub mod RoundTrip
use l2voice_chat.Base.{ℕ, [], ◌++◌, ◌==◌, if◌then◌else◌, Bytes, codes, decimal}
use l2voice_chat.Base.Int.{ℤ}
use l2voice_chat.Network.Commands.{decimal_ℤ}
use l2voice_chat.Overlay.Json.{escape_json}
use l2voice_chat.Overlay.Support.Types.{Support}
use l2voice_chat.Overlay.Support.Poll.{base_url}

pub record Request : Type 0 where
  pub url : Bytes
  pub body : Bytes

-- `{"player_id":N` and more members.
abbrev pub player_body : ℕ → Bytes → Bytes
player_body id more = codes "{\"player_id\":" ++ (decimal id ++ more)

-- `,"key":"text"`, with the text escaped.
abbrev pub text_member : Bytes → Bytes → Bytes → Bytes
text_member key text more =
    codes ",\"" ++ (key ++ (codes "\":\"" ++ (escape_json text ++ (codes "\"" ++ more))))

-- `,"key":N`
abbrev pub int_member : Bytes → ℤ → Bytes → Bytes
int_member key n more = codes ",\"" ++ (key ++ (codes "\":" ++ (decimal_ℤ n ++ more)))

abbrev pub post_to : Bytes → Bytes → Bytes → Request
post_to host route body = record { url = base_url host ++ route; body = body }

unfoldable pub send_player_message : Bytes → ℕ → Bytes → Request
unfolding decimal escape_json
send_player_message host id message =
    post_to host (codes "/support/chat")
      (player_body id (text_member (codes "message") message (codes "}")))

unfoldable pub send_report_bug : Bytes → ℕ → Bytes → Bytes → ℤ → ℤ → Request
unfolding decimal decimal_ℤ escape_json
send_report_bug host id title desc cat prio = post_to host (codes "/support/report_bug") (
    player_body id (
      text_member (codes "title") title (
        text_member (codes "description") desc
          (int_member (codes "category") cat (int_member (codes "priority") prio (codes "}"))))))

unfoldable pub send_admin_reply : Bytes → ℕ → ℤ → Bytes → Request
unfolding decimal decimal_ℤ escape_json
send_admin_reply host id chat_id message = post_to host (codes "/support/admin/reply") (
    player_body id
      (int_member (codes "chat_id") chat_id (text_member (codes "message") message (codes "}"))))

unfoldable pub send_admin_close_chat : Bytes → ℕ → ℤ → Request
unfolding decimal decimal_ℤ
send_admin_close_chat host id chat_id =
    post_to host (codes "/support/admin/close")
      (player_body id (int_member (codes "chat_id") chat_id (codes "}")))

unfoldable pub send_admin_reopen_chat : Bytes → ℕ → ℤ → Request
unfolding decimal decimal_ℤ
send_admin_reopen_chat host id chat_id =
    post_to host (codes "/support/admin/reopen")
      (player_body id (int_member (codes "chat_id") chat_id (codes "}")))

unfoldable pub send_admin_group_msg : Bytes → ℕ → Bytes → Request
unfolding decimal escape_json
send_admin_group_msg host id message =
    post_to host (codes "/support/admin/group")
      (player_body id (text_member (codes "message") message (codes "}")))

unfoldable pub send_bug_comment : Bytes → ℕ → ℤ → Bytes → Request
unfolding decimal decimal_ℤ escape_json
send_bug_comment host id bug_id comment = post_to host (codes "/support/admin/bug/comment") (
    player_body id
      (int_member (codes "bug_id") bug_id (text_member (codes "comment") comment (codes "}"))))

unfoldable pub send_bug_update : Bytes → ℕ → ℤ → ℤ → ℤ → ℤ → Request
unfolding decimal decimal_ℤ
send_bug_update host id bug_id status priority category =
    post_to host (codes "/support/admin/bug/update") (
      player_body id (
        int_member (codes "bug_id") bug_id (
          int_member (codes "status") status (
            int_member (codes "priority") priority
              (int_member (codes "category") category (codes "}"))))))

-- After an answer with this status: a success lets the next poll through at once.
unfoldable pub sent : ℕ → Support → Support
sent status_code s = if status_code == 200 then record s { last_poll_ms = 0 } else s

-- After the answer to `SendReportBugAsync`.
unfoldable pub bug_reported : ℕ → Support → Support
bug_reported status_code s =
    if status_code == 200
    then record s { success_msg = codes "Bug reportado!"; error = [] }
    else record s { error = codes "Erro ao enviar." }
