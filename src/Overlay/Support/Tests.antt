-- ===== src/Overlay/Support/Tests.antt =====
-- The support chat on concrete answers.
use l2voice_chat.Base.{true, false, [], ◌∷◌, ◌≡◌, refl, arith, length, leb, Bytes, codes}
use l2voice_chat.Base.Int.{pos}
use l2voice_chat.Overlay.Json.{json_extract_string, json_extract_int, json_extract_array}
use l2voice_chat.Overlay.Support.{Support, SupportChatData, Response}
use l2voice_chat.Overlay.Support.Poll.{poll_support_data, poll_thread, offline_text}
use l2voice_chat.Overlay.Support.Poll.Laws.{poll_thread-poll_support_data}
use l2voice_chat.Overlay.Support.Send.{send_player_message}
use l2voice_chat.Overlay.Support.Send.RoundTrip.{send_player_message-extract}

abbrev no_chat : SupportChatData
no_chat = record {
  id = pos 0;
  status = pos 0;
  unread_by_player = false;
  unread_count = pos 0;
  messages = [];
}

abbrev support : Support
support = record {
  last_poll_ms = 0;
  poll_active = false;
  player_chat = no_chat;
  admin_tickets = [];
  admin_selected_chat_id = pos 0;
  admin_active_chat = no_chat;
  admin_group_msgs = [];
  bug_reports = [];
  admin_selected_bug_id = pos 0;
  bug_comments = [];
  error = [];
  success_msg = [];
}

abbrev host : Bytes
host = codes "10.0.0.1"

-- A server that answers everything with 503.
abbrev unavailable : Bytes → Response
unavailable url = record { status_code = 503; body = codes "busy" }

-- A server with one message in the player's chat.
abbrev greeting : Bytes → Response
greeting url = record {
  status_code = 200;
  body =
      codes
        "{\"chat_id\":4,\"status\":1,\"unread_by_player\":2,\"messages\":[{\"sender\":\"GM\",\"is_admin\":1,\"message\":\"oi\",\"timestamp\":99}]}";
}

poll_thread-greeting : (poll_thread host 7 greeting false support).player_chat ≡ record {
  id = pos 4;
  status = pos 1;
  unread_by_player = true;
  unread_count = pos 2;
  messages =
      record { sender = codes "GM"; is_admin = true; message = codes "oi"; timestamp = pos 99 }
      ∷ [];
}
unfolding poll_thread
poll_thread-greeting = refl

poll_thread-poll_support_data_example :
    let polled = poll_thread host 7 unavailable true (poll_support_data 5000 support).0 in
    (polled ≡ record support { last_poll_ms = 5000; error = offline_text; poll_active = false })
    × ((poll_support_data 7000 polled).1 ≡ leb 7000 7000)
unfolding poll_support_data
poll_thread-poll_support_data_example =
    poll_thread-poll_support_data 5000 7000 host 7 unavailable true support refl (λ url. refl)

-- A quote, a backslash and a line end in the message.
abbrev message : Bytes
message = b'a' ∷ b'"' ∷ 92 ∷ 10 ∷ b'b' ∷ []

send_player_message-extract_example :
    (json_extract_int (send_player_message host 7 message).body (codes "player_id") ≡ pos 7)
    × (json_extract_string (send_player_message host 7 message).body (codes "message") ≡ message)
send_player_message-extract_example =
    send_player_message-extract host 7 message (omega arith)
      (refl, (refl, (refl, (refl, (refl, tt)))))

-- A brace in a text is counted: the three messages come back as one object.
json_extract_array_brace :
    length (
      json_extract_array
        (codes "{\"messages\":[{\"message\":\":{\"},{\"message\":\"b\"},{\"message\":\"c\"}]}")
        (codes "messages"))
    ≡ 1
unfolding json_extract_array
json_extract_array_brace = refl

-- A carriage return comes back as a letter.
send_player_message_return :
    json_extract_string (send_player_message host 7 (13 ∷ [])).body (codes "message") ≡ codes "r"
unfolding json_extract_string send_player_message
send_player_message_return = refl
