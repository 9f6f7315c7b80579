-- ===== src/Overlay/Support/Types.antt =====
-- What the support chat knows, and how its answers are read.
use l2voice_chat.Base.{
  ℕ, ◌-◌, ◌%◌, ◌^◌, Bool, false, List, ◌++◌, map, ltb, ◌==◌, if◌then◌else◌, Bytes, codes,
}
use l2voice_chat.Base.Int.{ℤ, pos, negsuc, ltb_ℤ}
use l2voice_chat.Overlay.Json.{json_extract_string, json_extract_int, json_extract_array}

pub record SupportMsg : Type 0 where
  pub sender : Bytes
  pub is_admin : Bool
  pub message : Bytes
  pub timestamp : ℤ

pub record SupportChatData : Type 0 where
  pub id : ℤ
  pub status : ℤ
  pub unread_by_player : Bool
  pub unread_count : ℤ
  pub messages : List SupportMsg

pub record AdminTicket : Type 0 where
  pub chat_id : ℤ
  pub char_id : ℤ
  pub char_name : Bytes
  pub status : ℤ
  pub last_message_at : ℤ
  pub unread_by_admin : Bool
  pub unread_count : ℤ

pub record AdminGroupMsg : Type 0 where
  pub sender : Bytes
  pub message : Bytes
  pub timestamp : ℤ

pub record BugReportData : Type 0 where
  pub bug_id : ℤ
  pub title : Bytes
  pub description : Bytes
  pub reporter : Bytes
  pub category : ℤ
  pub priority : ℤ
  pub assigned_to : ℤ
  pub status : ℤ
  pub created_at : ℤ
  pub last_updated : ℤ

pub record BugCommentData : Type 0 where
  pub comment_id : ℤ
  pub sender : Bytes
  pub comment : Bytes
  pub timestamp : ℤ

-- The globals of the support chat that the polls and the sends touch.
pub record Support : Type 0 where
  pub last_poll_ms : ℕ
  pub poll_active : Bool
  pub player_chat : SupportChatData
  pub admin_tickets : List AdminTicket
  pub admin_selected_chat_id : ℤ
  pub admin_active_chat : SupportChatData
  pub admin_group_msgs : List AdminGroupMsg
  pub bug_reports : List BugReportData
  pub admin_selected_bug_id : ℤ
  pub bug_comments : List BugCommentData
  pub error : Bytes
  pub success_msg : Bytes

pub record Response : Type 0 where
  pub status_code : ℕ
  pub body : Bytes

-- The `int` of 32 bits with the value's low bits.
unfoldable pub int_of_word : ℕ → ℤ
int_of_word w = if ltb w (2 ^ 31) then pos w else negsuc (2 ^ 32 - 1 - w)

unfoldable pub to_int : ℤ → ℤ
unfolding int_of_word
to_int (pos n) = int_of_word (n % 2 ^ 32)
to_int (negsuc n) = int_of_word (2 ^ 32 - 1 - n % 2 ^ 32)

abbrev pub int_field : Bytes → Bytes → ℤ
int_field item key = to_int (json_extract_int item key)

abbrev pub is_one : ℤ → Bool
is_one (pos n) = n == 1
is_one (negsuc n) = false

unfoldable pub read_msg : Bytes → SupportMsg
unfolding json_extract_string json_extract_int
read_msg item = record {
  sender = json_extract_string item (codes "sender");
  is_admin = is_one (json_extract_int item (codes "is_admin"));
  message = json_extract_string item (codes "message");
  timestamp = json_extract_int item (codes "timestamp");
}

abbrev pub read_messages : Bytes → List SupportMsg
read_messages body = map read_msg (json_extract_array body (codes "messages"))

-- The player's own chat.
unfoldable pub read_player_chat : Bytes → SupportChatData
unfolding to_int json_extract_int json_extract_array read_msg
read_player_chat body =
    let unread = int_field body (codes "unread_by_player") in
    record {
      id = int_field body (codes "chat_id");
      status = int_field body (codes "status");
      unread_by_player = ltb_ℤ (pos 0) unread;
      unread_count = unread;
      messages = read_messages body;
    }

-- The chat that a game master has open.
unfoldable pub read_admin_chat : Bytes → SupportChatData
unfolding to_int json_extract_int json_extract_array read_msg
read_admin_chat body = record {
  id = int_field body (codes "chat_id");
  status = int_field body (codes "status");
  unread_by_player = is_one (json_extract_int body (codes "unread_by_player"));
  unread_count = pos 0;
  messages = read_messages body;
}

-- The objects of an answer that is an array.
abbrev pub read_items : Bytes → List Bytes
read_items body = json_extract_array (codes "{\"items\":" ++ (body ++ codes "}")) (codes "items")

unfoldable pub read_ticket : Bytes → AdminTicket
unfolding to_int json_extract_int json_extract_string
read_ticket item =
    let unread = int_field item (codes "unread_by_admin") in
    record {
      chat_id = int_field item (codes "chat_id");
      char_id = int_field item (codes "charId");
      char_name = json_extract_string item (codes "char_name");
      status = int_field item (codes "status");
      last_message_at = json_extract_int item (codes "last_message_at");
      unread_by_admin = ltb_ℤ (pos 0) unread;
      unread_count = unread;
    }

unfoldable pub read_group_msg : Bytes → AdminGroupMsg
unfolding json_extract_int json_extract_string
read_group_msg item = record {
  sender = json_extract_string item (codes "sender");
  message = json_extract_string item (codes "message");
  timestamp = json_extract_int item (codes "timestamp");
}

unfoldable pub read_bug : Bytes → BugReportData
unfolding to_int json_extract_int json_extract_string
read_bug item = record {
  bug_id = int_field item (codes "bug_id");
  title = json_extract_string item (codes "title");
  description = json_extract_string item (codes "description");
  reporter = json_extract_string item (codes "reporter");
  category = int_field item (codes "category");
  priority = int_field item (codes "priority");
  assigned_to = int_field item (codes "assigned_to");
  status = int_field item (codes "status");
  created_at = json_extract_int item (codes "created_at");
  last_updated = json_extract_int item (codes "last_updated");
}

unfoldable pub read_bug_comment : Bytes → BugCommentData
unfolding to_int json_extract_int json_extract_string
read_bug_comment item = record {
  comment_id = int_field item (codes "comment_id");
  sender = json_extract_string item (codes "sender");
  comment = json_extract_string item (codes "comment");
  timestamp = json_extract_int item (codes "timestamp");
}
