-- ===== src/Overlay/Support/Poll.antt =====
-- `PollSupportDataAsync`: the throttle, and the thread that it starts.
pub mod Laws
use l2voice_chat.Base.{
  ℕ, ◌+◌, Bool, true, false, [], ◌++◌, map, ltb, ◌==◌, if◌then◌else◌, Bytes, codes, decimal,
}
use l2voice_chat.Base.Int.{ℤ, pos, ltb_ℤ}
use l2voice_chat.Network.Commands.{decimal_ℤ}
use l2voice_chat.Overlay.Support.Types.{
  Support, Response, read_player_chat, read_admin_chat, read_items, read_ticket, read_group_msg,
  read_bug, read_bug_comment,
}

abbrev pub offline_text : Bytes
offline_text = codes "Conexao offline."

-- The call, and whether it starts a thread.
unfoldable pub poll_support_data : ℕ → Support → Support × Bool
poll_support_data now s =
    if ltb now (s.last_poll_ms + 2000)
    then (s, false)
    else if s.poll_active
    then (record s { last_poll_ms = now }, false)
    else (record s { last_poll_ms = now; poll_active = true }, true)

abbrev pub base_url : Bytes → Bytes
base_url host = codes "http://" ++ (host ++ codes ":50100/support.php?route=")

-- `baseUrl + route + "?player_id=" + id`
abbrev pub route_url : Bytes → Bytes → ℕ → Bytes
route_url host route id = base_url host ++ (route ++ (codes "?player_id=" ++ decimal id))

module _ (host : Bytes) (player_id : ℕ) (get : Bytes → Response) where
  unfoldable pub poll_player : Support → Support
  unfolding read_player_chat
  poll_player s =
      let response = get (route_url host (codes "/support/chat") player_id) in
      if response.status_code == 200
      then record s { player_chat = read_player_chat response.body; error = [] }
      else record s { error = offline_text }

  -- The chat that is open, if there is one.
  unfoldable pub poll_active_chat : Support → Support
  unfolding read_admin_chat decimal_ℤ
  poll_active_chat s =
      let url =
        route_url host (codes "/support/chat") player_id
        ++ (codes "&chat_id=" ++ decimal_ℤ s.admin_selected_chat_id) in
      let response = get url in
      if ltb_ℤ (pos 0) s.admin_selected_chat_id
      then (if response.status_code == 200
          then record s { admin_active_chat = read_admin_chat response.body }
          else s)
      else s

  unfoldable pub poll_group : Support → Support
  unfolding read_group_msg
  poll_group s =
      let response = get (route_url host (codes "/support/admin/group") player_id) in
      if response.status_code == 200
      then record s { admin_group_msgs = map read_group_msg (read_items response.body) }
      else s

  unfoldable pub poll_bugs : Support → Support
  unfolding read_bug
  poll_bugs s =
      let response = get (route_url host (codes "/support/admin/bugs") player_id) in
      if response.status_code == 200
      then record s { bug_reports = map read_bug (read_items response.body) }
      else s

  unfoldable pub poll_comments : Support → Support
  unfolding read_bug_comment decimal_ℤ
  poll_comments s =
      let url =
        route_url host (codes "/support/admin/bugs") player_id
        ++ (codes "&bug_id=" ++ decimal_ℤ s.admin_selected_bug_id) in
      let response = get url in
      if ltb_ℤ (pos 0) s.admin_selected_bug_id
      then (if response.status_code == 200
          then record s { bug_comments = map read_bug_comment (read_items response.body) }
          else s)
      else s

  -- The rest is asked for only if the tickets came.
  unfoldable pub poll_admin : Support → Support
  unfolding read_ticket poll_active_chat poll_group poll_bugs poll_comments
  poll_admin s =
      let response = get (route_url host (codes "/support/admin/tickets") player_id) in
      if response.status_code == 200
      then poll_comments (
          poll_bugs (
            poll_group (
              poll_active_chat (record s {
                admin_tickets = map read_ticket (read_items response.body);
                error = [];
              }))))
      else record s { error = offline_text }

  -- The thread.
  unfoldable pub poll_thread : Bool → Support → Support
  unfolding poll_player poll_admin
  poll_thread is_gm s = record (if is_gm then poll_admin s else poll_player s) {
    poll_active = false;
  }
