-- ===== src/Overlay/Draw/SupportWindow.antt =====
-- `DrawSupportWindow`: the support chat of a player, and the panel of a game master.
mod Lines
unfoldable pub use Lines.*
pub mod Laws
pub mod View
use l2voice_chat.Base.{
  ℕ, Bool, true, false, not, ◌&&◌, List, [], ◌∷◌, ◌++◌, Option, none, some, ◌==◌, if◌then◌else◌,
  Bytes,
}
use l2voice_chat.Base.Int.{ℤ, pos, ltb_ℤ}
use l2voice_chat.Audio.Float.{FloatOps}
use l2voice_chat.Voice.Panel.{snapshot_overlay_state}
use l2voice_chat.Overlay.Support.{Support, AdminTicket, BugReportData}
use l2voice_chat.Overlay.Support.Poll.{poll_support_data}
use l2voice_chat.Overlay.Support.Send.{
  Request, send_player_message, send_report_bug, send_admin_reply, send_admin_close_chat,
  send_admin_reopen_chat, send_admin_group_msg, send_bug_comment, send_bug_update,
}
use l2voice_chat.Overlay.Draw.{Forms, Chat, Moment, Ui, changed, pressed}
use l2voice_chat.Overlay.Draw.Position.{same_ℤ}
use l2voice_chat.Overlay.Draw.MiniList.{is_local_admin}

module _ (host : Bytes) (id : ℕ) where
  -- The chat of a player, the tab 0.
  unfoldable pub draw_player_chat : Line → Chat → Chat
  unfolding submit_line send_player_message
  draw_player_chat l c =
      let (texts, left) = submit_line l in
      post (start (send_player_message host id) texts)
        (on_forms (λ f. record f { chat_input = left }) c)

  -- The report of a bug, the tab 1: sent where there is a title and a description.
  unfoldable pub draw_bug_form : PlayerInput → Chat → Chat
  unfolding send_report_bug
  draw_bug_form i c =
      let typed =
        on_forms
          (λ f. record f {
            bug_title = i.title;
            bug_desc = i.desc;
            bug_cat = i.cat;
            bug_prio = i.prio;
          })
          c in
      if i.submit && (not (is_empty_text i.title) && not (is_empty_text i.desc))
      then post (send_report_bug host id i.title i.desc i.cat i.prio ∷ [])
          (on_forms (λ f. record f { bug_title = []; bug_desc = [] }) typed)
      else typed

  unfoldable pub draw_player : PlayerInput → Chat → Chat
  unfolding draw_player_chat draw_bug_form
  draw_player i c =
      let tab = if i.bug_button then 1 else if i.chat_button then 0 else c.forms.player_tab in
      let d = on_forms (λ f. record f { player_tab = tab }) c in
      if tab == 0 then draw_player_chat i.line d else if tab == 1 then draw_bug_form i d else d

  -- The loop over the tickets, each of which can be selected.
  unfoldable pub select_ticket : (ℤ → Bool) → List AdminTicket → Chat → Chat
  select_ticket click [] c = c
  select_ticket click (t ∷ ts) c = select_ticket click ts (
      pressed (click t.chat_id) (on_known (λ s. record s { admin_selected_chat_id = t.chat_id })) c)

  unfoldable pub select_bug : (ℤ → Bool) → List BugReportData → Chat → Chat
  select_bug click [] c = c
  select_bug click (b ∷ bs) c =
      select_bug click bs
        (pressed (click b.bug_id) (on_known (λ s. record s { admin_selected_bug_id = b.bug_id })) c)

  -- The ticket beside the list: what is asked goes to the chat that was read last.
  unfoldable pub draw_ticket : AdminInput → Chat → Chat
  unfolding submit_line send_admin_close_chat send_admin_reopen_chat send_admin_reply
  draw_ticket i c =
      let chat = c.known.admin_active_chat in
      let closing =
        if same_ℤ chat.status (pos 4)
        then send_admin_reopen_chat host id chat.id
        else send_admin_close_chat host id chat.id in
      let (texts, left) = submit_line i.reply in
      post (start (send_admin_reply host id chat.id) texts) (
        on_forms (λ f. record f { gm_reply_input = left })
          (pressed i.close (post (closing ∷ [])) c))

  unfoldable pub draw_tickets : AdminInput → Chat → Chat
  unfolding select_ticket draw_ticket
  draw_tickets i c =
      let d = select_ticket i.ticket c.known.admin_tickets c in
      if ltb_ℤ (pos 0) d.known.admin_selected_chat_id then draw_ticket i d else d

  unfoldable pub draw_staff : AdminInput → Chat → Chat
  unfolding submit_line send_admin_group_msg
  draw_staff i c =
      let (texts, left) = submit_line i.staff in
      post (start (send_admin_group_msg host id) texts)
        (on_forms (λ f. record f { staff_input = left }) c)

  unfoldable pub find_bug : ℤ → List BugReportData → Option BugReportData
  find_bug n [] = none
  find_bug n (b ∷ bs) = let rest = find_bug n bs in if same_ℤ b.bug_id n then some b else rest

  -- The details of a bug. Either choice is sent with the other value as it was read.
  unfoldable pub draw_bug : AdminInput → BugReportData → Chat → Chat
  unfolding submit_line send_bug_update send_bug_comment
  draw_bug i b c =
      let stated =
        changed i.status (λ x. post (send_bug_update host id b.bug_id x b.priority b.category ∷ []))
          c in
      let ranked =
        changed i.priority (λ x. post (send_bug_update host id b.bug_id b.status x b.category ∷ []))
          stated in
      let (texts, left) = submit_line i.comment in
      post (start (send_bug_comment host id b.bug_id) texts)
        (on_forms (λ f. record f { bug_comment_input = left }) ranked)

  unfoldable pub draw_bugs : AdminInput → Chat → Chat
  unfolding select_bug find_bug draw_bug
  draw_bugs i c =
      let bugs = c.known.bug_reports in
      let d = select_bug i.bug bugs c in
      if ltb_ℤ (pos 0) d.known.admin_selected_bug_id
      then elim (find_bug d.known.admin_selected_bug_id bugs) [ none ↦ d | some b ↦ draw_bug i b d ]
      else d

  unfoldable pub draw_admin : AdminInput → Chat → Chat
  unfolding draw_tickets draw_staff draw_bugs
  draw_admin i c =
      let tab =
        if i.bugs_button
        then 2
        else if i.staff_button
        then 1
        else if i.tickets_button
        then 0
        else c.forms.gm_tab in
      let d = on_forms (λ f. record f { gm_tab = tab }) c in
      if tab == 0
      then draw_tickets i d
      else if tab == 1
      then draw_staff i d
      else if tab == 2
      then draw_bugs i d
      else d

-- `PollSupportDataAsync`, with the thread that it starts.
unfoldable pub poll_now : ℕ → ℕ → Bool → Chat → Chat
unfolding poll_support_data
poll_now id now is_gm c =
    let (s, started) = poll_support_data now c.known in
    record c { known = s; polls = if started then c.polls ++ ((id, is_gm) ∷ []) else c.polls }

-- `shown` is what `Begin` answers, and `closed` whether the window was closed by its cross.
pub record SupportInput : Type 0 where
  pub shown : Bool
  pub closed : Bool
  pub player : PlayerInput
  pub admin : AdminInput

module _ (ops : FloatOps) where
  -- The open window.
  unfoldable pub draw_open_support : Bytes → Moment ops → SupportInput → Ui ops → Ui ops
  unfolding snapshot_overlay_state is_local_admin poll_now draw_player draw_admin
  draw_open_support host t input u =
      let st = snapshot_overlay_state ops t.now u.client in
      let (is_gm, c) = is_local_admin ops st u.client in
      let polled = poll_now st.player_id t.now is_gm u.chat in
      let asked = record u { client = c; chat = polled } in
      if input.shown
      then record asked {
        support_open = if input.closed then false else u.support_open;
        chat =
            if is_gm
            then draw_admin host st.player_id input.admin polled
            else draw_player host st.player_id input.player polled;
      }
      else asked

  unfoldable pub draw_support_window : Bytes → Moment ops → SupportInput → Ui ops → Ui ops
  unfolding draw_open_support
  draw_support_window host t input u =
      if u.support_open then draw_open_support host t input u else u
