-- ===== src/Overlay/Support/Poll/Laws.antt =====
-- How often the chat polls, and what a poll does without an answer.
use l2voice_chat.Base.{
  ℕ, ◌+◌, Bool, true, false, ◌≡◌, refl, ap, ◌∙◌, arith, leb, ◌==◌, Bytes, codes,
}
use l2voice_chat.Overlay.Support.{Support, Response}
use l2voice_chat.Overlay.Support.Poll.{
  poll_support_data, poll_player, poll_admin, poll_thread, offline_text, route_url,
}

poll_thread_offline :
    (host : Bytes) (player_id : ℕ) (get : Bytes → Response) (is_gm : Bool) (s : Support)
    → ((url : Bytes) → ((get url).status_code == 200) ≡ false)
    → poll_thread host player_id get is_gm s
      ≡ record s { error = offline_text; poll_active = false }
unfolding poll_thread
poll_thread_offline host player_id get true s dead =
    unfold poll_admin in rw (dead (route_url host (codes "/support/admin/tickets") player_id)) refl
poll_thread_offline host player_id get false s dead =
    unfold poll_player in rw (dead (route_url host (codes "/support/chat") player_id)) refl

-- The state in which a call that starts a thread leaves the chat.
poll_support_data_started :
    (now : ℕ) (s : Support)
    → (poll_support_data now s).1 ≡ true
    → (poll_support_data now s).0 ≡ record s { last_poll_ms = now; poll_active = true }
unfolding poll_support_data
poll_support_data_started now s started = ground arith

-- With no thread under way, the throttle decides.
poll_support_data_free :
    (now : ℕ) (s : Support)
    → s.poll_active ≡ false
    → (poll_support_data now s).1 ≡ leb (s.last_poll_ms + 2000) now
unfolding poll_support_data
poll_support_data_free now s free = ground arith

-- A call that starts a poll, and a server that answers no request with the status 200, or is not
-- there: the thread leaves all that the chat knows as it was, for a player as for a game master, and
-- reports that it is offline. And where no call comes while that thread is under way, the next call
-- behind it starts a poll if, and only if, two seconds have passed since the one that started it.
pub poll_thread-poll_support_data :
    (now later : ℕ) (host : Bytes) (player_id : ℕ) (get : Bytes → Response) (is_gm : Bool)
    (s : Support)
    → (poll_support_data now s).1 ≡ true
    → ((url : Bytes) → ((get url).status_code == 200) ≡ false)
    → let polled = poll_thread host player_id get is_gm (poll_support_data now s).0 in
      (polled ≡ record s { last_poll_ms = now; error = offline_text; poll_active = false })
      × ((poll_support_data later polled).1 ≡ leb (now + 2000) later)
poll_thread-poll_support_data now later host player_id get is_gm s started dead =
    let began = poll_support_data_started now s started in
    let ended =
      ap (poll_thread host player_id get is_gm) began
      ∙ poll_thread_offline host player_id get is_gm _ dead in
    (
      ended,
      ap (λ t. (poll_support_data later t).1) ended
          ∙ poll_support_data_free later
              (record s { last_poll_ms = now; error = offline_text; poll_active = false }) refl,
    )
