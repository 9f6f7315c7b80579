-- ===== src/Network/Session/Tests.antt =====
-- A session at work.
use l2voice_chat.Base.{
  ℕ, ◌-◌, ◌≤◌, true, [], ◌∷◌, ◌++◌, ◌≡◌, refl, arith, some, codes, length, drop, keep, decimal, min,
}
use l2voice_chat.Base.Int.{pos}
use l2voice_chat.Json.{make_auth_json}
use l2voice_chat.Network.State.{Net, initial, text}
use l2voice_chat.Network.Commands.{send_clan_set_mode}
use l2voice_chat.Network.Handle.{handle_ws_message}
use l2voice_chat.Network.Handle.Pong.{pong_text, handle_ws_message-pong}
use l2voice_chat.Network.Handle.AuthOk.{auth_ok_text, handle_ws_message-auth_ok}
use l2voice_chat.Network.Toasts.{is_live, new_toast, add_toast}
use l2voice_chat.Network.Toasts.Bounds.{add_toast_lem}
use l2voice_chat.Network.Session.{Hooks, opened, handle_event, handle_open, set_client_ports}
use l2voice_chat.Network.Session.Auth.{handle_open_once}
use l2voice_chat.Network.Session.Sound.{IsSound}
use l2voice_chat.Network.Session.Reach.{Reach, fresh, next, report, event, mode, Reach-IsSound}

-- Callbacks that do nothing.
abbrev quiet : Hooks
quiet = record {
  env = record { now = 10; lang = 1; on_auth = λ n. n };
  on_ws_open = λ n. n;
  on_packet = λ p n. n;
}

abbrev online : Net
online = record initial { connected = true; session_id = 7; udp_port = 9 }

handle_open_once_example :
    ((handle_open (set_client_ports (50001 ∷ []) (codes "Ana")) online).sent
      ≡ [] ++ (text (make_auth_json (50001 ∷ []) (codes "Ana")) ∷ []))
    × ((handle_open (set_client_ports (50001 ∷ []) (codes "Ana")) online).auth_sent ≡ true)
handle_open_once_example = handle_open_once online 50001 [] (codes "Ana")

auth_text :
    make_auth_json (50001 ∷ 80 ∷ []) (codes "Ana")
    ≡ codes "{\"type\":\"auth\",\"ports\":[50001,80],\"char_name\":\"Ana\"}"
unfolding make_auth_json
auth_text = refl

add_toast_lem_example :
    ((add_toast 5 (codes "hi") 0 4000 online).toasts
      ≡ drop (length (keep (is_live 5) online.toasts) - 4) (keep (is_live 5) online.toasts)
        ++ (new_toast 5 (codes "hi") 0 4000 online ∷ []))
    × (length (add_toast 5 (codes "hi") 0 4000 online).toasts ≤ 5)
add_toast_lem_example = add_toast_lem 5 (codes "hi") 0 4000 online

-- The same callbacks at any time.
abbrev quiet_at : ℕ → Hooks
quiet_at now = record quiet { env = record { now = now; lang = 1; on_auth = λ n. n } }

-- Ports reported before the connection opens, at 20 ms, and a mode that is asked for then.
reached :
    Reach quiet_at
      (send_clan_set_mode 2 (handle_open (λ n. n) (set_client_ports (80 ∷ []) [] initial)))
unfolding handle_event
reached = next (next (next fresh (report (80 ∷ []) [])) (event 20 opened refl)) (mode 2)

Reach-IsSound_example :
    IsSound (send_clan_set_mode 2 (handle_open (λ n. n) (set_client_ports (80 ∷ []) [] initial)))
Reach-IsSound_example = Reach-IsSound quiet_at (λ i n v. v) (λ i n v. v) (λ i p n v. v) reached

-- The address 1.2.3.4, port 17668.
auth_ok_example_text :
    auth_ok_text 7 b'1' (codes ".2.3.4") 17668 42
    ≡ codes
        "{\"type\":\"auth_ok\",\"session_id\":7,\"udp_endpoint\":\"1.2.3.4:17668\",\"your_player_id\":42}"
unfolding decimal
auth_ok_example_text = refl

handle_ws_message-auth_ok_example :
    handle_ws_message quiet.env (auth_ok_text 7 b'1' (codes ".2.3.4") 17668 42) initial
    ≡ some (record initial {
      session_id = 7;
      player_id = 42;
      udp_host = codes "1.2.3.4";
      udp_port = 17668;
    })
handle_ws_message-auth_ok_example =
    handle_ws_message-auth_ok 7 b'1' (codes ".2.3.4") 17668 42 refl
      (refl, (refl, (refl, (refl, (refl, (refl, tt)))))) quiet.env initial (omega arith)
      (omega arith) (omega arith) (omega arith)

handle_ws_message-pong_example :
    handle_ws_message quiet.env (pong_text 3) initial
    ≡ some (record initial { last_rtt_ms = pos (min (10 - 3) 99999) })
handle_ws_message-pong_example =
    handle_ws_message-pong quiet.env 3 initial (omega arith) (omega arith) (omega arith)
