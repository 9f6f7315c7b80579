-- ===== src/Network/Session/Sound.antt =====
-- Which states of the session are sound, and that the handlers of voice_network.cpp keep them so.
use l2voice_chat.Base.{
  ℕ, ◌≤◌, true, false, List, ◌≡◌, refl, subst, arith, Option, none, some, Bytes, length, Bool-cases,
  Option-cases, if_intro, inl, inr, ◌==◌, codes,
}
use l2voice_chat.Json.{extract_number, extract_string}
use l2voice_chat.Network.State.{Net, initial}
use l2voice_chat.Network.Receive.{
  Env, handle_client_state, handle_notification, query_muter, stoi, word16, split_colon,
}
use l2voice_chat.Network.Handle.{
  handle_ws_message, handle_auth_ok, handle_pong, handle_name_result, handle_player_name_result,
  authorized,
}
use l2voice_chat.Network.Toasts.{add_toast}
use l2voice_chat.Network.Toasts.Bounds.{add_toast_lem}
use l2voice_chat.Network.Session.{try_send_auth, set_client_ports, handle_close}

-- An authentication counts as sent only on an open connection; a session is known only with the
-- port that came with it; and the queue of toasts is short.
pub record IsSound (n : Net) : Type 0 where
  pub authenticated : n.auth_sent ≡ true → n.connected ≡ true
  pub endpoint : n.udp_port ≡ 0 → n.session_id ≡ 0
  pub few_toasts : length n.toasts ≤ 5

pub initial-IsSound : IsSound initial
initial-IsSound = record { authenticated = λ h. cc; endpoint = λ h. refl; few_toasts = omega arith }

pub set_client_ports-IsSound :
    (ports : List ℕ) (name : Bytes) {n : Net} → IsSound n → IsSound (set_client_ports ports name n)
unfolding set_client_ports
set_client_ports-IsSound ports name v = ground arith

pub try_send_auth-IsSound : {n : Net} → IsSound n → IsSound (try_send_auth n)
unfolding try_send_auth
try_send_auth-IsSound v = ground arith

add_toast-IsSound :
    (now : ℕ) (text : Bytes) (severity ttl : ℕ) {n : Net}
    → IsSound n
    → IsSound (add_toast now text severity ttl n)
unfolding add_toast
add_toast-IsSound now text severity ttl {n} v = record {
  authenticated = v.authenticated;
  endpoint = v.endpoint;
  few_toasts = (add_toast_lem now text severity ttl n).1;
}

query_muter-IsSound : (from : ℕ) {n : Net} → IsSound n → IsSound (query_muter from n)
unfolding query_muter
query_muter-IsSound from v = ground arith

handle_notification-IsSound :
    (env : Env) (s : Bytes) {n : Net} → IsSound n → IsSound (handle_notification env s n)
unfolding handle_notification
handle_notification-IsSound env s v =
    if_intro IsSound _ (add_toast-IsSound _ _ _ _ (query_muter-IsSound _ v))
      (add_toast-IsSound _ _ _ _ v)

-- The result of a step that may throw.
pub data OkSound : Option Net → Type 0 where
  threw : OkSound none
  sound : {n : Net} → IsSound n → OkSound (some n)

pub IsSound-some : {o : Option Net} {n : Net} → OkSound o → o ≡ some n → IsSound n
IsSound-some threw e = cc
IsSound-some {n} (sound {n = m} v) e = let p : m ≡ n = cc in subst IsSound p v

abbrev pub Keeps : (Net → Net) → Type 0
Keeps f = (n : Net) → IsSound n → IsSound (f n)

authorized-IsSound :
    (sid : ℕ) (pid : Option ℕ) (host : Bytes) (port : ℕ) {n : Net}
    → (port == 0) ≡ false
    → IsSound n
    → IsSound (authorized sid pid host port n)
authorized-IsSound sid pid host port h v = record {
  authenticated = v.authenticated;
  endpoint = λ e. absurd (ground arith);
  few_toasts = v.few_toasts;
}

handle_name_result-IsSound : (s : Bytes) {n : Net} → IsSound n → IsSound (handle_name_result s n)
unfolding handle_name_result
handle_name_result-IsSound s v = record {
  authenticated = v.authenticated;
  endpoint = v.endpoint;
  few_toasts = v.few_toasts;
}

handle_player_name_result-IsSound :
    (s : Bytes) {n : Net} → IsSound n → IsSound (handle_player_name_result s n)
unfolding handle_player_name_result
handle_player_name_result-IsSound s v = record {
  authenticated = v.authenticated;
  endpoint = v.endpoint;
  few_toasts = v.few_toasts;
}

handle_client_state-IsSound : (s : Bytes) {n : Net} → IsSound n → IsSound (handle_client_state s n)
unfolding handle_client_state
handle_client_state-IsSound s v = record {
  authenticated = v.authenticated;
  endpoint = v.endpoint;
  few_toasts = v.few_toasts;
}

handle_pong-IsSound : (now : ℕ) (s : Bytes) {n : Net} → IsSound n → IsSound (handle_pong now s n)
unfolding handle_pong
handle_pong-IsSound now s v = elim (Option-cases (extract_number s (codes "t"))) [
  | inl e ↦ rw (e, handle_pong) v
  | inr (t, e) ↦
      rw (e, handle_pong)
        (record {
          authenticated = v.authenticated;
          endpoint = v.endpoint;
          few_toasts = v.few_toasts;
        })
]

pub handle_close-IsSound : {n : Net} → IsSound n → IsSound (handle_close n)
unfolding handle_close
handle_close-IsSound v = record {
  authenticated = λ h. cc;
  endpoint = λ h. refl;
  few_toasts = v.few_toasts;
}

module _ (env : Env) (auth_keeps : Keeps env.on_auth) where
  handle_auth_ok-IsSound : (s : Bytes) {n : Net} → IsSound n → OkSound (handle_auth_ok env s n)
  unfolding handle_auth_ok
  handle_auth_ok-IsSound s v = elim (Option-cases (extract_number s (codes "session_id"))) [
    | inl e ↦ rw (e, handle_auth_ok) (sound v)
    | inr (sid, e) ↦
        rw (e, handle_auth_ok)
          (elim (Option-cases (extract_string s (codes "udp_endpoint"))) [
            | inl f ↦ rw f (sound v)
            | inr (endpoint, f) ↦ rw f (elim (Option-cases (split_colon endpoint)) [
              | inl g ↦ rw g (sound v)
              | inr ((host, rest), g) ↦ rw g (elim (Option-cases (stoi rest)) [
                | inl k ↦ rw k threw
                | inr (port, k) ↦ rw k (elim (Bool-cases (word16 port == 0)) [
                  | inl z ↦ rw z (sound v)
                  | inr z ↦ rw z (sound (auth_keeps _ (authorized-IsSound _ _ _ _ z v)))
                ])
              ])
            ])
          ])
  ]

  pub handle_ws_message-IsSound :
      (s : Bytes) {n : Net} → IsSound n → OkSound (handle_ws_message env s n)
  unfolding handle_ws_message
  handle_ws_message-IsSound s v = if_intro OkSound _ (sound (handle_name_result-IsSound s v)) (
      if_intro OkSound _ (sound (handle_player_name_result-IsSound s v)) (
        if_intro OkSound _ (sound (handle_client_state-IsSound s v)) (
          if_intro OkSound _ (sound (handle_notification-IsSound env s v)) (
            if_intro OkSound _ (sound (handle_pong-IsSound env.now s v))
              (if_intro OkSound _ (handle_auth_ok-IsSound s v) (sound v))))))
