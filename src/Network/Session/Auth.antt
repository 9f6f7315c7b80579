-- ===== src/Network/Session/Auth.antt =====
-- When the client authenticates.
use l2voice_chat.Base.{ℕ, true, List, [], ◌∷◌, ◌++◌, ◌≡◌, refl, subst, arith, Bytes, bytes_eq_iff}
use l2voice_chat.Json.{make_auth_json}
use l2voice_chat.Network.State.{Net, text}
use l2voice_chat.Network.Session.{set_client_ports, handle_open}

-- On every opening of the connection, with a hook that reports some ports and a name, exactly one
-- authentication is sent, it carries these ports and this name, and it is marked as sent: so
-- whether or not the report changes anything, and whatever had been sent before.
pub handle_open_once :
    (n : Net) (p : ℕ) (ports : List ℕ) (name : Bytes)
    → ((handle_open (set_client_ports (p ∷ ports) name) n).sent
        ≡ n.sent ++ (text (make_auth_json (p ∷ ports) name) ∷ []))
      × ((handle_open (set_client_ports (p ∷ ports) name) n).auth_sent ≡ true)
unfolding handle_open set_client_ports
handle_open_once n p ports name =
    ground (arith, bytes_eq_iff n.char_name name, bytes_eq_iff n.client_ports (p ∷ ports))

-- A report with nothing new leaves the session as it is.
pub set_client_ports-same : (n : Net) → set_client_ports n.client_ports n.char_name n ≡ n
unfolding set_client_ports
set_client_ports-same n = rw (
  (bytes_eq_iff n.char_name n.char_name).1 refl,
  (bytes_eq_iff n.client_ports n.client_ports).1 refl,
)

set_client_ports-stores :
    (n : Net) (ports : List ℕ) (name : Bytes)
    → ((set_client_ports ports name n).client_ports ≡ ports)
      × ((set_client_ports ports name n).char_name ≡ name)
unfolding set_client_ports
set_client_ports-stores n ports name =
    ground (arith, bytes_eq_iff n.char_name name, bytes_eq_iff n.client_ports ports)

-- Reporting ports and a name twice in a row is the same as reporting them once: the second report
-- sends nothing.
pub set_client_ports_again :
    (n : Net) (ports : List ℕ) (name : Bytes)
    → set_client_ports ports name (set_client_ports ports name n) ≡ set_client_ports ports name n
set_client_ports_again n ports name =
    let m = set_client_ports ports name n in
    let (p, q) = set_client_ports-stores n ports name in
    subst (λ ps. set_client_ports ps name m ≡ m) p
      (subst (λ c. set_client_ports m.client_ports c m ≡ m) q (set_client_ports-same m))
