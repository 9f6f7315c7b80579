-- ===== src/Network/Handle/AuthOk.antt =====
-- The answer of the service to an authentication.
use l2voice_chat.Base.{
  ℕ, zero, suc, ◌+◌, ◌/◌, ◌%◌, ◌^◌, ◌≤◌, ◌<◌, Bool, true, false, [], ◌∷◌, ◌++◌, none, some, ◌≡◌,
  refl, ◌∙◌, subst, arith, Bytes, codes, after, contains, decimal, digits_onto, is_digit, ltb, ◌==◌,
  All-append, Bool-cases, inl, inr,
}
use l2voice_chat.Base.Int.{pos}
use l2voice_chat.Json.{extract_number, extract_string, until_quote}
use l2voice_chat.Json.Numbers.{
  read_digits-decimal, after-skip, Lacks, decimal-Lacks, decimal-cons, extract_number-after,
  extract_string-after,
}
use l2voice_chat.Network.State.{Net}
use l2voice_chat.Network.Receive.{Env, stoi_digits, stoi, split_colon}
use l2voice_chat.Network.Handle.{handle_ws_message, handle_auth_ok}
use l2voice_chat.Network.Handle.Pong.{contains-none}

-- `std::stoi` of a numeral.
pub stoi_digits-digits_onto :
    (f n : ℕ) (any : Bool) (rest : Bytes)
    → n ≤ f
    → stoi_digits 0 any (digits_onto f n rest) ≡ stoi_digits n true rest
unfolding digits_onto stoi_digits
stoi_digits-digits_onto zero n any rest h = ground arith
stoi_digits-digits_onto (suc f) n any rest h = elim (Bool-cases (ltb n 10)) [
  | inl small ↦ rw small (ground arith)
  | inr large ↦ rw large (
      stoi_digits-digits_onto f (n / 10) any ((b'0' + n % 10) ∷ rest) (ground arith) ∙ ground arith)
]

stoi-digit :
    (d n : ℕ) (ds : Bytes)
    → is_digit d ≡ true
    → n < 2 ^ 31
    → stoi_digits 0 false (d ∷ ds) ≡ some n
    → stoi (d ∷ ds) ≡ some (pos n)
unfolding stoi
stoi-digit d n ds h k e = ground arith

pub stoi-decimal : (n : ℕ) → n < 2 ^ 31 → stoi (decimal n) ≡ some (pos n)
unfolding decimal stoi_digits
stoi-decimal n h =
    let (d, ds, e, g) = decimal-cons n in
    rw e (
      stoi-digit d n ds g h (
        subst (λ s. stoi_digits 0 false s ≡ some n) e
          (stoi_digits-digits_onto n n false [] (omega arith))))

-- The last colon is found behind a host, whatever the host holds.
split_colon-Lacks : (s : Bytes) → Lacks b':' s → split_colon s ≡ none
unfolding split_colon
split_colon-Lacks [] h = refl
split_colon-Lacks (c ∷ s) h = ground (arith, split_colon-Lacks s h.1)

split_colon-append :
    (host port : Bytes) → Lacks b':' port → split_colon (host ++ (b':' ∷ port)) ≡ some (host, port)
unfolding split_colon
split_colon-append [] port h = rw (split_colon-Lacks port h)
split_colon-append (c ∷ host) port h = rw (split_colon-append host port h)

until_quote-append : (s rest : Bytes) → Lacks b'"' s → until_quote (s ++ (b'"' ∷ rest)) ≡ some s
unfolding until_quote
until_quote-append [] rest h = refl
until_quote-append (c ∷ s) rest h = ground (arith, until_quote-append s rest h.1)

after-ne :
    (q w c : ℕ) (n s : Bytes)
    → (w == c) ≡ false
    → after (q ∷ w ∷ n) (q ∷ c ∷ s) ≡ after (q ∷ w ∷ n) (c ∷ s)
unfolding after
after-ne q w c n s h = ground arith

module _ (sid : ℕ) (c : ℕ) (host : Bytes) (port pid : ℕ) where
  -- `host:port`, for a host that begins with the byte `c`.
  abbrev pub endpoint : Bytes
  endpoint = c ∷ (host ++ (b':' ∷ decimal port))

  abbrev from_player : Bytes
  from_player = codes "\",\"your_player_id\":" ++ (decimal pid ++ codes "}")

  abbrev from_endpoint : Bytes
  from_endpoint = codes ",\"udp_endpoint\":\"" ++ (endpoint ++ from_player)

  -- The message that grants the session `sid` to the player `pid`.
  abbrev pub auth_ok_text : Bytes
  auth_ok_text = codes "{\"type\":\"auth_ok\",\"session_id\":" ++ (decimal sid ++ from_endpoint)

module _ (sid : ℕ) (c : ℕ) (host : Bytes) (port pid : ℕ) (digit : is_digit c ≡ true)
    (quoteless : Lacks b'"' host) where
  endpoint-Lacks : Lacks b'"' (endpoint sid c host port pid)
  endpoint-Lacks =
      (ground arith, All-append _ host _ quoteless (refl, decimal-Lacks b'"' port refl))

  -- A word that begins with a quote and then with no digit is not found at the endpoint.
  after-endpoint :
      (w : ℕ) (word rest : Bytes)
      → is_digit w ≡ false
      → after (b'"' ∷ w ∷ word) (b'"' ∷ (endpoint sid c host port pid ++ rest))
        ≡ after (b'"' ∷ w ∷ word) rest
  after-endpoint w word rest h =
      after-ne b'"' w c word _ (ground arith)
      ∙ after-skip b'"' (w ∷ word) (endpoint sid c host port pid) rest endpoint-Lacks

  after-sid :
      (word : Bytes)
      → after (b'"' ∷ word) (decimal sid ++ from_endpoint sid c host port pid)
        ≡ after (b'"' ∷ word) (from_endpoint sid c host port pid)
  after-sid word = after-skip b'"' word (decimal sid) _ (decimal-Lacks b'"' sid refl)

  after-pid :
      (word : Bytes)
      → after (b'"' ∷ word) (decimal pid ++ codes "}") ≡ after (b'"' ∷ word) (codes "}")
  after-pid word = after-skip b'"' word (decimal pid) (codes "}") (decimal-Lacks b'"' pid refl)

  words :
      (contains (codes "\"name_result\"") (auth_ok_text sid c host port pid) ≡ false)
      × (contains (codes "\"player_name_result\"") (auth_ok_text sid c host port pid) ≡ false)
      × (contains (codes "\"client_state\"") (auth_ok_text sid c host port pid) ≡ false)
      × (contains (codes "\"notification\"") (auth_ok_text sid c host port pid) ≡ false)
      × (contains (codes "\"pong\"") (auth_ok_text sid c host port pid) ≡ false)
      × (contains (codes "\"auth_ok\"") (auth_ok_text sid c host port pid) ≡ true)
  unfolding after
  words = (
    contains-none _ _ (
        after-sid (codes "name_result\"")
        ∙ after-endpoint b'n' (codes "ame_result\"") _ refl
        ∙ after-pid (codes "name_result\"")),
    contains-none _ _ (
        after-sid (codes "player_name_result\"")
        ∙ after-endpoint b'p' (codes "layer_name_result\"") _ refl
        ∙ after-pid (codes "player_name_result\"")),
    contains-none _ _ (
        after-sid (codes "client_state\"")
        ∙ after-endpoint b'c' (codes "lient_state\"") _ refl
        ∙ after-pid (codes "client_state\"")),
    contains-none _ _ (
        after-sid (codes "notification\"")
        ∙ after-endpoint b'n' (codes "otification\"") _ refl
        ∙ after-pid (codes "notification\"")),
    contains-none _ _ (
        after-sid (codes "pong\"")
        ∙ after-endpoint b'p' (codes "ong\"") _ refl
        ∙ after-pid (codes "pong\"")),
    unfold contains in refl,
  )

  fields :
      sid < 2 ^ 64
      → pid < 2 ^ 64
      → (extract_number (auth_ok_text sid c host port pid) (codes "session_id") ≡ some sid)
        × (extract_string (auth_ok_text sid c host port pid) (codes "udp_endpoint")
            ≡ some (endpoint sid c host port pid))
        × (extract_number (auth_ok_text sid c host port pid) (codes "your_player_id") ≡ some pid)
  unfolding after extract_number
  fields h k = (
    read_digits-decimal sid b',' _ h refl,
    extract_string-after (auth_ok_text sid c host port pid) (codes "udp_endpoint") _
          (after-sid (codes "udp_endpoint\":\""))
        ∙ until_quote-append (endpoint sid c host port pid) _ endpoint-Lacks,
    extract_number-after (auth_ok_text sid c host port pid) (codes "your_player_id") _ (
          after-sid (codes "your_player_id\":")
          ∙ after-endpoint b'y' (codes "our_player_id\":") (from_player sid c host port pid) refl)
        ∙ read_digits-decimal pid b'}' [] k refl,
  )

  -- A complete `auth_ok` with an endpoint whose host begins with a digit and holds no quote, and
  -- whose port is from 1 to 65535, is accepted: the session, the player, the host and the port are
  -- stored as they stand in the message, and then the callback runs.
  pub handle_ws_message-auth_ok :
      (env : Env) (n : Net)
      → sid < 2 ^ 32
      → pid < 2 ^ 32
      → 1 ≤ port
      → port < 2 ^ 16
      → handle_ws_message env (auth_ok_text sid c host port pid) n
        ≡ some (
            env.on_auth (record n {
              session_id = sid;
              player_id = pid;
              udp_host = c ∷ host;
              udp_port = port;
            }))
  unfolding handle_ws_message
  handle_ws_message-auth_ok env n h k l m =
      let (a, b, c', d, e, f) = words in
      let (x, y, z) = fields (omega arith) (omega arith) in
      let w : port % 2 ^ 16 ≡ port = omega arith in
      let u : sid % 2 ^ 32 ≡ sid = omega arith in
      let v : pid % 2 ^ 32 ≡ pid = omega arith in
      let nz : (port == 0) ≡ false = ground arith in
      rw (
        a,
        b,
        c',
        d,
        e,
        f,
        x,
        y,
        handle_auth_ok,
        split_colon-append (c ∷ host) (decimal port) (decimal-Lacks b':' port refl),
        stoi-decimal port (omega arith),
        w,
        nz,
        z,
        u,
        v,
      )
