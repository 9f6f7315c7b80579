-- ===== src/Network/Handle/Pong.antt =====
-- The measurement of the round-trip time.
use l2voice_chat.Base.{
  ℕ, ◌+◌, ◌-◌, ◌^◌, ◌≤◌, ◌<◌, min, true, false, [], ◌∷◌, ◌++◌, none, some, ◌≡◌, refl, ◌∙◌, arith,
  Bytes, codes, after, contains, decimal,
}
use l2voice_chat.Base.Int.{pos}
use l2voice_chat.Json.{extract_number}
use l2voice_chat.Json.Numbers.{read_digits-decimal, after-skip, decimal-Lacks}
use l2voice_chat.Network.State.{Net}
use l2voice_chat.Network.Receive.{Env}
use l2voice_chat.Network.Handle.{handle_ws_message, handle_pong, round_trip}

-- The answer of the service to a ping that was sent at time `t`.
abbrev pub pong_text : ℕ → Bytes
pong_text t = codes "{\"type\":\"pong\",\"t\":" ++ (decimal t ++ codes "}")

-- No known word but `pong` stands in it: behind the number none can begin.
lacks_word :
    (word : Bytes) (t : ℕ)
    → after (b'"' ∷ word) (codes "}") ≡ none
    → after (b'"' ∷ word) (decimal t ++ codes "}") ≡ none
lacks_word word t h = after-skip b'"' word (decimal t) (codes "}") (decimal-Lacks b'"' t refl) ∙ h

pub contains-none : (word s : Bytes) → after word s ≡ none → contains word s ≡ false
unfolding contains
contains-none word s h = rw (h, contains)

words :
    (t : ℕ)
    → (contains (codes "\"name_result\"") (pong_text t) ≡ false)
      × (contains (codes "\"player_name_result\"") (pong_text t) ≡ false)
      × (contains (codes "\"client_state\"") (pong_text t) ≡ false)
      × (contains (codes "\"notification\"") (pong_text t) ≡ false)
      × (contains (codes "\"pong\"") (pong_text t) ≡ true)
unfolding after
words t = (
  contains-none _ _ (lacks_word (codes "name_result\"") t refl),
  contains-none _ _ (lacks_word (codes "player_name_result\"") t refl),
  contains-none _ _ (lacks_word (codes "client_state\"") t refl),
  contains-none _ _ (lacks_word (codes "notification\"") t refl),
  unfold contains in refl,
)

extract_number-pong_text : (t : ℕ) → t < 2 ^ 64 → extract_number (pong_text t) (codes "t") ≡ some t
unfolding extract_number
extract_number-pong_text t h = read_digits-decimal t b'}' [] h refl

round_trip_lem : (now t : ℕ) → t ≤ now → now < t + 2 ^ 31 → round_trip now t ≡ min (now - t) 99999
unfolding round_trip
round_trip_lem now t h k = ground arith

-- The answer to a ping that was sent at time `t`, when it comes at that time or less than 2 ^ 31
-- milliseconds later, on a clock below 2 ^ 64, sets the round-trip time to the milliseconds since
-- then, 99999 at most, and nothing else.
pub handle_ws_message-pong :
    (env : Env) (t : ℕ) (n : Net)
    → t ≤ env.now
    → env.now < t + 2 ^ 31
    → env.now < 2 ^ 64
    → handle_ws_message env (pong_text t) n
      ≡ some (record n { last_rtt_ms = pos (min (env.now - t) 99999) })
unfolding handle_ws_message
handle_ws_message-pong env t n h k l =
    let (a, b, c, d, e) = words t in
    rw (
      a,
      b,
      c,
      d,
      e,
      extract_number-pong_text t (omega arith),
      handle_pong,
      round_trip_lem env.now t h k,
    )
