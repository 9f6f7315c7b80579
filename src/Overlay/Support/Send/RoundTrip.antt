-- ===== src/Overlay/Support/Send/RoundTrip.antt =====
-- A message that the chat sends is read back from its body as it was written.
use l2voice_chat.Base.{
  ◌+◌, ℕ, true, false, [], ◌∷◌, ◌++◌, some, ◌≡◌, refl, ap, ◌∙◌, arith, ◌<◌, ◌^◌, zero, suc, ◌/◌,
  ◌%◌, ltb, digits_onto, Bool-cases, inl, inr, subst, Bytes, codes, after, strip, decimal, is_digit,
}
use l2voice_chat.Json.Numbers.{after-skip, decimal-Lacks, decimal-cons, digits_onto-append, Lacks}
use l2voice_chat.Overlay.Json.{
  skip_blank, number_text, stoll, or_zero_ℤ, json_extract_int, escape_json, json_extract_string,
}
use l2voice_chat.Overlay.Json.Escape.{without_cr, read_back, json_extract_string-escape_json}
use l2voice_chat.Base.Int.{pos}
use l2voice_chat.Network.Receive.{stoi_digits}
use l2voice_chat.Network.Handle.AuthOk.{stoi_digits-digits_onto}
use l2voice_chat.Overlay.Support.Send.{send_player_message}

-- The key is found behind the player's number.
message_found :
    (id : ℕ) (rest : Bytes)
    → after
        (codes "\"message\":\"")
        (codes "{\"player_id\":" ++ (decimal id ++ (codes ",\"message\":\"" ++ rest)))
      ≡ some rest
unfolding after strip
message_found id rest =
    after-skip b'"' (codes "message\":\"") (decimal id) (codes ",\"message\":\"" ++ rest)
      (decimal-Lacks b'"' id refl)

id_found :
    (id : ℕ) (rest : Bytes)
    → after (codes "\"player_id\":") (codes "{\"player_id\":" ++ (decimal id ++ rest))
      ≡ some (decimal id ++ rest)
unfolding after strip
id_found id rest = refl

stoll-digit :
    (d n : ℕ) (ds : Bytes)
    → is_digit d ≡ true
    → n < 2 ^ 63
    → stoi_digits 0 false (d ∷ ds) ≡ some n
    → stoll (d ∷ ds) ≡ some (pos n)
unfolding stoll
stoll-digit d n ds h k e = ground arith

stoll-decimal : (n : ℕ) → n < 2 ^ 63 → stoll (decimal n) ≡ some (pos n)
unfolding decimal stoi_digits
stoll-decimal n h =
    let (d, ds, e, g) = decimal-cons n in
    rw e (
      stoll-digit d n ds g h (
        subst (λ s. stoi_digits 0 false s ≡ some n) e
          (stoi_digits-digits_onto n n false [] (omega arith))))

skip_blank-decimal : (n : ℕ) (rest : Bytes) → skip_blank (decimal n ++ rest) ≡ decimal n ++ rest
unfolding skip_blank
skip_blank-decimal n rest = let (d, ds, e, g) = decimal-cons n in rw e (ground arith)

number_text-digits_onto :
    (f n : ℕ) (r : Bytes) → number_text (digits_onto f n r) ≡ digits_onto f n (number_text r)
unfolding digits_onto number_text
number_text-digits_onto zero n r = ground arith
number_text-digits_onto (suc f) n r = elim (Bool-cases (ltb n 10)) [
  | inl small ↦ rw small (ground arith)
  | inr large ↦ rw large (
      number_text-digits_onto f (n / 10) ((b'0' + n % 10) ∷ r)
      ∙ ap (digits_onto f (n / 10)) (ground arith))
]

number_text-decimal : (n : ℕ) (rest : Bytes) → number_text (decimal n ++ (b',' ∷ rest)) ≡ decimal n
unfolding decimal number_text
number_text-decimal n rest =
    ap number_text (digits_onto-append n n [] (b',' ∷ rest))
    ∙ number_text-digits_onto n n (b',' ∷ rest)

read_back-Lacks : (s : Bytes) → Lacks 13 s → read_back s ≡ s
unfolding read_back without_cr
read_back-Lacks [] h = refl
read_back-Lacks (c ∷ s) h = ground (arith, read_back-Lacks s h.1)

number_found :
    (json : Bytes) (id : ℕ) (rest : Bytes)
    → id < 2 ^ 63
    → after (codes "\"player_id\":") json ≡ some (decimal id ++ (b',' ∷ rest))
    → json_extract_int json (codes "player_id") ≡ pos id
unfolding json_extract_int
number_found json id rest small found =
    rw (found, json_extract_int)
      (ap (λ t. or_zero_ℤ (stoll (number_text t))) (skip_blank-decimal id (b',' ∷ rest))
        ∙ (ap (λ t. or_zero_ℤ (stoll t)) (number_text-decimal id rest)
            ∙ ap or_zero_ℤ (stoll-decimal id small)))

-- The body that `SendPlayerMessageAsync` posts, for a message with no carriage return: read by the
-- same client's `JsonExtractInt` and `JsonExtractString`, it gives the player's number, if that is
-- below 2^63, and the message, quotes, backslashes and line ends included.
pub send_player_message-extract :
    (host : Bytes) (id : ℕ) (message : Bytes)
    → id < 2 ^ 63
    → Lacks 13 message
    → (json_extract_int (send_player_message host id message).body (codes "player_id") ≡ pos id)
      × (json_extract_string (send_player_message host id message).body (codes "message") ≡ message)
unfolding send_player_message
send_player_message-extract host id message small clean =
    let body = (send_player_message host id message).body in
    (
      number_found body id (codes "\"message\":\"" ++ (escape_json message ++ codes "\"}")) small
          (id_found id _),
      json_extract_string-escape_json body (codes "message") message (codes "}")
            (message_found id (escape_json message ++ codes "\"}"))
          ∙ read_back-Lacks message clean,
    )
