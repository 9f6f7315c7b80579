-- ===== src/Network/Receive.antt =====
-- What the client does with a text message of the service: `HandleWsMessage`,
-- `HandleClientStateImpl` and `HandleNotification`.
use l2voice_chat.Base.{
  ℕ, ◌+◌, ◌-◌, ◌*◌, ◌%◌, ◌^◌, Bool, true, false, ◌&&◌, ◌||◌, [], ◌∷◌, ◌++◌, Option, none, some, ltb,
  leb, ◌==◌, if◌then◌else◌, Bytes, codes, bytes_eq, decimal, is_digit, take,
}
use l2voice_chat.Base.Int.{ℤ, pos, negsuc}
use l2voice_chat.Base.Dict.{nat_eq, lookup, insert, member}
use l2voice_chat.Json.{
  extract_string, extract_number, extract_bool, or_zero, or_false, parse_member_array,
}
use l2voice_chat.Network.State.{Net, ClientState, text, send}
use l2voice_chat.Network.Toasts.{add_toast}
use l2voice_chat.Network.Commands.{player_name_query}

-- What a handler is given: the steady clock, the overlay's language, and `on_auth`.
pub record Env : Type 0 where
  pub now : ℕ
  pub lang : ℕ
  pub on_auth : Net → Net

-- `std::stoi`, on an `int` and a `long` of 32 bits; `none` is an exception.
unfoldable pub stoi_digits : ℕ → Bool → Bytes → Option ℕ
stoi_digits v any [] = if any then some v else none
stoi_digits v any (c ∷ s) =
    let rest = stoi_digits (v * 10 + (c - b'0')) true s in
    if is_digit c then rest else if any then some v else none

unfoldable pub stoi_signed : Bytes → Option ℤ
unfolding stoi_digits
stoi_signed [] = none
stoi_signed (c ∷ s) =
    if c == b'-'
    then elim (stoi_digits 0 false s) [
      | none ↦ none
      | some v ↦
          if ltb (2 ^ 31) v then none else if v == 0 then some (pos 0) else some (negsuc (v - 1))
    ]
    else elim (stoi_digits 0 false (if c == b'+' then s else c ∷ s)) [
      | none ↦ none
      | some v ↦ if leb (2 ^ 31) v then none else some (pos v)
    ]

unfoldable pub stoi : Bytes → Option ℤ
unfolding stoi_signed
stoi [] = none
stoi (c ∷ s) =
    let rest = stoi s in if c == b' ' || (leb 9 c && leb c 13) then rest else stoi_signed (c ∷ s)

-- `(uint16_t)`
unfoldable pub word16 : ℤ → ℕ
word16 (pos n) = n % 2 ^ 16
word16 (negsuc n) = 2 ^ 16 - 1 - n % 2 ^ 16

-- What stands before and behind the last `:`.
unfoldable pub split_colon : Bytes → Option (Bytes × Bytes)
split_colon [] = none
split_colon (c ∷ s) = elim (split_colon s) [
  | some (host, port) ↦ some (c ∷ host, port)
  | none ↦ if c == b':' then some ([], s) else none
]

unfoldable pub read_client_state : Bytes → ClientState
unfolding or_zero or_false extract_number extract_bool parse_member_array
read_client_state s = record {
  role = or_zero (extract_number s (codes "role")) % 2 ^ 8;
  clan_id = or_zero (extract_number s (codes "clan_id")) % 2 ^ 32;
  ally_id = or_zero (extract_number s (codes "ally_id")) % 2 ^ 32;
  party_id = or_zero (extract_number s (codes "party_id"));
  cc_id = or_zero (extract_number s (codes "cc_id")) % 2 ^ 32;
  cc_leader_id = or_zero (extract_number s (codes "cc_leader_id")) % 2 ^ 32;
  cc_can_speak = or_false (extract_bool s (codes "cc_can_speak"));
  clan_mode = or_zero (extract_number s (codes "clan_mode")) % 2 ^ 8;
  opted_out = or_false (extract_bool s (codes "opted_out"));
  party_members = parse_member_array s (codes "party_members");
  clan_members = parse_member_array s (codes "clan_members");
  ally_members = parse_member_array s (codes "ally_members");
  cc_members = parse_member_array s (codes "cc_members");
}

unfoldable pub handle_client_state : Bytes → Net → Net
unfolding read_client_state
handle_client_state s n = record n { state = read_client_state s }

unfoldable pub or_empty : Option Bytes → Bytes
or_empty (some s) = s
or_empty none = []

-- The name in the toast: at most 63 bytes of the cached name, or the id where none is known.
unfoldable pub muter_name : ℕ → Net → Bytes
unfolding lookup
muter_name from n = elim (lookup (from % 2 ^ 32) n.player_name_cache) [
  | none ↦ take 63 (codes "pid=" ++ decimal from)
  | some [] ↦ take 63 (codes "pid=" ++ decimal from)
  | some (c ∷ name) ↦ take 63 (c ∷ name)
]

-- The query of `HandleNotification`, which looks neither at the connection nor at an id of 0.
unfoldable pub query_muter : ℕ → Net → Net
unfolding member insert
query_muter from n =
    let key = from % 2 ^ 32 in
    if member key n.player_name_cache || member key n.player_name_inflight
    then n
    else send (text (player_name_query from))
        (record n { player_name_inflight = insert key true n.player_name_inflight })

-- "clã" and "aliança", "Você foi mutado no ", " desmutou você no " and "notificação: " in UTF-8.
unfoldable pub scope_name : ℕ → Bytes → Bytes
scope_name lang scope =
    if bytes_eq scope (codes "clan")
    then (if lang == 0 then codes "cl" ++ (0xc3 ∷ 0xa3 ∷ []) else codes "clan")
    else if bytes_eq scope (codes "ally")
    then (if lang == 0 then codes "alian" ++ (0xc3 ∷ 0xa7 ∷ codes "a") else codes "ally")
    else if lang == 0
    then codes "canal"
    else codes "channel"

unfoldable pub mute_text : ℕ → Bool → Bytes → Bytes → Bytes
mute_text lang true scope muter =
    if lang == 0
    then codes "Voc"
      ++ (0xc3 ∷ 0xaa ∷ (codes " foi mutado no " ++ (scope ++ (codes " por " ++ muter))))
    else codes "You were muted on " ++ (scope ++ (codes " by " ++ muter))
mute_text lang false scope muter =
    if lang == 0
    then muter ++ (codes " desmutou voc" ++ (0xc3 ∷ 0xaa ∷ (codes " no " ++ scope)))
    else muter ++ (codes " unmuted you on " ++ scope)

unfoldable pub notification_prefix : ℕ → Bytes
notification_prefix lang =
    if lang == 0
    then codes "notifica" ++ (0xc3 ∷ 0xa7 ∷ 0xc3 ∷ 0xa3 ∷ codes "o: ")
    else codes "notification: "

-- A missing `muted` counts as true.
unfoldable pub or_true : Option Bool → Bool
or_true (some b) = b
or_true none = true

-- A notification that a clan officer muted the player, or took the mute back.
unfoldable pub handle_remote_mute : Env → Bytes → Net → Net
unfolding extract_string extract_number extract_bool or_empty or_zero or_true muter_name query_muter
    scope_name mute_text add_toast
handle_remote_mute env s n =
    let from = or_zero (extract_number s (codes "from")) in
    let scope = or_empty (extract_string s (codes "scope")) in
    let muted = or_true (extract_bool s (codes "muted")) in
    let shown =
      take 191 (mute_text env.lang muted (scope_name env.lang scope) (muter_name from n)) in
    add_toast env.now shown (if muted then 2 else 3) 6000 (query_muter from n)

unfoldable pub handle_notification : Env → Bytes → Net → Net
unfolding handle_remote_mute extract_string or_empty notification_prefix add_toast bytes_eq
handle_notification env s n =
    let subtype = or_empty (extract_string s (codes "subtype")) in
    if bytes_eq subtype (codes "remotely_muted_by")
    then handle_remote_mute env s n
    else add_toast env.now (notification_prefix env.lang ++ subtype) 0 4000 n
