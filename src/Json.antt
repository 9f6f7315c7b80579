-- ===== src/Json.antt =====
-- The hand-written JSON readers of client/voice/voice_network.cpp. A position in a string is the
-- text from there on: `s.find(needle)` followed by `p += needle.size()` is `after needle s`.
pub mod Numbers
pub mod Fuel
mod Tests
use l2voice_chat.Base.{
  ℕ, zero, suc, ◌+◌, ◌-◌, ◌*◌, ◌%◌, ◌^◌, Bool, true, false, ◌&&◌, List, [], ◌∷◌, ◌++◌, Option, none,
  some, length, ◌==◌, if◌then◌else◌, Bytes, codes, strip, after, is_digit, decimal, map,
}
use l2voice_chat.Base.Int.{ℤ, pos, negsuc, ◌+ℤ◌}

-- `"key":` followed by `tail`.
abbrev pub needle : Bytes → Bytes → Bytes
needle key tail = b'"' ∷ (key ++ (b'"' ∷ b':' ∷ tail))

-- The text before the next quote.
unfoldable pub until_quote : Bytes → Option Bytes
until_quote [] = none
until_quote (c ∷ s) =
    let rest = until_quote s in
    if c == b'"' then some [] else elim rest [ none ↦ none | some r ↦ some (c ∷ r) ]

-- `ExtractString`; `none` is the result `false`.
unfoldable pub extract_string : Bytes → Bytes → Option Bytes
unfolding after until_quote
extract_string s key = elim (after (needle key (b'"' ∷ [])) s) [
  | none ↦ none
  | some p ↦ until_quote p
]

-- The loop of `ExtractNumber` over a `uint64_t`.
unfoldable pub read_digits : ℕ → Bool → Bytes → Option ℕ
read_digits v any [] = if any then some v else none
read_digits v any (c ∷ s) =
    let rest = read_digits ((v * 10 + (c - b'0')) % 2 ^ 64) true s in
    if is_digit c then rest else if any then some v else none

unfoldable pub extract_number : Bytes → Bytes → Option ℕ
unfolding after read_digits
extract_number s key = elim (after (needle key []) s) [
  | none ↦ none
  | some p ↦ read_digits 0 false p
]

-- `ExtractBool`
unfoldable pub extract_bool : Bytes → Bytes → Option Bool
unfolding after strip
extract_bool s key = elim (after (needle key []) s) [
  | none ↦ none
  | some p ↦ elim (strip (codes "true") p) [
    | some r ↦ some true
    | none ↦ elim (strip (codes "false") p) [ some r ↦ some false | none ↦ none ]
  ]
]

-- The loop of `ExtractArrayBody`: the text before the `]` that stands at depth 0. The depth is an
-- `int`, and an unmatched `}` takes it below 0.
unfoldable pub array_body : ℤ → Bytes → Option Bytes
unfolding ◌+ℤ◌
array_body depth [] = none
array_body depth (c ∷ s) =
    let depth' =
      if c == b'{' then depth +ℤ pos 1 else if c == b'}' then depth +ℤ negsuc 0 else depth in
    let rest = array_body depth' s in
    if c == b']' && is_zero depth
    then some []
    else elim rest [ none ↦ none | some b ↦ some (c ∷ b) ]
  where
    is_zero : ℤ → Bool
    is_zero (pos n) = n == 0
    is_zero (negsuc n) = false

unfoldable pub extract_array_body : Bytes → Bytes → Option Bytes
unfolding after array_body
extract_array_body s key = elim (after (needle key (b'[' ∷ [])) s) [
  | none ↦ none
  | some p ↦ array_body (pos 0) p
]

-- `while (pos < body.size() && body[pos] != '{') ++pos;`
unfoldable pub skip_to_brace : Bytes → Bytes
skip_to_brace [] = []
skip_to_brace (c ∷ s) = if c == b'{' then c ∷ s else skip_to_brace s

-- The loop to the closing brace, from inside `depth` braces: the text up to and with it, and what
-- follows; `none` where the text ends first.
unfoldable pub close_brace : ℕ → Bytes → Option (Bytes × Bytes)
close_brace depth [] = none
close_brace depth (c ∷ s) =
    let depth' = if c == b'{' then depth + 1 else if c == b'}' then depth - 1 else depth in
    let rest = close_brace depth' s in
    if c == b'}' && depth' == 0
    then some (c ∷ [], s)
    else elim rest [ none ↦ none | some (o, r) ↦ some (c ∷ o, r) ]

-- The text of the object that `ParseMemberObject` finds, and what follows it.
unfoldable pub next_object : Bytes → Option (Bytes × Bytes)
unfolding skip_to_brace close_brace
next_object body = close_brace 0 (skip_to_brace body)

-- `VoiceNetwork::GroupMember`
pub record GroupMember : Type 0 where
  pub player_id : ℕ
  pub voice_active : Bool
  pub clan_role : ℕ
  pub cc_can_speak : Bool
  pub remote_muted : Bool

unfoldable pub or_zero : Option ℕ → ℕ
or_zero (some v) = v
or_zero none = 0

unfoldable pub or_false : Option Bool → Bool
or_false (some b) = b
or_false none = false

-- The fields that `ParseMemberObject` reads from the text of one object.
unfoldable pub read_member : Bytes → GroupMember
unfolding or_zero or_false extract_number extract_bool
read_member obj = record {
  player_id = or_zero (extract_number obj (codes "id")) % 2 ^ 32;
  voice_active = or_false (extract_bool obj (codes "voice_active"));
  clan_role = or_zero (extract_number obj (codes "role")) % 2 ^ 8;
  cc_can_speak = or_false (extract_bool obj (codes "can_speak"));
  remote_muted = or_false (extract_bool obj (codes "remote_muted"));
}

-- `ParseMemberObject`: the member and the text behind its object.
unfoldable pub parse_member_object : Bytes → Option (GroupMember × Bytes)
unfolding next_object read_member
parse_member_object body = elim (next_object body) [
  | none ↦ none
  | some (obj, rest) ↦ some (read_member obj, rest)
]

-- The loop of `ParseMemberArray`. Each object takes text off, so the length is enough fuel.
unfoldable pub parse_members : ℕ → Bytes → List GroupMember
unfolding parse_member_object
parse_members zero body = []
parse_members (suc f) body = elim (parse_member_object body) [
  | none ↦ []
  | some (m, rest) ↦ let more = parse_members f rest in if m.player_id == 0 then more else m ∷ more
]

unfoldable pub parse_member_array : Bytes → Bytes → List GroupMember
unfolding extract_array_body parse_members
parse_member_array s key = elim (extract_array_body s key) [
  | none ↦ []
  | some body ↦ parse_members (length body) body
]

-- The numbers that `MakeAuthJson` joins by commas.
unfoldable pub join_numbers : List ℕ → Bytes
unfolding decimal
join_numbers [] = []
join_numbers (p ∷ []) = decimal p
join_numbers (p ∷ q ∷ ps) = decimal p ++ (b',' ∷ join_numbers (q ∷ ps))

unfoldable pub make_auth_json : List ℕ → Bytes → Bytes
unfolding join_numbers
make_auth_json ports [] =
    codes "{\"type\":\"auth\",\"ports\":[" ++ (join_numbers ports ++ codes "]}")
make_auth_json ports (c ∷ name) =
    codes "{\"type\":\"auth\",\"ports\":["
    ++ (join_numbers ports ++ (codes "],\"char_name\":\"" ++ (c ∷ name ++ codes "\"}")))
