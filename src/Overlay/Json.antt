-- ===== src/Overlay/Json.antt =====
-- The JSON readers of the support chat, `JsonExtractString`, `JsonExtractInt` and
-- `JsonExtractArray`, and the writer `escapeJSON`. A position in a text is the text from there on.
pub mod Escape
use l2voice_chat.Base.{
  ℕ, zero, suc, ◌+◌, ◌-◌, ◌*◌, ◌%◌, ◌^◌, Bool, true, false, ◌&&◌, ◌||◌, List, [], ◌∷◌, ◌++◌, Option,
  none, some, ltb, leb, ◌==◌, if◌then◌else◌, Bytes, after, is_digit,
}
use l2voice_chat.Base.Int.{ℤ, pos, negsuc, ◌+ℤ◌}
use l2voice_chat.Json.{needle}
use l2voice_chat.Network.Receive.{stoi_digits}

-- The text up to the first quote that no backslash stands before: the loop over `end`.
unfoldable pub raw_string : Bytes → Bytes
raw_string [] = []
raw_string (c ∷ []) = if c == b'"' then [] else c ∷ []
raw_string (c ∷ d ∷ s) =
    let pair = raw_string s in
    let rest = raw_string (d ∷ s) in
    if c == b'\\' then c ∷ d ∷ pair else if c == b'"' then [] else c ∷ rest

-- What `\d` stands for.
abbrev pub reveal : ℕ → ℕ
reveal d = if d == b'n' then 10 else d

unfoldable pub unescape : Bytes → Bytes
unescape [] = []
unescape (c ∷ []) = c ∷ []
unescape (c ∷ d ∷ s) =
    let pair = unescape s in
    let rest = unescape (d ∷ s) in if c == b'\\' then reveal d ∷ pair else c ∷ rest

-- `while (json[pos] == ' ' || json[pos] == '"') pos++;`
unfoldable pub skip_blank : Bytes → Bytes
skip_blank [] = []
skip_blank (c ∷ s) = let rest = skip_blank s in if c == b' ' || c == b'"' then rest else c ∷ s

-- The bare value: the text before `"`, `,`, `}` or `]`.
unfoldable pub bare_value : Bytes → Bytes
bare_value [] = []
bare_value (c ∷ s) =
    if c == b'"' || (c == b',' || (c == b'}' || c == b']')) then [] else c ∷ bare_value s

unfoldable pub json_extract_string : Bytes → Bytes → Bytes
unfolding after raw_string unescape skip_blank bare_value
json_extract_string json key = elim (after (needle key (b'"' ∷ [])) json) [
  | some p ↦ unescape (raw_string p)
  | none ↦ elim (after (needle key []) json) [ none ↦ [] | some p ↦ bare_value (skip_blank p) ]
]

-- The loop over the signs and digits.
unfoldable pub number_text : Bytes → Bytes
number_text [] = []
number_text (c ∷ s) = if c == b'-' || is_digit c then c ∷ number_text s else []

-- `std::stoll` of such a text: its digits, up to a byte that is none; `none` is the exception where
-- there is none, or where the number does not fit in 64 bits.
unfoldable pub stoll : Bytes → Option ℤ
unfolding stoi_digits
stoll [] = none
stoll (c ∷ s) =
    if c == b'-'
    then elim (stoi_digits 0 false s) [
      | none ↦ none
      | some v ↦
          if ltb (2 ^ 63) v then none else if v == 0 then some (pos 0) else some (negsuc (v - 1))
    ]
    else elim (stoi_digits 0 false (c ∷ s)) [
      | none ↦ none
      | some v ↦ if leb (2 ^ 63) v then none else some (pos v)
    ]

unfoldable pub or_zero_ℤ : Option ℤ → ℤ
or_zero_ℤ (some v) = v
or_zero_ℤ none = pos 0

unfoldable pub json_extract_int : Bytes → Bytes → ℤ
unfolding after skip_blank number_text stoll or_zero_ℤ
json_extract_int json key = elim (after (needle key []) json) [
  | none ↦ pos 0
  | some p ↦ or_zero_ℤ (stoll (number_text (skip_blank p)))
]

abbrev pub is_zero_ℤ : ℤ → Bool
is_zero_ℤ (pos n) = n == 0
is_zero_ℤ (negsuc n) = false

-- The object that is being read, one byte longer, or a new one.
unfoldable pub grow : ℤ → ℕ → Option Bytes → Option Bytes
grow depth c cur =
    if c == b'{' && is_zero_ℤ depth
    then some (c ∷ [])
    else elim cur [ none ↦ none | some text ↦ some (text ++ (c ∷ [])) ]

-- The depth behind a byte.
unfoldable pub deeper : ℤ → ℕ → ℤ
unfolding ◌+ℤ◌
deeper depth c =
    if c == b'{' then depth +ℤ pos 1 else if c == b'}' then depth +ℤ negsuc 0 else depth

-- The loop of `JsonExtractArray`: the objects at depth 0, up to a `]` there. `cur` is the text from
-- `start` on, and `none` where `start` is `npos`.
unfoldable pub array_items : ℤ → Option Bytes → Bytes → List Bytes
unfolding grow deeper
array_items depth cur [] = []
array_items depth cur (c ∷ s) =
    let cur' = grow depth c cur in
    let closed = c == b'}' && is_zero_ℤ (deeper depth c) in
    let rest = array_items (deeper depth c) (if closed then none else cur') s in
    if c == b']' && is_zero_ℤ depth
    then []
    else if closed
    then elim cur' [ none ↦ rest | some text ↦ text ∷ rest ]
    else rest

-- The text behind `"key":[`, or behind the first `[` where the key is empty.
unfoldable pub array_start : Bytes → Bytes → Option Bytes
unfolding after
array_start json [] = after (b'[' ∷ []) json
array_start json (c ∷ key) = after (needle (c ∷ key) (b'[' ∷ [])) json

unfoldable pub json_extract_array : Bytes → Bytes → List Bytes
unfolding array_start array_items
json_extract_array json key = elim (array_start json key) [
  | none ↦ []
  | some p ↦ array_items (pos 0) none p
]

-- What one round of `escapeJSON` appends.
unfoldable pub hide : ℕ → Bytes
hide c =
    if c == b'"'
    then b'\\' ∷ b'"' ∷ []
    else if c == b'\\'
    then b'\\' ∷ b'\\' ∷ []
    else if c == 10
    then b'\\' ∷ b'n' ∷ []
    else if c == 13
    then b'\\' ∷ b'r' ∷ []
    else c ∷ []

unfoldable pub escape_json : Bytes → Bytes
unfolding hide
escape_json [] = []
escape_json (c ∷ s) = hide c ++ escape_json s
