-- ===== src/Overlay/Json/Escape.antt =====
-- What is escaped is read back.
use l2voice_chat.Base.{
  ℕ, false, [], ◌∷◌, ◌++◌, append_assoc, some, ◌≡◌, refl, ap, ◌∙◌, arith, ◌==◌, if◌then◌else◌,
  Bytes, after, sym, Bool-cases, inl, inr,
}
use l2voice_chat.Json.{needle}
use l2voice_chat.Overlay.Json.{raw_string, unescape, reveal, hide, escape_json, json_extract_string}

-- The text as it comes back: a carriage return has become the letter `r`.
unfoldable pub without_cr : ℕ → ℕ
without_cr c = if c == 13 then b'r' else c

unfoldable pub read_back : Bytes → Bytes
unfolding without_cr
read_back [] = []
read_back (c ∷ s) = without_cr c ∷ read_back s

raw_pair : (d : ℕ) (s : Bytes) → raw_string (b'\\' ∷ d ∷ s) ≡ b'\\' ∷ d ∷ raw_string s
unfolding raw_string
raw_pair d s = refl

-- A byte that is neither a quote nor a backslash is read as it is.
raw_plain :
    (c : ℕ) (s : Bytes)
    → (c == b'\\') ≡ false
    → (c == b'"') ≡ false
    → raw_string (c ∷ s) ≡ c ∷ raw_string s
unfolding raw_string
raw_plain c [] b q = rw q refl
raw_plain c (d ∷ s) b q = rw (b, q) refl

unescape_plain : (c : ℕ) (s : Bytes) → (c == b'\\') ≡ false → unescape (c ∷ s) ≡ c ∷ unescape s
unfolding unescape
unescape_plain c [] b = refl
unescape_plain c (d ∷ s) b = rw b refl

raw_quote : (s : Bytes) → raw_string (b'"' ∷ s) ≡ []
unfolding raw_string
raw_quote [] = refl
raw_quote (d ∷ s) = refl

-- `escapeJSON` makes of a byte a pair with a backslash, or leaves it.
data Hidden (c : ℕ) : Bytes → Type 0 where
  pair : (d : ℕ) → reveal d ≡ without_cr c → Hidden c (b'\\' ∷ d ∷ [])
  plain : (c == b'\\') ≡ false → (c == b'"') ≡ false → without_cr c ≡ c → Hidden c (c ∷ [])

hide-Hidden : (c : ℕ) → Hidden c (hide c)
unfolding hide without_cr
hide-Hidden c = elim (Bool-cases (c == b'"')) [
  | inl quote ↦ rw quote (pair b'"' (ground arith))
  | inr unquoted ↦ rw unquoted (elim (Bool-cases (c == b'\\')) [
    | inl slash ↦ rw slash (pair b'\\' (ground arith))
    | inr bare ↦ rw bare (elim (Bool-cases (c == 10)) [
      | inl line ↦ rw line (pair b'n' (ground arith))
      | inr inline ↦ rw inline (elim (Bool-cases (c == 13)) [
        | inl cr ↦ rw cr (pair b'r' (ground arith))
        | inr other ↦ rw other (plain bare unquoted (ground arith))
      ])
    ])
  ])
]

raw-Hidden : (c : ℕ) {h : Bytes} (s : Bytes) → Hidden c h → raw_string (h ++ s) ≡ h ++ raw_string s
unfolding raw_string
raw-Hidden c s (pair d r) = refl
raw-Hidden c s (plain b q w) = raw_plain c s b q

unescape-Hidden :
    (c : ℕ) {h : Bytes} (s : Bytes) → Hidden c h → unescape (h ++ s) ≡ without_cr c ∷ unescape s
unfolding unescape
unescape-Hidden c s (pair d r) = ap (λ x. x ∷ unescape s) r
unescape-Hidden c s (plain b q w) = unescape_plain c s b ∙ ap (λ x. x ∷ unescape s) (sym w)

pub raw_string-escape_json :
    (s rest : Bytes) → raw_string (escape_json s ++ (b'"' ∷ rest)) ≡ escape_json s
unfolding escape_json
raw_string-escape_json [] rest = raw_quote rest
raw_string-escape_json (c ∷ s) rest =
    ap raw_string (append_assoc (hide c) (escape_json s) (b'"' ∷ rest))
    ∙ (raw-Hidden c (escape_json s ++ (b'"' ∷ rest)) (hide-Hidden c)
        ∙ ap (λ t. hide c ++ t) (raw_string-escape_json s rest))

pub unescape-escape_json : (s : Bytes) → unescape (escape_json s) ≡ read_back s
unfolding escape_json unescape read_back
unescape-escape_json [] = refl
unescape-escape_json (c ∷ s) =
    unescape-Hidden c (escape_json s) (hide-Hidden c)
    ∙ ap (λ t. without_cr c ∷ t) (unescape-escape_json s)

-- A value that is written escaped, between quotes and behind its key, is read back, but for each
-- carriage return, which comes back as the letter `r`: where the key is found at the value.
pub json_extract_string-escape_json :
    (json key s rest : Bytes)
    → after (needle key (b'"' ∷ [])) json ≡ some (escape_json s ++ (b'"' ∷ rest))
    → json_extract_string json key ≡ read_back s
unfolding json_extract_string
json_extract_string-escape_json json key s rest found =
    rw (found, json_extract_string)
      (ap unescape (raw_string-escape_json s rest) ∙ unescape-escape_json s)
