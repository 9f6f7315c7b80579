-- ===== src/Json/Numbers.antt =====
-- Decimal numerals: what `std::to_string` writes, `ExtractNumber` reads back.
use l2voice_chat.Base.{
  ℕ, zero, suc, ◌+◌, ◌*◌, ◌/◌, ◌%◌, ◌^◌, ◌≤◌, ◌<◌, Bool, true, false, [], ◌∷◌, ◌++◌, some, ◌≡◌,
  refl, ap, ◌∙◌, arith, ltb, ◌==◌, Bytes, is_digit, digits_onto, decimal, after, All, Bool-cases,
  inl, inr, ltb→lt,
}
use l2voice_chat.Json.{needle, read_digits, until_quote, extract_number, extract_string}

pub digits_onto-append : (f n : ℕ) (r s : Bytes) → digits_onto f n r ++ s ≡ digits_onto f n (r ++ s)
unfolding digits_onto
digits_onto-append zero n r s = refl
digits_onto-append (suc f) n r s =
    ground (arith, digits_onto-append f (n / 10) ((b'0' + n % 10) ∷ r) s)

read_digit :
    (v d : ℕ) (any : Bool) (rest : Bytes)
    → d < 10
    → read_digits v any ((b'0' + d) ∷ rest) ≡ read_digits ((v * 10 + d) % 2 ^ 64) true rest
unfolding read_digits
read_digit v d any rest h = ground arith

read_digits-digits_onto :
    (f n : ℕ) (any : Bool) (rest : Bytes)
    → n ≤ f
    → n < 2 ^ 64
    → read_digits 0 any (digits_onto f n rest) ≡ read_digits n true rest
unfolding digits_onto
read_digits-digits_onto zero n any rest h k =
    read_digit 0 (n % 10) any rest (omega arith) ∙ ap (λ m. read_digits m true rest) (omega arith)
read_digits-digits_onto (suc f) n any rest h k = elim (Bool-cases (ltb n 10)) [
  | inl small ↦
      rw small (
        read_digit 0 n any rest (ltb→lt _ _ small)
        ∙ ap (λ m. read_digits m true rest) (omega arith))
  | inr large ↦ rw large (
      read_digits-digits_onto f (n / 10) any _ (ground arith) (omega arith)
      ∙ read_digit (n / 10) (n % 10) true rest (omega arith)
      ∙ ap (λ m. read_digits m true rest) (omega arith))
]

-- A numeral below 2 ^ 64, with text behind it that does not begin with a digit, is read as its
-- number.
pub read_digits-decimal :
    (n c : ℕ) (rest : Bytes)
    → n < 2 ^ 64
    → is_digit c ≡ false
    → read_digits 0 false (decimal n ++ (c ∷ rest)) ≡ some n
unfolding decimal read_digits
read_digits-decimal n c rest h d =
    ap (read_digits 0 false) (digits_onto-append n n [] (c ∷ rest))
    ∙ read_digits-digits_onto n n false (c ∷ rest) (omega arith) h
    ∙ rw d

-- Text with no byte `q`.
abbrev pub Lacks : ℕ → Bytes → Type 0
Lacks q = All (λ c. (q == c) ≡ false)

after-miss : (q x : ℕ) (n s : Bytes) → (q == x) ≡ false → after (q ∷ n) (x ∷ s) ≡ after (q ∷ n) s
unfolding after
after-miss q x n s h = ground arith

-- The search for a needle that begins with a quote passes over text with no quote.
pub after-skip :
    (q : ℕ) (n xs ys : Bytes) → Lacks q xs → after (q ∷ n) (xs ++ ys) ≡ after (q ∷ n) ys
after-skip q n [] ys h = refl
after-skip q n (x ∷ xs) ys h = after-miss q x n (xs ++ ys) h.0 ∙ after-skip q n xs ys h.1

digits_onto-Lacks :
    (q f n : ℕ) (rest : Bytes) → is_digit q ≡ false → Lacks q rest → Lacks q (digits_onto f n rest)
unfolding digits_onto
digits_onto-Lacks q zero n rest d h = (ground arith, h)
digits_onto-Lacks q (suc f) n rest d h = elim (Bool-cases (ltb n 10)) [
  | inl small ↦ rw small (ground arith, h)
  | inr large ↦
      rw large (digits_onto-Lacks q f (n / 10) ((b'0' + n % 10) ∷ rest) d (ground arith, h))
]

-- A numeral holds digits alone.
pub decimal-Lacks : (q n : ℕ) → is_digit q ≡ false → Lacks q (decimal n)
unfolding decimal
decimal-Lacks q n d = digits_onto-Lacks q n n [] d tt

-- A numeral begins with a digit.
digits_onto-cons :
    (f n : ℕ) (rest : Bytes)
    → (d : ℕ) × (ds : Bytes) × (digits_onto f n rest ≡ d ∷ ds) × (is_digit d ≡ true)
unfolding digits_onto
digits_onto-cons zero n rest = (b'0' + n % 10, rest, refl, ground arith)
digits_onto-cons (suc f) n rest = elim (Bool-cases (ltb n 10)) [
  | inl small ↦ (b'0' + n, rest, rw small, ground arith)
  | inr large ↦
      let (d, ds, e, h) = digits_onto-cons f (n / 10) ((b'0' + n % 10) ∷ rest) in
      (d, ds, rw large e, h)
]

pub decimal-cons : (n : ℕ) → (d : ℕ) × (ds : Bytes) × (decimal n ≡ d ∷ ds) × (is_digit d ≡ true)
unfolding decimal
decimal-cons n = digits_onto-cons n n []

-- What the readers do once the key is found.
pub extract_number-after :
    (s key p : Bytes)
    → after (needle key []) s ≡ some p
    → extract_number s key ≡ read_digits 0 false p
unfolding extract_number
extract_number-after s key p h = rw (h, extract_number)

pub extract_string-after :
    (s key p : Bytes)
    → after (needle key (b'"' ∷ [])) s ≡ some p
    → extract_string s key ≡ until_quote p
unfolding extract_string
extract_string-after s key p h = rw (h, extract_string)
