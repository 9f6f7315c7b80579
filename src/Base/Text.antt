-- ===== src/Base/Text.antt =====
-- `std::string` as a list of bytes: literals, equality, search and decimal numerals.
use Prim.Native.Nat.{ℕ, zero, suc, ◌+◌, ◌/◌, ◌%◌}
use Prim.Native.Char.{code}
use Prim.Native.String.{String}
use mathlib.Core.Path.{◌≡◌, refl}
use mathlib.Core.Logic.{◌↔◌}
use mathlib.Core.Bool.{Bool, true, false, ◌&&◌}
use mathlib.Core.Option.{Option, none, some}
use mathlib.Core.List.{List, [], ◌∷◌, ◌++◌}
use native.Mathlib.Omega.{arith}
use l2voice_chat.Base.Tests.{ltb, leb, ◌==◌, if◌then◌else◌}

abbrev pub Bytes : Type 0
Bytes = List ℕ

-- The bytes of a literal; every literal that the development uses is ASCII.
abbrev pub codes : String → Bytes
codes String.[] = []
codes (String.◌∷◌ c s) = code c ∷ codes s

-- `operator==` of two strings.
unfoldable pub bytes_eq : Bytes → Bytes → Bool
bytes_eq [] [] = true
bytes_eq (x ∷ xs) (y ∷ ys) = x == y && bytes_eq xs ys
bytes_eq _ _ = false

pub bytes_eq_iff : (a b : Bytes) → (bytes_eq a b ≡ true) ↔ (a ≡ b)
unfolding bytes_eq
bytes_eq_iff (x ∷ a) (y ∷ b) = ground (arith, bytes_eq_iff a b)
bytes_eq_iff _ _ = ground arith

-- What follows the prefix `n` of `s`, if `s` starts with it.
unfoldable pub strip : Bytes → Bytes → Option Bytes
strip [] s = some s
strip (n ∷ ns) [] = none
strip (n ∷ ns) (c ∷ s) = if n == c then strip ns s else none

-- `p = s.find(n)` and then `p += n.size()`: the text from `p` on, behind the first occurrence.
unfoldable pub after : Bytes → Bytes → Option Bytes
unfolding strip
after n [] = strip n []
after n (c ∷ s) = let later = after n s in elim (strip n (c ∷ s)) [ some r ↦ some r | none ↦ later ]

pub strip-append : (n s : Bytes) → strip n (n ++ s) ≡ some s
unfolding strip
strip-append [] s = refl
strip-append (x ∷ n) s = ground (arith, strip-append n s)

-- `s.find(n) != npos`
unfoldable pub contains : Bytes → Bytes → Bool
unfolding after
contains n s = elim (after n s) [ some r ↦ true | none ↦ false ]

abbrev pub is_digit : ℕ → Bool
is_digit c = leb b'0' c && leb c b'9'

-- The decimal digits of `n` in front of `rest`; fuel `n` is enough, since `n / 10 < n`.
unfoldable pub digits_onto : ℕ → ℕ → Bytes → Bytes
digits_onto zero n rest = (b'0' + n % 10) ∷ rest
digits_onto (suc f) n rest =
    let more = digits_onto f (n / 10) ((b'0' + n % 10) ∷ rest) in
    if ltb n 10 then (b'0' + n) ∷ rest else more

-- `std::to_string` of an unsigned number.
unfoldable pub decimal : ℕ → Bytes
unfolding digits_onto
decimal n = digits_onto n n []
