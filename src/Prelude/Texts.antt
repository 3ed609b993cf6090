-- ===== src/Prelude/Texts.antt =====
-- Texts as lists of bytes: literals, equality, decimal numerals, ASCII case and white space.
use Prim.Native.Nat.{ℕ, zero, suc, ◌+◌, ◌/◌, ◌%◌}
use Prim.Native.Char.{code}
use Prim.Native.String.{String}
use mathlib.Core.Path.{◌≡◌}
use mathlib.Core.Logic.{◌↔◌}
use mathlib.Core.Bool.{Bool, true, false, ◌&&◌, ◌||◌}
use mathlib.Core.List.{List, [], ◌∷◌}
use native.Mathlib.Omega.{arith}
use drive_lab.Prelude.Tests.{leb, ◌==◌, if◌then◌else◌}

-- `std::string`: its bytes.
abbrev pub Text : Type 0
Text = List ℕ

-- A literal. The literals of the source are ASCII, where code points are bytes.
unfoldable pub bytes : String → Text
bytes String.[] = []
bytes (String.◌∷◌ c s) = code c ∷ bytes s

unfoldable pub text_eq : Text → Text → Bool
text_eq [] [] = true
text_eq [] (b ∷ bs) = false
text_eq (a ∷ as') [] = false
text_eq (a ∷ as') (b ∷ bs) = (a == b) && text_eq as' bs

pub text_eq_iff : (a b : Text) → (text_eq a b ≡ true) ↔ (a ≡ b)
unfolding text_eq
text_eq_iff [] [] = ground arith
text_eq_iff [] (b ∷ bs) = ground arith
text_eq_iff (a ∷ xs) [] = ground arith
text_eq_iff (a ∷ xs) (b ∷ bs) = ground (arith, text_eq_iff xs bs)

-- `std::to_string` of an unsigned number: a numeral has at most `n + 1` digits.
unfoldable pub digits_upto : ℕ → ℕ → Text → Text
digits_upto zero n acc = acc
digits_upto (suc f) n acc =
    let rest = digits_upto f (n / 10) ((b'0' + n % 10) ∷ acc) in
    if leb n 9 then (b'0' + n % 10) ∷ acc else rest

unfoldable pub to_text : ℕ → Text
unfolding digits_upto
to_text n = digits_upto (suc n) n []

-- `std::isspace` and `std::tolower` on a byte, in the C locale.
unfoldable pub is_space : ℕ → Bool
is_space c = (c == 32) || (leb 9 c && leb c 13)

unfoldable pub to_lower : ℕ → ℕ
to_lower c = if leb b'A' c && leb c b'Z' then c + 32 else c
