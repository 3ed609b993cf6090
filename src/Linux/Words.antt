-- ===== src/Linux/Words.antt =====
-- The helpers of platform/linux/linux_host_parsers.cpp that read one line.
use drive_lab.Prelude.{
  ℕ, zero, suc, ◌+◌, ◌-◌, ◌*◌, ◌^◌, Bool, true, false, not, ◌&&◌, ◌||◌, Option, none, some, List,
  [], ◌∷◌, ◌++◌, ltb, leb, ◌==◌, ℤ, pos, negsuc, Text, bytes, text_eq, is_space, is_empty, any_of,
  if◌then◌else◌,
}
use drive_lab.Inventory.{BlockDeviceNumber}

-- `stream >> value` until it fails; the word that is being read stands reversed.
unfoldable pub words_from : Text → Text → List Text
words_from current [] = if is_empty current then [] else current ∷ []
words_from current (c ∷ cs) =
    let next = words_from [] cs in
    let more = words_from (current ++ (c ∷ [])) cs in
    if is_space c then (if is_empty current then next else current ∷ next) else more

unfoldable pub words : Text → List Text
unfolding words_from
words line = words_from [] line

-- `std::getline` on a text: the lines that a newline ends.
unfoldable pub lines_from : Text → Text → List Text
lines_from current [] = []
lines_from current (c ∷ cs) =
    let next = lines_from [] cs in
    let more = lines_from (current ++ (c ∷ [])) cs in if c == b'\n' then current ∷ next else more

unfoldable pub complete_lines : Text → List Text
unfolding lines_from
complete_lines text = lines_from [] text

-- Whether the last record is cut off: `!text.empty() && text.back() != '\n'`.
unfoldable pub is_unterminated : Text → Bool
is_unterminated [] = false
is_unterminated (c ∷ []) = not (c == b'\n')
is_unterminated (c ∷ d ∷ cs) = is_unterminated (d ∷ cs)

abbrev pub is_digit : ℕ → Bool
is_digit c = leb b'0' c && leb c b'9'

-- `std::from_chars`, which stops at the first value that is too large.
unfoldable pub digits_value : ℕ → ℕ → Text → Option ℕ
digits_value bound n [] = some n
digits_value bound n (c ∷ cs) =
    let more = digits_value bound (n * 10 + (c - b'0')) cs in
    if is_digit c && ltb (n * 10 + (c - b'0')) bound then more else none

-- `number`, on an unsigned type whose values lie below the bound.
unfoldable pub number : ℕ → Text → Option ℕ
unfolding digits_value
number bound [] = none
number bound (c ∷ cs) = digits_value bound 0 (c ∷ cs)

abbrev minus : ℕ → ℤ
minus zero = pos 0
minus (suc n) = negsuc n

abbrev negated : Option ℕ → Option ℤ
negated none = none
negated (some n) = some (minus n)

abbrev unsigned : Option ℕ → Option ℤ
unsigned none = none
unsigned (some n) = some (pos n)

-- `number`, on `int`.
unfoldable pub int_number : Text → Option ℤ
unfolding number
int_number [] = none
int_number (c ∷ cs) =
    if c == b'-' then negated (number (2 ^ 31 + 1) cs) else unsigned (number (2 ^ 31) (c ∷ cs))

-- The text before the first colon, and the text after it.
unfoldable pub split_colon : Text → Option (Text × Text)
split_colon [] = none
split_colon (c ∷ cs) =
    let rest = split_colon cs in
    if c == b':' then some ([], cs) else elim rest [ none ↦ none | some (a, b) ↦ some (c ∷ a, b) ]

abbrev device_of : Option ℕ → Option ℕ → Option BlockDeviceNumber
device_of (some a) (some b) = some (record { major_number = a; minor_number = b })
device_of (some a) none = none
device_of none b = none

-- `deviceNumber`.
unfoldable pub device_number : Text → Option BlockDeviceNumber
unfolding split_colon number
device_number text = elim (split_colon text) [
  | none ↦ none
  | some (a, b) ↦ device_of (number (2 ^ 32) a) (number (2 ^ 32) b)
]

-- What the three digits of an escape stand for.
unfoldable pub octal : ℕ → ℕ → ℕ → Option ℕ
octal a b c =
    if text_eq (a ∷ b ∷ c ∷ []) (bytes "040")
    then some b' '
    else if text_eq (a ∷ b ∷ c ∷ []) (bytes "011")
    then some b'\t'
    else if text_eq (a ∷ b ∷ c ∷ []) (bytes "012")
    then some b'\n'
    else if text_eq (a ∷ b ∷ c ∷ []) (bytes "134")
    then some b'\\'
    else none

abbrev pub is_control : ℕ → Bool
is_control c = ltb c 32 || (c == 127)

abbrev pub and_then : Option ℕ → Option Text → Option Text
and_then (some c) (some t) = some (c ∷ t)
and_then (some c) none = none
and_then none t = none

-- A character that stands for itself, before what the rest comes to.
abbrev pub plain : ℕ → Option Text → Option Text
plain c rest = if is_control c || (c == b'\\') then none else and_then (some c) rest

-- `unescape`.
unfoldable pub unescape : Text → Option Text
unfolding octal
unescape [] = some []
unescape (c ∷ []) = plain c (some [])
unescape (c ∷ x ∷ []) = plain c (unescape (x ∷ []))
unescape (c ∷ x ∷ y ∷ []) = plain c (unescape (x ∷ y ∷ []))
unescape (c ∷ x ∷ y ∷ z ∷ cs) =
    let after = and_then (octal x y z) (unescape cs) in
    let next = plain c (unescape (x ∷ y ∷ z ∷ cs)) in if c == b'\\' then after else next

-- `plainText` and `token`.
unfoldable pub plain_text : Text → Bool
plain_text value = not (is_empty value) && not (any_of is_control value)

abbrev pub is_token_byte : ℕ → Bool
is_token_byte c =
    (leb b'a' c && leb c b'z')
    || ((leb b'A' c && leb c b'Z') || (is_digit c || ((c == b'_') || ((c == b'-') || (c == b'.')))))

unfoldable pub token : Text → Bool
unfolding plain_text
token value = plain_text value && not (any_of (λ c. not (is_token_byte c)) value)

-- `starts_with("/")`.
abbrev pub is_absolute : Text → Bool
is_absolute [] = false
is_absolute (c ∷ cs) = c == b'/'

-- A chain of readings, any of which may fail.
infixl 5 ◌>>=◌ ◌>>◌
abbrev pub ◌>>=◌ {ℓ κ} : {A : Type ℓ} {B : Type κ} → Option A → (A → Option B) → Option B
none >>= f = none
some a >>= f = f a

abbrev pub ◌>>◌ {ℓ} : {B : Type ℓ} → Option (Unit {0}) → Option B → Option B
m >> k = m >>= λ _. k

abbrev pub guard : Bool → Option (Unit {0})
guard true = some tt
guard false = none
