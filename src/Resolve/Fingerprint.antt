-- ===== src/Resolve/Fingerprint.antt =====
-- The fallback fingerprint of core/resolved_inventory.cpp, read back.
use drive_lab.Prelude.{
  ℕ, zero, suc, ◌+◌, ◌-◌, ◌*◌, ◌/◌, ◌%◌, ◌≤◌, ◌≡◌, refl, sym, ap, ◌∙◌, true, false, [], ◌∷◌, ◌++◌,
  append_assoc, ◌==◌, leb, leb→le, Text, bytes, to_text, digits_upto, length, if◌then◌else◌, arith,
  Bool-cases, inl, inr,
}
use drive_lab.Resolve.{component, fingerprint}

-- A decimal number up to a colon or the end, and what follows.
abbrev read_number : ℕ → Text → ℕ × Text
read_number v [] = (v, [])
read_number v (c ∷ cs) =
    let rest = read_number (v * 10 + (c - b'0')) cs in if c == b':' then (v, cs) else rest

not_colon : (d : ℕ) → d ≤ 9 → ((b'0' + d) == b':') ≡ false
not_colon d h = ground arith

digit_back : (v d : ℕ) → v * 10 + (b'0' + d - b'0') ≡ v * 10 + d
digit_back v d = omega arith

read_number_digit :
    (v d : ℕ) (cs : Text) → d ≤ 9 → read_number v ((b'0' + d) ∷ cs) ≡ read_number (v * 10 + d) cs
read_number_digit v d cs h = rw (not_colon d h, digit_back v d) refl

one_digit : (n : ℕ) → n ≤ 9 → 0 * 10 + n % 10 ≡ n
one_digit n h = omega arith

two_parts : (n : ℕ) → n / 10 * 10 + n % 10 ≡ n
two_parts n = omega arith

digit_small : (n : ℕ) → n % 10 ≤ 9
digit_small n = omega arith

digits_last :
    (f n : ℕ) (acc : Text) → leb n 9 ≡ true → digits_upto (suc f) n acc ≡ (b'0' + n % 10) ∷ acc
unfolding digits_upto
digits_last f n acc h = rw h

digits_more :
    (f n : ℕ) (acc : Text)
    → leb n 9 ≡ false
    → digits_upto (suc f) n acc ≡ digits_upto f (n / 10) ((b'0' + n % 10) ∷ acc)
unfolding digits_upto
digits_more f n acc h = rw h

read_last :
    (f n : ℕ) (acc : Text)
    → leb n 9 ≡ true
    → read_number 0 (digits_upto (suc f) n acc) ≡ read_number n acc
read_last f n acc small =
    ap (λ (t : Text). read_number 0 t) (digits_last f n acc small)
    ∙ read_number_digit 0 (n % 10) acc (digit_small n)
    ∙ ap (λ (v : ℕ). read_number v acc) (one_digit n (leb→le n 9 small))

read_number-digits :
    (f n : ℕ) (acc : Text) → n ≤ f → read_number 0 (digits_upto (suc f) n acc) ≡ read_number n acc
read_number-digits zero n acc h = read_last zero n acc (ground arith)
read_number-digits (suc f) n acc h = elim (Bool-cases (leb n 9)) [
  | inl small ↦ read_last (suc f) n acc small
  | inr large ↦
      ap (λ (t : Text). read_number 0 t) (digits_more (suc f) n acc large)
      ∙ read_number-digits f (n / 10) ((b'0' + n % 10) ∷ acc) (ground arith)
      ∙ read_number_digit (n / 10) (n % 10) acc (digit_small n)
      ∙ ap (λ (v : ℕ). read_number v acc) (two_parts n)
]

-- `digits_upto` puts the digits before what it is given.
digits_append : (f n : ℕ) (acc t : Text) → digits_upto f n acc ++ t ≡ digits_upto f n (acc ++ t)
unfolding digits_upto
digits_append zero n acc t = refl
digits_append (suc f) n acc t = elim (Bool-cases (leb n 9)) [
  | inl small ↦ rw small refl
  | inr large ↦ rw large (digits_append f (n / 10) ((b'0' + n % 10) ∷ acc) t)
]

read_number-to_text : (n : ℕ) (t : Text) → read_number 0 (to_text n ++ t) ≡ read_number n t
unfolding to_text
read_number-to_text n t =
    ap (λ (s : Text). read_number 0 s) (digits_append (suc n) n [] t)
    ∙ read_number-digits n n t (omega arith)

-- A component, read back: its length, and its text with what follows.
read_number-component : (s t : Text) → read_number 0 (component s ++ t) ≡ (length s, s ++ t)
unfolding component bytes
read_number-component s t =
    ap (λ (u : Text). read_number 0 u) (append_assoc (to_text (length s)) (b':' ∷ s) t)
    ∙ read_number-to_text (length s) (b':' ∷ (s ++ t))

split_same : (s t x y : Text) → length s ≡ length t → s ++ x ≡ t ++ y → (s ≡ t) × (x ≡ y)
split_same [] [] x y l h = (refl, h)
split_same [] (d ∷ t) x y l h = cc
split_same (c ∷ s) [] x y l h = cc
split_same (c ∷ s) (d ∷ t) x y l h = let (same, rest) = split_same s t x y (cc) (cc) in (cc, rest)

component-injective : (s t x y : Text) → component s ++ x ≡ component t ++ y → (s ≡ t) × (x ≡ y)
component-injective s t x y h =
    let both : (length s, s ++ x) ≡ (length t, t ++ y) =
      sym (read_number-component s x)
      ∙ ap (λ (u : Text). read_number 0 u) h
      ∙ read_number-component t y in
    split_same s t x y (ap (λ (p : ℕ × Text). p.0) both) (ap (λ (p : ℕ × Text). p.1) both)

to_text-injective : (m n : ℕ) → to_text m ≡ to_text n → m ≡ n
unfolding to_text
to_text-injective m n h =
    ap (λ (p : ℕ × Text). p.0)
      (sym (read_number-digits m m [] (omega arith))
        ∙ ap (λ (u : Text). read_number 0 u) h
        ∙ read_number-digits n n [] (omega arith))

append-injective : (p s t : Text) → p ++ s ≡ p ++ t → s ≡ t
append-injective [] s t h = h
append-injective (c ∷ p) s t h = append-injective p s t (cc)

-- Two devices have one fallback fingerprint only if they have the same serial, model and capacity,
-- whatever characters the texts hold.
pub fingerprint-injective :
    (serial serial' model model' : Text) (capacity capacity' : ℕ)
    → fingerprint serial model capacity ≡ fingerprint serial' model' capacity'
    → (serial ≡ serial') × (model ≡ model') × (capacity ≡ capacity')
unfolding fingerprint
fingerprint-injective serial serial' model model' capacity capacity' h =
    let (same_serial, rest) =
      component-injective serial serial' _ _ (append-injective (bytes "prod:serial:") _ _ h) in
    let (same_model, end) = component-injective model model' _ _ rest in
    (
      same_serial,
      same_model,
      to_text-injective capacity capacity' (append-injective (bytes ":") _ _ end),
    )
