-- ===== src/Resolve/Hex.antt =====
-- `hexIdentifier` of core/resolved_inventory.cpp: the shape of what it returns.
use drive_lab.Prelude.{
  ℕ, suc, ◌≡◌, refl, sym, inl, inr, ◌||◌, ap, ◌∙◌, Bool, true, false, none, some, [], ◌∷◌, Text,
  length, ◌==◌, ==_iff, arith, Bool-cases, Option-cases, All,
}
use mathlib.Core.Path.{subst}
use drive_lab.Resolve.{
  is_lower_hex, lower_hex, to_hex, only, compact, without_0x, checked_hex, hex_identifier,
}

abbrev pub LowerHex : Text → Type 0
LowerHex = All (λ c. is_lower_hex c ≡ true)

some-same : (s t : Text) → some s ≡ some t → s ≡ t
some-same s t e = cc

to_hex_cons :
    (c : ℕ) (cs t : Text)
    → is_lower_hex (lower_hex c) ≡ true
    → to_hex cs ≡ some t
    → to_hex (c ∷ cs) ≡ some (lower_hex c ∷ t)
unfolding to_hex
to_hex_cons c cs t a e = rw (a, e)

to_hex_bad : (c : ℕ) (cs : Text) → is_lower_hex (lower_hex c) ≡ false → to_hex (c ∷ cs) ≡ none
unfolding to_hex
to_hex_bad c cs a = rw a

to_hex_none : (c : ℕ) (cs : Text) → to_hex cs ≡ none → to_hex (c ∷ cs) ≡ none
unfolding to_hex
to_hex_none c cs e = elim (Bool-cases (is_lower_hex (lower_hex c))) [
  | inl a ↦ rw (a, e)
  | inr a ↦ rw a
]

to_hex-LowerHex : (t h : Text) → to_hex t ≡ some h → (length h ≡ length t) × LowerHex h
unfolding to_hex
to_hex-LowerHex [] [] e = (refl, tt)
to_hex-LowerHex [] (d ∷ h) e = cc
to_hex-LowerHex (c ∷ cs) h e = elim (Bool-cases (is_lower_hex (lower_hex c))) [
  | inr a ↦ cc (to_hex_bad c cs a, e)
  | inl a ↦ elim (Option-cases (to_hex cs)) [
    | inl f ↦ cc (to_hex_none c cs f, e)
    | inr (t, f) ↦
        let (same, all) = to_hex-LowerHex cs t f in
        subst (λ (h : Text). (length h ≡ suc (length cs)) × LowerHex h)
          (some-same (lower_hex c ∷ t) h (sym (to_hex_cons c cs t a f) ∙ e)) (ap suc same, (a, all))
  ]
]

checked_hex-LowerHex :
    (digits : ℕ) (t h : Text)
    → checked_hex digits t ≡ some h
    → (length h ≡ digits) × LowerHex h × (only b'0' h ≡ false) × (only b'f' h ≡ false)
unfolding checked_hex
checked_hex-LowerHex digits t h e = elim (Bool-cases (length t == digits)) [
  | inr a ↦ cc (rw (checked_hex, a) at e)
  | inl a ↦ elim (Option-cases (to_hex t)) [
    | inl f ↦ cc (rw (checked_hex, a, f) at e)
    | inr (k, f) ↦ elim (Bool-cases (only b'0' k || only b'f' k)) [
      | inl o ↦ cc (rw (checked_hex, a, f, o) at e)
      | inr o ↦
          let (same, all) = to_hex-LowerHex t k f in
          subst
            (λ (h : Text).
              (length h ≡ digits) × LowerHex h × (only b'0' h ≡ false) × (only b'f' h ≡ false))
            (some-same k h (rw (checked_hex, a, f, o) at e))
            (same ∙ (==_iff (length t) digits).0 a, all, ground arith, ground arith)
    ]
  ]
]

-- An identifier that `hexIdentifier` accepts has exactly the digits asked for, all of them lower
-- case hexadecimal, and is neither all 0 nor all f.
pub hex_identifier-LowerHex :
    (value : Text) (digits : ℕ) (formatted : Bool) (h : Text)
    → hex_identifier value digits formatted ≡ some h
    → (length h ≡ digits) × LowerHex h × (only b'0' h ≡ false) × (only b'f' h ≡ false)
unfolding hex_identifier
hex_identifier-LowerHex value digits formatted h e =
    elim (Option-cases (compact (without_0x value) digits formatted)) [
      | inl f ↦ cc (rw (hex_identifier, f) at e)
      | inr (t, f) ↦ checked_hex-LowerHex digits t h (rw (hex_identifier, f) at e)
    ]
