-- ===== src/Linux/Escapes.antt =====
-- The escaped texts that platform/linux/linux_host_parsers.cpp reads.
use drive_lab.Prelude.{
  ℕ, ◌≡◌, ◌⊎◌, ◌↔◌, inl, inr, refl, ap, false, Option, some, [], ◌∷◌, ◌==◌, Text, bytes, text_eq,
  text_eq_iff, arith, Bool-cases, Option-cases, ◌∙◌,
}
use mathlib.Core.Path.{subst}
use drive_lab.Linux.Words.{unescape, is_control, octal, and_then, plain}

-- The four codes that may follow a backslash, with the bytes that they stand for.
abbrev pub Code : Text → ℕ → Type 0
Code digits c =
    ((digits ≡ bytes "040") × (c ≡ b' '))
    ⊎ (((digits ≡ bytes "011") × (c ≡ b'\t'))
        ⊎ (((digits ≡ bytes "012") × (c ≡ b'\n')) ⊎ ((digits ≡ bytes "134") × (c ≡ b'\\'))))

-- A text beside what it stands for: byte by byte, a byte that is no control character and no backslash
-- stands for itself, and a backslash with a code for the code's byte.
pub data Stands : Text → Text → Type 0 where
  nothing : Stands [] []
  byte :
      {e t : Text} (c : ℕ)
      → is_control c ≡ false
      → (c == b'\\') ≡ false
      → Stands e t
      → Stands (c ∷ e) (c ∷ t)
  code :
      {e t : Text} (x y z c : ℕ)
      → Code (x ∷ y ∷ z ∷ []) c
      → Stands e t
      → Stands (b'\\' ∷ x ∷ y ∷ z ∷ e) (c ∷ t)

octal-Code : (x y z c : ℕ) → octal x y z ≡ some c → Code (x ∷ y ∷ z ∷ []) c
unfolding octal
octal-Code x y z c h = elim (Bool-cases (text_eq (x ∷ y ∷ z ∷ []) (bytes "040"))) [
  | inl a ↦ inl ((text_eq_iff (x ∷ y ∷ z ∷ []) (bytes "040")).0 a, ground arith)
  | inr n1 ↦ inr (elim (Bool-cases (text_eq (x ∷ y ∷ z ∷ []) (bytes "011"))) [
    | inl a ↦ inl ((text_eq_iff (x ∷ y ∷ z ∷ []) (bytes "011")).0 a, ground arith)
    | inr n2 ↦ inr (elim (Bool-cases (text_eq (x ∷ y ∷ z ∷ []) (bytes "012"))) [
      | inl a ↦ inl ((text_eq_iff (x ∷ y ∷ z ∷ []) (bytes "012")).0 a, ground arith)
      | inr n3 ↦ inr (elim (Bool-cases (text_eq (x ∷ y ∷ z ∷ []) (bytes "134"))) [
        | inl a ↦ ((text_eq_iff (x ∷ y ∷ z ∷ []) (bytes "134")).0 a, ground arith)
        | inr n4 ↦ ground arith
      ])
    ])
  ])
]

Code-octal : (x y z c : ℕ) → Code (x ∷ y ∷ z ∷ []) c → octal x y z ≡ some c
unfolding octal text_eq bytes
Code-octal x y z c k = ground arith

unescape-plain :
    (c : ℕ) (cs : Text)
    → is_control c ≡ false
    → (c == b'\\') ≡ false
    → unescape (c ∷ cs) ≡ and_then (some c) (unescape cs)
unfolding unescape
unescape-plain c [] p q = rw (p, q) refl
unescape-plain c (x ∷ []) p q = rw (p, q) refl
unescape-plain c (x ∷ y ∷ []) p q = rw (p, q) refl
unescape-plain c (x ∷ y ∷ z ∷ cs) p q = rw (p, q) refl

-- What stands for a text is read as that text.
Stands-unescape : {e t : Text} → Stands e t → unescape e ≡ some t
unfolding unescape
Stands-unescape nothing = refl
Stands-unescape (byte {e} {t} c p q s) =
    unescape-plain c e p q ∙ ap (and_then (some c)) (Stands-unescape s)
Stands-unescape (code {e} {t} x y z c k s) =
    let o = Code-octal x y z c k in let rest = Stands-unescape s in ground arith

-- A byte that stands for itself, or else nothing is read.
plain-Stands :
    (c : ℕ) (e t : Text) (rest : Option Text)
    → ((u : Text) → rest ≡ some u → Stands e u)
    → plain c rest ≡ some t
    → Stands (c ∷ e) t
plain-Stands c e t rest later h = elim (Bool-cases (is_control c)) [
  | inl a ↦ ground arith
  | inr a ↦ elim (Bool-cases (c == b'\\')) [
    | inl b ↦ ground arith
    | inr b ↦ elim (Option-cases rest) [
      | inl n ↦ ground arith
      | inr (u, s) ↦
          let same : c ∷ u ≡ t = ground arith in
          subst (Stands (c ∷ e)) same (byte c a b (later u s))
    ]
  ]
]

code-Stands :
    (x y z : ℕ) (e t : Text)
    → ((u : Text) → unescape e ≡ some u → Stands e u)
    → and_then (octal x y z) (unescape e) ≡ some t
    → Stands (b'\\' ∷ x ∷ y ∷ z ∷ e) t
code-Stands x y z e t later h = elim (Option-cases (octal x y z)) [
  | inl n ↦ ground arith
  | inr (c, o) ↦ elim (Option-cases (unescape e)) [
    | inl n ↦ ground arith
    | inr (u, s) ↦
        let same : c ∷ u ≡ t = ground arith in
        subst (Stands (b'\\' ∷ x ∷ y ∷ z ∷ e)) same
          (code x y z c (octal-Code x y z c o) (later u s))
  ]
]

unescape-Stands : (e t : Text) → unescape e ≡ some t → Stands e t
unfolding unescape
unescape-Stands [] t h = subst (Stands []) (ground arith) nothing
unescape-Stands (c ∷ []) t h = plain-Stands c [] t (some []) (unescape-Stands []) h
unescape-Stands (c ∷ x ∷ []) t h =
    plain-Stands c (x ∷ []) t (unescape (x ∷ [])) (unescape-Stands (x ∷ [])) h
unescape-Stands (c ∷ x ∷ y ∷ []) t h =
    plain-Stands c (x ∷ y ∷ []) t (unescape (x ∷ y ∷ [])) (unescape-Stands (x ∷ y ∷ [])) h
unescape-Stands (c ∷ x ∷ y ∷ z ∷ e) t h = elim (Bool-cases (c == b'\\')) [
  | inl b ↦
      let same : b'\\' ≡ c = ground arith in
      subst (λ d. Stands (d ∷ x ∷ y ∷ z ∷ e) t) same
        (code-Stands x y z e t (unescape-Stands e) (ground arith))
  | inr b ↦
      plain-Stands c (x ∷ y ∷ z ∷ e) t (unescape (x ∷ y ∷ z ∷ e)) (unescape-Stands (x ∷ y ∷ z ∷ e))
        (ground arith)
]

-- `unescape` accepts exactly the texts of bytes that are neither control characters nor backslashes
-- and of backslashes with one of the codes 040, 011, 012 and 134, and reads each byte as itself and
-- each code as the space, tab, newline or backslash that it stands for.
pub unescape_iff : (e t : Text) → (unescape e ≡ some t) ↔ Stands e t
unescape_iff e t = (unescape-Stands e t, Stands-unescape)
