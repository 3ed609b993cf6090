-- ===== src/Resolve/Identify/Sound.antt =====
-- What an identity given by `identify` of core/resolved_inventory.cpp rests on.
use drive_lab.Prelude.{
  ℕ, ◌≡◌, refl, ap, ◌⊎◌, inl, inr, Bool, true, false, ◌||◌, Option, none, some, List, [], ◌∷◌, ◌++◌,
  Text, bytes, text_eq, text_eq_iff, any_of, if◌then◌else◌, arith, Bool-cases, Option-cases, All,
}
use mathlib.Core.Path.{subst}
use drive_lab.Drive.{DriveId}
use drive_lab.Inventory.{
  BlockDeviceObservation, BlockInventoryIssue, ResolutionState, ResolvedIdentity,
}
use drive_lab.Resolve.{hex_identifier}
use drive_lab.Resolve.Identify.{
  Evidence, identity_fields, is_disappeared, is_candidate, note_problems, is_nvme, parse_hex,
  eui_alias, check_namespace_wwn, wwn_hex, without_naa, check_wwn, check_any_wwn, corroborated,
  drive_of, or_else, fallback, conclude, identify_disk, identify,
}

-- The issue concerns a field that identifies the device, or says that it is gone.
abbrev pub disturbs : BlockInventoryIssue → Bool
disturbs p = any_of (text_eq p.field) identity_fields || is_disappeared p.code

note_problems-free :
    (name : Text) (ps : List BlockInventoryIssue) (e : Evidence)
    → (note_problems name ps e).blocked ≡ false
    → (e.blocked ≡ false) × All (λ p. disturbs p ≡ false) ps
unfolding note_problems
note_problems-free name [] e h = (h, tt)
note_problems-free name (p ∷ ps) e h = elim (Bool-cases (disturbs p)) [
  | inl d ↦ cc ((note_problems-free name ps _ (rw (note_problems, d) at h)).0)
  | inr d ↦
      let (free, rest) = note_problems-free name ps _ (rw (note_problems, d) at h) in
      (free, (d, rest))
]

-- The alias is among the strong ones.
abbrev pub Listed : Text → List Text → Type 0
Listed a s = any_of (text_eq a) s ≡ true

Listed-append : (a : Text) (s t : List Text) → Listed a s → Listed a (s ++ t)
unfolding any_of
Listed-append a [] t h = cc
Listed-append a (b ∷ s) t h = ground (arith, Listed-append a s t)

Listed-last : (a : Text) (s : List Text) → Listed a (s ++ (a ∷ []))
unfolding any_of
Listed-last a [] = ground (arith, text_eq_iff a a)
Listed-last a (b ∷ s) = ground (arith, Listed-last a s)

Listed-given : (a b : Text) (s : List Text) → some b ≡ some a → Listed a (s ++ (b ∷ []))
Listed-given a b s h = subst (λ (c : Text). Listed c (s ++ (b ∷ []))) (cc) (Listed-last b s)

-- A step of `identify` that may return an alias: it lists the alias, drops none and unblocks
-- nothing.
record Step (e : Evidence) (r : Evidence × Option Text) : Type 0 where
  free : r.0.blocked ≡ false → e.blocked ≡ false
  kept : (a : Text) → Listed a e.strong_aliases → Listed a r.0.strong_aliases
  gave : (a : Text) → r.1 ≡ some a → Listed a r.0.strong_aliases

parse_hex-Step :
    (name : Text) (t : Option Text) (size : ℕ) (field prefix : Text) (e : Evidence)
    → Step e (parse_hex name t size field prefix e)
unfolding parse_hex
parse_hex-Step name none size field prefix e = record {
  free = λ h. h;
  kept = λ a l. l;
  gave = λ a h. cc;
}
parse_hex-Step name (some t) size field prefix e =
    elim (Option-cases (hex_identifier t size true)) [
      | inl f ↦ rw (parse_hex, f) (record { free = λ h. cc; kept = λ a l. l; gave = λ a h. cc })
      | inr (v, f) ↦
          rw (parse_hex, f)
            (record {
              free = λ h. h;
              kept = λ a l. Listed-append a e.strong_aliases _ l;
              gave = λ a h. Listed-given a (prefix ++ v) e.strong_aliases h;
            })
    ]

check_wwn-Step : (name w : Text) (e : Evidence) → Step e (check_wwn name w e)
unfolding check_wwn
check_wwn-Step name w e = elim (Option-cases (wwn_hex (without_naa w))) [
  | inl f ↦ rw (check_wwn, f) (record { free = λ h. cc; kept = λ a l. l; gave = λ a h. cc })
  | inr (v, f) ↦
      rw (check_wwn, f)
        (record {
          free = λ h. h;
          kept = λ a l. Listed-append a e.strong_aliases _ l;
          gave = λ a h. Listed-given a _ e.strong_aliases h;
        })
]

check_namespace_wwn-Step :
    (name w : Text) (nguid eui : Option Text) (e : Evidence)
    → Step e (check_namespace_wwn name w nguid eui e)
unfolding check_namespace_wwn
check_namespace_wwn-Step name w nguid eui e =
    elim (Bool-cases (corroborated (eui_alias w) nguid eui)) [
      | inl c ↦
          rw (check_namespace_wwn, c) (record { free = λ h. h; kept = λ a l. l; gave = λ a h. cc })
      | inr c ↦
          rw (check_namespace_wwn, c) (record { free = λ h. cc; kept = λ a l. l; gave = λ a h. cc })
    ]

check_any_wwn-Step :
    (raw : BlockDeviceObservation) (nguid eui : Option Text) (e : Evidence)
    → Step e (check_any_wwn raw nguid eui e)
unfolding check_any_wwn
check_any_wwn-Step raw nguid eui e = elim (Option-cases raw.wwn) [
  | inl f ↦ rw (check_any_wwn, f) (record { free = λ h. h; kept = λ a l. l; gave = λ a h. cc })
  | inr (w, f) ↦ elim (Bool-cases (is_nvme raw)) [
    | inl n ↦ rw (check_any_wwn, f, n) (check_namespace_wwn-Step raw.kernel_name w nguid eui e)
    | inr n ↦ rw (check_any_wwn, f, n) (check_wwn-Step raw.kernel_name w e)
  ]
]

-- An identity given by `identify`: it is resolved, and it is a strong alias or the fingerprint.
pub record Given (r : ResolvedIdentity) (d : DriveId) : Type 0 where
  pub state : r.state ≡ ResolutionState.resolved
  pub source : Listed d.value r.strong_aliases ⊎ (r.fallback_fingerprint ≡ some d.value)

id-text : (t : Text) (d : DriveId) → some (drive_of t) ≡ some d → some t ≡ some d.value
id-text t d h = ap (λ (o : Option DriveId). elim o [ none ↦ none | some i ↦ some i.value ]) h

conclude-Given :
    (raw : BlockDeviceObservation) (selected print : Option Text) (e : Evidence) (d : DriveId)
    → ((a : Text) → selected ≡ some a → Listed a e.strong_aliases ⊎ (print ≡ some a))
    → (conclude raw selected print e).1.id ≡ some d
    → (e.blocked ≡ false) × Given (conclude raw selected print e).1 d
unfolding conclude
conclude-Given raw none print e d from h = cc
conclude-Given raw (some t) print e d from h = elim (Bool-cases e.blocked) [
  | inl b ↦ cc (rw b at h)
  | inr b ↦ (b, record { state = rw b refl; source = from d.value (id-text t d (rw b at h)) })
]

or_else-some : (x y : Option Text) (a : Text) → or_else x y ≡ some a → (x ≡ some a) ⊎ (y ≡ some a)
or_else-some none y a h = inr h
or_else-some (some t) y a h = inl h

-- The selected text is one of the aliases, or the fingerprint.
selected-some :
    (nvme : Bool) (nguid eui wwn print : Option Text) (a : Text)
    → or_else (if nvme then or_else nguid eui else wwn) print ≡ some a
    → (nguid ≡ some a) ⊎ ((eui ≡ some a) ⊎ ((wwn ≡ some a) ⊎ (print ≡ some a)))
selected-some nvme nguid eui wwn print a h =
    elim (or_else-some (if nvme then or_else nguid eui else wwn) print a h) [
      | inr p ↦ inr (inr (inr p))
      | inl s ↦ elim (Bool-cases nvme) [
        | inr n ↦ inr (inr (inl (rw n at s)))
        | inl n ↦ elim (or_else-some nguid eui a (rw n at s)) [
          | inl g ↦ inl g
          | inr g ↦ inr (inl g)
        ]
      ]
    ]

identify_disk-Given :
    (raw : BlockDeviceObservation) (d : DriveId)
    → (identify_disk raw).1.id ≡ some d
    → All (λ p. disturbs p ≡ false) raw.issues × Given (identify_disk raw).1 d
unfolding identify_disk
identify_disk-Given raw d h =
    let start : Evidence =
      note_problems raw.kernel_name raw.issues
        (record { issues = []; strong_aliases = []; blocked = false }) in
    let r1 : Evidence × Option Text =
      parse_hex raw.kernel_name raw.nvme_nguid 32 (bytes "nvme_nguid") (bytes "prod:nvme-nguid:")
        start in
    let r2 : Evidence × Option Text =
      parse_hex raw.kernel_name raw.nvme_eui 16 (bytes "nvme_eui") (bytes "prod:nvme-eui:") r1.0 in
    let r3 : Evidence × Option Text = check_any_wwn raw r1.1 r2.1 r2.0 in
    let s1 : Step start r1 = parse_hex-Step _ _ _ _ _ _ in
    let s2 : Step r1.0 r2 = parse_hex-Step _ _ _ _ _ _ in
    let s3 : Step r2.0 r3 = check_any_wwn-Step raw r1.1 r2.1 r2.0 in
    let (free, given) =
      conclude-Given raw _ (fallback raw r3.0.blocked) r3.0 d
        (λ a q. elim (selected-some (is_nvme raw) r1.1 r2.1 r3.1 _ a q) [
          | inl g ↦ inl (s3.kept a (s2.kept a (s1.gave a g)))
          | inr (inl g) ↦ inl (s3.kept a (s2.gave a g))
          | inr (inr (inl g)) ↦ inl (s3.gave a g)
          | inr (inr (inr g)) ↦ inr g
        ])
        h in
    ((note_problems-free _ raw.issues _ (s1.free (s2.free (s3.free free)))).1, given)

-- `identify` gives an identity only to a disk that is not virtual and whose identifying fields were
-- read without issues; the identity is then resolved, and it is a strong alias of the device or its
-- fallback fingerprint.
pub identify-Given :
    (raw : BlockDeviceObservation) (d : DriveId)
    → (identify raw).1.id ≡ some d
    → (is_candidate raw.node_type raw.observation_kind ≡ true)
      × All (λ p. disturbs p ≡ false) raw.issues
      × Given (identify raw).1 d
unfolding identify
identify-Given raw d h = elim (Bool-cases (is_candidate raw.node_type raw.observation_kind)) [
  | inr c ↦ cc (rw (identify, c) at h)
  | inl c ↦
      rw (identify, c)
        (let (undisturbed, given) = identify_disk-Given raw d (rw (identify, c) at h) in
          (refl, undisturbed, given))
]
