-- ===== src/Linux/Faithful.antt =====
-- What a reported signature says of the properties that were read.
use drive_lab.Prelude.{
  ◌≡◌, sym, ap, ◌∙◌, inl, inr, Bool, true, false, ◌&&◌, Option, none, some, List, [], ◌∷◌, Text,
  bytes, text_eq, text_eq_iff, is_empty, any_of, set_has, map_find, TextMap, All, arith, Bool-cases,
  Option-cases, if◌then◌else◌,
}
use drive_lab.Inventory.{DiscoveryIssue, SignatureEvidence, reported}
use drive_lab.Linux.{HostRead, Properties}
use drive_lab.Linux.Words.{plain_text}
use drive_lab.Linux.Signature.{
  grouped, is_ambivalent, is_conflicting, is_malformed, is_unsupported, selected, single, Findings,
  findings, signature_state, evidence, has_both, judged_by, judged_signature, parse_signature,
}
use drive_lab.Linux.Groups.{holds_value, grouped-All, found-passes, only_value, found-holds}

-- What the evidence holds under a key.
abbrev pub field : Text → SignatureEvidence → Option Text
field k e =
    if text_eq k (bytes "ID_FS_TYPE")
    then e.type
    else if text_eq k (bytes "ID_FS_USAGE")
    then e.usage
    else if text_eq k (bytes "ID_FS_UUID")
    then e.uuid
    else if text_eq k (bytes "ID_FS_LABEL")
    then e.label
    else none

-- The evidence that is made of the findings when nothing is wrong with them.
abbrev whole : TextMap (List Text) → SignatureEvidence
whole m = let f = findings m in evidence reported f.type f.usage f.uuid f.label

selected-single :
    (k name v : Text) (m : TextMap (List Text))
    → text_eq k name ≡ true
    → map_find k m ≡ some (v ∷ [])
    → selected name m ≡ some v
unfolding selected
selected-single k name v m a f =
    ap (λ n. single (map_find n m)) (sym ((text_eq_iff k name).0 a)) ∙ ap single f

field-whole :
    (k v : Text) (m : TextMap (List Text))
    → map_find k m ≡ some (v ∷ [])
    → is_ambivalent k ≡ false
    → is_unsupported (k, v ∷ []) ≡ false
    → field k (whole m) ≡ some v
unfolding findings is_unsupported
field-whole k v m f a u = elim (Bool-cases (text_eq k (bytes "ID_FS_TYPE"))) [
  | inl t ↦ rw t (selected-single k (bytes "ID_FS_TYPE") v m t f)
  | inr t ↦ elim (Bool-cases (text_eq k (bytes "ID_FS_USAGE"))) [
    | inl t2 ↦ rw (t, t2) (selected-single k (bytes "ID_FS_USAGE") v m t2 f)
    | inr t2 ↦ elim (Bool-cases (text_eq k (bytes "ID_FS_UUID"))) [
      | inl t3 ↦ rw (t, t2, t3) (selected-single k (bytes "ID_FS_UUID") v m t3 f)
      | inr t3 ↦
          let t4 : text_eq k (bytes "ID_FS_LABEL") ≡ true = ground arith in
          rw (t, t2, t3, t4) (selected-single k (bytes "ID_FS_LABEL") v m t4 f)
    ]
  ]
]

-- When the evidence is reported, nothing is wrong with the properties.
abbrev Accepted : Bool → Findings → SignatureEvidence → Type 0
Accepted clean f e =
    (clean ≡ true)
    × (f.conflict ≡ false)
    × (f.malformed_value ≡ false)
    × (f.unsupported ≡ false)
    × (has_both e.type e.usage ≡ true)
    × (e ≡ evidence reported f.type f.usage f.uuid f.label)

same_evidence :
    (node : Text) (clean : Bool) (f : Findings) (m : TextMap (List Text))
    → f.conflict ≡ false
    → f.malformed_value ≡ false
    → f.unsupported ≡ false
    → has_both f.type f.usage ≡ true
    → clean ≡ true
    → (judged_by node clean f m).0 ≡ evidence reported f.type f.usage f.uuid f.label
unfolding judged_by signature_state
same_evidence node clean f m c d e both cl = ground arith

judged_by-Accepted :
    (node : Text) (clean : Bool) (f : Findings) (m : TextMap (List Text))
    → (judged_by node clean f m).0.state ≡ reported
    → Accepted clean f (judged_by node clean f m).0
unfolding judged_by signature_state
judged_by-Accepted node clean f m h = elim (Bool-cases f.conflict) [
  | inl c ↦ ground arith
  | inr c ↦ elim (Bool-cases f.malformed_value) [
    | inl d ↦ ground arith
    | inr d ↦ elim (Bool-cases f.unsupported) [
      | inl e ↦ ground arith
      | inr e ↦ elim (Bool-cases (has_both f.type f.usage && clean)) [
        | inl g ↦
            let cl : clean ≡ true = ground arith in
            let both : has_both f.type f.usage ≡ true = ground arith in
            let same = same_evidence node clean f m c d e both cl in
            (cl, c, d, e, ap (λ x. has_both x.type x.usage) same ∙ both, same)
        | inr g ↦ ground arith
      ]
    ]
  ]
]

-- What evidence that is reported says of the properties that were read.
abbrev pub Says : Properties → SignatureEvidence → Type 0
Says ps e =
    (has_both e.type e.usage ≡ true)
    × All (λ p. (field p.0 e ≡ some p.1) × (plain_text p.1 ≡ true)) ps

abbrev pub Faithful : HostRead Properties → SignatureEvidence → Type 0
Faithful source e = elim source.value [
  | none ↦ true ≡ false
  | some ps ↦ (is_empty source.issues ≡ true) × Says ps e
]

-- A group with one value, when no group is refused.
single-Says :
    (k v : Text) (m : TextMap (List Text))
    → map_find k m ≡ some (v ∷ [])
    → (findings m).conflict ≡ false
    → (findings m).malformed_value ≡ false
    → (findings m).unsupported ≡ false
    → (field k (whole m) ≡ some v) × (plain_text v ≡ true)
unfolding findings is_conflicting is_malformed any_of
single-Says k v m f c d u =
    let a = found-passes is_conflicting k (v ∷ []) m (ground arith) f in
    let b = found-passes is_malformed k (v ∷ []) m (ground arith) f in
    let u' = found-passes is_unsupported k (v ∷ []) m (ground arith) f in
    (field-whole k v m f (ground arith) u', ground arith)

group-Says :
    (k v : Text) (m : TextMap (List Text))
    → holds_value k v m ≡ true
    → (findings m).conflict ≡ false
    → (findings m).malformed_value ≡ false
    → (findings m).unsupported ≡ false
    → (field k (whole m) ≡ some v) × (plain_text v ≡ true)
unfolding findings is_conflicting set_has
group-Says k v m h c d u = elim (Option-cases (map_find k m)) [
  | inl n ↦ let absent = found-holds k v m none n h in ground arith
  | inr (vs, s) ↦
      let a = found-passes is_conflicting k vs m (ground arith) s in
      let one = only_value v vs (found-holds k v m (some vs) s h) (ground arith) in
      single-Says k v m (s ∙ ap some one) c d u
]

All-Says :
    (m : TextMap (List Text))
    → (findings m).conflict ≡ false
    → (findings m).malformed_value ≡ false
    → (findings m).unsupported ≡ false
    → (ps : Properties) → All (λ p. holds_value p.0 p.1 m ≡ true) ps
    → All (λ p. (field p.0 (whole m) ≡ some p.1) × (plain_text p.1 ≡ true)) ps
All-Says m c d u [] h = tt
All-Says m c d u (p ∷ ps) h = (group-Says p.0 p.1 m h.0 c d u, All-Says m c d u ps h.1)

judged_signature-Says :
    (node : Text) (clean : Bool) (ps : Properties)
    → (judged_signature node clean (grouped ps [])).0.state ≡ reported
    → (clean ≡ true) × Says ps (judged_signature node clean (grouped ps [])).0
unfolding judged_signature
judged_signature-Says node clean ps h =
    let m = grouped ps [] in
    let (cl, c, d, u, both, same) = judged_by-Accepted node clean (findings m) m h in
    (cl, (both, rw same (All-Says m c d u ps (grouped-All ps []))))

abbrev read_of : Option Properties → List DiscoveryIssue → HostRead Properties
read_of v is = record { value = v; issues = is }

Faithful-read :
    (v : Option Properties) (is : List DiscoveryIssue) (node : Text) (issues : List DiscoveryIssue)
    → (parse_signature (read_of v is) node issues).0.state ≡ reported
    → Faithful (read_of v is) (parse_signature (read_of v is) node issues).0
unfolding parse_signature
Faithful-read none is node issues h = ground arith
Faithful-read (some ps) is node issues h = judged_signature-Says node (is_empty is) ps h

-- A signature is reported only if it was read without an issue and has a type and a usage; then every
-- property that was read is plain text under one of the four keys, and its value is exactly what the
-- evidence holds under that key.
pub parse_signature-Faithful :
    (source : HostRead Properties) (node : Text) (issues : List DiscoveryIssue)
    → (parse_signature source node issues).0.state ≡ reported
    → Faithful source (parse_signature source node issues).0
parse_signature-Faithful source node issues h =
    Faithful-read source.value source.issues node issues h
