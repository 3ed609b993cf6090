-- ===== src/Drive/Identity.antt =====
-- `driveId`, `lockKey` and `samePhysicalDevice` of core/drive.cpp.
use drive_lab.Prelude.{
  ℕ, ◌<◌, ◌≡◌, refl, sym, ap, ◌∙◌, ◌≢◌, ◌↔◌, ◌⊎◌, inl, inr, true, false, [], ◌∷◌, ◌++◌, Text, bytes,
  text_eq_iff, is_empty, arith,
}
use drive_lab.Result.{Result, ok, err}
use drive_lab.Drive.Canonical.{canonical_idem}
use drive_lab.Drive.{
  DriveId, DriveIdentity, id_eq, canonical, drive_id, serial_id, serial_key, wwn_key, same_ids,
  differs_when_known, same_physical_device,
}

pub id_eq_iff : (a b : DriveId) → (id_eq a b ≡ true) ↔ (a ≡ b)
unfolding id_eq
id_eq_iff a b = ground (arith, text_eq_iff a.value b.value)

-- The identity with its texts in canonical form.
abbrev pub canonical_identity : DriveIdentity → DriveIdentity
canonical_identity i = record i {
  serial = canonical i.serial;
  wwn = canonical i.wwn;
  model = canonical i.model;
}

-- White space around the WWN, serial and model, and their case, do not change the drive id.
drive_id-canonical : (i : DriveIdentity) → drive_id (canonical_identity i) ≡ drive_id i
unfolding drive_id
drive_id-canonical i = rw (canonical_idem i.wwn, canonical_idem i.serial, canonical_idem i.model)

abbrev pub HasStableIdentity : DriveIdentity → Type 0
HasStableIdentity i =
    (canonical i.wwn ≢ [])
    ⊎ ((canonical i.serial ≢ []) × (canonical i.model ≢ []) × (0 < i.capacity_bytes))

is_empty_iff : (s : Text) → (is_empty s ≡ true) ↔ (s ≡ [])
is_empty_iff [] = ground arith
is_empty_iff (c ∷ s) = ground arith

drive_id_wwn :
    (i : DriveIdentity)
    → canonical i.wwn ≢ []
    → drive_id i ≡ ok (record { value = wwn_key (canonical i.wwn) })
unfolding drive_id
drive_id_wwn i h = ground (arith, is_empty_iff (canonical i.wwn))

drive_id_serial : (i : DriveIdentity) → canonical i.wwn ≡ [] → drive_id i ≡ serial_id i
unfolding drive_id
drive_id_serial i h = rw h

serial_id-ok :
    (i : DriveIdentity)
    → canonical i.serial ≢ []
    → canonical i.model ≢ []
    → 0 < i.capacity_bytes
    → serial_id i
      ≡ ok (record { value = serial_key (canonical i.serial) (canonical i.model) i.capacity_bytes })
unfolding serial_id
serial_id-ok i s m c =
    ground (arith, is_empty_iff (canonical i.serial), is_empty_iff (canonical i.model))

serial_id-inv :
    (i : DriveIdentity) {id : DriveId}
    → serial_id i ≡ ok id
    → (canonical i.serial ≢ [])
      × (canonical i.model ≢ [])
      × (0 < i.capacity_bytes)
      × (id.value ≡ serial_key (canonical i.serial) (canonical i.model) i.capacity_bytes)
unfolding serial_id
serial_id-inv i e =
    ground (arith, is_empty_iff (canonical i.serial), is_empty_iff (canonical i.model))

known_or_not : (s : Text) → (s ≡ []) ⊎ (s ≢ [])
known_or_not [] = inl refl
known_or_not (c ∷ s) = inr (λ e. cc)

-- A drive has an id exactly when it has a WWN, or else a serial, a model and a capacity.
pub drive_id-ok_iff :
    (i : DriveIdentity) → ((id : DriveId) × (drive_id i ≡ ok id)) ↔ HasStableIdentity i
drive_id-ok_iff i = elim (known_or_not (canonical i.wwn)) [
  | inl none ↦ (
    λ (id, e). inr (let p = serial_id-inv i (sym (drive_id_serial i none) ∙ e) in (p.0, p.1, p.2)),
    λ h. elim h [
      | inl k ↦ absurd (k none)
      | inr (s, m, c) ↦ (_, drive_id_serial i none ∙ serial_id-ok i s m c)
    ],
  )
  | inr known ↦ (λ _. inl known, λ _. (_, drive_id_wwn i known))
]

append-injective : (p s t : Text) → p ++ s ≡ p ++ t → s ≡ t
append-injective [] s t h = h
append-injective (c ∷ p) s t h = append-injective p s t (cc)

wwn_key-injective : (s t : Text) → wwn_key s ≡ wwn_key t → s ≡ t
unfolding wwn_key
wwn_key-injective s t h = append-injective _ s t h

abbrev first_byte : Text → ℕ
first_byte [] = 0
first_byte (c ∷ s) = c

-- A key made of a WWN is never one made of a serial.
wwn_key-ne-serial_key : (w s m : Text) (n : ℕ) → wwn_key w ≢ serial_key s m n
unfolding wwn_key serial_key bytes
wwn_key-ne-serial_key w s m n h = omega (arith, ap first_byte h)

-- Both have a drive id, and it is the same.
abbrev pub SharedId : DriveIdentity → DriveIdentity → Type 0
SharedId a b = (id : DriveId) × (drive_id a ≡ ok id) × (drive_id b ≡ ok id)

-- A drive with a WWN shares its id with exactly the drives that have the same WWN, up to white
-- space and case.
pub drive_id-wwn_iff :
    (a b : DriveIdentity)
    → canonical a.wwn ≢ []
    → SharedId a b ↔ (canonical a.wwn ≡ canonical b.wwn)
drive_id-wwn_iff a b h = elim (known_or_not (canonical b.wwn)) [
  | inl none ↦ (
    λ (id, p, q). absurd (
        wwn_key-ne-serial_key (canonical a.wwn) (canonical b.serial) (canonical b.model)
          b.capacity_bytes
          (ground (arith, drive_id_wwn a h)
            ∙ (serial_id-inv b (sym (drive_id_serial b none) ∙ q)).3)),
    λ e. absurd (h (e ∙ none)),
  )
  | inr known ↦ (
    λ (id, p, q). wwn_key-injective _ _ (ground (arith, drive_id_wwn a h, drive_id_wwn b known)),
    λ e. (_, drive_id_wwn a h, rw e (drive_id_wwn b known)),
  )
]

same_ids_iff :
    (r s : Result DriveId) → (same_ids r s ≡ true) ↔ ((id : DriveId) × (r ≡ ok id) × (s ≡ ok id))
unfolding same_ids
same_ids_iff (ok a) (ok b) =
    (λ h. (a, refl, ground (arith, id_eq_iff a b)), λ (id, p, q). ground (arith, id_eq_iff a b))
same_ids_iff (ok a) (err e) = (λ h. cc, λ (id, p, q). cc)
same_ids_iff (err e) s = (λ h. cc, λ (id, p, q). cc)

-- Two texts agree where both are known.
abbrev pub AgreeWhenKnown : Text → Text → Type 0
AgreeWhenKnown s t = (canonical s ≡ []) ⊎ ((canonical t ≡ []) ⊎ (canonical s ≡ canonical t))

differs_when_known_iff : (s t : Text) → (differs_when_known s t ≡ false) ↔ AgreeWhenKnown s t
unfolding differs_when_known
differs_when_known_iff s t = ground (
  arith,
  is_empty_iff (canonical s),
  is_empty_iff (canonical t),
  text_eq_iff (canonical s) (canonical t),
)

-- Two identities are taken for one device exactly when they have one drive id and nothing that is
-- known of both tells them apart.
pub same_physical_device_iff :
    (a b : DriveIdentity)
    → (same_physical_device a b ≡ true) ↔ (
        SharedId a b
        × AgreeWhenKnown a.serial b.serial
        × AgreeWhenKnown a.model b.model
        × ((a.capacity_bytes ≡ 0)
            ⊎ ((b.capacity_bytes ≡ 0) ⊎ (a.capacity_bytes ≡ b.capacity_bytes))))
unfolding same_physical_device
same_physical_device_iff a b = (
  λ h. (
    (same_ids_iff (drive_id a) (drive_id b)).0 (ground arith),
    (differs_when_known_iff a.serial b.serial).0 (ground arith),
    (differs_when_known_iff a.model b.model).0 (ground arith),
    ground arith,
  ),
  λ (id, s, m, c).
      rw
        (
          (same_ids_iff (drive_id a) (drive_id b)).1 id,
          (differs_when_known_iff a.serial b.serial).1 s,
          (differs_when_known_iff a.model b.model).1 m,
        )
        (ground arith),
)

id_eq_comm : (a b : DriveId) → id_eq a b ≡ id_eq b a
id_eq_comm a b = ground (arith, id_eq_iff a b, id_eq_iff b a)

differs_when_known_comm : (s t : Text) → differs_when_known s t ≡ differs_when_known t s
unfolding differs_when_known
differs_when_known_comm s t =
    ground (arith, text_eq_iff (canonical s) (canonical t), text_eq_iff (canonical t) (canonical s))

same_ids_comm : (r s : Result DriveId) → same_ids r s ≡ same_ids s r
unfolding same_ids
same_ids_comm (ok a) (ok b) = id_eq_comm a b
same_ids_comm (ok a) (err e) = refl
same_ids_comm (err e) (ok b) = refl
same_ids_comm (err e) (err f) = refl

-- Which of the two observations is the earlier makes no difference.
pub same_physical_device_comm :
    (a b : DriveIdentity) → same_physical_device a b ≡ same_physical_device b a
unfolding same_physical_device
same_physical_device_comm a b = ground (
  arith,
  same_ids_comm (drive_id a) (drive_id b),
  differs_when_known_comm a.serial b.serial,
  differs_when_known_comm a.model b.model,
)
