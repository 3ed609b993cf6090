-- ===== src/Providers/Fixtures.antt =====
-- The inventory of providers/mock_providers.cpp.
use drive_lab.Prelude.{
  ℕ, zero, suc, ◌≡◌, ◌≢◌, refl, sym, ◌↔◌, inl, inr, Bool, true, false, Option, none, some, List, [],
  ◌∷◌, Text, bytes, text_eq, find_if, arith, Bool-cases, text_eq_iff,
}
use mathlib.Core.Path.{subst}
use drive_lab.Result.{Result, ok, err, Error, identity_mismatch, Result-cases}
use drive_lab.Drive.{
  Drive, DriveIdentity, MediaKind, hdd, ssd, nvme, DriveStatus, ready, protected, degraded, failing,
  lock_key,
}

abbrev make_drive :
    Text → Text → Text → Text → Text → ℕ → MediaKind → DriveStatus → List Text → Drive
make_drive path model serial wwn topology capacity media status reasons = record {
  identity = record {
    serial = serial;
    wwn = wwn;
    model = model;
    topology = topology;
    capacity_bytes = capacity;
  };
  current_path = path;
  media = media;
  status = status;
  protection_reasons = reasons;
}

-- `MockInventoryProvider::fixtureDrives`.
unfoldable pub fixture_drives : List Drive
fixture_drives =
    make_drive (bytes "/dev/sdd") (bytes "WDC WD6400AAKS-75A7B0") (bytes "WD-WMASY1520445")
      (bytes "0x50014ee001234567") (bytes "pci-0000:03:00.0-ata-1") 640135028736 hdd ready []
    ∷ make_drive (bytes "/dev/sde") (bytes "HGST HUS724040ALA640") (bytes "PK1331PAG7JBKS")
        (bytes "0x5000cca25abcd001") (bytes "pci-0000:04:00.0-sas-1") 4000787030016 hdd ready []
    ∷ make_drive (bytes "/dev/sda") (bytes "ST2000DM001-1E6164") (bytes "Z1E6A91R")
        (bytes "0x5000c500system01") (bytes "pci-0000:00:17.0-ata-1") 2000398934016 hdd protected
        (bytes "System disk contains /, /boot, /home, and active swap" ∷ [])
    ∷ make_drive (bytes "/dev/sdb") (bytes "KINGSTON SA400S37240G") (bytes "50026B7784A9D221")
        (bytes "0x50026b7784a9d221") (bytes "pci-0000:00:17.0-ata-2") 240057409536 ssd protected
        (bytes "Passed through as a raw disk to Proxmox VM 104" ∷ [])
    ∷ make_drive (bytes "/dev/sdc") (bytes "WDC WD80EFZZ-68BTXN0") (bytes "VH01KJ9G")
        (bytes "0x50014ee2abcdef01") (bytes "pci-0000:03:00.0-ata-2") 8001563222016 hdd protected
        (bytes "Active member of imported ZFS pool tank" ∷ [])
    ∷ make_drive (bytes "/dev/nvme0n1") (bytes "Samsung SSD 980 PRO") (bytes "S69ENF0R912345")
        (bytes "eui.002538b912345678") (bytes "pci-0000:01:00.0-nvme-1") 2000398934016 nvme failing
        []
    ∷ make_drive (bytes "/dev/sdf") (bytes "Seagate BarraCuda ST1000DM010") (bytes "Z9A4DEMO")
        (bytes "0x5000c500demo0001") (bytes "pci-0000:03:00.0-ata-3") 1000204886016 hdd degraded []
    ∷ []

-- `MockInventoryProvider::scan`.
unfoldable pub mock_scan : List Drive → Result (List Drive)
mock_scan drives = ok drives

has_text : Text → Result Text → Bool
has_text key (ok t) = text_eq t key
has_text key (err e) = false

-- Whether the drive's identity has the lock key.
unfoldable pub has_lock_key : Text → Drive → Bool
unfolding has_text
has_lock_key key drive = has_text key (lock_key drive.identity)

abbrev no_longer_present : Error
no_longer_present = record {
  code = identity_mismatch;
  component = bytes "MockInventoryProvider";
  message = bytes "The expected physical drive identity is no longer present";
}

abbrev answer : Option Drive → Result Drive
answer none = err no_longer_present
answer (some d) = ok d

-- `MockInventoryProvider::resolve`.
unfoldable pub mock_resolve : List Drive → DriveIdentity → Result Drive
mock_resolve drives expected = elim (lock_key expected) [
  | err e ↦ err e
  | ok key ↦ answer (find_if (has_lock_key key) drives)
]

-- `MockInventoryProvider::replace`.
unfoldable pub replace : ℕ → Drive → List Drive → List Drive
replace i drive [] = []
replace zero drive (d ∷ ds) = drive ∷ ds
replace (suc i) drive (d ∷ ds) = d ∷ replace i drive ds

has_text_iff : (key : Text) (r : Result Text) → (has_text key r ≡ true) ↔ (r ≡ ok key)
unfolding has_text
has_text_iff key (ok t) = ground (arith, text_eq_iff t key)
has_text_iff key (err e) = (λ h. cc, λ h. cc)

-- A drive is the first of a list with a lock key.
pub data First (key : Text) (d : Drive) : List Drive → Type 0 where
  here : (ds : List Drive) → lock_key d.identity ≡ ok key → First key d (d ∷ ds)
  later :
      (e : Drive) (ds : List Drive)
      → lock_key e.identity ≢ ok key
      → First key d ds
      → First key d (e ∷ ds)

find-First :
    (key : Text) (d : Drive) (ds : List Drive)
    → find_if (has_lock_key key) ds ≡ some d
    → First key d ds
unfolding find_if has_lock_key
find-First key d [] h = cc
find-First key d (e ∷ ds) h = elim (Bool-cases (has_text key (lock_key e.identity))) [
  | inl a ↦
      let p : e ≡ d = ground arith in
      subst (λ x. First key d (x ∷ ds)) (sym p)
        (here ds (
          subst (λ (x : Drive). lock_key x.identity ≡ ok key) p
            ((has_text_iff key (lock_key e.identity)).0 a)))
  | inr a ↦
      later e ds (λ q. cc ((has_text_iff key (lock_key e.identity)).1 q, a))
        (find-First key d ds (ground arith))
]

First-find :
    (key : Text) (d : Drive) (ds : List Drive)
    → First key d ds
    → find_if (has_lock_key key) ds ≡ some d
unfolding find_if has_lock_key
First-find key d [] h = elim h [ ]
First-find key d (_ ∷ ds) (here _ p) = rw ((has_text_iff key (lock_key d.identity)).1 p)
First-find key d (e ∷ ds) (later _ _ n f) = elim (Bool-cases (has_text key (lock_key e.identity))) [
  | inl a ↦ absurd (n ((has_text_iff key (lock_key e.identity)).0 a))
  | inr a ↦ rw a (First-find key d ds f)
]

answer-ok : (o : Option Drive) (d : Drive) → answer o ≡ ok d → o ≡ some d
answer-ok none d h = cc
answer-ok (some e) d h = cc

-- `MockInventoryProvider::resolve` answers with a drive exactly when the expected identity has a
-- lock key and the drive is the first of the inventory with that key.
pub mock_resolve_iff :
    (ds : List Drive) (expected : DriveIdentity) (d : Drive)
    → (mock_resolve ds expected ≡ ok d)
      ↔ ((key : Text) × (lock_key expected ≡ ok key) × First key d ds)
unfolding mock_resolve
mock_resolve_iff ds expected d = elim (Result-cases (lock_key expected)) [
  | inr (e, q) ↦ rw (q, mock_resolve) (λ h. cc, λ (k, p, f). cc)
  | inl (key, q) ↦
      rw (q, mock_resolve)
        (
          λ h. (key, refl, find-First key d ds (answer-ok _ d h)),
          λ (k, p, f).
              let e : key ≡ k = cc in
              rw (First-find key d ds (subst (λ x. First x d ds) (sym e) f)),
        )
]
