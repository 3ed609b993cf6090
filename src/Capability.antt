-- ===== src/Capability.antt =====
-- core/capability.h and core/capability.cpp: the catalog of what the program can do.
use drive_lab.Prelude.{
  ℕ, ◌≡◌, refl, Bool, true, false, Option, some, List, [], ◌∷◌, ◌==◌, Text, bytes, find_if,
  if◌then◌else◌, arith, Bool-cases, inl, inr,
}

pub data CapabilityId : Type 0 where
  inventory health ata_inspection benchmark latency sanitize : CapabilityId
  process_execution reporting : CapabilityId

pub data CapabilityAvailability : Type 0 where
  available disabled_by_mode not_installed not_implemented unavailable : CapabilityAvailability

pub record CapabilityStatus : Type 0 where
  pub id : CapabilityId
  pub availability : CapabilityAvailability
  pub provider : Text
  pub detail : Text

-- The enumerators' numbers, which `==` compares.
abbrev pub id_number : CapabilityId → ℕ
id_number inventory = 0
id_number health = 1
id_number ata_inspection = 2
id_number benchmark = 3
id_number latency = 4
id_number sanitize = 5
id_number process_execution = 6
id_number reporting = 7

unfoldable pub same_id : CapabilityId → CapabilityId → Bool
same_id a b = id_number a == id_number b

-- `CapabilityCatalog::find`.
unfoldable pub find_status : CapabilityId → List CapabilityStatus → Option CapabilityStatus
find_status id statuses = find_if (λ s. same_id s.id id) statuses

-- `CapabilityCatalog::set`.
unfoldable pub set_status : CapabilityStatus → List CapabilityStatus → List CapabilityStatus
set_status status [] = status ∷ []
set_status status (s ∷ ss) =
    if same_id s.id status.id then status ∷ ss else s ∷ set_status status ss

unfoldable pub capability_name : CapabilityId → Text
capability_name inventory = bytes "Inventory"
capability_name health = bytes "S.M.A.R.T"
capability_name ata_inspection = bytes "ATA / HPA"
capability_name benchmark = bytes "Benchmark"
capability_name latency = bytes "Latency"
capability_name sanitize = bytes "Sanitize"
capability_name process_execution = bytes "Process execution"
capability_name reporting = bytes "Reporting"

unfoldable pub capability_availability_name : CapabilityAvailability → Text
capability_availability_name available = bytes "AVAILABLE"
capability_availability_name disabled_by_mode = bytes "DISABLED BY MODE"
capability_availability_name not_installed = bytes "NOT INSTALLED"
capability_availability_name not_implemented = bytes "NOT IMPLEMENTED"
capability_availability_name unavailable = bytes "UNAVAILABLE"

number_congruence : (a b c : ℕ) → (a == b) ≡ true → (a == c) ≡ (b == c)
number_congruence a b c h = ground arith

other_number : (a b c : ℕ) → (a == b) ≡ false → (a == c) ≡ true → (b == c) ≡ false
other_number a b c h k = ground arith

other_id : (a b c : CapabilityId) → same_id a b ≡ false → same_id a c ≡ true → same_id b c ≡ false
unfolding same_id
other_id a b c h k = other_number (id_number a) (id_number b) (id_number c) h k

same_id_congruence : (a b c : CapabilityId) → same_id a b ≡ true → same_id a c ≡ same_id b c
unfolding same_id
same_id_congruence a b c h = number_congruence (id_number a) (id_number b) (id_number c) h

-- After a status is set, the catalog finds it under its id and finds under every other id what it
-- found before.
find_status-set_status :
    (s : CapabilityStatus) (id : CapabilityId) (ss : List CapabilityStatus)
    → find_status id (set_status s ss) ≡ (if same_id s.id id then some s else find_status id ss)
unfolding find_status find_if set_status
find_status-set_status s id [] = refl
find_status-set_status s id (t ∷ ss) = elim (Bool-cases (same_id t.id s.id)) [
  | inl a ↦
      rw (set_status, a)
        (elim (Bool-cases (same_id s.id id)) [
          | inl b ↦ rw (find_status, find_if, b) refl
          | inr b ↦ rw (find_status, find_if, b, same_id_congruence t.id s.id id a, b) refl
        ])
  | inr a ↦
      rw (set_status, a)
        (elim (Bool-cases (same_id t.id id)) [
          | inl b ↦ rw (b, other_id t.id s.id id a b) refl
          | inr b ↦ rw b (find_status-set_status s id ss)
        ])
]
