-- ===== src/Tests/Catalogs.antt =====
-- Identities, paths and capabilities on concrete observations.
use drive_lab.Resolve.Fingerprint.{fingerprint-injective}
use drive_lab.Prelude.{ℕ, ◌≡◌, ◌↔◌, refl, true, false, some, [], ◌∷◌, Text, bytes, All, text_eq}
use drive_lab.Result.{ok}
use drive_lab.Drive.{DriveId}
use drive_lab.Inventory.{BlockDeviceObservation, ResolvedBlockNode, ResolutionState}
use drive_lab.Ownership.Mounts.{starts_with}
use drive_lab.Resolve.{
  hex_identifier, compact, checked_hex, to_hex, only, drop, resolve_current_path,
}
use drive_lab.Resolve.Paths.{holders, resolve_current_path_iff}
use drive_lab.Resolve.Identify.{
  identify, identify_disk, conclude, check_any_wwn, check_wwn, wwn_hex, is_nvme, parse_hex,
  fallback, note_problems, is_candidate,
}
use drive_lab.Resolve.Identify.Sound.{Given, disturbs, identify-Given}
use drive_lab.Capability.{CapabilityStatus, health, available}
use drive_lab.Tests.OneDisk.{sda, host}

abbrev wwn : Text
wwn = bytes "0x5000C500A1B2C3D4"

hex_test : hex_identifier wwn 16 false ≡ some (bytes "5000c500a1b2c3d4")
unfolding hex_identifier compact checked_hex to_hex only drop starts_with bytes
hex_test = refl

abbrev seen : BlockDeviceObservation
seen = record sda { wwn = some wwn }

abbrev seen_id : DriveId
seen_id = record { value = bytes "prod:wwn:5000c500a1b2c3d4" }

seen_test : (identify seen).1.id ≡ some seen_id
unfolding identify identify_disk conclude check_any_wwn check_wwn wwn_hex is_nvme parse_hex fallback
    note_problems hex_identifier compact checked_hex to_hex only drop starts_with bytes text_eq
seen_test = refl

identify-Given_example :
    (is_candidate seen.node_type seen.observation_kind ≡ true)
    × All (λ p. disturbs p ≡ false) seen.issues
    × Given (identify seen).1 seen_id
identify-Given_example = identify-Given seen seen_id seen_test

resolve_current_path_iff_example :
    (resolve_current_path host (record { value = bytes "wwn:5000c500" }) ≡ ok (bytes "/dev/sda"))
    ↔ ((n : ResolvedBlockNode) × (holders (record { value = bytes "wwn:5000c500" }) host.nodes
          ≡ n ∷ [])
        × (n.identity.state ≡ ResolutionState.resolved)
        × (n.current_path ≡ some (bytes "/dev/sda")))
resolve_current_path_iff_example =
    resolve_current_path_iff host (record { value = bytes "wwn:5000c500" }) (bytes "/dev/sda")

abbrev smart : CapabilityStatus
smart = record { id = health; availability = available; provider = bytes "mock"; detail = [] }

fingerprint-injective_example :
    (bytes "S1" ≡ bytes "S1") × (bytes "M1" ≡ bytes "M1") × (◌≡◌ {A = ℕ} 4000 4000)
fingerprint-injective_example =
    fingerprint-injective (bytes "S1") (bytes "S1") (bytes "M1") (bytes "M1") 4000 4000 refl
