-- ===== src/Tests/Collisions.antt =====
-- Two observations of one identity.
use drive_lab.Resolve.{
  drop_marks, to_hex, only, drop, compact, checked_hex, hex_identifier, lowered, ends_in,
  trustworthy_text, component, fingerprint, contains, valid_path,
}
use drive_lab.Resolve.Identify.{
  note_problems, is_nvme, parse_hex, eui_alias, check_namespace_wwn, wwn_hex, check_wwn,
  check_any_wwn, fallback, conclude, identify_disk, identify,
}
use drive_lab.Resolve.Collide.{
  sort_discovery_issues, first_node, claim_keys, record_claims, all_node_claims, reset_at,
  reset_all, settle_claims, tidy_node,
}
use drive_lab.Ownership.Mounts.{starts_with}
use drive_lab.Prelude.{
  any_of, text_eq, text_less, texts_eq, texts_less, tie_eq, tie_less, sort_by, unique_by, map_find,
  map_set, map_get, to_text, digits_upto,
}
use drive_lab.Prelude.{◌≡◌, refl, none, some, List, [], ◌∷◌, map, Option, bytes}
use drive_lab.Drive.{DriveId}
use drive_lab.Inventory.{BlockDeviceObservation, ResolvedBlockNode}
use drive_lab.Resolve.Collide.{BlockInventorySnapshot, resolve_block_identities}
use drive_lab.Tests.OneDisk.{sda}

abbrev first : BlockDeviceObservation
first = record sda { wwn = some (bytes "0x5000C500A1B2C3D4") }

abbrev twins : BlockInventorySnapshot
twins = record {
  devices =
      first
      ∷ record first {
        kernel_name = bytes "sdb";
        current_path = some (bytes "/dev/sdb");
        device_number = none;
      }
      ∷ [];
  issues = [];
}

abbrev ids : BlockInventorySnapshot → List (Option DriveId)
ids raw = map (λ (n : ResolvedBlockNode). n.identity.id) (resolve_block_identities raw).nodes

twins_test : ids twins ≡ none ∷ none ∷ []
unfolding bytes drop_marks to_hex only drop compact checked_hex hex_identifier lowered ends_in
    trustworthy_text component fingerprint contains valid_path note_problems is_nvme parse_hex
    eui_alias check_namespace_wwn wwn_hex check_wwn check_any_wwn fallback conclude identify_disk
    identify sort_discovery_issues first_node claim_keys record_claims all_node_claims reset_at
    reset_all settle_claims tidy_node resolve_block_identities starts_with any_of text_eq text_less
    texts_eq texts_less tie_eq tie_less sort_by unique_by map_find map_set map_get to_text
    digits_upto
twins_test = refl

single_test :
    ids (record { devices = first ∷ []; issues = [] })
    ≡ some (record { value = bytes "prod:wwn:5000c500a1b2c3d4" }) ∷ []
unfolding bytes drop_marks to_hex only drop compact checked_hex hex_identifier lowered ends_in
    trustworthy_text component fingerprint contains valid_path note_problems is_nvme parse_hex
    eui_alias check_namespace_wwn wwn_hex check_wwn check_any_wwn fallback conclude identify_disk
    identify sort_discovery_issues first_node claim_keys record_claims all_node_claims reset_at
    reset_all settle_claims tidy_node resolve_block_identities starts_with any_of text_eq text_less
    texts_eq texts_less tie_eq tie_less sort_by unique_by map_find map_set map_get to_text
    digits_upto
single_test = refl
