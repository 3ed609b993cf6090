-- ===== src/Tests/OneDisk.antt =====
-- The assessment of a host with one disk.
use drive_lab.Prelude.{◌≡◌, refl, true, false, some, none, List, [], ◌∷◌, map, bytes, All}
use drive_lab.Prelude.{
  count_if, any_of, text_less, tie_eq, tie_less, sort_by, unique_by, set_has, set_insert, set_erase,
  map_find, map_has, map_set, map_get, text_eq,
}
use drive_lab.Ownership.Assess.{full_coverage, scene, claims_of}
use drive_lab.Ownership.Classify.{
  all_of, gap_explained, host_coverage, gaps_near, all_gaps, traced_to, upsets,
  superseded_signature_gap, issues_elsewhere, signature_clean, signatures_complete, bad_signatures,
  clean, check_ready, decide, classify, classify_one, classify_all,
}
use drive_lab.Ownership.Graph.{
  gather_block, gather_blocks, index_nodes, mark_incomplete, report_duplicates, reciprocal,
  link_partition, link_partitions, check_edge, check_edges, parents_of, mark_issues, add_physical,
  add_physicals, build_graph,
}
use drive_lab.Ownership.Trace.{
  reasons_at, check_node, check_identity, check_path, at_owner, walk_each, visit, walk, owners_at,
  trace_node, trace_all, separate_owner, owner_reasons,
}
use drive_lab.Ownership.Usage.{
  claim_reason, membership_claims, sources_of, mount_use, claim_mount, claim_mounts, claim_swap,
  claim_swaps, untraced, all_claims, add_reasons, note_trace, note_claim, each_owner, note_traces,
  note_one, note_claims, all_findings,
}
use drive_lab.Ownership.Mounts.{
  starts_with, pmxcfs_ownership_mount, harmless_ownership_mount, mounts_with, harmless_mount_issue,
  fresh_signature_complete,
}
use drive_lab.Ownership.{normalize, block_ownership_key}
use drive_lab.Inventory.{number_eq}
use drive_lab.Drive.{DriveStatus}
use drive_lab.Inventory.{
  BlockDeviceObservation, ResolvedBlockNode, ResolvedInventorySnapshot, BlockNodeType,
  PhysicalDeviceKind, BlockObservationKind, ResolutionState, IdentityScope, SignatureState,
}
use drive_lab.Ownership.{
  OwnershipEvidence, OwnershipClaim, OwnershipUse, ClassifiedStorage, FreshSignatureEvidence,
  FreshSignatureState, PhysicalAssessmentScope,
}
use drive_lab.Ownership.Assess.{assess_ownership}
use drive_lab.Ownership.Assess.Verdict.{Verdict, assess_ownership-Verdict}
use drive_lab.Ownership.Assess.Ready.{ReadyDevice, ready-ReadyDevice}

abbrev pub sda : BlockDeviceObservation
sda = record {
  kernel_name = bytes "sda";
  current_path = some (bytes "/dev/sda");
  sysfs_path = none;
  node_type = BlockNodeType.disk;
  device_number = some (record { major_number = 8; minor_number = 0 });
  capacity_bytes = some 4000;
  vendor = none;
  model = some (bytes "M1");
  serial = some (bytes "S1");
  wwn = some (bytes "0x5000c500");
  nvme_eui = none;
  nvme_nguid = none;
  rotational = some true;
  removable = some false;
  read_only = some false;
  transport = none;
  parent_kernel_name = none;
  child_kernel_names = [];
  partition_number = none;
  observation_kind = BlockObservationKind.unknown;
  issues = [];
  model_observations = [];
  physical_kind = PhysicalDeviceKind.disk;
  device_kind_observations = [];
}

abbrev sda_node : ResolvedBlockNode
sda_node = record {
  observation = sda;
  identity = record {
    state = ResolutionState.resolved;
    scope = IdentityScope.whole_device;
    id = some (record { value = bytes "wwn:5000c500" });
    strong_aliases = [];
    fallback_fingerprint = none;
  };
  current_path = some (bytes "/dev/sda");
  signature = record {
    state = SignatureState.unavailable;
    provenance = [];
    type = none;
    usage = none;
    uuid = none;
    label = none;
  };
  mounts = [];
  swaps = [];
  usage_nodes = [];
  issues = [];
}

abbrev pub host : ResolvedInventorySnapshot
host = record {
  nodes = sda_node ∷ [];
  mounts = [];
  swaps = [];
  inventory_issues = [];
  issues = [];
  mountinfo_read_complete = true;
  swaps_read_complete = true;
}

abbrev blank : FreshSignatureEvidence
blank = record {
  state = FreshSignatureState.none;
  type = [];
  usage = [];
  partition_table = [];
  partitions = [];
  native_error = none;
  detail = [];
}

abbrev pub evidence_with : List OwnershipClaim → OwnershipEvidence
evidence_with claims = record {
  nodes = [];
  edges = [];
  claims = claims;
  issues = [];
  fresh_signatures = (bytes "block:sda", blank) ∷ [];
  namespace_mounts = [];
  inactive_loops = [];
  coverage_gaps = [];
  coverage =
      (bytes "processes", true)
      ∷ (bytes "proxmox", true)
      ∷ (bytes "sysfs", true)
      ∷ (bytes "zfs", true)
      ∷ [];
}

abbrev open_handle : OwnershipClaim
open_handle = record {
  consumer = bytes "block:sda";
  claimed_use = OwnershipUse.open_block_handle;
  source = bytes "proc";
  detail = bytes "pid 1";
}

abbrev statuses : List OwnershipClaim → List DriveStatus
statuses claims =
    map (λ (d : ClassifiedStorage). d.status)
      (assess_ownership host (evidence_with claims) PhysicalAssessmentScope.disks).physical_devices

-- A disk without use is ready, one that is open is busy, one with swap is protected, and a claim on
-- an unknown node makes it unknown.
verdicts_test :
    (statuses [] ≡ DriveStatus.ready ∷ [])
    × (statuses (open_handle ∷ []) ≡ DriveStatus.busy ∷ [])
    × (statuses (record open_handle { claimed_use = OwnershipUse.swap } ∷ [])
        ≡ DriveStatus.protected ∷ [])
    × (statuses (record open_handle { consumer = bytes "dm-0" } ∷ []) ≡ DriveStatus.unknown ∷ [])
unfolding add_physical add_physicals add_reasons all_claims all_findings all_gaps all_of any_of
    assess_ownership at_owner bad_signatures block_ownership_key build_graph bytes check_edge
    check_edges check_identity check_node check_path check_ready claim_mount claim_mounts
    claim_reason claim_swap claim_swaps claims_of classify classify_all classify_one clean count_if
    decide each_owner fresh_signature_complete full_coverage gap_explained gaps_near gather_block
    gather_blocks harmless_mount_issue harmless_ownership_mount host_coverage index_nodes
    issues_elsewhere link_partition link_partitions map_find map_get map_has map_set mark_incomplete
    mark_issues membership_claims mount_use mounts_with normalize note_claim note_claims note_one
    note_trace note_traces number_eq owner_reasons owners_at parents_of pmxcfs_ownership_mount
    reasons_at reciprocal report_duplicates scene separate_owner set_erase set_has set_insert
    signature_clean signatures_complete sort_by sources_of starts_with superseded_signature_gap
    text_eq text_less tie_eq tie_less trace_all trace_node traced_to unique_by untraced upsets visit
    walk walk_each
verdicts_test = (refl, refl, refl, refl)

ready-ReadyDevice_example :
    All
      (λ d. d.status ≡ DriveStatus.ready → ReadyDevice host (evidence_with []) d)
      (assess_ownership host (evidence_with []) PhysicalAssessmentScope.disks).physical_devices
ready-ReadyDevice_example = ready-ReadyDevice host (evidence_with []) PhysicalAssessmentScope.disks

assess_ownership-Verdict_example :
    All
      (Verdict host (evidence_with (open_handle ∷ [])))
      (assess_ownership host
        (evidence_with (open_handle ∷ []))
        PhysicalAssessmentScope.disks).physical_devices
assess_ownership-Verdict_example =
    assess_ownership-Verdict host (evidence_with (open_handle ∷ [])) PhysicalAssessmentScope.disks
