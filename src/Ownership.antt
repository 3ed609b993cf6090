-- ===== src/Ownership.antt =====
-- core/ownership_graph.h: evidence of what uses the storage, and what is concluded from it.
pub mod Mounts
pub mod Graph
pub mod Trace
pub mod Usage
pub mod Classify
pub mod Assess
use drive_lab.Prelude.{
  ℕ, Bool, true, false, Option, List, [], ◌∷◌, ◌++◌, ℤ, Text, bytes, TieKey, TextMap, sort_by,
  unique_by,
}
use drive_lab.Drive.{DriveId, DriveStatus}
use drive_lab.Inventory.{MountEvidence, IdentityScope}

pub data OwnershipKind : Type 0 where
  block lvm_pv lvm_vg lvm_lv md_array zfs_pool zfs_vdev : OwnershipKind
  proxmox_storage proxmox_guest : OwnershipKind

pub data OwnershipUse : Type 0 where
  held mounted root boot home swap lvm raid zfs : OwnershipUse
  configured_storage guest open_block_handle open_file_handle : OwnershipUse

pub data OwnershipReasonCode : Type 0 where
  checks_complete identity_unavailable path_unavailable read_only mount : OwnershipReasonCode
  system_root boot_filesystem home_filesystem active_swap holder lvm_member : OwnershipReasonCode
  raid_member zfs_member configured_storage guest_assignment : OwnershipReasonCode
  open_block_handle open_file_handle missing_source missing_relationship : OwnershipReasonCode
  asymmetric_relationship duplicate_node cycle unsupported_topology : OwnershipReasonCode
  conflicting_evidence snapshot_changed incomplete_coverage : OwnershipReasonCode
  signature_unavailable namespace_scope : OwnershipReasonCode

pub record OwnershipReason : Type 0 where
  pub code : OwnershipReasonCode
  pub node : Text
  pub source : Text
  pub detail : Text

pub record OwnershipNode : Type 0 where
  pub key : Text
  pub kind : OwnershipKind
  pub facts : TextMap Text
  pub complete : Bool

pub record OwnershipEdge : Type 0 where
  pub consumer : Text
  pub provider : Text
  pub relation : Text
  pub source : Text

pub record OwnershipClaim : Type 0 where
  pub consumer : Text
  pub claimed_use : OwnershipUse
  pub source : Text
  pub detail : Text

pub data FreshSignatureState : Type 0 where
  unavailable none filesystem membership unsupported : FreshSignatureState
  permission_denied read_failure disappeared conflicting : FreshSignatureState

pub record FreshPartition : Type 0 where
  pub number : ℤ
  pub start_sector : ℕ
  pub size_sectors : ℕ

pub record FreshSignatureEvidence : Type 0 where
  pub state : FreshSignatureState
  pub type : Text
  pub usage : Text
  pub partition_table : Text
  pub partitions : List FreshPartition
  pub native_error : Option ℤ
  pub detail : Text

pub record NamespaceMount : Type 0 where
  pub namespace_id : Text
  pub mount : MountEvidence

pub record OwnershipEvidence : Type 0 where
  pub nodes : List OwnershipNode
  pub edges : List OwnershipEdge
  pub claims : List OwnershipClaim
  pub issues : List OwnershipReason
  pub fresh_signatures : TextMap FreshSignatureEvidence
  pub namespace_mounts : List NamespaceMount
  pub inactive_loops : List Text
  pub coverage_gaps : TextMap (List OwnershipReason)
  pub coverage : TextMap Bool

pub record PhysicalOwner : Type 0 where
  pub node : Text
  pub id : Option DriveId
  pub scope : IdentityScope

pub record OwnershipTrace : Type 0 where
  pub consumer : Text
  pub owners : List PhysicalOwner
  pub complete : Bool
  pub reasons : List OwnershipReason

pub record ClassifiedStorage : Type 0 where
  pub node : Text
  pub id : Option DriveId
  pub status : DriveStatus
  pub reasons : List OwnershipReason

pub record OwnershipAssessment : Type 0 where
  pub coverage_gaps : TextMap (List OwnershipReason)
  pub fresh_signatures : TextMap FreshSignatureEvidence
  pub namespace_mounts : List NamespaceMount
  pub nodes : List OwnershipNode
  pub edges : List OwnershipEdge
  pub claims : List OwnershipClaim
  pub traces : List OwnershipTrace
  pub physical_devices : List ClassifiedStorage
  pub issues : List OwnershipReason
  pub coverage : TextMap Bool

pub data PhysicalAssessmentScope : Type 0 where
  all_physical disks : PhysicalAssessmentScope

-- The order of the enumerators, by which `std::tie` compares them.
abbrev pub kind_number : OwnershipKind → ℕ
kind_number block = 0
kind_number lvm_pv = 1
kind_number lvm_vg = 2
kind_number lvm_lv = 3
kind_number md_array = 4
kind_number zfs_pool = 5
kind_number zfs_vdev = 6
kind_number proxmox_storage = 7
kind_number proxmox_guest = 8

abbrev pub use_number : OwnershipUse → ℕ
use_number held = 0
use_number mounted = 1
use_number root = 2
use_number boot = 3
use_number home = 4
use_number swap = 5
use_number lvm = 6
use_number raid = 7
use_number zfs = 8
use_number configured_storage = 9
use_number guest = 10
use_number open_block_handle = 11
use_number open_file_handle = 12

abbrev pub code_number : OwnershipReasonCode → ℕ
code_number checks_complete = 0
code_number identity_unavailable = 1
code_number path_unavailable = 2
code_number read_only = 3
code_number mount = 4
code_number system_root = 5
code_number boot_filesystem = 6
code_number home_filesystem = 7
code_number active_swap = 8
code_number holder = 9
code_number lvm_member = 10
code_number raid_member = 11
code_number zfs_member = 12
code_number configured_storage = 13
code_number guest_assignment = 14
code_number open_block_handle = 15
code_number open_file_handle = 16
code_number missing_source = 17
code_number missing_relationship = 18
code_number asymmetric_relationship = 19
code_number duplicate_node = 20
code_number cycle = 21
code_number unsupported_topology = 22
code_number conflicting_evidence = 23
code_number snapshot_changed = 24
code_number incomplete_coverage = 25
code_number signature_unavailable = 26
code_number namespace_scope = 27

-- The parts of a tie.
abbrev pub number_part : ℕ → List Text
number_part n = (n ∷ []) ∷ []

abbrev pub text_part : Text → List Text
text_part t = t ∷ []

abbrev pub reason_key : OwnershipReason → TieKey
reason_key r =
    number_part (code_number r.code)
    ∷ text_part r.node
    ∷ text_part r.source
    ∷ text_part r.detail
    ∷ []

-- `normalize`: sorted, and each reason once.
unfoldable pub normalize : List OwnershipReason → List OwnershipReason
normalize reasons = unique_by reason_key (sort_by reason_key reasons)

unfoldable pub block_ownership_key : Text → Text
block_ownership_key name = bytes "block:" ++ name
