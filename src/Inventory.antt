-- ===== src/Inventory.antt =====
-- core/block_inventory.h and core/resolved_inventory.h: what is observed of block devices, mounts
-- and swaps, and what has been resolved of their identity.
use drive_lab.Prelude.{ℕ, Bool, Option, List, ℤ, Text, ◌==◌, ◌&&◌}
use drive_lab.Drive.{DriveId}

pub data BlockNodeType : Type 0 where
  unknown disk partition : BlockNodeType

pub data PhysicalDeviceKind : Type 0 where
  disk optical floppy unknown_physical : PhysicalDeviceKind

pub record DeviceKindObservation : Type 0 where
  pub source : Text
  pub value : Text

pub data BlockObservationKind : Type 0 where
  unknown virtual_or_pseudo : BlockObservationKind

-- Both numbers are 32 bits wide.
pub record BlockDeviceNumber : Type 0 where
  pub major_number : ℕ
  pub minor_number : ℕ

unfoldable pub number_eq : BlockDeviceNumber → BlockDeviceNumber → Bool
number_eq a b = (a.major_number == b.major_number) && (a.minor_number == b.minor_number)

pub data BlockInventoryIssueCode : Type 0 where
  missing_required_field malformed_attribute capacity_overflow : BlockInventoryIssueCode
  duplicate_record device_disappeared source_read_failure : BlockInventoryIssueCode
  conflicting_attribute invalid_relationship : BlockInventoryIssueCode

pub record BlockInventoryIssue : Type 0 where
  pub code : BlockInventoryIssueCode
  pub kernel_name : Option Text
  pub field : Text
  pub message : Text
  pub native_error : Option ℤ

pub record BlockModelObservation : Type 0 where
  pub source : Text
  pub value : Text

pub record BlockDeviceObservation : Type 0 where
  pub kernel_name : Text
  pub current_path : Option Text
  pub sysfs_path : Option Text
  pub node_type : BlockNodeType
  pub device_number : Option BlockDeviceNumber
  pub capacity_bytes : Option ℕ
  pub vendor : Option Text
  pub model : Option Text
  pub serial : Option Text
  pub wwn : Option Text
  pub nvme_eui : Option Text
  pub nvme_nguid : Option Text
  pub rotational : Option Bool
  pub removable : Option Bool
  pub read_only : Option Bool
  pub transport : Option Text
  pub parent_kernel_name : Option Text
  pub child_kernel_names : List Text
  pub partition_number : Option ℕ
  pub observation_kind : BlockObservationKind
  pub issues : List BlockInventoryIssue
  pub model_observations : List BlockModelObservation
  pub physical_kind : PhysicalDeviceKind
  pub device_kind_observations : List DeviceKindObservation

pub data ResolutionState : Type 0 where
  unresolved resolved ambiguous : ResolutionState

pub data IdentityScope : Type 0 where
  whole_device nvme_namespace : IdentityScope

pub data DiscoveryIssueCode : Type 0 where
  missing_evidence malformed_evidence read_failure disappeared conflict : DiscoveryIssueCode
  ambiguous_identity unsupported_topology uncorrelated_usage snapshot_changed : DiscoveryIssueCode

pub record DiscoveryIssue : Type 0 where
  pub code : DiscoveryIssueCode
  pub node : Text
  pub field : Text
  pub message : Text
  pub native_error : Option ℤ
  pub mount_id : Option ℕ

pub record ResolvedIdentity : Type 0 where
  pub state : ResolutionState
  pub scope : IdentityScope
  pub id : Option DriveId
  pub strong_aliases : List Text
  pub fallback_fingerprint : Option Text

pub data SignatureState : Type 0 where
  unavailable reported malformed conflicting unsupported : SignatureState

pub record SignatureEvidence : Type 0 where
  pub state : SignatureState
  pub provenance : Text
  pub type : Option Text
  pub usage : Option Text
  pub uuid : Option Text
  pub label : Option Text

pub record MountEvidence : Type 0 where
  pub mount_id : ℕ
  pub parent_id : ℕ
  pub device_number : BlockDeviceNumber
  pub root : Text
  pub mount_point : Text
  pub options : Text
  pub optional_fields : List Text
  pub filesystem_type : Text
  pub source : Text
  pub super_options : Text
  pub node : Option Text
  pub subtree : Bool

pub record SwapEvidence : Type 0 where
  pub path : Text
  pub type : Text
  pub size_kib : ℕ
  pub used_kib : ℕ
  pub priority : ℤ
  pub device_number : Option BlockDeviceNumber
  pub node : Option Text

pub record ResolvedBlockNode : Type 0 where
  pub observation : BlockDeviceObservation
  pub identity : ResolvedIdentity
  pub current_path : Option Text
  pub signature : SignatureEvidence
  pub mounts : List ℕ
  pub swaps : List ℕ
  pub usage_nodes : List Text
  pub issues : List DiscoveryIssue

pub record ResolvedInventorySnapshot : Type 0 where
  pub nodes : List ResolvedBlockNode
  pub mounts : List MountEvidence
  pub swaps : List SwapEvidence
  pub inventory_issues : List BlockInventoryIssue
  pub issues : List DiscoveryIssue
  pub mountinfo_read_complete : Bool
  pub swaps_read_complete : Bool
