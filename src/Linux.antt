-- ===== src/Linux.antt =====
-- platform/linux/linux_host_usage.h: what is read of the host.
pub mod Words
pub mod Mounts
pub mod Swaps
pub mod Signature
pub mod Usage
pub mod Escapes
pub mod Groups
pub mod Faithful
use drive_lab.Prelude.{ℕ, Bool, Option, List, [], ◌∷◌, ◌++◌, Text, bytes, none}
use drive_lab.Inventory.{
  BlockDeviceNumber, DiscoveryIssue, DiscoveryIssueCode, malformed_evidence,
  ResolvedInventorySnapshot,
}

pub record HostRead {ℓ} (A : Type ℓ) : Type ℓ where
  pub value : Option A
  pub issues : List DiscoveryIssue

pub record HostPathStatus : Type 0 where
  pub is_block : Bool
  pub device_number : Option BlockDeviceNumber

-- The properties of a `SignatureSourceRecord`, in the order read.
abbrev pub Properties : Type 0
Properties = List (Text × Text)

-- An issue without a native error or a mount.
abbrev pub issue : DiscoveryIssueCode → Text → Text → Text → DiscoveryIssue
issue code node field message = record {
  code = code;
  node = node;
  field = field;
  message = message;
  native_error = none;
  mount_id = none;
}

abbrev pub add_issue : DiscoveryIssue → ResolvedInventorySnapshot → ResolvedInventorySnapshot
add_issue i out = record out { issues = out.issues ++ (i ∷ []) }

-- `malformed`.
abbrev pub malformed_record : Text → Text → DiscoveryIssue
malformed_record source line =
    issue malformed_evidence [] source (bytes "Malformed record: " ++ line)
