-- ===== src/Ownership/Mounts.antt =====
-- The mounts that core/ownership_graph.cpp takes for harmless, and the names of its states.
use drive_lab.Prelude.{
  ℕ, Bool, true, false, not, ◌&&◌, ◌||◌, Option, none, some, List, [], ◌∷◌, ◌==◌, Text, bytes,
  text_eq, any_of, is_empty, if◌then◌else◌,
}
use drive_lab.Inventory.{
  BlockDeviceNumber, number_eq, MountEvidence, ResolvedBlockNode, DiscoveryIssue,
  DiscoveryIssueCode, ResolvedInventorySnapshot,
}
use drive_lab.Ownership.{
  FreshSignatureState, FreshSignatureEvidence, OwnershipReasonCode, unavailable, filesystem,
  membership, unsupported, permission_denied, read_failure, disappeared, conflicting,
}

-- `std::string::starts_with`.
unfoldable pub starts_with : Text → Text → Bool
starts_with [] s = true
starts_with (c ∷ p) [] = false
starts_with (c ∷ p) (d ∷ s) = (c == d) && starts_with p s

unfoldable pub pmxcfs_ownership_mount : MountEvidence → Bool
pmxcfs_ownership_mount m =
    (m.device_number.major_number == 0)
    && text_eq m.filesystem_type (bytes "fuse")
    && text_eq m.source (bytes "/dev/fuse")
    && text_eq m.mount_point (bytes "/etc/pve")
    && text_eq m.root (bytes "/")

abbrev kernel_filesystems : List Text
kernel_filesystems =
    bytes "proc"
    ∷ bytes "sysfs"
    ∷ bytes "devtmpfs"
    ∷ bytes "devpts"
    ∷ bytes "tmpfs"
    ∷ bytes "ramfs"
    ∷ bytes "cgroup"
    ∷ bytes "cgroup2"
    ∷ bytes "securityfs"
    ∷ bytes "debugfs"
    ∷ bytes "tracefs"
    ∷ bytes "configfs"
    ∷ bytes "pstore"
    ∷ bytes "efivarfs"
    ∷ bytes "hugetlbfs"
    ∷ bytes "mqueue"
    ∷ bytes "bpf"
    ∷ bytes "fusectl"
    ∷ bytes "binfmt_misc"
    ∷ bytes "rpc_pipefs"
    ∷ bytes "autofs"
    ∷ []

unfoldable pub harmless_ownership_mount : MountEvidence → Bool
harmless_ownership_mount m =
    pmxcfs_ownership_mount m
    || ((m.device_number.major_number == 0)
        && ((text_eq m.filesystem_type (bytes "fuse.lxcfs") && text_eq m.source (bytes "lxcfs"))
            || (not (starts_with (bytes "/dev/") m.source)
                && any_of (text_eq m.filesystem_type) kernel_filesystems)))

abbrev pub is_some_text : Option Text → Bool
is_some_text none = false
is_some_text (some t) = true

abbrev same_number : Option BlockDeviceNumber → BlockDeviceNumber → Bool
same_number none n = false
same_number (some k) n = number_eq k n

-- The loop over the mounts: those with the id.
unfoldable pub mounts_with : ℕ → List MountEvidence → List MountEvidence
mounts_with id [] = []
mounts_with id (m ∷ ms) =
    let rest = mounts_with id ms in if m.mount_id == id then m ∷ rest else rest

abbrev harmless_found : ResolvedInventorySnapshot → List MountEvidence → Bool
harmless_found inventory [] = false
harmless_found inventory (m ∷ []) =
    not (is_some_text m.node)
    && harmless_ownership_mount m
    && not (
        any_of (λ (b : ResolvedBlockNode). same_number b.observation.device_number m.device_number)
          inventory.nodes)
harmless_found inventory (m ∷ n ∷ ms) = false

abbrev is_uncorrelated : DiscoveryIssueCode → Bool
is_uncorrelated DiscoveryIssueCode.uncorrelated_usage = true
is_uncorrelated _ = false

unfoldable pub harmless_mount_issue : DiscoveryIssue → ResolvedInventorySnapshot → Bool
harmless_mount_issue issue inventory =
    if not (is_uncorrelated issue.code)
      || not (text_eq issue.field (bytes "mountinfo"))
      || not (is_empty issue.node)
    then false
    else elim issue.native_error [
      | some e ↦ false
      | none ↦ elim issue.mount_id [
        | none ↦ false
        | some id ↦ harmless_found inventory (mounts_with id inventory.mounts)
      ]
    ]

abbrev pub is_complete : FreshSignatureState → Bool
is_complete FreshSignatureState.none = true
is_complete filesystem = true
is_complete membership = true
is_complete _ = false

unfoldable pub fresh_signature_complete : FreshSignatureEvidence → Bool
fresh_signature_complete e = is_complete e.state

unfoldable pub fresh_signature_state_name : FreshSignatureState → Text
fresh_signature_state_name unavailable = bytes "Unavailable"
fresh_signature_state_name FreshSignatureState.none = bytes "None"
fresh_signature_state_name filesystem = bytes "Filesystem"
fresh_signature_state_name membership = bytes "Membership"
fresh_signature_state_name unsupported = bytes "Unsupported"
fresh_signature_state_name permission_denied = bytes "PermissionDenied"
fresh_signature_state_name read_failure = bytes "ReadFailure"
fresh_signature_state_name disappeared = bytes "Disappeared"
fresh_signature_state_name conflicting = bytes "Conflicting"

unfoldable pub ownership_reason_name : OwnershipReasonCode → Text
ownership_reason_name OwnershipReasonCode.checks_complete = bytes "ChecksComplete"
ownership_reason_name OwnershipReasonCode.identity_unavailable = bytes "IdentityUnavailable"
ownership_reason_name OwnershipReasonCode.path_unavailable = bytes "PathUnavailable"
ownership_reason_name OwnershipReasonCode.read_only = bytes "ReadOnly"
ownership_reason_name OwnershipReasonCode.mount = bytes "Mount"
ownership_reason_name OwnershipReasonCode.system_root = bytes "SystemRoot"
ownership_reason_name OwnershipReasonCode.boot_filesystem = bytes "BootFilesystem"
ownership_reason_name OwnershipReasonCode.home_filesystem = bytes "HomeFilesystem"
ownership_reason_name OwnershipReasonCode.active_swap = bytes "ActiveSwap"
ownership_reason_name OwnershipReasonCode.holder = bytes "Holder"
ownership_reason_name OwnershipReasonCode.lvm_member = bytes "LvmMember"
ownership_reason_name OwnershipReasonCode.raid_member = bytes "RaidMember"
ownership_reason_name OwnershipReasonCode.zfs_member = bytes "ZfsMember"
ownership_reason_name OwnershipReasonCode.configured_storage = bytes "ConfiguredStorage"
ownership_reason_name OwnershipReasonCode.guest_assignment = bytes "GuestAssignment"
ownership_reason_name OwnershipReasonCode.open_block_handle = bytes "OpenBlockHandle"
ownership_reason_name OwnershipReasonCode.open_file_handle = bytes "OpenFileHandle"
ownership_reason_name OwnershipReasonCode.missing_source = bytes "MissingSource"
ownership_reason_name OwnershipReasonCode.missing_relationship = bytes "MissingRelationship"
ownership_reason_name OwnershipReasonCode.asymmetric_relationship = bytes "AsymmetricRelationship"
ownership_reason_name OwnershipReasonCode.duplicate_node = bytes "DuplicateNode"
ownership_reason_name OwnershipReasonCode.cycle = bytes "Cycle"
ownership_reason_name OwnershipReasonCode.unsupported_topology = bytes "UnsupportedTopology"
ownership_reason_name OwnershipReasonCode.conflicting_evidence = bytes "ConflictingEvidence"
ownership_reason_name OwnershipReasonCode.snapshot_changed = bytes "SnapshotChanged"
ownership_reason_name OwnershipReasonCode.incomplete_coverage = bytes "IncompleteCoverage"
ownership_reason_name OwnershipReasonCode.signature_unavailable = bytes "SignatureUnavailable"
ownership_reason_name OwnershipReasonCode.namespace_scope = bytes "NamespaceScope"
