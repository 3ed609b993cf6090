-- ===== src/Resolve/Collide.antt =====
-- `resolveBlockIdentities` of core/resolved_inventory.cpp: nodes that claim the same identity, name,
-- path or device number lose their identity.
pub mod Settled
use drive_lab.Prelude.{
  ℕ, zero, suc, ◌+◌, ◌-◌, ◌^◌, Bool, true, false, Option, none, some, List, [], ◌∷◌, ◌++◌, map, ltb,
  ℤ, pos, negsuc, Text, bytes, to_text, length, if◌then◌else◌, TieKey, TextMap, sort_by, unique_by,
  map_set, map_get,
}
use drive_lab.Drive.{DriveId}
use drive_lab.Inventory.{
  BlockDeviceNumber, BlockDeviceObservation, BlockInventoryIssue, BlockInventoryIssueCode,
  DiscoveryIssue, DiscoveryIssueCode, ResolvedIdentity, ResolutionState, SignatureEvidence,
  SignatureState, ResolvedBlockNode, ResolvedInventorySnapshot,
}
use drive_lab.Ownership.{number_part, text_part}
use drive_lab.Resolve.{valid_path}
use drive_lab.Resolve.Identify.{identify, node_issue}

-- `struct BlockInventorySnapshot`.
pub record BlockInventorySnapshot : Type 0 where
  pub devices : List BlockDeviceObservation
  pub issues : List BlockInventoryIssue

abbrev discovery_number : DiscoveryIssueCode → ℕ
discovery_number DiscoveryIssueCode.missing_evidence = 0
discovery_number DiscoveryIssueCode.malformed_evidence = 1
discovery_number DiscoveryIssueCode.read_failure = 2
discovery_number DiscoveryIssueCode.disappeared = 3
discovery_number DiscoveryIssueCode.conflict = 4
discovery_number DiscoveryIssueCode.ambiguous_identity = 5
discovery_number DiscoveryIssueCode.unsupported_topology = 6
discovery_number DiscoveryIssueCode.uncorrelated_usage = 7
discovery_number DiscoveryIssueCode.snapshot_changed = 8

abbrev inventory_number : BlockInventoryIssueCode → ℕ
inventory_number BlockInventoryIssueCode.missing_required_field = 0
inventory_number BlockInventoryIssueCode.malformed_attribute = 1
inventory_number BlockInventoryIssueCode.capacity_overflow = 2
inventory_number BlockInventoryIssueCode.duplicate_record = 3
inventory_number BlockInventoryIssueCode.device_disappeared = 4
inventory_number BlockInventoryIssueCode.source_read_failure = 5
inventory_number BlockInventoryIssueCode.conflicting_attribute = 6
inventory_number BlockInventoryIssueCode.invalid_relationship = 7

-- A 32-bit int by its distance from the least one.
abbrev int_number : ℤ → ℕ
int_number (pos n) = 2 ^ 31 + n
int_number (negsuc n) = 2 ^ 31 - suc n

-- An optional is less when it is empty.
abbrev optional_text : Option Text → List Text
optional_text none = []
optional_text (some t) = text_part t

abbrev optional_number : Option ℕ → List Text
optional_number none = []
optional_number (some n) = number_part n

abbrev optional_int : Option ℤ → List Text
optional_int none = []
optional_int (some n) = number_part (int_number n)

abbrev discovery_key : DiscoveryIssue → TieKey
discovery_key i =
    number_part (discovery_number i.code)
    ∷ text_part i.node
    ∷ text_part i.field
    ∷ text_part i.message
    ∷ optional_int i.native_error
    ∷ optional_number i.mount_id
    ∷ []

unfoldable pub sort_discovery_issues : List DiscoveryIssue → List DiscoveryIssue
sort_discovery_issues issues = unique_by discovery_key (sort_by discovery_key issues)

abbrev raw_issue_key : BlockInventoryIssue → TieKey
raw_issue_key i =
    number_part (inventory_number i.code)
    ∷ optional_text i.kernel_name
    ∷ text_part i.field
    ∷ text_part i.message
    ∷ optional_int i.native_error
    ∷ []

abbrev no_signature : SignatureEvidence
no_signature = record {
  state = SignatureState.unavailable;
  provenance = bytes "udev database; freshness unverified";
  type = none;
  usage = none;
  uuid = none;
  label = none;
}

-- One observation on its own.
unfoldable pub first_node : BlockDeviceObservation → ResolvedBlockNode
first_node raw =
    let (issues, identity) = identify raw in
    record {
      observation = raw;
      identity = identity;
      current_path = if valid_path raw.current_path then raw.current_path else none;
      signature = no_signature;
      mounts = [];
      swaps = [];
      usage_nodes = [];
      issues =
          if valid_path raw.current_path
          then issues
          else issues
            ++ (node_issue raw.kernel_name DiscoveryIssueCode.missing_evidence
                  (bytes "current_path") (bytes "No usable current Linux device path")
                ∷ []);
    }

abbrev prefixed : Text → Option Text → List Text
prefixed p none = []
prefixed p (some t) = (p ++ t) ∷ []

abbrev id_text : Option DriveId → Option Text
id_text none = none
id_text (some d) = some d.value

abbrev number_text : Option BlockDeviceNumber → Option Text
number_text none = none
number_text (some n) = some (to_text n.major_number ++ (bytes ":" ++ to_text n.minor_number))

-- What a node claims, in the order in which the source records it.
unfoldable pub claim_keys : ResolvedBlockNode → List Text
claim_keys n =
    prefixed (bytes "id:") (id_text n.identity.id)
    ++ (map (λ a. bytes "id:" ++ a) n.identity.strong_aliases
        ++ (prefixed (bytes "fallback:") n.identity.fallback_fingerprint
            ++ (prefixed (bytes "name:") (some n.observation.kernel_name)
                ++ (prefixed (bytes "path:") n.current_path
                    ++ prefixed (bytes "dev:") (number_text n.observation.device_number)))))

unfoldable pub record_claims : ℕ → List Text → TextMap (List ℕ) → TextMap (List ℕ)
record_claims index [] claims = claims
record_claims index (k ∷ ks) claims =
    record_claims index ks (map_set k (map_get [] k claims ++ (index ∷ [])) claims)

unfoldable pub all_node_claims : ℕ → List ResolvedBlockNode → TextMap (List ℕ) → TextMap (List ℕ)
all_node_claims index [] claims = claims
all_node_claims index (n ∷ ns) claims =
    all_node_claims (suc index) ns (record_claims index (claim_keys n) claims)

abbrev collision : Text → ResolvedBlockNode → DiscoveryIssue
collision claim n =
    node_issue n.observation.kernel_name DiscoveryIssueCode.ambiguous_identity (bytes "identity") (
      bytes "Multiple observations claim "
      ++ (claim ++ bytes "; no arbitrary selection or multipath merge"))

abbrev pub reset_node : Text → ResolvedBlockNode → ResolvedBlockNode
reset_node claim n = record n {
  identity = record n.identity { id = none; state = ResolutionState.ambiguous };
  current_path = none;
  issues = n.issues ++ (collision claim n ∷ []);
}

unfoldable pub reset_at : Text → ℕ → List ResolvedBlockNode → List ResolvedBlockNode
reset_at claim i [] = []
reset_at claim zero (n ∷ ns) = reset_node claim n ∷ ns
reset_at claim (suc i) (n ∷ ns) = n ∷ reset_at claim i ns

unfoldable pub reset_all : Text → List ℕ → List ResolvedBlockNode → List ResolvedBlockNode
reset_all claim [] nodes = nodes
reset_all claim (i ∷ is) nodes = reset_all claim is (reset_at claim i nodes)

abbrev pub index_key : ℕ → TieKey
index_key i = number_part i ∷ []

unfoldable pub settle_claims : TextMap (List ℕ) → List ResolvedBlockNode → List ResolvedBlockNode
settle_claims [] nodes = nodes
settle_claims (e ∷ m) nodes =
    let indices : List ℕ = unique_by index_key (sort_by index_key e.1) in
    settle_claims m (if ltb (length indices) 2 then nodes else reset_all e.0 indices nodes)

abbrev text_key : Text → TieKey
text_key t = text_part t ∷ []

unfoldable pub tidy_node : ResolvedBlockNode → ResolvedBlockNode
tidy_node n = record n {
  issues = sort_discovery_issues n.issues;
  identity = record n.identity { strong_aliases = sort_by text_key n.identity.strong_aliases };
  observation = record n.observation {
    child_kernel_names = sort_by text_key n.observation.child_kernel_names;
    issues = sort_by raw_issue_key n.observation.issues;
  };
}

abbrev pub resolved_key : ResolvedBlockNode → TieKey
resolved_key n =
    text_part n.observation.kernel_name
    ∷ optional_text n.observation.current_path
    ∷ optional_text n.observation.sysfs_path
    ∷ optional_text n.observation.wwn
    ∷ optional_text n.observation.nvme_eui
    ∷ optional_text n.observation.nvme_nguid
    ∷ optional_text n.observation.serial
    ∷ optional_text n.observation.model
    ∷ optional_number n.observation.capacity_bytes
    ∷ optional_text n.observation.transport
    ∷ []

-- Nodes with equal keys keep their order here; the source's sort leaves it open.
unfoldable pub resolve_block_identities : BlockInventorySnapshot → ResolvedInventorySnapshot
resolve_block_identities raw =
    let nodes : List ResolvedBlockNode = map first_node raw.devices in
    record {
      nodes =
          sort_by resolved_key (map tidy_node (settle_claims (all_node_claims 0 nodes []) nodes));
      mounts = [];
      swaps = [];
      inventory_issues = sort_by raw_issue_key raw.issues;
      issues = [];
      mountinfo_read_complete = false;
      swaps_read_complete = false;
    }
