-- ===== src/Ownership/Assess.antt =====
-- `assessOwnership` of core/ownership_graph.cpp.
pub mod Reached
pub mod Verdict
pub mod Quiet
pub mod Placed
pub mod Signed
pub mod Ready
use drive_lab.Prelude.{
  ℕ, Bool, true, false, not, ◌&&◌, ◌||◌, Option, none, some, List, [], ◌∷◌, ◌++◌, map, Text, bytes,
  text_eq, ltb, any_of, is_empty, if◌then◌else◌, TieKey, TextMap, sort_by, unique_by, map_find,
  map_has, map_set, map_get, set_has,
}
use drive_lab.Drive.{DriveStatus}
use drive_lab.Inventory.{
  ResolvedBlockNode, ResolvedInventorySnapshot, PhysicalDeviceKind, DiscoveryIssue,
  DiscoveryIssueCode, BlockInventoryIssue, MountEvidence, IdentityScope,
}
use drive_lab.Ownership.{
  OwnershipReason, OwnershipReasonCode, OwnershipEvidence, OwnershipAssessment, OwnershipNode,
  OwnershipTrace, OwnershipClaim, PhysicalOwner, ClassifiedStorage, FreshSignatureEvidence,
  FreshSignatureState, NamespaceMount, PhysicalAssessmentScope, normalize, number_part, text_part,
  block_ownership_key,
}
use drive_lab.Ownership.Mounts.{
  harmless_mount_issue, fresh_signature_complete, fresh_signature_state_name,
}
use drive_lab.Ownership.Graph.{Graph, reason, build_graph, bool_number}
use drive_lab.Ownership.Trace.{Traced, trace_all, owned_by, separate_owner}
use drive_lab.Ownership.Usage.{Claimed, Findings, all_claims, all_findings, is_membership}
use drive_lab.Ownership.Classify.{Scene, classify, classify_all}

abbrev default_false : Text → TextMap Bool → TextMap Bool
default_false k m = if map_has k m then m else map_set k false m

unfoldable pub full_coverage : ResolvedInventorySnapshot → TextMap Bool → TextMap Bool
full_coverage inventory coverage = default_false (bytes "inactive_membership") (
    default_false (bytes "processes") (
      default_false (bytes "proxmox") (
        default_false (bytes "zfs") (
          default_false (bytes "sysfs") (
            map_set (bytes "swaps") inventory.swaps_read_complete
              (map_set (bytes "mountinfo") inventory.mountinfo_read_complete coverage))))))

abbrev pub normal_gaps : TextMap (List OwnershipReason) → TextMap (List OwnershipReason)
normal_gaps m = map (λ (e : Text × List OwnershipReason). (e.0, normalize e.1)) m

abbrev optional_part : Option Text → List Text
optional_part none = []
optional_part (some t) = t ∷ []

abbrev namespace_key : NamespaceMount → TieKey
namespace_key a =
    text_part a.namespace_id
    ∷ number_part a.mount.mount_id
    ∷ number_part a.mount.parent_id
    ∷ number_part a.mount.device_number.major_number
    ∷ number_part a.mount.device_number.minor_number
    ∷ text_part a.mount.root
    ∷ text_part a.mount.mount_point
    ∷ text_part a.mount.options
    ∷ a.mount.optional_fields
    ∷ text_part a.mount.filesystem_type
    ∷ text_part a.mount.source
    ∷ text_part a.mount.super_options
    ∷ optional_part a.mount.node
    ∷ number_part (bool_number a.mount.subtree)
    ∷ []

-- What `assessOwnership` has found when it comes to classify.
unfoldable pub scene : ResolvedInventorySnapshot → OwnershipEvidence → Scene
scene inventory evidence =
    let g : Graph = build_graph inventory.nodes evidence.nodes evidence.edges evidence.issues in
    let traces : TextMap Traced = trace_all g g.nodes in
    let claimed : Claimed = all_claims inventory evidence g.blocks traces in
    record {
      inventory = inventory;
      graph = g;
      traces = traces;
      findings = all_findings traces claimed;
      fresh = evidence.fresh_signatures;
      gaps = normal_gaps evidence.coverage_gaps;
      coverage = full_coverage inventory evidence.coverage;
    }

unfoldable pub claims_of : ResolvedInventorySnapshot → OwnershipEvidence → List OwnershipClaim
claims_of inventory evidence =
    let s : Scene = scene inventory evidence in
    let c : Claimed = all_claims inventory evidence s.graph.blocks s.traces in c.claims

unfoldable pub assess_ownership :
    ResolvedInventorySnapshot → OwnershipEvidence → PhysicalAssessmentScope → OwnershipAssessment
assess_ownership inventory evidence scope =
    let s : Scene = scene inventory evidence in
    record {
      coverage_gaps = s.gaps;
      fresh_signatures = s.fresh;
      namespace_mounts = unique_by namespace_key (sort_by namespace_key evidence.namespace_mounts);
      nodes = map (λ (e : Text × OwnershipNode). e.1) s.graph.nodes;
      edges = s.graph.edges;
      claims = claims_of inventory evidence;
      traces = map (λ (e : Text × Traced). e.1.trace) s.traces;
      physical_devices = classify_all s scope s.graph.physical;
      issues = normalize s.graph.issues;
      coverage = s.coverage;
    }
