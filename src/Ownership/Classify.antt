-- ===== src/Ownership/Classify.antt =====
-- The classification of one physical device in `assessOwnership` of core/ownership_graph.cpp.
use drive_lab.Prelude.{
  ℕ, Bool, true, false, not, ◌&&◌, ◌||◌, Option, none, some, List, [], ◌∷◌, ◌++◌, Text, bytes,
  text_eq, ltb, is_empty, if◌then◌else◌, TextMap, map_find, map_get, set_has,
}
use drive_lab.Drive.{DriveStatus}
use drive_lab.Inventory.{
  ResolvedBlockNode, ResolvedInventorySnapshot, PhysicalDeviceKind, DiscoveryIssue,
  DiscoveryIssueCode, BlockInventoryIssue, IdentityScope,
}
use drive_lab.Ownership.{
  OwnershipReason, OwnershipReasonCode, PhysicalOwner, ClassifiedStorage, FreshSignatureEvidence,
  FreshSignatureState, PhysicalAssessmentScope, normalize, block_ownership_key,
}
use drive_lab.Ownership.Mounts.{
  harmless_mount_issue, fresh_signature_complete, fresh_signature_state_name,
}
use drive_lab.Ownership.Graph.{Graph, reason}
use drive_lab.Ownership.Trace.{Traced, owned_by, separate_owner}
use drive_lab.Ownership.Usage.{Findings, is_membership}

-- What the classification reads.
pub record Scene : Type 0 where
  pub inventory : ResolvedInventorySnapshot
  pub graph : Graph
  pub traces : TextMap Traced
  pub findings : Findings
  pub fresh : TextMap FreshSignatureEvidence
  pub gaps : TextMap (List OwnershipReason)
  pub coverage : TextMap Bool

unfoldable pub all_of {ℓ} : {A : Type ℓ} → (A → Bool) → List A → Bool
all_of p [] = true
all_of p (x ∷ xs) = p x && all_of p xs

unfoldable pub gap_explained : TextMap (List OwnershipReason) → Text → Bool
gap_explained gaps source = elim (map_find source gaps) [
  | none ↦ false
  | some rs ↦ not (is_empty rs)
]

unfoldable pub host_coverage : Scene → Bool
host_coverage s =
    all_of
      (λ (e : Text × Bool).
        text_eq e.0 (bytes "inactive_membership") || e.1 || gap_explained s.gaps e.0)
      s.coverage

-- The gaps that may concern the device.
unfoldable pub gaps_near : TextMap Traced → Text → List OwnershipReason → List OwnershipReason
gaps_near traces key [] = []
gaps_near traces key (r ∷ rs) =
    let rest = gaps_near traces key rs in
    if separate_owner traces r.node key then rest else r ∷ rest

unfoldable pub all_gaps : TextMap (List OwnershipReason) → List OwnershipReason
all_gaps [] = []
all_gaps (e ∷ m) = e.1 ++ all_gaps m

abbrev pub is_upset : FreshSignatureState → Bool
is_upset FreshSignatureState.disappeared = true
is_upset FreshSignatureState.conflicting = true
is_upset _ = false

-- The node is traced, and to this device.
unfoldable pub traced_to : TextMap Traced → Text → Text → Bool
traced_to traces node owner = elim (map_find node traces) [
  | none ↦ false
  | some t ↦ owned_by owner t
]

-- Signatures that vanished or conflict, on the device or on what it backs.
unfoldable pub upsets :
    TextMap Traced → Text → TextMap FreshSignatureEvidence → List OwnershipReason
upsets traces key [] = []
upsets traces key (e ∷ m) =
    let rest = upsets traces key m in
    if is_upset e.1.state && traced_to traces e.0 key
    then reason OwnershipReasonCode.conflicting_evidence e.0 (bytes "libblkid:fresh") e.1.detail
      ∷ rest
    else rest

abbrev is_missing : DiscoveryIssueCode → Bool
is_missing DiscoveryIssueCode.missing_evidence = true
is_missing _ = false

abbrev fresh_complete : Option FreshSignatureEvidence → Bool
fresh_complete none = false
fresh_complete (some f) = fresh_signature_complete f

unfoldable pub superseded_signature_gap : TextMap FreshSignatureEvidence → DiscoveryIssue → Bool
superseded_signature_gap fresh i =
    text_eq i.field (bytes "signature")
    && is_missing i.code
    && fresh_complete (map_find (block_ownership_key i.node) fresh)

abbrev inventory_issue_elsewhere : TextMap Traced → Text → BlockInventoryIssue → Bool
inventory_issue_elsewhere traces key i = elim i.kernel_name [
  | none ↦ false
  | some n ↦ separate_owner traces (block_ownership_key n) key
]

-- No issue counts against the device.
unfoldable pub issues_elsewhere : Scene → Text → Bool
issues_elsewhere s key =
    all_of
      (λ (r : OwnershipReason).
        text_eq r.source (bytes "inactive_membership") || separate_owner s.traces r.node key)
      s.graph.issues
    && all_of (inventory_issue_elsewhere s.traces key) s.inventory.inventory_issues
    && all_of
        (λ (i : DiscoveryIssue).
          harmless_mount_issue i s.inventory
          || superseded_signature_gap s.fresh i
          || separate_owner s.traces (block_ownership_key i.node) key)
        s.inventory.issues

abbrev pub fresh_negative : Option FreshSignatureEvidence → Bool
fresh_negative none = false
fresh_negative (some f) = fresh_signature_complete f && not (is_membership f.state)

-- A block on the device has a fresh signature that is not a membership, and no issues.
unfoldable pub signature_clean : Scene → Text × ResolvedBlockNode → Bool
signature_clean s (k, child) =
    fresh_negative (map_find k s.fresh)
    && is_empty child.observation.issues
    && all_of (superseded_signature_gap s.fresh) child.issues

unfoldable pub signatures_complete : Scene → Text → Bool
signatures_complete s key =
    all_of
      (λ (e : Text × ResolvedBlockNode). not (traced_to s.traces e.0 key) || signature_clean s e)
      s.graph.blocks

abbrev signature_reason : Text → FreshSignatureEvidence → OwnershipReason
signature_reason k f =
    reason OwnershipReasonCode.signature_unavailable k (bytes "libblkid:fresh")
      (fresh_signature_state_name f.state ++ (bytes ": " ++ f.detail))

abbrev bad_signature : Text → Option FreshSignatureEvidence → List OwnershipReason
bad_signature k none = []
bad_signature k (some f) = if fresh_signature_complete f then [] else signature_reason k f ∷ []

unfoldable pub bad_signatures : Scene → Text → TextMap ResolvedBlockNode → List OwnershipReason
bad_signatures s key [] = []
bad_signatures s key (e ∷ m) =
    let rest = bad_signatures s key m in
    if traced_to s.traces e.0 key then bad_signature e.0 (map_find e.0 s.fresh) ++ rest else rest

abbrev pub sized : Option ℕ → Bool
sized none = false
sized (some n) = ltb 0 n

abbrev pub writable : Option Bool → Bool
writable none = false
writable (some read_only) = not read_only

abbrev pub is_read_only : Option Bool → Bool
is_read_only none = false
is_read_only (some read_only) = read_only

unfoldable pub clean : Scene → ResolvedBlockNode → Bool
clean s b =
    all_of (superseded_signature_gap s.fresh) b.issues
    && sized b.observation.capacity_bytes
    && writable b.observation.read_only

abbrev is_whole : IdentityScope → Bool
is_whole IdentityScope.whole_device = true
is_whole IdentityScope.nvme_namespace = false

abbrev reason_if : Bool → OwnershipReason → List OwnershipReason
reason_if b r = if b then r ∷ [] else []

-- The last branch: nothing is known to use the device, and it is ready if every check is complete.
unfoldable pub check_ready :
    Scene → Text → PhysicalOwner → ResolvedBlockNode → Bool → DriveStatus × List OwnershipReason
check_ready s key owner b scoped =
    let coverage : Bool = host_coverage s && scoped && issues_elsewhere s key in
    let signatures : Bool = signatures_complete s key in
    let fine : Bool = coverage && not s.findings.unknown_usage && signatures && clean s b in
    (
      if fine && is_whole owner.scope then DriveStatus.ready else DriveStatus.unknown,
      bad_signatures s key s.graph.blocks
          ++ (reason_if (not coverage || s.findings.unknown_usage) (
                reason OwnershipReasonCode.incomplete_coverage key (bytes "host")
                  (bytes "Host ownership coverage or an unattributed consumer is incomplete"))
              ++ (reason_if (not signatures) (
                    reason OwnershipReasonCode.signature_unavailable key (bytes "signature") (
                      bytes
                        "No fresh successful signature/membership evidence for every descendant"))
                  ++ (reason_if (not (clean s b)) (
                        reason OwnershipReasonCode.conflicting_evidence key (bytes "inventory")
                          (bytes "Missing flags or unresolved observation issues"))
                      ++ (reason_if (not (is_whole owner.scope)) (
                            reason OwnershipReasonCode.namespace_scope key (bytes "identity")
                              (bytes "Shared physical-controller ownership is not established"))
                          ++ reason_if (fine && is_whole owner.scope) (
                              reason OwnershipReasonCode.checks_complete key (bytes "classifier") (
                                bytes
                                  "Snapshot checks complete within observed host scope; no usage or ownership claim; not execution authorization")))))),
    )

unfoldable pub decide :
    Scene
    → Text
    → PhysicalOwner
    → ResolvedBlockNode
    → Bool
    → Bool
    → DriveStatus × List OwnershipReason
decide s key owner b scoped local_unknown =
    if local_unknown
    then (DriveStatus.unknown, [])
    else if set_has key s.findings.protected_use || is_read_only b.observation.read_only
    then (
      DriveStatus.protected,
      reason_if (is_read_only b.observation.read_only)
          (reason OwnershipReasonCode.read_only key (bytes "sysfs") (bytes "Device is read-only")),
    )
    else if set_has key s.findings.busy_use
    then (DriveStatus.busy, [])
    else check_ready s key owner b scoped

abbrev or_unexplained : Text → List OwnershipReason → List OwnershipReason
or_unexplained key [] =
    reason OwnershipReasonCode.incomplete_coverage key (bytes "classifier")
      (bytes "Insufficient evidence")
    ∷ []
or_unexplained key (r ∷ rs) = r ∷ rs

abbrev pub unsure : Scene → Text → Traced → Bool
unsure s key t =
    set_has key s.findings.incomplete
    || not t.trace.complete
    || not (is_empty (upsets s.traces key s.fresh))

unfoldable pub classify :
    Scene → Text → PhysicalOwner → ResolvedBlockNode → Traced → ClassifiedStorage
classify s key owner b t =
    let near : List OwnershipReason = gaps_near s.traces key (all_gaps s.gaps) in
    let (status, more) = decide s key owner b (is_empty near) (unsure s key t) in
    record {
      node = key;
      id = owner.id;
      status = status;
      reasons = normalize (
          or_unexplained key (
            map_get [] key s.findings.reasons
            ++ (near
                ++ (upsets s.traces key s.fresh
                    ++ ((if unsure s key t then t.trace.reasons else []) ++ more)))));
    }

abbrev pub is_disk_kind : PhysicalDeviceKind → Bool
is_disk_kind PhysicalDeviceKind.disk = true
is_disk_kind _ = false

abbrev pub in_scope : PhysicalAssessmentScope → ResolvedBlockNode → Bool
in_scope PhysicalAssessmentScope.all_physical b = true
in_scope PhysicalAssessmentScope.disks b = is_disk_kind b.observation.physical_kind

-- Every physical owner is a block and a node, so neither look-up fails.
unfoldable pub classify_one :
    Scene → PhysicalAssessmentScope → Text × PhysicalOwner → List ClassifiedStorage
classify_one s scope (key, owner) = elim (map_find key s.graph.blocks) [
  | none ↦ []
  | some b ↦ elim (map_find key s.traces) [
    | none ↦ []
    | some t ↦ if in_scope scope b then classify s key owner b t ∷ [] else []
  ]
]

unfoldable pub classify_all :
    Scene → PhysicalAssessmentScope → TextMap PhysicalOwner → List ClassifiedStorage
classify_all s scope [] = []
classify_all s scope (e ∷ m) = classify_one s scope e ++ classify_all s scope m
