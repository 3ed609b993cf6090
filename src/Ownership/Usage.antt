-- ===== src/Ownership/Usage.antt =====
-- The claims of `assessOwnership` in core/ownership_graph.cpp, and what they say of each device.
use drive_lab.Prelude.{
  Bool, true, false, not, ◌&&◌, ◌||◌, none, some, List, [], ◌∷◌, ◌++◌, Text, bytes, text_eq,
  to_text, any_of, is_empty, if◌then◌else◌, TieKey, TextMap, sort_by, unique_by, map_find, map_has,
  map_set, map_get, set_has, set_insert,
}
use drive_lab.Inventory.{ResolvedBlockNode, MountEvidence, SwapEvidence, ResolvedInventorySnapshot}
use drive_lab.Ownership.{
  OwnershipUse, OwnershipClaim, OwnershipReason, OwnershipReasonCode, OwnershipEvidence,
  PhysicalOwner, FreshSignatureEvidence, FreshSignatureState, use_number, number_part, text_part,
  block_ownership_key,
}
use drive_lab.Ownership.Mounts.{harmless_ownership_mount, starts_with}
use drive_lab.Ownership.Graph.{reason}
use drive_lab.Ownership.Trace.{Traced, owner_reasons}

abbrev claim_code : OwnershipUse → OwnershipReasonCode
claim_code OwnershipUse.held = OwnershipReasonCode.holder
claim_code OwnershipUse.mounted = OwnershipReasonCode.mount
claim_code OwnershipUse.root = OwnershipReasonCode.system_root
claim_code OwnershipUse.boot = OwnershipReasonCode.boot_filesystem
claim_code OwnershipUse.home = OwnershipReasonCode.home_filesystem
claim_code OwnershipUse.swap = OwnershipReasonCode.active_swap
claim_code OwnershipUse.lvm = OwnershipReasonCode.lvm_member
claim_code OwnershipUse.raid = OwnershipReasonCode.raid_member
claim_code OwnershipUse.zfs = OwnershipReasonCode.zfs_member
claim_code OwnershipUse.configured_storage = OwnershipReasonCode.configured_storage
claim_code OwnershipUse.guest = OwnershipReasonCode.guest_assignment
claim_code OwnershipUse.open_block_handle = OwnershipReasonCode.open_block_handle
claim_code OwnershipUse.open_file_handle = OwnershipReasonCode.open_file_handle

unfoldable pub claim_reason : OwnershipClaim → OwnershipReason
claim_reason c = reason (claim_code c.claimed_use) c.consumer c.source c.detail

abbrev pub protects : OwnershipUse → Bool
protects OwnershipUse.held = false
protects OwnershipUse.open_block_handle = false
protects OwnershipUse.open_file_handle = false
protects _ = true

abbrev claim_key : OwnershipClaim → TieKey
claim_key c =
    text_part c.consumer
    ∷ number_part (use_number c.claimed_use)
    ∷ text_part c.source
    ∷ text_part c.detail
    ∷ []

abbrev claim : Text → OwnershipUse → Text → Text → OwnershipClaim
claim k u source detail = record { consumer = k; claimed_use = u; source = source; detail = detail }

abbrev pub is_membership : FreshSignatureState → Bool
is_membership FreshSignatureState.membership = true
is_membership _ = false

abbrev membership_use : Text → OwnershipUse
membership_use type =
    if text_eq type (bytes "LVM2_member")
    then OwnershipUse.lvm
    else if text_eq type (bytes "zfs_member")
    then OwnershipUse.zfs
    else OwnershipUse.raid

-- The claims of fresh membership signatures.
unfoldable pub membership_claims :
    TextMap ResolvedBlockNode → TextMap FreshSignatureEvidence → List OwnershipClaim
membership_claims blocks [] = []
membership_claims blocks (e ∷ m) =
    let rest = membership_claims blocks m in
    if not (is_membership e.1.state) || not (map_has e.0 blocks)
    then rest
    else claim e.0 (membership_use e.1.type) (bytes "libblkid:fresh")
        (bytes "Fresh inactive/active membership: " ++ e.1.type)
      ∷ rest

-- The claims so far, their sources, and whether some usage has no known place.
pub record Claimed : Type 0 where
  pub claims : List OwnershipClaim
  pub sources : List Text
  pub unknown_usage : Bool

unfoldable pub sources_of : List OwnershipClaim → List Text → List Text
sources_of [] s = s
sources_of (c ∷ cs) s = sources_of cs (set_insert c.source s)

unfoldable pub mount_use : Text → OwnershipUse
mount_use p =
    if text_eq p (bytes "/")
    then OwnershipUse.root
    else if text_eq p (bytes "/boot") || starts_with (bytes "/boot/") p
    then OwnershipUse.boot
    else if text_eq p (bytes "/home") || starts_with (bytes "/home/") p
    then OwnershipUse.home
    else OwnershipUse.mounted

abbrev pub mount_source : MountEvidence → Text
mount_source m = bytes "mountinfo:" ++ to_text m.mount_id

unfoldable pub claim_mount : MountEvidence → Claimed → Claimed
claim_mount m c = elim m.node [
  | none ↦
      if not (set_has (mount_source m) c.sources) && not (harmless_ownership_mount m)
      then record c { unknown_usage = true }
      else c
  | some node ↦ record c {
    claims =
        c.claims
        ++ (claim (block_ownership_key node) (mount_use m.mount_point) (mount_source m)
              m.mount_point
            ∷ []);
    sources = set_insert (mount_source m) c.sources;
  }
]

unfoldable pub claim_mounts : List MountEvidence → Claimed → Claimed
claim_mounts [] c = c
claim_mounts (m ∷ ms) c = claim_mounts ms (claim_mount m c)

unfoldable pub claim_swap : SwapEvidence → Claimed → Claimed
claim_swap s c = elim s.node [
  | none ↦ record c { unknown_usage = true }
  | some node ↦ record c {
    claims =
        c.claims
        ++ (claim (block_ownership_key node) OwnershipUse.swap (bytes "swaps") s.path ∷ []);
  }
]

unfoldable pub claim_swaps : List SwapEvidence → Claimed → Claimed
claim_swaps [] c = c
claim_swaps (s ∷ ss) c = claim_swaps ss (claim_swap s c)

-- A consumer without a complete structure is unknown usage, unless it is an inactive loop device.
unfoldable pub untraced : List Text → TextMap Traced → Bool
untraced inactive_loops traces =
    any_of
      (λ (e : Text × Traced). not e.1.topology && not (set_has e.1.trace.consumer inactive_loops))
      traces

unfoldable pub all_claims :
    ResolvedInventorySnapshot
    → OwnershipEvidence
    → TextMap ResolvedBlockNode
    → TextMap Traced
    → Claimed
all_claims inventory evidence blocks traces =
    let first : List OwnershipClaim =
      evidence.claims ++ membership_claims blocks evidence.fresh_signatures in
    let c : Claimed = claim_swaps inventory.swaps (
      claim_mounts inventory.mounts (record {
        claims = first;
        sources = sources_of first [];
        unknown_usage = untraced evidence.inactive_loops traces;
      })) in
    record c { claims = unique_by claim_key (sort_by claim_key c.claims) }

-- What is said of the physical devices, by their keys. The maps of flags only ever hold true.
pub record Findings : Type 0 where
  pub reasons : TextMap (List OwnershipReason)
  pub incomplete : List Text
  pub protected_use : List Text
  pub busy_use : List Text
  pub unknown_usage : Bool

unfoldable pub add_reasons :
    Text → List OwnershipReason → TextMap (List OwnershipReason) → TextMap (List OwnershipReason)
add_reasons k rs m = map_set k (map_get [] k m ++ rs) m

abbrev mark_if : Bool → Text → List Text → List Text
mark_if b k s = if b then set_insert k s else s

-- An incomplete trace, at one of its owners.
unfoldable pub note_trace : TextMap Traced → Traced → PhysicalOwner → Findings → Findings
note_trace traces t o f =
    let relevant : List OwnershipReason = owner_reasons traces o.node t.trace.reasons in
    record f {
      incomplete = mark_if (not (is_empty relevant)) o.node f.incomplete;
      reasons = add_reasons o.node relevant f.reasons;
    }

-- A claim, at one of the owners of its consumer.
unfoldable pub note_claim :
    TextMap Traced → OwnershipClaim → Traced → PhysicalOwner → Findings → Findings
note_claim traces c t o f = record f {
  reasons = add_reasons o.node (claim_reason c ∷ []) f.reasons;
  protected_use = mark_if (protects c.claimed_use) o.node f.protected_use;
  busy_use = mark_if (not (protects c.claimed_use)) o.node f.busy_use;
  incomplete =
      mark_if (not (is_empty (owner_reasons traces o.node t.trace.reasons))) o.node f.incomplete;
}

unfoldable pub each_owner :
    (PhysicalOwner → Findings → Findings) → List PhysicalOwner → Findings → Findings
each_owner note [] f = f
each_owner note (o ∷ os) f = each_owner note os (note o f)

unfoldable pub note_traces : TextMap Traced → TextMap Traced → Findings → Findings
note_traces traces [] f = f
note_traces traces (e ∷ m) f =
    note_traces traces m
      (if e.1.trace.complete then f else each_owner (note_trace traces e.1) e.1.trace.owners f)

unfoldable pub note_one : TextMap Traced → OwnershipClaim → Findings → Findings
note_one traces c f = elim (map_find c.consumer traces) [
  | none ↦ record f { unknown_usage = true }
  | some t ↦
      each_owner (note_claim traces c t) t.trace.owners
        (if t.topology then f else record f { unknown_usage = true })
]

unfoldable pub note_claims : TextMap Traced → List OwnershipClaim → Findings → Findings
note_claims traces [] f = f
note_claims traces (c ∷ cs) f = note_claims traces cs (note_one traces c f)

unfoldable pub all_findings : TextMap Traced → Claimed → Findings
all_findings traces c = note_claims traces c.claims (
    note_traces traces traces (record {
      reasons = [];
      incomplete = [];
      protected_use = [];
      busy_use = [];
      unknown_usage = c.unknown_usage;
    }))
