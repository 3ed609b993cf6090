-- ===== src/Linux/Usage/Scan.antt =====
-- `scan` and `resolvePath` of platform/linux/linux_host_usage.cpp.
use drive_lab.Prelude.{
  ℕ, suc, Bool, true, false, not, ◌&&◌, ◌||◌, Option, none, some, List, [], ◌∷◌, ◌++◌, ◌==◌, map,
  Text, bytes, text_eq, is_empty, any_of, count_if, sort_by, if◌then◌else◌,
}
use drive_lab.Result.{Result, ok, err}
use drive_lab.Drive.{DriveId}
use drive_lab.Inventory.{
  BlockNodeType, disk, partition, BlockObservationKind, virtual_or_pseudo, BlockInventoryIssue,
  invalid_relationship, device_disappeared, BlockDeviceObservation, DiscoveryIssue, read_failure,
  unsupported_topology, ResolutionState, resolved, ResolvedBlockNode, ResolvedInventorySnapshot,
}
use drive_lab.Ownership.{number_part, text_part}
use drive_lab.Resolve.{resolve_current_path}
use drive_lab.Resolve.Collide.{
  BlockInventorySnapshot, resolve_block_identities, sort_discovery_issues,
}
use drive_lab.Linux.{HostRead, issue, add_issue}
use drive_lab.Linux.Mounts.{parse_mount_info}
use drive_lab.Linux.Swaps.{parse_swaps}
use drive_lab.Linux.Usage.{
  Host, Acquisition, change_at, note, confirm_nodes, recheck_nodes, is_known, only,
}
use drive_lab.Linux.Usage.Relate.{relate_mounts, relate_swaps}

abbrev spoils_relationship : BlockInventoryIssue → Bool
spoils_relationship i =
    elim i.code [ invalid_relationship ↦ true | device_disappeared ↦ true | _ ↦ false ]
    || (text_eq i.field (bytes "parent_kernel_name") || text_eq i.field (bytes "partition_number"))

-- `relationshipUsable`.
unfoldable pub relationship_usable : BlockDeviceObservation → Bool
relationship_usable o = not (any_of spoils_relationship o.issues)

abbrev is_disk : BlockNodeType → Bool
is_disk disk = true
is_disk _ = false

abbrev is_partition : BlockNodeType → Bool
is_partition partition = true
is_partition _ = false

abbrev is_virtual : BlockObservationKind → Bool
is_virtual virtual_or_pseudo = true
is_virtual _ = false

abbrev is_resolved : ResolutionState → Bool
is_resolved resolved = true
is_resolved _ = false

-- The nodes with a name, with their places.
unfoldable pub named : ℕ → Text → List ResolvedBlockNode → List (ℕ × ResolvedBlockNode)
named i name [] = []
named i name (n ∷ ns) =
    let rest = named (suc i) name ns in
    if text_eq n.observation.kernel_name name then (i, n) ∷ rest else rest

-- The parent that may take over what a partition holds, and its place.
unfoldable pub usable_parent :
    List ResolvedBlockNode → BlockDeviceObservation → Option (ℕ × ResolvedBlockNode)
unfolding named relationship_usable
usable_parent nodes o = elim o.parent_kernel_name [
  | none ↦ none
  | some name ↦ elim (only (named 0 name nodes)) [
    | none ↦ none
    | some (k, p) ↦
        if relationship_usable o
          && (relationship_usable p.observation
              && (is_known o.partition_number
                  && (is_disk p.observation.node_type
                      && (is_resolved p.identity.state
                          && (not (is_virtual p.observation.observation_kind)
                              && (count_if (λ c. text_eq c o.kernel_name)
                                    p.observation.child_kernel_names
                                  == 1))))))
        then some (k, p)
        else none
  ]
]

abbrev no_parent : Text → DiscoveryIssue
no_parent name =
    issue unsupported_topology name (bytes "usage_parent")
      (bytes "No unambiguous resolved physical/namespace parent for this partition")

abbrev take_over : ResolvedBlockNode → ResolvedBlockNode → ResolvedBlockNode
take_over child p = record p {
  usage_nodes = p.usage_nodes ++ (child.observation.kernel_name ∷ []);
  mounts = p.mounts ++ child.mounts;
  swaps = p.swaps ++ child.swaps;
}

-- The loop over the partitions; only disks change, so each child is as it was before the loop.
unfoldable pub relate_partitions :
    List ResolvedBlockNode → ResolvedInventorySnapshot → ResolvedInventorySnapshot
unfolding usable_parent
relate_partitions [] out = out
relate_partitions (c ∷ cs) out = relate_partitions cs (
    if is_partition c.observation.node_type
    then elim (usable_parent out.nodes c.observation) [
      | none ↦ add_issue (no_parent c.observation.kernel_name) out
      | some (k, _) ↦ record out { nodes = change_at k (take_over c) out.nodes }
    ]
    else out)

abbrev deferred : Text → DiscoveryIssue
deferred name = issue unsupported_topology name (bytes "usage_parent") (
    bytes "Direct usage observed on virtual node; underlying physical ownership deferred to 0.3.0C")

unfoldable pub finish_node : ResolvedBlockNode → ResolvedBlockNode
finish_node n =
    let used = not (is_empty n.mounts) || not (is_empty n.swaps) in
    let m =
      if used && is_virtual n.observation.observation_kind
      then note (deferred n.observation.kernel_name) n
      else n in
    record m {
      mounts = sort_by (λ i. number_part i ∷ []) m.mounts;
      swaps = sort_by (λ i. number_part i ∷ []) m.swaps;
      usage_nodes = sort_by (λ t. text_part t ∷ []) m.usage_nodes;
      issues = sort_discovery_issues m.issues;
    }

abbrev is_about : Text → DiscoveryIssue → Bool
is_about field i = text_eq i.field field

abbrev unavailable_evidence : Text → Text → DiscoveryIssue
unavailable_evidence field message = issue read_failure [] field message

abbrev or_else :
    Option Text
    → (Text → ResolvedInventorySnapshot → ResolvedInventorySnapshot)
    → DiscoveryIssue
    → ResolvedInventorySnapshot
    → ResolvedInventorySnapshot
or_else (some text) parse i out = parse text out
or_else none parse i out = add_issue i out

abbrev is_complete : HostRead Text → Bool
is_complete r = is_known r.value && is_empty r.issues

-- The records of both files, and whether each was read without an issue.
unfoldable pub read_files : Host → ResolvedInventorySnapshot → ResolvedInventorySnapshot
read_files h out =
    let begun = record out { issues = out.issues ++ (h.mountinfo.issues ++ h.swaps.issues) } in
    let read =
      or_else h.swaps.value parse_swaps
        (unavailable_evidence (bytes "swaps") (bytes "Active swap evidence unavailable"))
        (or_else h.mountinfo.value parse_mount_info
          (unavailable_evidence (bytes "mountinfo") (bytes "Mount namespace evidence unavailable"))
          begun) in
    record read {
      mountinfo_read_complete =
          is_complete h.mountinfo && not (any_of (is_about (bytes "mountinfo")) read.issues);
      swaps_read_complete =
          is_complete h.swaps && not (any_of (is_about (bytes "swaps")) read.issues);
    }

-- The rest of `scan`, for a raw inventory.
unfoldable pub relate_usage : Host → BlockInventorySnapshot → ResolvedInventorySnapshot
unfolding read_files relate_mounts relate_swaps relate_partitions finish_node
relate_usage h raw =
    let out = read_files h (resolve_block_identities raw) in
    let (confirmed, looks) = confirm_nodes h out.nodes 0 in
    let a : Acquisition = record { out = record out { nodes = confirmed }; looks = looks } in
    let (mounts, b) = relate_mounts h out.mounts 0 out.mounts a in
    let (swaps, c) = relate_swaps h out.swaps 0 out.swaps b in
    let (nodes, _) = recheck_nodes h c.out.nodes c.looks in
    let related =
      relate_partitions nodes (record c.out { nodes = nodes; mounts = mounts; swaps = swaps }) in
    record related {
      nodes = map finish_node related.nodes;
      issues = sort_discovery_issues related.issues;
    }

-- `LinuxResolvedInventoryProvider::scan`.
unfoldable pub scan : Host → Result BlockInventorySnapshot → Result ResolvedInventorySnapshot
unfolding relate_usage
scan h (err e) = err e
scan h (ok raw) = ok (relate_usage h raw)

-- `LinuxResolvedInventoryProvider::resolvePath`.
unfoldable pub resolve_path : Host → Result BlockInventorySnapshot → DriveId → Result Text
resolve_path h raw expected = elim (scan h raw) [
  | err e ↦ err e
  | ok fresh ↦ resolve_current_path fresh expected
]
