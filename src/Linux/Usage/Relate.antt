-- ===== src/Linux/Usage/Relate.antt =====
-- The loops of `scan` over the mounts and over the swaps, of platform/linux/linux_host_usage.cpp.
use drive_lab.Prelude.{
  ℕ, suc, Bool, not, ◌&&◌, ◌||◌, Option, none, some, List, [], ◌∷◌, ◌++◌, ◌==◌, Text, bytes,
  text_eq, to_text, is_empty, count_if, if◌then◌else◌,
}
use drive_lab.Inventory.{
  BlockDeviceNumber, DiscoveryIssue, snapshot_changed, uncorrelated_usage, unsupported_topology,
  MountEvidence, SwapEvidence, ResolvedBlockNode, ResolvedInventorySnapshot,
}
use drive_lab.Ownership.Mounts.{starts_with}
use drive_lab.Linux.{HostRead, HostPathStatus, issue, add_issue}
use drive_lab.Linux.Usage.{
  Host, Acquisition, same_number, is_match, correlate, change_at, holds, is_reported, disagrees,
}

abbrev in_out : (ResolvedInventorySnapshot → ResolvedInventorySnapshot) → Acquisition → Acquisition
in_out f a = record a { out = f a.out }

abbrev change_node : ℕ → (ResolvedBlockNode → ResolvedBlockNode) → Acquisition → Acquisition
change_node i f = in_out (λ out. record out { nodes = change_at i f out.nodes })

abbrev report : DiscoveryIssue → Acquisition → Acquisition
report i = in_out (add_issue i)

abbrev report_all : List DiscoveryIssue → Acquisition → Acquisition
report_all is = in_out (λ out. record out { issues = out.issues ++ is })

abbrev no_unique_node : MountEvidence → DiscoveryIssue
no_unique_node m =
    let i = issue uncorrelated_usage [] (bytes "mountinfo") (
      bytes "Mount "
      ++ (to_text m.mount_id
          ++ (bytes " has no unique directly observed block node; source=" ++ m.source))) in
    record i { mount_id = some m.mount_id }

-- The look at the source path of a mount on a node.
unfoldable pub check_source : Host → MountEvidence → ResolvedBlockNode → Acquisition → Acquisition
check_source h m n a =
    if starts_with (bytes "/dev/") m.source
    then (let status = h.inspect a.looks m.source in
        let b = report_all status.issues (record a { looks = suc a.looks }) in
        if is_match status n.observation
        then b
        else report
            (issue snapshot_changed n.observation.kernel_name (bytes "mount_source")
              (bytes "Mount source path cannot corroborate mountinfo major/minor: " ++ m.source))
            b)
    else a

unfoldable pub check_subtree : MountEvidence → ResolvedBlockNode → Acquisition → Acquisition
check_subtree m n a =
    if m.subtree
    then report
        (issue unsupported_topology n.observation.kernel_name (bytes "mount_root") (
          bytes "Non-root mount subtree retained; bind mount versus subvolume is not inferred: "
          ++ m.root))
        a
    else a

-- Whether a signature that is reported is not that of the mounted filesystem.
unfoldable pub mount_disagrees : MountEvidence → ResolvedBlockNode → Bool
mount_disagrees m n =
    is_reported n.signature.state
    && (not (holds n.signature.usage (bytes "filesystem"))
        || not (holds n.signature.type m.filesystem_type))

-- The body of the loop over the mounts, for the mount at a place on the node at a place.
unfoldable pub relate_mount :
    Host → ℕ → MountEvidence → ℕ → ResolvedBlockNode → Acquisition → MountEvidence × Acquisition
unfolding check_source check_subtree mount_disagrees
relate_mount h i m k n a =
    let b = change_node k (λ n. record n { mounts = n.mounts ++ (i ∷ []) }) a in
    let c = check_subtree m n (check_source h m n b) in
    let d =
      change_node k
        (disagrees (
          bytes "Cached signature disagrees with mountinfo filesystem; both observations retained"))
        c in
    (record m { node = some n.observation.kernel_name }, if mount_disagrees m n then d else c)

-- Whether the mount is related: its identity is alone and one node has its number.
unfoldable pub relate_one :
    Host → Bool → ℕ → MountEvidence → Acquisition → MountEvidence × Acquisition
unfolding relate_mount
relate_one h alone i m a = elim (correlate a.out m.device_number) [
  | none ↦ (m, report (no_unique_node m) a)
  | some (k, n) ↦ if alone then relate_mount h i m k n a else (m, report (no_unique_node m) a)
]

unfoldable pub relate_mounts :
    Host
    → List MountEvidence
    → ℕ
    → List MountEvidence
    → Acquisition
    → List MountEvidence × Acquisition
unfolding relate_one
relate_mounts h all i [] a = ([], a)
relate_mounts h all i (m ∷ ms) a =
    let (m', b) = relate_one h (count_if (λ o. o.mount_id == m.mount_id) all == 1) i m a in
    let (ms', c) = relate_mounts h all (suc i) ms b in (m' ∷ ms', c)

abbrev swap_issue : Text → SwapEvidence → DiscoveryIssue
swap_issue message s = issue uncorrelated_usage [] (bytes "swap_source") (message ++ s.path)

abbrev unattributed : SwapEvidence → DiscoveryIssue
unattributed s = issue unsupported_topology [] (bytes "swap_source") (
    bytes "Swap file, unsupported type, or duplicate path retained without physical attribution: "
    ++ s.path)

abbrev device_of : HostPathStatus → Option BlockDeviceNumber
device_of s = if s.is_block then s.device_number else none

abbrev same_status : HostPathStatus → HostPathStatus → Bool
same_status s t =
    ((s.is_block && t.is_block) || (not s.is_block && not t.is_block))
    && same_number s.device_number t.device_number

-- The device that two looks agree on.
unfoldable pub agreed_device :
    HostRead HostPathStatus → HostRead HostPathStatus → Option BlockDeviceNumber
agreed_device first second = elim first.value [
  | none ↦ none
  | some s ↦ elim second.value [
    | none ↦ none
    | some t ↦
        if is_empty first.issues && (is_empty second.issues && same_status s t)
        then device_of s
        else none
  ]
]

-- The body of the loop over the swaps, for a partition with a path of its own.
unfoldable pub relate_swap : Host → ℕ → SwapEvidence → Acquisition → SwapEvidence × Acquisition
unfolding agreed_device
relate_swap h i s a =
    let first = h.inspect a.looks s.path in
    let second = h.inspect (suc a.looks) s.path in
    let b =
      report_all second.issues (report_all first.issues (record a { looks = suc (suc a.looks) })) in
    elim (agreed_device first second) [
      | none ↦ (
        s,
        report (swap_issue (bytes "Swap path is unreadable, changed, or is not a block node: ") s)
            b,
      )
      | some number ↦ elim (correlate b.out number) [
        | none ↦ (
          record s { device_number = some number },
          report (swap_issue (bytes "No unique raw node for active swap: ") s) b,
        )
        | some (k, n) ↦
            let c = change_node k (λ n. record n { swaps = n.swaps ++ (i ∷ []) }) b in
            let d =
              change_node k
                (disagrees
                  (bytes "Cached signature disagrees with active swap; observations retained"))
                c in
            (
              record s { device_number = some number; node = some n.observation.kernel_name },
              if is_reported n.signature.state && not (holds n.signature.type (bytes "swap"))
                  then d
                  else c,
            )
      ]
    ]

unfoldable pub relate_swap_if :
    Host → Bool → ℕ → SwapEvidence → Acquisition → SwapEvidence × Acquisition
unfolding relate_swap
relate_swap_if h fit i s a = if fit then relate_swap h i s a else (s, report (unattributed s) a)

unfoldable pub relate_swaps :
    Host → List SwapEvidence → ℕ → List SwapEvidence → Acquisition → List SwapEvidence × Acquisition
unfolding relate_swap_if
relate_swaps h all i [] a = ([], a)
relate_swaps h all i (s ∷ ss) a =
    let fit =
      text_eq s.type (bytes "partition") && (count_if (λ o. text_eq o.path s.path) all == 1) in
    let (s', b) = relate_swap_if h fit i s a in
    let (ss', c) = relate_swaps h all (suc i) ss b in (s' ∷ ss', c)
