-- ===== src/Linux/Usage.antt =====
-- platform/linux/linux_host_usage.cpp: mounts and swaps put beside the devices that hold them.
pub mod Relate
pub mod Scan
use drive_lab.Prelude.{
  ℕ, zero, suc, ◌+◌, Bool, true, false, not, ◌&&◌, ◌||◌, Option, none, some, List, [], ◌∷◌, ◌++◌,
  ◌==◌, Text, bytes, text_eq, to_text, is_empty, any_of, count_if, if◌then◌else◌,
}
use drive_lab.Result.{Result, ok, err, Error}
use drive_lab.Drive.{DriveId}
use drive_lab.Inventory.{
  BlockDeviceNumber, BlockDeviceObservation, DiscoveryIssue, DiscoveryIssueCode, disappeared,
  snapshot_changed, read_failure, uncorrelated_usage, unsupported_topology, conflict,
  SignatureState, reported, conflicting, SignatureEvidence, MountEvidence, SwapEvidence,
  ResolvedBlockNode, ResolvedInventorySnapshot, number_eq,
}
use drive_lab.Linux.{HostRead, HostPathStatus, Properties, issue, add_issue}
use drive_lab.Linux.Signature.{parse_signature}

-- The host: what is read of its files once, and of paths and signatures at each call.
pub record Host : Type 0 where
  pub mountinfo : HostRead Text
  pub swaps : HostRead Text
  pub inspect : ℕ → Text → HostRead HostPathStatus
  pub signature : ℕ → BlockDeviceObservation → HostRead Properties

-- A scan under way: what it has found, and how many paths and signatures it has looked at.
pub record Acquisition : Type 0 where
  pub out : ResolvedInventorySnapshot
  pub looks : ℕ

unfoldable pub same_number : Option BlockDeviceNumber → Option BlockDeviceNumber → Bool
same_number none none = true
same_number none (some b) = false
same_number (some a) none = false
same_number (some a) (some b) = number_eq a b

abbrev pub is_known {ℓ} : {A : Type ℓ} → Option A → Bool
is_known none = false
is_known (some a) = true

-- `matches`.
unfoldable pub is_match : HostRead HostPathStatus → BlockDeviceObservation → Bool
is_match status node = elim status.value [
  | none ↦ false
  | some s ↦
      is_empty status.issues
      && (s.is_block
          && (is_known node.device_number && same_number s.device_number node.device_number))
]

-- The nodes with a device number, with their places.
unfoldable pub with_number :
    ℕ → BlockDeviceNumber → List ResolvedBlockNode → List (ℕ × ResolvedBlockNode)
with_number i number [] = []
with_number i number (n ∷ ns) =
    let rest = with_number (suc i) number ns in
    if same_number n.observation.device_number (some number) then (i, n) ∷ rest else rest

abbrev pub only {ℓ} : {A : Type ℓ} → List A → Option A
only (a ∷ []) = some a
only _ = none

-- `correlate`: the only node with the number, and its place.
unfoldable pub correlate :
    ResolvedInventorySnapshot → BlockDeviceNumber → Option (ℕ × ResolvedBlockNode)
unfolding with_number
correlate out number = only (with_number 0 number out.nodes)

-- A write to the node at a place.
unfoldable pub change_at :
    ℕ → (ResolvedBlockNode → ResolvedBlockNode) → List ResolvedBlockNode → List ResolvedBlockNode
change_at i f [] = []
change_at zero f (n ∷ ns) = f n ∷ ns
change_at (suc i) f (n ∷ ns) = n ∷ change_at i f ns

abbrev pub note : DiscoveryIssue → ResolvedBlockNode → ResolvedBlockNode
note i n = record n { issues = n.issues ++ (i ∷ []) }

abbrev pub note_all : List DiscoveryIssue → ResolvedBlockNode → ResolvedBlockNode
note_all is n = record n { issues = n.issues ++ is }

abbrev changed_path : Text → Text → DiscoveryIssue
changed_path message name = issue snapshot_changed name (bytes "current_path") message

abbrev checked : HostRead HostPathStatus → Text → ResolvedBlockNode → ResolvedBlockNode
checked status message n =
    let m = note_all status.issues n in
    if is_match status n.observation
    then m
    else note (changed_path message n.observation.kernel_name) (record m { current_path = none })

-- Whether the node's path still names it; `looks` counts the calls.
unfoldable pub check_path : Host → Text → ResolvedBlockNode → ℕ → ResolvedBlockNode × ℕ
unfolding is_match
check_path h message n looks = elim n.current_path [
  | none ↦ (n, looks)
  | some path ↦ (checked (h.inspect looks path) message n, suc looks)
]

abbrev is_disturbed : DiscoveryIssue → Bool
is_disturbed i = elim i.code [ disappeared ↦ true | snapshot_changed ↦ true | _ ↦ false ]

-- The signature of a node, and its own name among those that it is used by.
unfoldable pub read_signature : Host → ResolvedBlockNode → ℕ → ResolvedBlockNode × ℕ
read_signature h n looks =
    let source = h.signature looks n.observation in
    let (evidence, issues) = parse_signature source n.observation.kernel_name n.issues in
    (
      record n {
        signature = evidence;
        issues = issues;
        current_path = if any_of is_disturbed source.issues then none else n.current_path;
        usage_nodes = n.usage_nodes ++ (n.observation.kernel_name ∷ []);
      },
      suc looks,
    )

-- The first loop over the nodes.
unfoldable pub confirm_nodes : Host → List ResolvedBlockNode → ℕ → List ResolvedBlockNode × ℕ
unfolding check_path read_signature
confirm_nodes h [] looks = ([], looks)
confirm_nodes h (n ∷ ns) looks =
    let (a, l) =
      check_path h (bytes "Current path no longer names the observed block device number") n
        looks in
    let (b, l') = read_signature h a l in let (bs, l'') = confirm_nodes h ns l' in (b ∷ bs, l'')

-- The last loop that looks at paths.
unfoldable pub recheck_nodes : Host → List ResolvedBlockNode → ℕ → List ResolvedBlockNode × ℕ
unfolding check_path
recheck_nodes h [] looks = ([], looks)
recheck_nodes h (n ∷ ns) looks =
    let (a, l) =
      check_path h (bytes "Device path changed or disappeared during host usage acquisition") n
        looks in
    let (as', l') = recheck_nodes h ns l in (a ∷ as', l')

-- `value == text`, for an optional value.
abbrev pub holds : Option Text → Text → Bool
holds none text = false
holds (some t) text = text_eq t text

abbrev pub is_reported : SignatureState → Bool
is_reported reported = true
is_reported _ = false

-- A signature that disagrees with what uses the device.
abbrev pub disagrees : Text → ResolvedBlockNode → ResolvedBlockNode
disagrees message n =
    note (issue conflict n.observation.kernel_name (bytes "signature") message)
      (record n { signature = record n.signature { state = conflicting } })
