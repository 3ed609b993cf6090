-- ===== src/Production.antt =====
-- app/production_snapshot.h, and what app/production_application.cpp computes from one scan.
pub mod Worker
pub mod Control
pub mod Ready
pub mod Orderly
pub mod Ends
pub mod Generations
use drive_lab.Prelude.{
  ℕ, Bool, true, false, Option, none, some, List, [], ◌∷◌, ◌&&◌, not, Text, text_eq, map, find_if,
  any_of, if◌then◌else◌,
}
use drive_lab.Result.{Error}
use drive_lab.Drive.{DriveStatus, unknown}
use drive_lab.Inventory.{
  BlockNodeType, BlockObservationKind, virtual_or_pseudo, PhysicalDeviceKind,
  BlockDeviceObservation, ResolvedIdentity, ResolvedBlockNode, ResolvedInventorySnapshot,
}
use drive_lab.Ownership.{
  OwnershipReason, OwnershipAssessment, ClassifiedStorage, block_ownership_key,
}
use drive_lab.Ownership.Classify.{is_disk_kind}

pub record ProductionDrive : Type 0 where
  pub observation : BlockDeviceObservation
  pub identity : ResolvedIdentity
  pub current_path : Option Text
  pub status : DriveStatus
  pub reasons : List OwnershipReason
  pub proof_pending : Bool

pub data ProductionScanPhase : Type 0 where
  idle inventory ownership complete failed : ProductionScanPhase

pub record ProductionSnapshot : Type 0 where
  pub phase : ProductionScanPhase
  pub generation : ℕ
  pub acquired_at : ℕ
  pub drives : List ProductionDrive
  pub inventory : ResolvedInventorySnapshot
  pub ownership : OwnershipAssessment
  pub scan_error : Option Error

-- A snapshot as it is made, but for its generation.
abbrev pub empty_snapshot : ℕ → ProductionSnapshot
empty_snapshot generation = record {
  phase = idle;
  generation = generation;
  acquired_at = 0;
  drives = [];
  inventory = record {
    nodes = [];
    mounts = [];
    swaps = [];
    inventory_issues = [];
    issues = [];
    mountinfo_read_complete = false;
    swaps_read_complete = false;
  };
  ownership = record {
    coverage_gaps = [];
    fresh_signatures = [];
    namespace_mounts = [];
    nodes = [];
    edges = [];
    claims = [];
    traces = [];
    physical_devices = [];
    issues = [];
    coverage = [];
  };
  scan_error = none;
}

-- Whether `inventoryRows` passes over a node.
abbrev is_row : BlockDeviceObservation → Bool
is_row o =
    elim o.node_type [ BlockNodeType.disk ↦ true | _ ↦ false ]
    && elim o.observation_kind [ virtual_or_pseudo ↦ false | _ ↦ true ]

-- `inventoryRows`.
unfoldable pub inventory_rows : List ResolvedBlockNode → List ProductionDrive
inventory_rows [] = []
inventory_rows (n ∷ ns) =
    let rest = inventory_rows ns in
    if is_row n.observation
    then record {
      observation = n.observation;
      identity = n.identity;
      current_path = n.current_path;
      status = unknown;
      reasons = [];
      proof_pending = is_disk_kind n.observation.physical_kind;
    }
      ∷ rest
    else rest

abbrev pub row_key : ProductionDrive → Text
row_key row = block_ownership_key row.observation.kernel_name

abbrev pub has_disk : List ProductionDrive → Bool
has_disk rows = any_of (λ row. is_disk_kind row.observation.physical_kind) rows

-- The body of the loop over the rows.
unfoldable pub decided : List ClassifiedStorage → ProductionDrive → ProductionDrive
decided devices row = elim (find_if (λ d. text_eq d.node (row_key row)) devices) [
  | none ↦ record row { proof_pending = false }
  | some d ↦ record row { proof_pending = false; status = d.status; reasons = d.reasons }
]
