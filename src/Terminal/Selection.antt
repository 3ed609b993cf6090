-- ===== src/Terminal/Selection.antt =====
-- The selection of ui/production_read_model.cpp.
-- Whether a snapshot is the object that is held already is an argument of `refresh`.
pub mod Kept
use drive_lab.Prelude.{
  ℕ, zero, suc, Bool, true, false, not, ◌&&◌, ◌||◌, Option, none, some, List, [], ◌∷◌, ◌==◌, Text,
  bytes, text_eq, length, leb, is_empty, if◌then◌else◌,
}
use drive_lab.Result.{Result, ok, err, Error}
use drive_lab.Drive.{DriveId, DriveStatus, unknown}
use drive_lab.Inventory.{
  PhysicalDeviceKind, optical, floppy, unknown_physical, BlockDeviceObservation, ResolutionState,
  resolved, IdentityScope, whole_device, nvme_namespace, ResolvedIdentity,
  ResolvedInventorySnapshot,
}
use drive_lab.Ownership.{OwnershipReason, OwnershipAssessment}
use drive_lab.Production.{ProductionDrive, ProductionScanPhase, ProductionSnapshot}

pub record ProductionReadModel : Type 0 where
  pub snapshot : ProductionSnapshot
  pub selection_anchor : Option ProductionDrive
  pub selected_index : Option ℕ
  pub selection_notice : Text

abbrev same_kind : PhysicalDeviceKind → PhysicalDeviceKind → Bool
same_kind PhysicalDeviceKind.disk PhysicalDeviceKind.disk = true
same_kind optical optical = true
same_kind floppy floppy = true
same_kind unknown_physical unknown_physical = true
same_kind _ _ = false

abbrev same_scope : IdentityScope → IdentityScope → Bool
same_scope whole_device whole_device = true
same_scope nvme_namespace nvme_namespace = true
same_scope _ _ = false

abbrev is_resolved : ResolutionState → Bool
is_resolved resolved = true
is_resolved _ = false

abbrev same_optional {ℓ} : {A : Type ℓ} → (A → A → Bool) → Option A → Option A → Bool
same_optional eq none none = true
same_optional eq none (some b) = false
same_optional eq (some a) none = false
same_optional eq (some a) (some b) = eq a b

abbrev same_drive_id : Option DriveId → Option DriveId → Bool
same_drive_id (some a) (some b) = text_eq a.value b.value
same_drive_id _ _ = false

-- `sameSelection`.
unfoldable pub same_selection : ProductionDrive → ProductionDrive → Bool
same_selection before after =
    let o = before.observation in
    let p = after.observation in
    is_resolved before.identity.state
    && (is_resolved after.identity.state
        && (same_drive_id before.identity.id after.identity.id
            && (same_scope before.identity.scope after.identity.scope
                && (same_kind o.physical_kind p.physical_kind
                    && (same_optional text_eq o.serial p.serial
                        && (same_optional text_eq o.model p.model
                            && (same_optional (λ a b. a == b) o.capacity_bytes p.capacity_bytes
                                && (same_optional text_eq o.wwn p.wwn
                                    && (same_optional text_eq o.nvme_eui p.nvme_eui
                                        && same_optional text_eq o.nvme_nguid p.nvme_nguid)))))))))

unfoldable pub drive_at : ℕ → List ProductionDrive → Option ProductionDrive
drive_at i [] = none
drive_at zero (d ∷ ds) = some d
drive_at (suc i) (d ∷ ds) = drive_at i ds

-- `selected`.
unfoldable pub selected_drive : ProductionReadModel → Option ProductionDrive
unfolding drive_at
selected_drive m = elim m.selected_index [ none ↦ none | some i ↦ drive_at i m.snapshot.drives ]

-- The places of the drives that are the selected one.
unfoldable pub places : ℕ → ProductionDrive → List ProductionDrive → List ℕ
unfolding same_selection
places i before [] = []
places i before (d ∷ ds) =
    let rest = places (suc i) before ds in if same_selection before d then i ∷ rest else rest

abbrev pub only_place : List ℕ → Option ℕ
only_place (i ∷ []) = some i
only_place _ = none

-- What is kept of a drive that was selected.
abbrev pub anchored : ProductionDrive → ProductionDrive
anchored d = record d { status = unknown; reasons = []; proof_pending = false }

abbrev pub anchor_of : ProductionReadModel → Option ProductionDrive
anchor_of m = elim (selected_drive m) [ none ↦ m.selection_anchor | some d ↦ some (anchored d) ]

unfoldable pub renewed : ProductionSnapshot → ProductionReadModel → ProductionReadModel
renewed s m =
    if s.generation == m.snapshot.generation
    then m
    else record m { selection_anchor = anchor_of m; selected_index = none }

abbrev is_inventory : ProductionScanPhase → Bool
is_inventory ProductionScanPhase.inventory = true
is_inventory _ = false

abbrev is_known {ℓ} : {A : Type ℓ} → Option A → Bool
is_known none = false
is_known (some a) = true

abbrev lost : Text
lost = bytes "Selection cleared: drive disappeared, identity changed, or scan failed."

unfoldable pub retained : ProductionSnapshot → ProductionDrive → Option ℕ
unfolding places
retained s before = if is_known s.scan_error then none else only_place (places 0 before s.drives)

unfoldable pub reselected : ProductionSnapshot → ProductionReadModel → ProductionReadModel
unfolding retained
reselected s m = elim m.selection_anchor [
  | none ↦ m
  | some before ↦ if is_inventory s.phase then m else record m {
    selection_notice = if is_known (retained s before) then m.selection_notice else lost;
    selected_index = retained s before;
    selection_anchor = none;
  }
]

unfoldable pub cleared_on_error : ProductionSnapshot → ProductionReadModel → ProductionReadModel
cleared_on_error s m =
    if is_known s.scan_error
    then record m {
      selection_notice =
          if is_known m.selected_index
          then bytes "Selection cleared: scan failed."
          else m.selection_notice;
      selected_index = none;
      selection_anchor = none;
    }
    else m

-- `refresh`; the snapshot that stands for none is an argument as well.
unfoldable pub refresh :
    ProductionSnapshot
    → Bool
    → Result ProductionSnapshot
    → ProductionReadModel
    → ProductionReadModel × Result (Unit {0})
unfolding renewed reselected cleared_on_error
refresh empty same (err e) m = (
  record {
    snapshot = empty;
    selection_anchor = none;
    selected_index = none;
    selection_notice = bytes "Selection cleared: production snapshot unavailable.";
  },
  err e,
)
refresh empty same (ok s) m =
    if same
    then (m, ok tt)
    else (record (cleared_on_error s (reselected s (renewed s m))) { snapshot = s }, ok tt)

unfoldable pub select : ℕ → ProductionReadModel → ProductionReadModel × Bool
select index m =
    if leb (length m.snapshot.drives) index || is_known m.snapshot.scan_error then (m, false) else (
      record m { selected_index = some index; selection_anchor = none; selection_notice = [] },
      true,
    )
