-- ===== src/Tests/Selections.antt =====
-- A drive that stays selected when it moves in the list.
use drive_lab.Prelude.{ℕ, ◌+◌, ◌≡◌, refl, true, false, none, some, List, [], ◌∷◌, bytes, count_if}
use drive_lab.Drive.{DriveId, ready}
use drive_lab.Inventory.{whole_device, resolved}
use drive_lab.Terminal.Selection.{
  ProductionReadModel, same_selection, selected_drive, anchor_of, refresh, select,
}
use drive_lab.Production.{ProductionDrive, ProductionSnapshot, complete}
use drive_lab.Terminal.Selection.Kept.{refresh-Kept}
use drive_lab.Tests.OneDisk.{sda, host}

abbrev drive_with : DriveId → ProductionDrive
drive_with id = record {
  observation = sda;
  identity = record {
    state = resolved;
    scope = whole_device;
    id = some id;
    strong_aliases = [];
    fallback_fingerprint = none;
  };
  current_path = none;
  status = ready;
  reasons = [];
  proof_pending = false;
}

abbrev first_drive : ProductionDrive
first_drive = drive_with (record { value = 65 ∷ [] })

abbrev second_drive : ProductionDrive
second_drive = drive_with (record { value = 66 ∷ [] })

abbrev snapshot_with : ℕ → List ProductionDrive → ProductionSnapshot
snapshot_with generation drives = record {
  phase = complete;
  generation = generation;
  acquired_at = 0;
  drives = drives;
  inventory = host;
  ownership = record {
    coverage_gaps = [];
    fresh_signatures = [];
    namespace_mounts = [];
    nodes = [];
    edges = [];
    claims = [];
    traces = [];
    physical_devices = [];
    issues = [];
    coverage = [];
  };
  scan_error = none;
}

abbrev model_before : ProductionReadModel
model_before = record {
  snapshot = snapshot_with 1 (first_drive ∷ []);
  selection_anchor = none;
  selected_index = some 0;
  selection_notice = [];
}

abbrev moved : ProductionSnapshot
moved = snapshot_with 2 (second_drive ∷ first_drive ∷ [])

refresh-Kept_example :
    (a : ProductionDrive) × (anchor_of model_before ≡ some a)
    × (same_selection a first_drive ≡ true)
    × (count_if (same_selection a) moved.drives ≡ 1)
refresh-Kept_example =
    refresh-Kept moved moved model_before first_drive refl
      (unfold refresh selected_drive same_selection drive_lab.Prelude.text_eq bytes in refl)

no_such_drive : (select 1 model_before).1 ≡ false
unfolding select
no_such_drive = refl
