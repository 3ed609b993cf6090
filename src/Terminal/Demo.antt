-- ===== src/Terminal/Demo.antt =====
-- ui/demo_read_model.cpp: what the demo screen reads of an application. The application that the model
-- points to is an argument of the operations.
use drive_lab.Prelude.{ℕ, zero, suc, Option, none, some, List, [], ◌∷◌, bytes}
use drive_lab.Result.{Result, ok, err, Error, not_found}
use drive_lab.Drive.{DriveId, drive_id}
use drive_lab.Demo.{DemoDriveDetails, DemoFeature, DemoSnapshot, DemoWorkflowDefinition}
use drive_lab.Application.{CoreApplication}
use drive_lab.Application.Commands.{demo_snapshot, demo_features, demo_workflows}

-- The copy of the snapshot; it also is what `snapshot` returns.
pub record DemoReadModel : Type 0 where
  pub snapshot : DemoSnapshot

unfoldable load : CoreApplication → Result DemoReadModel
load app = elim (demo_snapshot app) [ err e ↦ err e | ok s ↦ ok (record { snapshot = s }) ]

unfoldable refresh_demo : CoreApplication → DemoReadModel → DemoReadModel × Result (Unit {0})
refresh_demo app m = elim (demo_snapshot app) [
  | err e ↦ (m, err e)
  | ok s ↦ (record { snapshot = s }, ok tt)
]

details_at : ℕ → List DemoDriveDetails → Option DemoDriveDetails
details_at i [] = none
details_at zero (d ∷ ds) = some d
details_at (suc i) (d ∷ ds) = details_at i ds

-- `drive`.
unfoldable demo_drive : DemoReadModel → ℕ → Option DemoDriveDetails
unfolding details_at
demo_drive m index = details_at index m.snapshot.drives

abbrev outside_snapshot : Error
outside_snapshot = record {
  code = not_found;
  component = bytes "DemoReadModel";
  message = bytes "Demo drive index is outside the Core snapshot";
}

-- `driveId`.
unfoldable demo_drive_id : DemoReadModel → ℕ → Result DriveId
unfolding demo_drive
demo_drive_id m index = elim (demo_drive m index) [
  | none ↦ err outside_snapshot
  | some d ↦ drive_id d.drive.identity
]

unfoldable features_at : CoreApplication → DemoReadModel → ℕ → Result (List DemoFeature)
unfolding demo_drive_id
features_at app m index = elim (demo_drive_id m index) [
  | err e ↦ err e
  | ok id ↦ demo_features id app
]

unfoldable workflows_at :
    CoreApplication → DemoReadModel → ℕ → DemoFeature → Result (List DemoWorkflowDefinition)
unfolding demo_drive_id
workflows_at app m index feature = elim (demo_drive_id m index) [
  | err e ↦ err e
  | ok id ↦ demo_workflows id feature app
]
