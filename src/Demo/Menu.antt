-- ===== src/Demo/Menu.antt =====
-- The catalogue of core/demo_model.cpp beside what the planners of providers/mock_providers.cpp plan.
use drive_lab.Prelude.{
  ◌≡◌, refl, Bool, true, false, not, ◌&&◌, none, some, find_if, if◌then◌else◌, Bool-cases, List, [],
  inl, inr, ◌⊎◌,
}
use drive_lab.Result.{ok}
use drive_lab.Drive.{Drive, DriveId, is_protected}
use drive_lab.Operation.{OperationRequest}
use drive_lab.Providers.Mock.{mock_planners, plan_health, plan_ata, plan_benchmark, plan_sanitize}
use drive_lab.Demo.{
  DemoWorkflowId, smart_short_test, smart_extended_test, smart_conveyance_test, smart_raw_data,
  ata_security_state, ata_hpa_inspect, ata_dco_inspect, ata_secure_erase, ata_enhanced_secure_erase,
  benchmark_quick_sequential, benchmark_hdd_zone_characterization, benchmark_random4k_qd1,
  benchmark_random4k_qd32, benchmark_latency, sanitize_ata_enhanced_secure_erase,
  sanitize_ata_secure_erase, sanitize_nwipe_zero_fill, sanitize_nwipe_one_fill,
  sanitize_nwipe_random_fill, DemoWorkflowDefinition, overview, same_workflow, same_feature,
  DemoFeature, DemoDriveDetails,
}
use drive_lab.Demo.Catalog.{demo_workflow_catalog, find_demo_workflow}
use drive_lab.Demo.Session.{available_workflow, offered, workflows, is_hdd}
use drive_lab.Demo.Workflows.{supports, plan_workflow}
use drive_lab.Demo.State.{DemoState, find_drive}

-- The only workflow that some drives do not offer, and the drives that do not.
abbrev pub withheld : Bool → DemoWorkflowId → Bool
withheld rotates id = same_workflow id smart_conveyance_test && not rotates

-- The catalogue's entry for a workflow, on a drive.
pub record Catalogued (drive : Drive) (id : DemoWorkflowId) : Type 0 where
  pub definition : DemoWorkflowDefinition
  pub found : find_demo_workflow id ≡ some definition
  pub named : definition.id ≡ id
  pub featured : same_feature definition.feature overview ≡ false
  pub operation : OperationRequest
  pub planned : plan_workflow mock_planners drive id ≡ ok operation
  pub same_kind : operation.kind ≡ definition.operation_kind
  pub same_class : operation.safety_class ≡ definition.safety_class
  pub same_target : operation.target ≡ drive
  pub offers :
      (rotates : Bool)
      → find_if (supports id) (offered rotates definition.feature demo_workflow_catalog)
        ≡ (if withheld rotates id then none else some definition)

-- A statement on both Booleans, from its two instances.
both : (P : Bool → Type 0) → P true → P false → (b : Bool) → P b
both P t f true = t
both P t f false = f

catalogued :
    {drive : Drive} {id : DemoWorkflowId} (d : DemoWorkflowDefinition) (op : OperationRequest)
    → find_demo_workflow id ≡ some d
    → d.id ≡ id
    → same_feature d.feature overview ≡ false
    → plan_workflow mock_planners drive id ≡ ok op
    → op.kind ≡ d.operation_kind
    → op.safety_class ≡ d.safety_class
    → op.target ≡ drive
    → find_if (supports id) (offered true d.feature demo_workflow_catalog)
      ≡ (if withheld true id then none else some d)
    → find_if (supports id) (offered false d.feature demo_workflow_catalog)
      ≡ (if withheld false id then none else some d)
    → Catalogued drive id
catalogued d op found named featured planned kind class target rotating other = record {
  definition = d;
  found = found;
  named = named;
  featured = featured;
  operation = op;
  planned = planned;
  same_kind = kind;
  same_class = class;
  same_target = target;
  offers = both _ rotating other;
}

-- Every workflow has its entry in the catalogue, whatever the drive.
pub demo_workflows-Catalogued : (drive : Drive) (id : DemoWorkflowId) → Catalogued drive id
unfolding find_demo_workflow find_if demo_workflow_catalog same_workflow offered supports
    same_feature available_workflow plan_workflow plan_health plan_ata plan_benchmark plan_sanitize
demo_workflows-Catalogued drive smart_short_test =
    catalogued _ _ refl refl refl refl refl refl refl refl refl
demo_workflows-Catalogued drive smart_extended_test =
    catalogued _ _ refl refl refl refl refl refl refl refl refl
demo_workflows-Catalogued drive smart_conveyance_test =
    catalogued _ _ refl refl refl refl refl refl refl refl refl
demo_workflows-Catalogued drive smart_raw_data =
    catalogued _ _ refl refl refl refl refl refl refl refl refl
demo_workflows-Catalogued drive ata_security_state =
    catalogued _ _ refl refl refl refl refl refl refl refl refl
demo_workflows-Catalogued drive ata_hpa_inspect =
    catalogued _ _ refl refl refl refl refl refl refl refl refl
demo_workflows-Catalogued drive ata_dco_inspect =
    catalogued _ _ refl refl refl refl refl refl refl refl refl
demo_workflows-Catalogued drive ata_secure_erase =
    catalogued _ _ refl refl refl refl refl refl refl refl refl
demo_workflows-Catalogued drive ata_enhanced_secure_erase =
    catalogued _ _ refl refl refl refl refl refl refl refl refl
demo_workflows-Catalogued drive benchmark_quick_sequential =
    catalogued _ _ refl refl refl refl refl refl refl refl refl
demo_workflows-Catalogued drive benchmark_hdd_zone_characterization =
    catalogued _ _ refl refl refl refl refl refl refl refl refl
demo_workflows-Catalogued drive benchmark_random4k_qd1 =
    catalogued _ _ refl refl refl refl refl refl refl refl refl
demo_workflows-Catalogued drive benchmark_random4k_qd32 =
    catalogued _ _ refl refl refl refl refl refl refl refl refl
demo_workflows-Catalogued drive benchmark_latency =
    catalogued _ _ refl refl refl refl refl refl refl refl refl
demo_workflows-Catalogued drive sanitize_ata_enhanced_secure_erase =
    catalogued _ _ refl refl refl refl refl refl refl refl refl
demo_workflows-Catalogued drive sanitize_ata_secure_erase =
    catalogued _ _ refl refl refl refl refl refl refl refl refl
demo_workflows-Catalogued drive sanitize_nwipe_zero_fill =
    catalogued _ _ refl refl refl refl refl refl refl refl refl
demo_workflows-Catalogued drive sanitize_nwipe_one_fill =
    catalogued _ _ refl refl refl refl refl refl refl refl refl
demo_workflows-Catalogued drive sanitize_nwipe_random_fill =
    catalogued _ _ refl refl refl refl refl refl refl refl refl

pub workflows-ok :
    (id : DriveId) (feature : DemoFeature) (s : DemoState) (d : DemoDriveDetails)
    → find_drive id s.drives ≡ some d
    → is_protected d.drive ≡ false
    → same_feature feature overview ≡ false
    → workflows id feature s ≡ ok (offered (is_hdd d.drive.media) feature demo_workflow_catalog)
unfolding workflows
workflows-ok id feature s d f p o = rw (f, workflows, p, o) refl

-- What `workflows` answers about a workflow on a drive of the session: nothing for a protected drive,
-- and else the catalogue's entry among the supported ones, unless the drive withholds the workflow.
pub record Offering (s : DemoState) (drive_id : DriveId) (d : DemoDriveDetails)
    (id : DemoWorkflowId) : Type 0 where
  pub catalogued : Catalogued d.drive id
  pub offer : List DemoWorkflowDefinition
  pub answered : workflows drive_id catalogued.definition.feature s ≡ ok offer
  pub entry :
      ((is_protected d.drive ≡ true) × (offer ≡ []))
      ⊎ ((is_protected d.drive ≡ false)
          × (find_if (supports id) offer
              ≡ (if withheld (is_hdd d.drive.media) id then none else some catalogued.definition)))

-- On a drive that the session finds, every workflow is in the catalogue under its own id, and not as
-- a feature overview. The mock planners plan for it an operation of the kind and the safety class
-- that the catalogue shows, on that drive. Asked for the workflow's feature, the session offers
-- nothing for a protected drive; for any other it offers the workflow as supported and as it is
-- catalogued, but for the conveyance test on a drive that is no hard disk, which it does not offer as
-- supported.
pub workflows-Offering :
    (s : DemoState) (drive_id : DriveId) (d : DemoDriveDetails)
    → find_drive drive_id s.drives ≡ some d
    → (id : DemoWorkflowId) → Offering s drive_id d id
unfolding workflows
workflows-Offering s drive_id d found id =
    let k : Catalogued d.drive id = demo_workflows-Catalogued d.drive id in
    elim (Bool-cases (is_protected d.drive)) [
      | inl p ↦ record {
        catalogued = k;
        offer = [];
        answered = rw (found, workflows, p) refl;
        entry = inl (p, refl);
      }
      | inr p ↦ record {
        catalogued = k;
        offer = offered (is_hdd d.drive.media) k.definition.feature demo_workflow_catalog;
        answered = workflows-ok drive_id k.definition.feature s d found p k.featured;
        entry = inr (p, k.offers (is_hdd d.drive.media));
      }
    ]
