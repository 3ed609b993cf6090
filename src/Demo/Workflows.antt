-- ===== src/Demo/Workflows.antt =====
-- `runWorkflow` of app/demo_session.cpp.
use drive_lab.Prelude.{ℕ, Bool, ◌&&◌, none, some, ◌++◌, pos, Text, bytes, find_if, if◌then◌else◌}
use drive_lab.Result.{
  Result, ok, err, Error, invalid_argument, safety_blocked, unavailable, internal,
}
use drive_lab.Drive.{Drive, is_protected}
use drive_lab.Operation.{OperationRequest}
use drive_lab.Providers.{
  short, extended, conveyance, raw_data, security, hpa, dco, quick_read, hdd_characterization,
  random4k_qd1, random4k_qd32, latency, secure_erase, enhanced_secure_erase, overwrite,
  overwrite_ones, overwrite_random, Planners,
}
use drive_lab.Jobs.{JobManager, JobRecord, is_running, find_job}
use drive_lab.Jobs.Manager.{submit, update_progress}
use drive_lab.Demo.{
  DemoFeature, smart, ata_hpa, benchmark, sanitize, DemoWorkflowId, smart_short_test,
  smart_extended_test, smart_conveyance_test, smart_raw_data, ata_security_state, ata_hpa_inspect,
  ata_dco_inspect, ata_secure_erase, ata_enhanced_secure_erase, benchmark_quick_sequential,
  benchmark_hdd_zone_characterization, benchmark_random4k_qd1, benchmark_random4k_qd32,
  benchmark_latency, sanitize_ata_enhanced_secure_erase, sanitize_ata_secure_erase,
  sanitize_nwipe_zero_fill, sanitize_nwipe_one_fill, sanitize_nwipe_random_fill, inspection,
  simulated_job, DemoWorkflowDefinition, DemoDriveDetails, DemoFeatureProgress, DemoWorkflowCommand,
  inspection_completed, job_submitted, DemoWorkflowResult, same_workflow,
}
use drive_lab.Demo.Catalog.{find_demo_workflow}
use drive_lab.Demo.State.{DemoWorld, DemoState, add_event, find_drive}
use drive_lab.Demo.Session.{session_error, no_such_drive, workflows}

unfoldable pub plan_workflow : Planners → Drive → DemoWorkflowId → Result OperationRequest
plan_workflow p drive smart_short_test = p.health drive short
plan_workflow p drive smart_extended_test = p.health drive extended
plan_workflow p drive smart_conveyance_test = p.health drive conveyance
plan_workflow p drive smart_raw_data = p.health drive raw_data
plan_workflow p drive ata_security_state = p.ata drive security
plan_workflow p drive ata_hpa_inspect = p.ata drive hpa
plan_workflow p drive ata_dco_inspect = p.ata drive dco
plan_workflow p drive ata_secure_erase = p.sanitize drive secure_erase
plan_workflow p drive sanitize_ata_secure_erase = p.sanitize drive secure_erase
plan_workflow p drive ata_enhanced_secure_erase = p.sanitize drive enhanced_secure_erase
plan_workflow p drive sanitize_ata_enhanced_secure_erase = p.sanitize drive enhanced_secure_erase
plan_workflow p drive benchmark_quick_sequential = p.benchmark drive quick_read
plan_workflow p drive benchmark_hdd_zone_characterization = p.benchmark drive hdd_characterization
plan_workflow p drive benchmark_random4k_qd1 = p.benchmark drive random4k_qd1
plan_workflow p drive benchmark_random4k_qd32 = p.benchmark drive random4k_qd32
plan_workflow p drive benchmark_latency = p.benchmark drive latency
plan_workflow p drive sanitize_nwipe_zero_fill = p.sanitize drive overwrite
plan_workflow p drive sanitize_nwipe_one_fill = p.sanitize drive overwrite_ones
plan_workflow p drive sanitize_nwipe_random_fill = p.sanitize drive overwrite_random

-- The message of an inspection.
unfoldable pub inspection_message : DemoWorkflowId → Text → Text → Text
inspection_message smart_raw_data label path =
    bytes "Raw S.M.A.R.T demo opened for " ++ (path ++ bytes "; no command executed")
inspection_message ata_security_state label path =
    bytes "ATA Security inspection simulated for " ++ path
inspection_message ata_hpa_inspect label path = bytes "HPA inspection simulated for " ++ path
inspection_message ata_dco_inspect label path = bytes "DCO identify simulated for " ++ path
inspection_message _ label path = label ++ (bytes " inspection simulated for " ++ path)

-- The name that a job gets.
unfoldable pub job_name : DemoFeature → Text → Text
job_name smart label = bytes "S.M.A.R.T " ++ (label ++ bytes " demo")
job_name ata_hpa label = label ++ bytes " workflow demo"
job_name sanitize label = label ++ bytes " workflow demo"
job_name _ label = label ++ bytes " demo"

-- The first report of a job that runs already.
unfoldable pub report_started : ℕ → JobManager → JobManager × Result (Unit {0})
report_started id m = elim (find_job id m.jobs) [
  | none ↦ (m, ok tt)
  | some j ↦
      if is_running j.state then update_progress j.id (pos 0) (some (pos 25)) m else (m, ok tt)
]

abbrev tracked : DemoWorkflowCommand → Text → ℕ → JobRecord → DemoFeatureProgress
tracked command path id j = record {
  workflow = command.workflow;
  drive_id = command.drive_id;
  observed_path = path;
  state = j.state;
  progress_percent = pos 0;
  job_id = some id;
}

-- The job whose progress the session shows.
unfoldable pub track : DemoFeature → DemoFeatureProgress → DemoState → DemoState
track smart p s = record s { smart_progress = p }
track benchmark p s = record s { benchmark_progress = p }
track _ p s = s

-- The event of a job that is on record.
unfoldable pub announce :
    DemoWorld
    → DemoFeature
    → DemoWorkflowCommand
    → Text
    → ℕ
    → JobRecord
    → DemoState
    → DemoState × Result DemoWorkflowResult
announce w feature command path id j s =
    let message =
      j.operation.name ++ (bytes " created for " ++ (path ++ bytes " (simulation only)")) in
    (
      track feature (tracked command path id j) (add_event w message s),
      ok (record { outcome = job_submitted; job_id = some id; event_message = message }),
    )

-- A null pointer would be dereferenced here; the model answers with an error of its own.
abbrev pub lost_job : Error
lost_job = session_error internal (bytes "null")

-- The rest of `runWorkflow`, for a job that is submitted.
unfoldable pub submitted :
    DemoWorld
    → DemoFeature
    → DemoWorkflowCommand
    → Text
    → ℕ
    → DemoState
    → DemoState × Result DemoWorkflowResult
unfolding report_started announce
submitted w feature command path id s =
    let (m, r) = report_started id s.jobs in
    let s' = record s { jobs = m } in
    elim r [
      | err e ↦ (s', err e)
      | ok _ ↦ elim (find_job id m.jobs) [
        | none ↦ (s', err lost_job)
        | some j ↦ announce w feature command path id j s'
      ]
    ]

-- The rest of `runWorkflow`, for an operation that is planned.
unfoldable pub planned_workflow :
    DemoWorld
    → DemoWorkflowDefinition
    → DemoWorkflowCommand
    → Text
    → OperationRequest
    → DemoState
    → DemoState × Result DemoWorkflowResult
unfolding submitted
planned_workflow w definition command path op s = elim definition.behavior [
  | inspection ↦
      let message = inspection_message command.workflow definition.label path in
      (
        add_event w message s,
        ok (record { outcome = inspection_completed; job_id = none; event_message = message }),
      )
  | simulated_job ↦
      let (m, r) =
        submit w.jobs (record op { name = job_name definition.feature definition.label }) s.jobs in
      let s' = record s { jobs = m } in
      elim r [ err e ↦ (s', err e) | ok id ↦ submitted w definition.feature command path id s' ]
]

abbrev pub protected_drive : Error
protected_drive = session_error safety_blocked (bytes "Protected drives expose status only")

abbrev pub unknown_workflow : Error
unknown_workflow = session_error invalid_argument (bytes "Unknown demo workflow")

abbrev pub not_offered : Error
not_offered =
    session_error unavailable (bytes "The selected workflow is unavailable for this demo drive")

-- `workflow.id == command.workflow && workflow.supported`.
unfoldable pub supports : DemoWorkflowId → DemoWorkflowDefinition → Bool
supports id w = same_workflow w.id id && w.supported

-- The rest of `runWorkflow`, for a drive and a definition that are found.
unfoldable pub run_found :
    DemoWorld
    → DemoWorkflowCommand
    → DemoDriveDetails
    → DemoWorkflowDefinition
    → DemoState
    → DemoState × Result DemoWorkflowResult
unfolding planned_workflow supports
run_found w command d definition s = elim (workflows command.drive_id definition.feature s) [
  | err e ↦ (s, err e)
  | ok available ↦ elim (find_if (supports command.workflow) available) [
    | none ↦ (s, err not_offered)
    | some _ ↦ elim (plan_workflow w.planners d.drive command.workflow) [
      | err e ↦ (s, err e)
      | ok op ↦ planned_workflow w definition command d.drive.current_path op s
    ]
  ]
]

unfoldable pub run_workflow :
    DemoWorld → DemoWorkflowCommand → DemoState → DemoState × Result DemoWorkflowResult
unfolding run_found
run_workflow w command s = elim (find_drive command.drive_id s.drives) [
  | none ↦ (s, err no_such_drive)
  | some d ↦
      if is_protected d.drive
      then (s, err protected_drive)
      else elim (find_demo_workflow command.workflow) [
        | none ↦ (s, err unknown_workflow)
        | some definition ↦ run_found w command d definition s
      ]
]
