-- ===== src/Demo.antt =====
-- core/demo_model.h and the names of core/demo_model.cpp: what a demo session shows.
pub mod Catalog
pub mod State
pub mod Session
pub mod Clock
pub mod Ticks
pub mod Calls
pub mod Runs
pub mod Menu
pub mod Running
pub mod Workflows
pub mod Recorded
use drive_lab.Prelude.{ℕ, Bool, true, false, Option, List, ◌==◌, ℤ, Text, bytes, if◌then◌else◌}
use drive_lab.Drive.{Drive, DriveId}
use drive_lab.Operation.{OperationKind, SafetyClass}
use drive_lab.Safety.{erases}
use drive_lab.Jobs.{JobState, JobRecord}

pub data DemoFeature : Type 0 where
  overview smart ata_hpa benchmark sanitize : DemoFeature

pub data DemoWorkflowId : Type 0 where
  smart_short_test smart_extended_test smart_conveyance_test smart_raw_data : DemoWorkflowId
  ata_security_state ata_hpa_inspect ata_dco_inspect ata_secure_erase ata_enhanced_secure_erase :
      DemoWorkflowId
  benchmark_quick_sequential benchmark_hdd_zone_characterization benchmark_random4k_qd1
        benchmark_random4k_qd32 benchmark_latency :
      DemoWorkflowId
  sanitize_ata_enhanced_secure_erase sanitize_ata_secure_erase sanitize_nwipe_zero_fill
        sanitize_nwipe_one_fill sanitize_nwipe_random_fill :
      DemoWorkflowId

pub data DemoWorkflowBehavior : Type 0 where
  inspection simulated_job : DemoWorkflowBehavior

pub record DemoContextualHelp : Type 0 where
  pub what : Text
  pub future_provider : Text
  pub typical_use : Text
  pub risk_or_limit : Text

-- A duration is a number of minutes.
pub record DemoWorkflowDefinition : Type 0 where
  pub id : DemoWorkflowId
  pub feature : DemoFeature
  pub label : Text
  pub operation_kind : OperationKind
  pub safety_class : SafetyClass
  pub behavior : DemoWorkflowBehavior
  pub help : DemoContextualHelp
  pub estimated_duration : Option ℕ
  pub recommended : Bool
  pub supported : Bool

pub record DemoSmartData : Type 0 where
  pub health_summary : Text
  pub temperature_celsius : Option ℤ
  pub power_on_hours : ℕ
  pub reallocated : ℕ
  pub pending : ℕ
  pub offline_uncorrectable : ℕ

pub record DemoAtaData : Type 0 where
  pub ata_security_state : Text
  pub hpa_state : Text
  pub security_state : Text
  pub hpa_current_capacity_bytes : Option ℕ
  pub hpa_native_capacity_bytes : Option ℕ
  pub dco_status : Text
  pub secure_erase_supported : Bool
  pub enhanced_secure_erase_supported : Bool
  pub secure_erase_duration : Option ℕ
  pub enhanced_secure_erase_duration : Option ℕ

pub record DemoBenchmarkResult : Type 0 where
  pub workflow : DemoWorkflowId
  pub result : Text

pub record DemoDriveDetails : Type 0 where
  pub drive : Drive
  pub display_capacity : Text
  pub transport : Text
  pub smart : DemoSmartData
  pub ata : DemoAtaData
  pub benchmark_results : List DemoBenchmarkResult

pub record DemoFeatureProgress : Type 0 where
  pub workflow : DemoWorkflowId
  pub drive_id : DriveId
  pub observed_path : Text
  pub state : JobState
  pub progress_percent : ℤ
  pub job_id : Option ℕ

pub record DemoEvent : Type 0 where
  pub timestamp : ℕ
  pub message : Text

pub record DemoSnapshot : Type 0 where
  pub drives : List DemoDriveDetails
  pub events : List DemoEvent
  pub jobs : List JobRecord
  pub smart_progress : DemoFeatureProgress
  pub benchmark_progress : DemoFeatureProgress

pub record DemoWorkflowCommand : Type 0 where
  pub drive_id : DriveId
  pub workflow : DemoWorkflowId

pub data DemoWorkflowOutcome : Type 0 where
  inspection_completed job_submitted : DemoWorkflowOutcome

pub record DemoWorkflowResult : Type 0 where
  pub outcome : DemoWorkflowOutcome
  pub job_id : Option ℕ
  pub event_message : Text

-- The enumerators' numbers, which `==` compares.
abbrev pub workflow_number : DemoWorkflowId → ℕ
workflow_number smart_short_test = 0
workflow_number smart_extended_test = 1
workflow_number smart_conveyance_test = 2
workflow_number smart_raw_data = 3
workflow_number ata_security_state = 4
workflow_number ata_hpa_inspect = 5
workflow_number ata_dco_inspect = 6
workflow_number ata_secure_erase = 7
workflow_number ata_enhanced_secure_erase = 8
workflow_number benchmark_quick_sequential = 9
workflow_number benchmark_hdd_zone_characterization = 10
workflow_number benchmark_random4k_qd1 = 11
workflow_number benchmark_random4k_qd32 = 12
workflow_number benchmark_latency = 13
workflow_number sanitize_ata_enhanced_secure_erase = 14
workflow_number sanitize_ata_secure_erase = 15
workflow_number sanitize_nwipe_zero_fill = 16
workflow_number sanitize_nwipe_one_fill = 17
workflow_number sanitize_nwipe_random_fill = 18

abbrev pub feature_number : DemoFeature → ℕ
feature_number overview = 0
feature_number smart = 1
feature_number ata_hpa = 2
feature_number benchmark = 3
feature_number sanitize = 4

unfoldable pub same_workflow : DemoWorkflowId → DemoWorkflowId → Bool
same_workflow a b = workflow_number a == workflow_number b

unfoldable pub same_feature : DemoFeature → DemoFeature → Bool
same_feature a b = feature_number a == feature_number b

unfoldable pub demo_feature_name : DemoFeature → Text
demo_feature_name overview = bytes "Overview"
demo_feature_name smart = bytes "S.M.A.R.T"
demo_feature_name ata_hpa = bytes "ATA / HPA"
demo_feature_name benchmark = bytes "Benchmark"
demo_feature_name sanitize = bytes "Sanitize"

unfoldable pub demo_workflow_safety_label : DemoWorkflowDefinition → Text
demo_workflow_safety_label workflow =
    if erases workflow.safety_class then bytes "DESTRUCTIVE" else bytes "READ-ONLY"
