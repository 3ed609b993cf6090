-- ===== src/Application.antt =====
-- The demo and dry-run side of app/core_application.cpp: the application and its components.
pub mod Commands
pub mod Never
pub mod Cli
use drive_lab.Prelude.{
  ℕ, Bool, true, false, Option, none, some, List, [], ◌∷◌, ltb, Text, bytes, length, if◌then◌else◌,
}
use drive_lab.Result.{Result, ok, err, Error, ErrorCode, invalid_argument, unavailable}
use drive_lab.Mode.{ExecutionMode, real, demo, dry_run}
use drive_lab.Drive.{Drive}
use drive_lab.Capability.{
  CapabilityStatus, CapabilityAvailability, available, disabled_by_mode, not_implemented, inventory,
  health, ata_inspection, benchmark, latency, sanitize, process_execution, reporting, CapabilityId,
  set_status,
}
use drive_lab.Options.{AppConfig, validate}
use drive_lab.Process.{DisabledProcessRunner}
use drive_lab.Providers.Mock.{
  mock_planners, inventory_capability, health_capability, ata_capability, benchmark_capability,
  sanitize_capability,
}
use drive_lab.Providers.Fixtures.{fixture_drives, mock_scan, mock_resolve}
use drive_lab.Jobs.{JobManager, World}
use drive_lab.Jobs.Manager.{new_manager}
use drive_lab.Demo.State.{DemoWorld, DemoSession, create}

-- The job manager is the application's own, or the one that the demo session works on as well.
pub data Backend : Type 0 where
  alone : JobManager → Backend
  shared : DemoSession → Backend

pub record CoreApplication : Type 0 where
  pub config : AppConfig
  pub inventory : List Drive
  pub backend : Backend
  pub process_runner : DisabledProcessRunner
  pub capabilities : List CapabilityStatus

abbrev pub jobs_of : Backend → JobManager
jobs_of (alone m) = m
jobs_of (shared s) = s.jobs

abbrev pub app_error : ErrorCode → Text → Error
app_error code message = record {
  code = code;
  component = bytes "CoreApplication";
  message = message;
}

abbrev status : CapabilityId → CapabilityAvailability → Text → Text → CapabilityStatus
status id availability provider detail = record {
  id = id;
  availability = availability;
  provider = provider;
  detail = detail;
}

-- `capabilities_.set`, one after the other.
unfoldable pub set_all : List CapabilityStatus → List CapabilityStatus → List CapabilityStatus
set_all [] catalog = catalog
set_all (s ∷ ss) catalog = set_all ss (set_status s catalog)

abbrev unavailable_in_production : CapabilityId → CapabilityStatus
unavailable_in_production id =
    status id not_implemented (bytes "none") (bytes "Unavailable in discovery and safety mode")

abbrev production_statuses : List CapabilityStatus
production_statuses =
    status inventory available (bytes "production")
      (bytes "Read-only discovery and safety assessment")
    ∷ unavailable_in_production health
    ∷ unavailable_in_production ata_inspection
    ∷ unavailable_in_production benchmark
    ∷ unavailable_in_production sanitize
    ∷ unavailable_in_production latency
    ∷ unavailable_in_production reporting
    ∷ status process_execution disabled_by_mode (bytes "disabled")
        (bytes "Production discovery executes no external processes")
    ∷ []

abbrev latency_status : ExecutionMode → CapabilityStatus
latency_status demo =
    status latency available (bytes "mock") (bytes "Simulated latency profile; no device access")
latency_status _ =
    status latency not_implemented (bytes "none")
      (bytes "Latency provider is deferred to the performance milestone")

abbrev mock_statuses : ExecutionMode → List CapabilityStatus
mock_statuses mode =
    inventory_capability
    ∷ health_capability
    ∷ ata_capability
    ∷ benchmark_capability
    ∷ sanitize_capability
    ∷ latency_status mode
    ∷ status process_execution disabled_by_mode (bytes "guarded")
        (bytes "No external process can execute in demo or dry-run mode")
    ∷ status reporting disabled_by_mode (bytes "disabled")
        (bytes "Mock modes do not write report files")
    ∷ []

abbrev pub is_real : ExecutionMode → Bool
is_real real = true
is_real _ = false

abbrev pub is_demo : ExecutionMode → Bool
is_demo demo = true
is_demo _ = false

-- The constructor.
unfoldable pub new_application : AppConfig → CoreApplication
unfolding set_all
new_application config = record {
  config = config;
  inventory = if is_real config.mode then [] else fixture_drives;
  backend = alone (new_manager config.mode config.max_parallel_drives);
  process_runner = record { mode = config.mode; planned = [] };
  capabilities =
      set_all (if is_real config.mode then production_statuses else mock_statuses config.mode) [];
}

abbrev pub no_real_mock : Error
no_real_mock =
    app_error invalid_argument
      (bytes "Mock application factory only supports demo and dry-run modes")

unfoldable pub create_mock : AppConfig → Result CoreApplication
create_mock config = elim (validate config) [
  | err e ↦ err e
  | ok _ ↦ if is_real config.mode then err no_real_mock else ok (new_application config)
]

abbrev pub demo_only : Error
demo_only =
    app_error invalid_argument (bytes "The demo application factory requires demo execution mode")

-- What a session of the application asks: its own inventory, with any clocks.
abbrev pub world_of : (ℕ → ℕ) → (ℕ → ℕ) → List Drive → DemoWorld
world_of manager_clock session_clock drives = record {
  jobs = record { now = manager_clock; resolve = λ n identity. mock_resolve drives identity };
  scan = λ n. mock_scan drives;
  now = session_clock;
  planners = mock_planners;
}

-- Enough parallel drives for all fixtures.
unfoldable pub widened : AppConfig → AppConfig
widened config = record config {
  max_parallel_drives =
      if ltb config.max_parallel_drives (length fixture_drives)
      then length fixture_drives
      else config.max_parallel_drives;
}

unfoldable pub create_demo : (ℕ → ℕ) → (ℕ → ℕ) → AppConfig → Result CoreApplication
unfolding widened
create_demo manager_clock session_clock config =
    if is_demo config.mode
    then elim (validate config) [
      | err e ↦ err e
      | ok _ ↦
          let app = new_application (widened config) in
          elim (create (world_of manager_clock session_clock app.inventory) (jobs_of app.backend)) [
            | err e ↦ err e
            | ok s ↦ ok (record app { backend = shared s })
          ]
    ]
    else err demo_only
