-- ===== src/Application/Commands.antt =====
-- What app/core_application.cpp passes on to its providers, its job manager and its demo session.
use drive_lab.Prelude.{ℕ, Bool, List, Text, bytes, ℤ, if◌then◌else◌}
use drive_lab.Result.{Result, ok, err, Error, unavailable}
use drive_lab.Mode.{ExecutionMode}
use drive_lab.Drive.{Drive, DriveId}
use drive_lab.Operation.{OperationRequest}
use drive_lab.Capability.{CapabilityStatus}
use drive_lab.Providers.{HealthTestType, AtaInspectionType, BenchmarkProfile, SanitizeMethod}
use drive_lab.Providers.Mock.{plan_health, plan_ata, plan_benchmark, plan_sanitize}
use drive_lab.Providers.Fixtures.{mock_scan}
use drive_lab.Jobs.{JobManager, World}
use drive_lab.Jobs.Manager.{submit, can_terminate}
use drive_lab.Demo.{
  DemoFeature, DemoSnapshot, DemoWorkflowCommand, DemoWorkflowDefinition, DemoWorkflowResult,
}
use drive_lab.Demo.State.{DemoWorld, DemoState}
use drive_lab.Demo.Session.{
  snapshot, available_features, workflows, scan_inventory, pause_job, resume_job, cancel_job,
  request_termination,
}
use drive_lab.Demo.Workflows.{run_workflow}
use drive_lab.Demo.Clock.{advance}
use drive_lab.Application.{Backend, alone, shared, CoreApplication, jobs_of, app_error, is_real}

pub record CoreSnapshot : Type 0 where
  pub mode : ExecutionMode
  pub drives : List Drive
  pub capabilities : List CapabilityStatus

abbrev pub use_production : Error
use_production =
    app_error unavailable
      (bytes "Use productionSnapshot for resolved production identity and classification")

unfoldable pub core_snapshot : CoreApplication → Result CoreSnapshot
core_snapshot app =
    if is_real app.config.mode then err use_production else elim (mock_scan app.inventory) [
      | err e ↦ err e
      | ok drives ↦
          ok (record { mode = app.config.mode; drives = drives; capabilities = app.capabilities })
    ]

-- Writes the manager that the application, and its session, work on.
abbrev pub with_jobs : JobManager → Backend → Backend
with_jobs m (alone _) = alone m
with_jobs m (shared s) = shared (record s { state = record s.state { jobs = m } })

-- What `submitHealth`, `submitAtaInspection`, `submitBenchmark` and `submitSanitize` share.
unfoldable pub submit_planned :
    World → Text → Result OperationRequest → CoreApplication → CoreApplication × Result ℕ
submit_planned w message operation app =
    if is_real app.config.mode then (app, err (app_error unavailable message)) else elim operation [
      | err e ↦ (app, err e)
      | ok op ↦
          let (m, r) = submit w op (jobs_of app.backend) in
          (record app { backend = with_jobs m app.backend }, r)
    ]

unfoldable pub submit_health :
    World → Drive → HealthTestType → CoreApplication → CoreApplication × Result ℕ
unfolding submit_planned
submit_health w drive test =
    submit_planned w (bytes "Health is not implemented in production") (plan_health drive test)

unfoldable pub submit_ata_inspection :
    World → Drive → AtaInspectionType → CoreApplication → CoreApplication × Result ℕ
unfolding submit_planned
submit_ata_inspection w drive inspection =
    submit_planned w (bytes "ATA inspection is not implemented in production")
      (plan_ata drive inspection)

unfoldable pub submit_benchmark :
    World → Drive → BenchmarkProfile → CoreApplication → CoreApplication × Result ℕ
unfolding submit_planned
submit_benchmark w drive profile =
    submit_planned w (bytes "Benchmarks is not implemented in production")
      (plan_benchmark drive profile)

unfoldable pub submit_sanitize :
    World → Drive → SanitizeMethod → CoreApplication → CoreApplication × Result ℕ
unfolding submit_planned
submit_sanitize w drive method =
    submit_planned w (bytes "Sanitization is not implemented in production")
      (plan_sanitize drive method)

abbrev pub demo_unavailable : Error
demo_unavailable =
    app_error unavailable (bytes "The complete demo state is available only from createDemo")

-- A question to the demo session, if there is one.
unfoldable pub ask_session {ℓ} : {A : Type ℓ} → (DemoState → Result A) → Backend → Result A
ask_session question (alone m) = err demo_unavailable
ask_session question (shared s) = question s.state

unfoldable pub demo_snapshot : CoreApplication → Result DemoSnapshot
unfolding ask_session
demo_snapshot app = ask_session (λ s. ok (snapshot s)) app.backend

unfoldable pub demo_features : DriveId → CoreApplication → Result (List DemoFeature)
unfolding ask_session
demo_features id app = ask_session (available_features id) app.backend

unfoldable pub demo_workflows :
    DriveId → DemoFeature → CoreApplication → Result (List DemoWorkflowDefinition)
unfolding ask_session
demo_workflows id feature app = ask_session (workflows id feature) app.backend

unfoldable pub can_terminate_demo : CoreApplication → Result Bool
unfolding ask_session
can_terminate_demo app = ask_session (λ s. ok (can_terminate s.jobs)) app.backend

-- An operation of the demo session, if there is one.
unfoldable pub tell_session {ℓ} :
    {A : Type ℓ} → (DemoState → DemoState × Result A) → Backend → Backend × Result A
tell_session act (alone m) = (alone m, err demo_unavailable)
tell_session act (shared s) = let (t, r) = act s.state in (shared (record s { state = t }), r)

abbrev on_session {ℓ} :
    {A : Type ℓ} → (DemoState → DemoState × Result A) → CoreApplication → CoreApplication × Result A
on_session act app = let (b, r) = tell_session act app.backend in (record app { backend = b }, r)

unfoldable pub scan_demo_inventory :
    DemoWorld → CoreApplication → CoreApplication × Result (Unit {0})
unfolding tell_session
scan_demo_inventory w = on_session (scan_inventory w)

unfoldable pub run_demo_workflow :
    DemoWorld → DemoWorkflowCommand → CoreApplication → CoreApplication × Result DemoWorkflowResult
unfolding tell_session
run_demo_workflow w command = on_session (run_workflow w command)

unfoldable pub pause_demo_job :
    DemoWorld → ℕ → CoreApplication → CoreApplication × Result (Unit {0})
unfolding tell_session
pause_demo_job w id = on_session (pause_job w id)

unfoldable pub resume_demo_job :
    DemoWorld → ℕ → CoreApplication → CoreApplication × Result (Unit {0})
unfolding tell_session
resume_demo_job w id = on_session (resume_job w id)

unfoldable pub cancel_demo_job :
    DemoWorld → ℕ → CoreApplication → CoreApplication × Result (Unit {0})
unfolding tell_session
cancel_demo_job w id = on_session (cancel_job w id)

unfoldable pub advance_session : DemoWorld → ℤ → Backend → Backend × Result (Unit {0})
advance_session w elapsed (alone m) = (alone m, err demo_unavailable)
advance_session w elapsed (shared s) = (shared (advance w elapsed s), ok tt)

unfoldable pub advance_demo : DemoWorld → ℤ → CoreApplication → CoreApplication × Result (Unit {0})
unfolding advance_session
advance_demo w elapsed app =
    let (b, r) = advance_session w elapsed app.backend in (record app { backend = b }, r)

unfoldable pub request_demo_termination :
    DemoWorld → CoreApplication → CoreApplication × Result Bool
unfolding tell_session
request_demo_termination w = on_session (λ s. let (t, b) = request_termination w s in (t, ok b))
