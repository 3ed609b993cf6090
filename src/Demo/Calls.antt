-- ===== src/Demo/Calls.antt =====
-- The operations of app/demo_session.cpp as one step, and what they keep true.
pub mod Ticking
pub mod Asking
use drive_lab.Prelude.{
  ℕ, zero, suc, ◌+◌, ◌-◌, ◌≡◌, refl, sym, ◌&&◌, Bool, true, false, inl, inr, Option, none, some,
  List, [], ◌∷◌, leb, ℤ, pos, Text, bytes, find_if, if◌then◌else◌, arith, Bool-cases, Option-cases,
}
use drive_lab.Result.{Result, ok, err, Result-cases}
use drive_lab.Drive.{is_protected}
use drive_lab.Operation.{OperationRequest}
use drive_lab.Jobs.{JobManager, JobRecord, find_job, is_running, is_queued}
use drive_lab.Jobs.Manager.{
  submit, update_progress, complete, mark_failed, pause, resume, cancel, can_terminate,
}
use drive_lab.Jobs.Runs.{
  Call, submits, reports, completes, pauses, resumes, cancels, fails, step, is_submission,
}
use drive_lab.Demo.{
  DemoFeature, overview, smart, ata_hpa, benchmark, sanitize, DemoWorkflowBehavior, inspection,
  simulated_job, DemoFeatureProgress, DemoWorkflowCommand, DemoWorkflowDefinition, DemoDriveDetails,
}
use drive_lab.Demo.Catalog.{find_demo_workflow}
use drive_lab.Demo.State.{
  DemoWorld, DemoState, DemoSession, add_event, find_drive, sync_tracked_progress,
}
use drive_lab.Demo.Session.{
  scan_inventory, refresh, workflows, control_job, pause_job, resume_job, announce_started,
  queued_ids, announce_waiting, announce_queued, cancel_job, request_termination,
}
use drive_lab.Demo.Workflows.{
  supports, plan_workflow, report_started, track, announce, submitted, planned_workflow, run_found,
  run_workflow, job_name,
}
use drive_lab.Demo.Clock.{
  with_event, tick_failing, tick_complete, tick_report, tick_running, tick_job, tick_jobs,
  was_queued, announce_one, announce_all, running_ids, tick_once, tick_loop, advance, fails_at,
  is_100, next_progress, eta_for_progress, simulated_failure, demo_tick, is_positive, magnitude,
}

-- What a user asks of a session.
pub data SessionCall : Type 0 where
  scans : SessionCall
  runs : DemoWorkflowCommand → SessionCall
  pauses_job resumes_job cancels_job : ℕ → SessionCall
  asks_to_end : SessionCall
  waits : ℤ → SessionCall

unfoldable pub session_step : DemoWorld → DemoSession → SessionCall → DemoSession
session_step w s scans = record s { state = (scan_inventory w s.state).0 }
session_step w s (runs command) = record s { state = (run_workflow w command s.state).0 }
session_step w s (pauses_job id) = record s { state = (pause_job w id s.state).0 }
session_step w s (resumes_job id) = record s { state = (resume_job w id s.state).0 }
session_step w s (cancels_job id) = record s { state = (cancel_job w id s.state).0 }
session_step w s asks_to_end = record s { state = (request_termination w s.state).0 }
session_step w s (waits elapsed) = advance w elapsed s

-- What the session does to its state, apart from submitting: it calls its manager, notes an event,
-- and writes the fields that belong to neither.
pub record Closed {ℓ} (w : DemoWorld) (P : DemoState → Type ℓ) : Type ℓ where
  pub keep :
      (s : DemoState) (c : Call)
      → is_submission c ≡ false
      → P s
      → P (record s { jobs = step w.jobs s.jobs c })
  pub note : (message : Text) (s : DemoState) → P s → P (add_event w message s)
  pub rest :
      (s : DemoState) (ds : List DemoDriveDetails) (p q : DemoFeatureProgress) (n : ℕ)
      → P s
      → P (record s { drives = ds; smart_progress = p; benchmark_progress = q; calls = n })
