-- ===== src/Demo/Calls/Asking.antt =====
-- What a user asks of app/demo_session.cpp keeps what its calls and its events keep.
use drive_lab.Prelude.{
  ℕ, ◌≡◌, refl, inl, inr, List, [], ◌∷◌, pos, Text, bytes, find_if, Bool-cases, Option-cases,
}
use drive_lab.Result.{Result, Result-cases}
use drive_lab.Drive.{is_protected}
use drive_lab.Operation.{OperationRequest}
use drive_lab.Jobs.{JobManager, find_job, is_running}
use drive_lab.Jobs.Manager.{submit, pause, resume, cancel, can_terminate}
use drive_lab.Jobs.Runs.{pauses, resumes, cancels, step}
use drive_lab.Demo.{
  DemoFeature, overview, smart, ata_hpa, benchmark, sanitize, DemoWorkflowBehavior, inspection,
  simulated_job, DemoFeatureProgress, DemoWorkflowCommand, DemoWorkflowDefinition, DemoDriveDetails,
}
use drive_lab.Demo.Catalog.{find_demo_workflow}
use drive_lab.Demo.Calls.{
  Closed, SessionCall, scans, runs, pauses_job, resumes_job, cancels_job, asks_to_end, waits,
  session_step,
}
use drive_lab.Demo.Calls.Ticking.{keep_report, advance-keeps, announce_started-keeps}
use drive_lab.Demo.State.{DemoWorld, DemoState, find_drive, sync_tracked_progress}
use drive_lab.Demo.Session.{
  scan_inventory, refresh, workflows, control_job, pause_job, resume_job, queued_ids,
  announce_waiting, announce_queued, cancel_job, request_termination, job_text,
}
use drive_lab.Demo.Workflows.{
  supports, plan_workflow, report_started, track, announce, submitted, planned_workflow, run_found,
  run_workflow, job_name,
}

module _ {ℓ} {w : DemoWorld} {P : DemoState → Type ℓ} (k : Closed w P) where
  control_job-keeps :
      (call : JobManager → JobManager × Result (Unit {0})) (message : Text) (s : DemoState)
      → P (record s { jobs = (call s.jobs).0 })
      → P (control_job w call message s).0
  unfolding control_job sync_tracked_progress
  control_job-keeps call message s h = elim (Result-cases (call s.jobs).1) [
    | inl (u, e) ↦ rw (e, control_job) (k.rest _ _ _ _ _ (k.note message _ h))
    | inr (x, e) ↦ rw (e, control_job) h
  ]

  announce_waiting-keeps : (id : ℕ) (s : DemoState) → P s → P (announce_waiting w id s)
  unfolding announce_waiting
  announce_waiting-keeps id s h = elim (Option-cases (find_job id s.jobs.jobs)) [
    | inl e ↦ rw (e, announce_waiting) h
    | inr (j, e) ↦ elim (Bool-cases (is_running j.state)) [
      | inl a ↦ rw (e, announce_waiting, a) (announce_started-keeps k j s h)
      | inr a ↦ rw (e, announce_waiting, a) h
    ]
  ]

  announce_queued-keeps : (ids : List ℕ) (s : DemoState) → P s → P (announce_queued w ids s)
  unfolding announce_queued
  announce_queued-keeps [] s h = h
  announce_queued-keeps (id ∷ ids) s h =
      announce_queued-keeps ids (announce_waiting w id s) (announce_waiting-keeps id s h)

  cancel_job-keeps : (id : ℕ) (s : DemoState) → P s → P (cancel_job w id s).0
  unfolding cancel_job sync_tracked_progress step
  cancel_job-keeps id s h = elim (Option-cases (find_job id s.jobs.jobs)) [
    | inl e ↦ rw (e, cancel_job) h
    | inr (j, e) ↦ elim (Result-cases (cancel w.jobs id s.jobs).1) [
      | inl (u, q) ↦
          rw (e, cancel_job, q)
            (k.rest _ _ _ _ _ (
              announce_queued-keeps (queued_ids s.jobs.jobs) _
                (k.note _ _ (k.keep s (cancels id) refl h))))
      | inr (x, q) ↦ rw (e, cancel_job, q) (k.keep s (cancels id) refl h)
    ]
  ]

  scan_inventory-keeps : (s : DemoState) → P s → P (scan_inventory w s).0
  unfolding scan_inventory
  scan_inventory-keeps s h = elim (Result-cases (w.scan s.calls)) [
    | inr (x, e) ↦ rw (e, scan_inventory) (k.rest _ _ _ _ _ h)
    | inl (ds, e) ↦ elim (Result-cases (refresh ds s.drives).1) [
      | inl (u, q) ↦ rw (e, scan_inventory, q) (k.note _ _ (k.rest _ _ _ _ _ h))
      | inr (x, q) ↦ rw (e, scan_inventory, q) (k.rest _ _ _ _ _ h)
    ]
  ]

  request_termination-keeps : (s : DemoState) → P s → P (request_termination w s).0
  unfolding request_termination
  request_termination-keeps s h = elim (Bool-cases (can_terminate s.jobs)) [
    | inl a ↦ rw a h
    | inr a ↦ rw a (k.note _ s h)
  ]

  track-keeps :
      (feature : DemoFeature) (p : DemoFeatureProgress) (s : DemoState)
      → P s
      → P (track feature p s)
  unfolding track
  track-keeps smart p s h = k.rest _ _ _ _ _ h
  track-keeps benchmark p s h = k.rest _ _ _ _ _ h
  track-keeps overview p s h = h
  track-keeps ata_hpa p s h = h
  track-keeps sanitize p s h = h

  report_started-keeps :
      (id : ℕ) (s : DemoState) → P s → P (record s { jobs = (report_started id s.jobs).0 })
  unfolding report_started
  report_started-keeps id s h = elim (Option-cases (find_job id s.jobs.jobs)) [
    | inl e ↦ rw (e, report_started) h
    | inr (j, e) ↦ elim (Bool-cases (is_running j.state)) [
      | inl a ↦ rw (e, report_started, a) (keep_report k j.id (pos 0) _ s h)
      | inr a ↦ rw (e, report_started, a) h
    ]
  ]

  submitted-keeps :
      (feature : DemoFeature) (command : DemoWorkflowCommand) (path : Text) (id : ℕ) (s : DemoState)
      → P s
      → P (submitted w feature command path id s).0
  unfolding submitted announce
  submitted-keeps feature command path id s h =
      let h' = report_started-keeps id s h in
      elim (Result-cases (report_started id s.jobs).1) [
        | inr (x, e) ↦ rw (e, submitted) h'
        | inl (u, e) ↦ elim (Option-cases (find_job id (report_started id s.jobs).0.jobs)) [
          | inl q ↦ rw (e, submitted, q) h'
          | inr (j, q) ↦ rw (e, submitted, q) (track-keeps feature _ _ (k.note _ _ h'))
        ]
      ]

  module _ (s : DemoState) (h : P s)
      (accept : (op : OperationRequest) → P (record s { jobs = (submit w.jobs op s.jobs).0 })) where
    planned_workflow-keeps :
        (behavior : DemoWorkflowBehavior) (definition : DemoWorkflowDefinition)
        (command : DemoWorkflowCommand) (path : Text) (op : OperationRequest)
        → definition.behavior ≡ behavior
        → P (planned_workflow w definition command path op s).0
    unfolding planned_workflow
    planned_workflow-keeps inspection definition command path op e =
        rw (e, planned_workflow) (k.note _ s h)
    planned_workflow-keeps simulated_job definition command path op e =
        let op' : OperationRequest = record op {
          name = job_name definition.feature definition.label;
        } in
        elim (Result-cases (submit w.jobs op' s.jobs).1) [
          | inr (x, q) ↦ rw (e, planned_workflow, q) (accept op')
          | inl (id, q) ↦
              rw (e, planned_workflow, q)
                (submitted-keeps definition.feature command path id _ (accept op'))
        ]

    run_found-keeps :
        (command : DemoWorkflowCommand) (d : DemoDriveDetails) (definition : DemoWorkflowDefinition)
        → P (run_found w command d definition s).0
    unfolding run_found
    run_found-keeps command d definition =
        elim (Result-cases (workflows command.drive_id definition.feature s)) [
          | inr (x, e) ↦ rw (e, run_found) h
          | inl (ws, e) ↦ elim (Option-cases (find_if (supports command.workflow) ws)) [
            | inl f ↦ rw (e, run_found, f) h
            | inr (v, f) ↦ elim (Result-cases (plan_workflow w.planners d.drive command.workflow)) [
              | inr (x, q) ↦ rw (e, run_found, f, q) h
              | inl (op, q) ↦
                  rw (e, run_found, f, q)
                    (planned_workflow-keeps definition.behavior definition command
                      d.drive.current_path op refl)
            ]
          ]
        ]

    run_workflow-keeps : (command : DemoWorkflowCommand) → P (run_workflow w command s).0
    unfolding run_workflow
    run_workflow-keeps command = elim (Option-cases (find_drive command.drive_id s.drives)) [
      | inl e ↦ rw (e, run_workflow) h
      | inr (d, e) ↦ elim (Bool-cases (is_protected d.drive)) [
        | inl a ↦ rw (e, run_workflow, a) h
        | inr a ↦ elim (Option-cases (find_demo_workflow command.workflow)) [
          | inl f ↦ rw (e, run_workflow, a, f) h
          | inr (definition, f) ↦ rw (e, run_workflow, a, f) (run_found-keeps command d definition)
        ]
      ]
    ]

    pub session_step-keeps :
        (r : ℕ) (c : SessionCall)
        → P (session_step w (record { state = s; tick_remainder = r }) c).state
    unfolding session_step pause_job resume_job step
    session_step-keeps r scans = scan_inventory-keeps s h
    session_step-keeps r (runs command) = run_workflow-keeps command
    session_step-keeps r (pauses_job id) =
        control_job-keeps (pause w.jobs id) (job_text id (bytes " paused")) s
          (k.keep s (pauses id) refl h)
    session_step-keeps r (resumes_job id) =
        control_job-keeps (resume w.jobs id) (job_text id (bytes " resumed")) s
          (k.keep s (resumes id) refl h)
    session_step-keeps r (cancels_job id) = cancel_job-keeps id s h
    session_step-keeps r asks_to_end = request_termination-keeps s h
    session_step-keeps r (waits elapsed) =
        advance-keeps k elapsed (record { state = s; tick_remainder = r }) h
