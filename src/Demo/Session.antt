-- ===== src/Demo/Session.antt =====
-- The operations of app/demo_session.cpp that a user asks for.
use drive_lab.Prelude.{
  ℕ, suc, Bool, true, false, not, ◌&&◌, ◌||◌, none, some, List, [], ◌∷◌, ◌++◌, ltb, pos, Text,
  bytes, to_text, if◌then◌else◌,
}
use drive_lab.Result.{Result, ok, err, Error, ErrorCode, not_found}
use drive_lab.Drive.{Drive, DriveId, MediaKind, hdd, drive_id, is_protected}
use drive_lab.Jobs.{JobManager, JobRecord, is_running, is_queued, find_job}
use drive_lab.Jobs.Manager.{update_progress, pause, resume, cancel, can_terminate}
use drive_lab.Demo.{
  DemoFeature, overview, smart, ata_hpa, benchmark, sanitize, smart_conveyance_test,
  DemoWorkflowDefinition, DemoDriveDetails, DemoSnapshot, same_workflow, same_feature,
}
use drive_lab.Demo.Catalog.{demo_workflow_catalog}
use drive_lab.Demo.State.{
  DemoWorld, DemoState, add_event, has_drive_id, find_drive, sync_tracked_progress,
}

-- `std::sort` of the jobs, the greatest id first; no two jobs have one id.
unfoldable pub insert_newest : JobRecord → List JobRecord → List JobRecord
insert_newest j [] = j ∷ []
insert_newest j (i ∷ js) = if ltb i.id j.id then j ∷ i ∷ js else i ∷ insert_newest j js

unfoldable pub newest_first : List JobRecord → List JobRecord
newest_first [] = []
newest_first (j ∷ js) = insert_newest j (newest_first js)

unfoldable pub snapshot : DemoState → DemoSnapshot
snapshot s = record {
  drives = s.drives;
  events = s.events;
  jobs = newest_first s.jobs.jobs;
  smart_progress = s.smart_progress;
  benchmark_progress = s.benchmark_progress;
}

abbrev pub session_error : ErrorCode → Text → Error
session_error code message = record {
  code = code;
  component = bytes "DemoSession";
  message = message;
}

abbrev pub no_such_drive : Error
no_such_drive = session_error not_found (bytes "Demo drive was not found")

unfoldable pub available_features : DriveId → DemoState → Result (List DemoFeature)
available_features id s = elim (find_drive id s.drives) [
  | none ↦ err no_such_drive
  | some d ↦ ok (
      if is_protected d.drive
      then overview ∷ smart ∷ []
      else overview ∷ smart ∷ ata_hpa ∷ benchmark ∷ sanitize ∷ [])
]

abbrev pub is_hdd : MediaKind → Bool
is_hdd hdd = true
is_hdd _ = false

-- The workflow as it is offered for a drive; the flag is `media == MediaKind::Hdd`.
unfoldable pub available_workflow : Bool → DemoWorkflowDefinition → DemoWorkflowDefinition
available_workflow rotates w =
    if same_workflow w.id smart_conveyance_test && not rotates
    then record w { supported = false }
    else w

-- The loop of `workflows`.
unfoldable pub offered :
    Bool → DemoFeature → List DemoWorkflowDefinition → List DemoWorkflowDefinition
offered rotates feature [] = []
offered rotates feature (w ∷ ws) =
    let rest = offered rotates feature ws in
    if same_feature w.feature feature then available_workflow rotates w ∷ rest else rest

unfoldable pub workflows : DriveId → DemoFeature → DemoState → Result (List DemoWorkflowDefinition)
workflows id feature s = elim (find_drive id s.drives) [
  | none ↦ err no_such_drive
  | some d ↦ ok (
      if is_protected d.drive || same_feature feature overview
      then []
      else offered (is_hdd d.drive.media) feature demo_workflow_catalog)
]

-- `existing->drive = observed`, for the first drive with the id.
unfoldable pub replace_drive : DriveId → Drive → List DemoDriveDetails → List DemoDriveDetails
replace_drive id observed [] = []
replace_drive id observed (d ∷ ds) =
    if has_drive_id id d.drive
    then record d { drive = observed } ∷ ds
    else d ∷ replace_drive id observed ds

-- The loop of `scanInventory`, which keeps what it has replaced when it fails.
unfoldable pub refresh :
    List Drive → List DemoDriveDetails → List DemoDriveDetails × Result (Unit {0})
refresh [] ds = (ds, ok tt)
refresh (observed ∷ rest) ds = elim (drive_id observed.identity) [
  | err e ↦ (ds, err e)
  | ok id ↦ refresh rest (replace_drive id observed ds)
]

unfoldable pub scan_inventory : DemoWorld → DemoState → DemoState × Result (Unit {0})
scan_inventory w s = elim (w.scan s.calls) [
  | err e ↦ (record s { calls = suc s.calls }, err e)
  | ok drives ↦
      let (ds, r) = refresh drives s.drives in
      let s' = record s { calls = suc s.calls; drives = ds } in
      elim r [
        | err e ↦ (s', err e)
        | ok _ ↦ (
          add_event w (bytes "Demo scan complete: 7 canned drives; no commands executed") s',
          ok tt,
        )
      ]
]

abbrev pub job_text : ℕ → Text → Text
job_text id what = bytes "Job #" ++ (to_text id ++ what)

-- `pauseJob` and `resumeJob`, with the manager's call and the event.
unfoldable pub control_job :
    DemoWorld
    → (JobManager → JobManager × Result (Unit {0}))
    → Text
    → DemoState
    → DemoState × Result (Unit {0})
control_job w call message s =
    let (m, r) = call s.jobs in
    let s' = record s { jobs = m } in
    elim r [ err e ↦ (s', err e) | ok _ ↦ (sync_tracked_progress (add_event w message s'), ok tt) ]

unfoldable pub pause_job : DemoWorld → ℕ → DemoState → DemoState × Result (Unit {0})
unfolding control_job
pause_job w id = control_job w (pause w.jobs id) (job_text id (bytes " paused"))

unfoldable pub resume_job : DemoWorld → ℕ → DemoState → DemoState × Result (Unit {0})
unfolding control_job
resume_job w id = control_job w (resume w.jobs id) (job_text id (bytes " resumed"))

abbrev queued_text : ℕ → Text → Text
queued_text id what = bytes "Queued job #" ++ (to_text id ++ what)

-- The report and the event of a job that has left the queue for work.
unfoldable pub announce_started : DemoWorld → JobRecord → DemoState → DemoState
announce_started w j s =
    add_event w (queued_text j.id (bytes " started"))
      (record s { jobs = (update_progress j.id j.progress_percent (some (pos 25)) s.jobs).0 })

-- `queued_before`, and the loop over it.
unfoldable pub queued_ids : List JobRecord → List ℕ
queued_ids [] = []
queued_ids (j ∷ js) = if is_queued j.state then j.id ∷ queued_ids js else queued_ids js

unfoldable pub announce_waiting : DemoWorld → ℕ → DemoState → DemoState
unfolding announce_started
announce_waiting w id s = elim (find_job id s.jobs.jobs) [
  | none ↦ s
  | some j ↦ if is_running j.state then announce_started w j s else s
]

unfoldable pub announce_queued : DemoWorld → List ℕ → DemoState → DemoState
unfolding announce_waiting
announce_queued w [] s = s
announce_queued w (id ∷ ids) s = announce_queued w ids (announce_waiting w id s)

abbrev pub no_such_job : Error
no_such_job = session_error not_found (bytes "Demo job was not found")

unfoldable pub cancel_job : DemoWorld → ℕ → DemoState → DemoState × Result (Unit {0})
unfolding announce_queued queued_ids
cancel_job w id s = elim (find_job id s.jobs.jobs) [
  | none ↦ (s, err no_such_job)
  | some before ↦
      let (m, r) = cancel w.jobs id s.jobs in
      let s' = record s { jobs = m } in
      elim r [
        | err e ↦ (s', err e)
        | ok _ ↦
            let message =
              if is_queued before.state
              then queued_text id (bytes " cancelled")
              else job_text id (bytes " stopped") in
            (
              sync_tracked_progress
                  (announce_queued w (queued_ids s.jobs.jobs) (add_event w message s')),
              ok tt,
            )
      ]
]

-- `requestTermination`, with `canTerminate`.
unfoldable pub request_termination : DemoWorld → DemoState → DemoState × Bool
request_termination w s =
    if can_terminate s.jobs
    then (s, true)
    else (add_event w (bytes "Session termination blocked by non-cancellable job") s, false)
