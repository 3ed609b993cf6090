-- ===== src/Jobs/Launch.antt =====
-- The private helpers of jobs/job_manager.cpp: logging, failing, starting and releasing jobs.
use drive_lab.Prelude.{
  ℕ, zero, suc, Bool, true, false, not, ◌&&◌, Option, none, some, List, [], ◌∷◌, ◌==◌, ltb, Text,
  bytes, length, if◌then◌else◌,
}
use drive_lab.Result.{Result, ok, err, Error, identity_mismatch}
use drive_lab.Drive.{Drive, DriveId, same_physical_device}
use drive_lab.Safety.{ExecutionAuthorization, authorize}
use drive_lab.Mode.{ExecutionMode}
use drive_lab.Logging.{LogSeverity, info, LogRecord, vector_log}
use drive_lab.Jobs.{
  JobRecord, Lock, Ledger, JobManager, World, planned, starting, running, failed, is_queued,
  lock_owner, is_locked, set_lock, erase_lock,
}

-- One more call of the clock or the inventory.
abbrev pub called : Ledger → Ledger
called l = record l { calls = suc l.calls }

unfoldable pub log : World → JobRecord → LogSeverity → Text → Ledger → Ledger
log w job severity message l = record l {
  calls = suc l.calls;
  records = vector_log entry l.records;
}
  where
    entry : LogRecord
    entry = record {
      timestamp = w.now l.calls;
      severity = severity;
      component = bytes "JobManager";
      job_id = some job.id;
      message = message;
    }

unfoldable pub fail : World → JobRecord → Error → Ledger → JobRecord × Ledger
fail w job error l =
    let job' : JobRecord = record job {
      state = failed;
      estimated_remaining = none;
      finished_at = some (w.now l.calls);
      failure = some error;
    } in
    (job', log w job' LogSeverity.error error.message (called l))

abbrev pub identity_changed : Error
identity_changed = record {
  code = identity_mismatch;
  component = bytes "JobManager";
  message = bytes "Physical drive identity changed before execution";
}

-- The rest of `start`, once the observed drive is authorized.
unfoldable pub start_authorized :
    World → JobRecord → Drive → ExecutionAuthorization → Ledger → JobRecord × Ledger × Bool
start_authorized w job observed a l =
    if not a.may_execute
    then (let job' : JobRecord = record job { state = planned } in
        (job', log w job' info (bytes "Execution suppressed by mode") l, false))
    else (let job' : JobRecord = record job {
      observed_path = observed.current_path;
      started_at = some (w.now l.calls);
      state = running;
    } in
        let l' : Ledger = record l {
          calls = suc l.calls;
          active_locks = set_lock job.drive_id job.id l.active_locks;
        } in
        (
          job',
          log w job' info
              (if a.simulated then bytes "Simulated job started" else bytes "Job started") l',
          true,
        ))

abbrev pub start_failed : JobRecord × Ledger → JobRecord × Ledger × Bool
start_failed (job, l) = (job, l, false)

-- The rest of `start`, once the inventory has answered.
unfoldable pub start_observed :
    World → ExecutionMode → JobRecord → Result Drive → Ledger → JobRecord × Ledger × Bool
start_observed w mode job (err e) l = start_failed (fail w job e l)
start_observed w mode job (ok observed) l =
    if not (same_physical_device job.operation.target.identity observed.identity)
    then start_failed (fail w job identity_changed l)
    else elim (authorize observed job.operation.safety_class mode) [
      | err e ↦ start_failed (fail w job e l)
      | ok a ↦ start_authorized w job observed a l
    ]

unfoldable pub start : World → ExecutionMode → JobRecord → Ledger → JobRecord × Ledger × Bool
start w mode job l =
    start_observed w mode (record job { state = starting })
      (w.resolve l.calls job.operation.target.identity) (called l)

-- The `for` loop of `startEligibleJobs`: starts the first job that is queued on a free drive.
unfoldable pub start_next :
    World → ExecutionMode → List JobRecord → Ledger → Option (List JobRecord × Ledger)
start_next w mode [] l = none
start_next w mode (j ∷ js) l =
    if is_queued j.state && not (is_locked j.drive_id l.active_locks)
    then some ((start w mode j l).0 ∷ js, (start w mode j l).1)
    else elim (start_next w mode js l) [ none ↦ none | some (js', l') ↦ some (j ∷ js', l') ]

-- The `while` loop of `startEligibleJobs`.
unfoldable pub start_loop :
    World → ExecutionMode → ℕ → ℕ → List JobRecord → Ledger → List JobRecord × Ledger
start_loop w mode limit zero js l = (js, l)
start_loop w mode limit (suc fuel) js l = elim (ltb (length l.active_locks) limit) [
  | false ↦ (js, l)
  | true ↦ elim (start_next w mode js l) [
    | none ↦ (js, l)
    | some (js', l') ↦ start_loop w mode limit fuel js' l'
  ]
]

-- Each round takes one job out of the queue, so there are fewer rounds than this.
unfoldable pub start_eligible_jobs : World → JobManager → JobManager
start_eligible_jobs w m =
    let (js, l) = start_loop w m.mode m.max_parallel_drives (suc (length m.jobs)) m.jobs m.ledger in
    record m { jobs = js; ledger = l }

-- The locks without that of a drive, if it belongs to the job.
unfoldable pub released : DriveId → ℕ → List Lock → List Lock
released d id ls = elim (lock_owner d ls) [
  | none ↦ ls
  | some owner ↦ if owner == id then erase_lock d ls else ls
]

unfoldable pub release_lock : JobRecord → Ledger → Ledger
release_lock job l = record l { active_locks = released job.drive_id job.id l.active_locks }
