-- ===== src/Jobs/Manager.antt =====
-- The public operations of jobs/job_manager.cpp.
use drive_lab.Prelude.{
  ℕ, ◌+◌, ◌%◌, ◌^◌, Bool, true, false, not, ◌&&◌, ◌||◌, Option, none, some, [], ◌∷◌, ◌++◌, leb, ℤ,
  pos, is_negative, exceeds, Text, bytes, to_text, length, any_of, if◌then◌else◌,
}
use drive_lab.Result.{Result, ok, err, Error, invalid_state, invalid_argument}
use drive_lab.Drive.{DriveId, drive_id}
use drive_lab.Operation.{OperationRequest}
use drive_lab.Safety.{ExecutionAuthorization, authorize}
use drive_lab.Mode.{ExecutionMode}
use drive_lab.Logging.{info}
use drive_lab.Jobs.{
  JobRecord, JobState, JobManager, World, planned, queued, starting, running, paused, completed,
  cancelled, is_live, is_running, is_paused, is_queued, is_locked, find_job, write_job,
}
use drive_lab.Jobs.Launch.{log, called, fail, start, start_eligible_jobs, release_lock}

-- `std::max<std::size_t>(1, max_parallel_drives)`.
unfoldable pub new_manager : ExecutionMode → ℕ → JobManager
new_manager mode limit = record {
  mode = mode;
  max_parallel_drives = if leb 1 limit then limit else 1;
  next_id = 1;
  jobs = [];
  ledger = record { active_locks = []; calls = 0; records = [] };
}

-- `JobId` is a uint64_t.
abbrev pub next_job_id : ℕ → ℕ
next_job_id n = (n + 1) % 2 ^ 64

abbrev pub new_job : OperationRequest → DriveId → ExecutionAuthorization → ℕ → ℕ → JobRecord
new_job op id a number now = record {
  id = number;
  operation = op;
  drive_id = id;
  observed_path = op.target.current_path;
  state = if a.planned_only then planned else queued;
  progress_percent = pos 0;
  estimated_remaining = none;
  queued_at = now;
  started_at = none;
  finished_at = none;
  failure = none;
}

-- The rest of `submit`, for a job that is recorded at the end of `jobs_`.
unfoldable pub dispatch : World → JobRecord → JobManager → JobManager
dispatch w job m =
    if not (is_queued job.state)
    then record m {
      jobs = m.jobs ++ (job ∷ []);
      ledger =
          log w job info (bytes "Operation recorded without execution in dry-run mode") m.ledger;
    }
    else if is_locked job.drive_id m.active_locks
        || leb m.max_parallel_drives (length m.active_locks)
    then record m {
      jobs = m.jobs ++ (job ∷ []);
      ledger = log w job info (bytes "Job queued") m.ledger;
    }
    else (let (job', l, _) = start w m.mode job m.ledger in
        record m { jobs = m.jobs ++ (job' ∷ []); ledger = l })

unfoldable pub enqueue :
    World → OperationRequest → DriveId → ExecutionAuthorization → JobManager → JobManager × Result ℕ
unfolding dispatch
enqueue w op id a m = (
  dispatch w (new_job op id a m.next_id (w.now m.calls))
      (record m { next_id = next_job_id m.next_id; ledger = called m.ledger }),
  ok m.next_id,
)

unfoldable pub submit : World → OperationRequest → JobManager → JobManager × Result ℕ
submit w op m = elim (drive_id op.target.identity) [
  | err e ↦ (m, err e)
  | ok id ↦ elim (authorize op.target op.safety_class m.mode) [
    | err e ↦ (m, err e)
    | ok a ↦ enqueue w op id a m
  ]
]

unfoldable pub invalid_transition : ℕ → Text → Result (Unit {0})
invalid_transition id message = err (record {
  code = invalid_state;
  component = bytes "JobManager Job#" ++ to_text id;
  message = message;
})

abbrev pub bad_progress : ℕ → Error
bad_progress id = record {
  code = invalid_argument;
  component = bytes "JobManager Job#" ++ to_text id;
  message = bytes "Progress must be between 0 and 100";
}

-- A method that looks its job up: `act` runs on a job that passes the test.
unfoldable pub on_job :
    ℕ
    → (JobRecord → Bool)
    → Text
    → (JobRecord → JobManager × Result (Unit {0}))
    → JobManager
    → JobManager × Result (Unit {0})
on_job id allowed message act m = elim (find_job id m.jobs) [
  | none ↦ (m, invalid_transition id message)
  | some job ↦ if allowed job then act job else (m, invalid_transition id message)
]

unfoldable pub update_progress : ℕ → ℤ → Option ℤ → JobManager → JobManager × Result (Unit {0})
update_progress id percent remaining m =
    on_job id (λ j. is_live j.state) (bytes "Only running or paused jobs can report progress")
      (λ j. if is_negative percent || exceeds percent 100 then (m, err (bad_progress id)) else (
        record m {
          jobs =
              write_job id
                (record j { progress_percent = percent; estimated_remaining = remaining }) m.jobs;
        },
        ok tt,
      ))
      m

unfoldable pub complete : World → ℕ → JobManager → JobManager × Result (Unit {0})
complete w id m =
    on_job id (λ j. is_live j.state) (bytes "Only running or paused jobs can complete")
      (λ j.
        let j' : JobRecord = record j {
          state = completed;
          progress_percent = pos 100;
          estimated_remaining = some (pos 0);
          finished_at = some (w.now m.calls);
        } in
        (
          start_eligible_jobs w (record m {
            jobs = write_job id j' m.jobs;
            ledger = log w j' info (bytes "Job completed") (release_lock j' (called m.ledger));
          }),
          ok tt,
        ))
      m

abbrev pub can_fail : JobState → Bool
can_fail running = true
can_fail paused = true
can_fail starting = true
can_fail _ = false

unfoldable pub mark_failed : World → ℕ → Error → JobManager → JobManager × Result (Unit {0})
mark_failed w id error m =
    on_job id (λ j. can_fail j.state) (bytes "Only active jobs can fail")
      (λ j.
        let (j', l) = fail w j error (release_lock j m.ledger) in
        (start_eligible_jobs w (record m { jobs = write_job id j' m.jobs; ledger = l }), ok tt))
      m

unfoldable pub pause : World → ℕ → JobManager → JobManager × Result (Unit {0})
pause w id m =
    on_job id (λ j. is_running j.state && j.operation.controls.can_pause)
      (bytes "Job cannot be paused in its current state")
      (λ j.
        let j' : JobRecord = record j { state = paused } in
        (
          record m {
            jobs = write_job id j' m.jobs;
            ledger = log w j' info (bytes "Job paused; physical-drive lock retained") m.ledger;
          },
          ok tt,
        ))
      m

unfoldable pub resume : World → ℕ → JobManager → JobManager × Result (Unit {0})
resume w id m =
    on_job id (λ j. is_paused j.state && j.operation.controls.can_resume)
      (bytes "Job cannot be resumed in its current state")
      (λ j.
        let j' : JobRecord = record j { state = running } in
        (
          record m {
            jobs = write_job id j' m.jobs;
            ledger = log w j' info (bytes "Job resumed") m.ledger;
          },
          ok tt,
        ))
      m

-- The job as `cancel` leaves it.
abbrev pub cancelled_job : World → JobManager → JobRecord → JobRecord
cancelled_job w m j = record j {
  state = cancelled;
  estimated_remaining = none;
  finished_at = some (w.now m.calls);
}

unfoldable pub cancel_queued : World → ℕ → JobRecord → JobManager → JobManager × Result (Unit {0})
cancel_queued w id j m = (
  record m {
    jobs = write_job id (cancelled_job w m j) m.jobs;
    ledger = log w (cancelled_job w m j) info (bytes "Queued job cancelled") (called m.ledger);
  },
  ok tt,
)

unfoldable pub cancel_active : World → ℕ → JobRecord → JobManager → JobManager × Result (Unit {0})
cancel_active w id j m = (
  start_eligible_jobs w (record m {
    jobs = write_job id (cancelled_job w m j) m.jobs;
    ledger =
        log w (cancelled_job w m j) info (bytes "Active job cancelled")
          (release_lock (cancelled_job w m j) (called m.ledger));
  }),
  ok tt,
)

unfoldable pub cancel : World → ℕ → JobManager → JobManager × Result (Unit {0})
unfolding cancel_queued cancel_active
cancel w id m = elim (find_job id m.jobs) [
  | none ↦ (m, invalid_transition id (bytes "Job does not exist"))
  | some j ↦
      if is_queued j.state
      then cancel_queued w id j m
      else if is_live j.state && j.operation.controls.can_cancel
      then cancel_active w id j m
      else (m, invalid_transition id (bytes "Job cannot be cancelled in its current state"))
]

unfoldable pub active_drive_count : JobManager → ℕ
active_drive_count m = length m.active_locks

unfoldable pub can_terminate : JobManager → Bool
can_terminate m = not (any_of (λ j. is_live j.state && not j.operation.controls.can_cancel) m.jobs)
