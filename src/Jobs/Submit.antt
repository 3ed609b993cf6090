-- ===== src/Jobs/Submit.antt =====
-- `submit` of jobs/job_manager.cpp as a sequence of moves.
use drive_lab.Prelude.{
  Within, ℕ, suc, ◌+◌, ◌^◌, ◌<◌, ◌≡◌, refl, ◌∙◌, inl, inr, ◌||◌, none, [], ◌∷◌, ◌++◌, leb, length,
  arith, Bool-cases, ==_refl,
}
use mathlib.Core.Path.{subst}
use drive_lab.Drive.{DriveId, drive_id}
use drive_lab.Operation.{OperationRequest}
use drive_lab.Result.{ok, Result-cases}
use drive_lab.Safety.{ExecutionAuthorization, authorize}
use drive_lab.Safety.Policy.{authorize_iff}
use drive_lab.Jobs.{
  JobRecord, JobManager, World, queued, is_queued, is_locked, lock_owner, find_job,
}
use drive_lab.Jobs.Find.{write_job-append, find_job-append_none}
use drive_lab.Jobs.Launch.{log, called, start}
use drive_lab.Jobs.Manager.{next_job_id, new_job, dispatch, enqueue, submit}
use drive_lab.Jobs.Moves.{Board, board, Vetted, Waiting, record_job, Moves, here, after}
use drive_lab.Jobs.Starting.{start-Move}
use drive_lab.Jobs.Sound.{Did, Steady}

pub submit_cases {ℓ} :
    (P : JobManager → Type ℓ) (w : World) (op : OperationRequest) (m : JobManager)
    → P m
    → ((id : DriveId) (a : ExecutionAuthorization)
        → drive_id op.target.identity ≡ ok id
        → authorize op.target op.safety_class m.mode ≡ ok a
        → P (enqueue w op id a m).0)
    → P (submit w op m).0
unfolding submit
submit_cases P w op m refused taken = elim (Result-cases (drive_id op.target.identity)) [
  | inr (x, e) ↦ rw (e, submit) refused
  | inl (id, e) ↦ elim (Result-cases (authorize op.target op.safety_class m.mode)) [
    | inr (x, f) ↦ rw (e, submit, f) refused
    | inl (a, f) ↦ rw (e, submit, f) (taken id a e f)
  ]
]

module _ (w : World) (m : JobManager) (v : Steady m) where
  -- The board once the job is recorded, whatever is then decided about it.
  recorded_board : JobRecord → ℕ → Board
  recorded_board job next = record {
    next = next;
    jobs = m.jobs ++ (job ∷ []);
    locks = m.active_locks;
  }

  module _ (job : JobRecord) (next : ℕ) (n : job.id ≡ m.next_id) (en : next ≡ suc m.next_id)
      (waits : Waiting job.state) (vetted : Vetted m.mode job)
      (percent : Within 100 job.progress_percent) where
    recorded : Moves w m.mode m.max_parallel_drives (board m) (recorded_board job next)
    unfolding recorded_board
    recorded = after here (record_job job n waits vetted percent en refl refl)

    started :
        job.state ≡ queued
        → lock_owner job.drive_id m.active_locks ≡ none
        → length m.active_locks < m.max_parallel_drives
        → let (job', l, _) = start w m.mode job (called m.ledger) in
          Moves w m.mode m.max_parallel_drives
            (board m)
            (record { next = next; jobs = m.jobs ++ (job' ∷ []); locks = l.active_locks })
    unfolding recorded_board
    started q free room =
        let new : find_job job.id m.jobs ≡ none = v.fresh job.id (omega arith) in
        subst
          (λ js. Moves w m.mode m.max_parallel_drives (board m) (record {
            next = next;
            jobs = js;
            locks = (start w m.mode job (called m.ledger)).1.active_locks;
          }))
          (write_job-append m.jobs job (start w m.mode job (called m.ledger)).0 new)
          (after recorded (
            start-Move w m.mode m.max_parallel_drives next (m.jobs ++ (job ∷ [])) (called m.ledger)
              job (find_job-append_none job.id m.jobs job new ∙ ground (arith, ==_refl job.id)) q
              free room))

    -- `jobs_.push_back`, and then what `submit` decides about the job.
    dispatch-Did : Did w m (dispatch w job (record m { next_id = next; ledger = called m.ledger }))
    unfolding dispatch recorded_board log
    dispatch-Did = elim (Bool-cases (is_queued job.state)) [
      | inr plan ↦ rw plan recorded
      | inl q ↦
          elim (Bool-cases (
            is_locked job.drive_id m.active_locks
            || leb m.max_parallel_drives (length m.active_locks))) [
              | inl wait ↦ rw (q, wait) recorded
              | inr go ↦ rw (q, go) (started (ground arith) (ground arith) (ground arith))
            ]
    ]

  -- Below 2^64 - 1 the job ids do not wrap around.
  pub submit-Did : (op : OperationRequest) → m.next_id + 1 < 2 ^ 64 → Did w m (submit w op m).0
  submit-Did op h = submit_cases (Did w m) w op m here (λ id a e f. enqueue-Did op h id a e f)
    where
      enqueue-Did :
          (op : OperationRequest)
          → m.next_id + 1 < 2 ^ 64
          → (id : DriveId) (a : ExecutionAuthorization) → drive_id op.target.identity ≡ ok id
          → authorize op.target op.safety_class m.mode ≡ ok a
          → Did w m (enqueue w op id a m).0
      enqueue-Did op h id a e f =
          unfold enqueue in
          dispatch-Did (new_job op id a m.next_id (w.now m.calls)) (next_job_id m.next_id) refl
            (omega arith) (ground arith)
            (record { named = e; allowed = ((authorize_iff _ _ _ a).0 f).0 }) (omega arith)
