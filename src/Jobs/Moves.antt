-- ===== src/Jobs/Moves.antt =====
-- What one step of the job manager may do to its jobs and locks, seen from outside.
use drive_lab.Prelude.{
  Within, ℕ, suc, ◌<◌, ◌≡◌, ◌≢◌, ◌⊎◌, true, none, some, List, [], ◌∷◌, ◌++◌, length,
}
use drive_lab.Drive.{Drive, drive_id, same_physical_device}
use drive_lab.Operation.{OperationRequest}
use drive_lab.Mode.{ExecutionMode, dry_run}
use drive_lab.Result.{ok}
use drive_lab.Safety.Policy.{Permits}
use drive_lab.Jobs.{
  World, JobRecord, JobState, Lock, JobManager, planned, queued, running, completed, cancelled,
  failed, is_live, lock_owner, set_lock, find_job, write_job,
}
use drive_lab.Jobs.Launch.{released}

pub record Board : Type 0 where
  pub next : ℕ
  pub jobs : List JobRecord
  pub locks : List Lock

abbrev pub board : JobManager → Board
board m = record { next = m.next_id; jobs = m.jobs; locks = m.active_locks }

-- What a job keeps for life, its progress being a percentage among them.
pub record Same (j j' : JobRecord) : Type 0 where
  pub same_id : j'.id ≡ j.id
  pub same_drive : j'.drive_id ≡ j.drive_id
  pub same_operation : j'.operation ≡ j.operation
  pub sane : Within 100 j.progress_percent → Within 100 j'.progress_percent

-- The checks of `submit`: of the drive as it was described.
pub record Vetted (mode : ExecutionMode) (j : JobRecord) : Type 0 where
  pub named : drive_id j.operation.target.identity ≡ ok j.drive_id
  pub allowed : Permits j.operation.target j.operation.safety_class mode

-- The checks of `start`: of a drive that the inventory answered with.
pub record Cleared (w : World) (mode : ExecutionMode) (op : OperationRequest) (d : Drive)
    : Type 0 where
  pub seen : (n : ℕ) × (w.resolve n op.target.identity ≡ ok d)
  pub same_device : same_physical_device op.target.identity d.identity ≡ true
  pub allowed : Permits d op.safety_class mode
  pub executes : mode ≢ dry_run

abbrev pub Waiting : JobState → Type 0
Waiting s = (s ≡ planned) ⊎ (s ≡ queued)

abbrev pub Left : JobState → Type 0
Left s = (s ≡ planned) ⊎ ((s ≡ failed) ⊎ (s ≡ cancelled))

abbrev pub Done : JobState → Type 0
Done s = (s ≡ completed) ⊎ ((s ≡ failed) ⊎ (s ≡ cancelled))

pub data Move (w : World) (mode : ExecutionMode) (limit : ℕ) (b c : Board) : Type 0 where
  -- A new job, planned or queued, under the next id.
  record_job :
      (j : JobRecord)
      → j.id ≡ b.next
      → Waiting j.state
      → Vetted mode j
      → Within 100 j.progress_percent
      → c.next ≡ suc b.next
      → c.jobs ≡ b.jobs ++ (j ∷ [])
      → c.locks ≡ b.locks
      → Move w mode limit b c
  -- A queued job starts on a drive that is free and has been checked, and locks it.
  launch :
      (j j' : JobRecord) (d : Drive)
      → find_job j.id b.jobs ≡ some j
      → Same j j'
      → j.state ≡ queued
      → j'.state ≡ running
      → Cleared w mode j.operation d
      → lock_owner j.drive_id b.locks ≡ none
      → length b.locks < limit
      → c.next ≡ b.next
      → c.jobs ≡ write_job j.id j' b.jobs
      → c.locks ≡ set_lock j.drive_id j.id b.locks
      → Move w mode limit b c
  -- A queued job leaves the queue without having run.
  leave :
      (j j' : JobRecord)
      → find_job j.id b.jobs ≡ some j
      → Same j j'
      → j.state ≡ queued
      → Left j'.state
      → c.next ≡ b.next
      → c.jobs ≡ write_job j.id j' b.jobs
      → c.locks ≡ b.locks
      → Move w mode limit b c
  -- A live job is paused or resumed, or reports progress.
  carry_on :
      (j j' : JobRecord)
      → find_job j.id b.jobs ≡ some j
      → Same j j'
      → is_live j.state ≡ true
      → is_live j'.state ≡ true
      → c.next ≡ b.next
      → c.jobs ≡ write_job j.id j' b.jobs
      → c.locks ≡ b.locks
      → Move w mode limit b c
  -- A live job ends and gives its lock back.
  finish :
      (j j' : JobRecord)
      → find_job j.id b.jobs ≡ some j
      → Same j j'
      → is_live j.state ≡ true
      → Done j'.state
      → c.next ≡ b.next
      → c.jobs ≡ write_job j.id j' b.jobs
      → c.locks ≡ released j.drive_id j.id b.locks
      → Move w mode limit b c

pub data Moves (w : World) (mode : ExecutionMode) (limit : ℕ) (b : Board) : Board → Type 0 where
  here : Moves w mode limit b b
  after : {c d : Board} → Moves w mode limit b c → Move w mode limit c d → Moves w mode limit b d

pub Moves-trans :
    {w : World} {mode : ExecutionMode} {limit : ℕ} {b c d : Board}
    → Moves w mode limit b c
    → Moves w mode limit c d
    → Moves w mode limit b d
Moves-trans p here = p
Moves-trans p (after q m) = after (Moves-trans p q) m
