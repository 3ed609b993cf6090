-- ===== src/Jobs.antt =====
-- jobs/job.h and the state of jobs/job_manager.h.
pub mod Find
pub mod Locks
pub mod Moves
pub mod Lockstep
pub mod Starting
pub mod Eligible
pub mod Sound
pub mod Submit
pub mod History
pub mod Conserving
pub mod Setup
pub mod Runs
pub mod Promises
pub mod Refusals
pub mod Launch
pub mod Manager
use drive_lab.Prelude.{
  ℕ, ◌≡◌, Bool, true, false, not, ◌&&◌, ◌||◌, Option, none, some, List, [], ◌∷◌, ◌==◌, ℤ, Text,
  bytes, length, find_if, any_of, if◌then◌else◌,
}
use drive_lab.Result.{Result, Error}
use drive_lab.Drive.{DriveId, DriveIdentity, Drive, id_eq}
use drive_lab.Operation.{OperationRequest}
use drive_lab.Mode.{ExecutionMode}
use drive_lab.Logging.{LogRecord}

pub data JobState : Type 0 where
  planned queued starting running paused completed cancelled failed : JobState

-- `JobId` is uint64_t; times and durations are numbers of ticks and of seconds.
pub record JobRecord : Type 0 where
  pub id : ℕ
  pub operation : OperationRequest
  pub drive_id : DriveId
  pub observed_path : Text
  pub state : JobState
  pub progress_percent : ℤ
  pub estimated_remaining : Option ℤ
  pub queued_at : ℕ
  pub started_at : Option ℕ
  pub finished_at : Option ℕ
  pub failure : Option Error

unfoldable pub job_state_name : JobState → Text
job_state_name planned = bytes "PLANNED"
job_state_name queued = bytes "QUEUED"
job_state_name starting = bytes "STARTING"
job_state_name running = bytes "RUNNING"
job_state_name paused = bytes "PAUSED"
job_state_name completed = bytes "COMPLETED"
job_state_name cancelled = bytes "CANCELLED"
job_state_name failed = bytes "FAILED"

-- An entry of `active_locks_`.
pub record Lock : Type 0 where
  pub key : DriveId
  pub owner : ℕ

-- What the manager keeps beside its jobs: the locks, how often it has asked the clock or the
-- inventory, and what it has handed to its logger.
pub record Ledger : Type 0 where
  pub active_locks : List Lock
  pub calls : ℕ
  pub records : List LogRecord

pub record JobManager : Type 0 where
  pub mode : ExecutionMode
  pub max_parallel_drives : ℕ
  pub next_id : ℕ
  pub jobs : List JobRecord
  pub ledger : Ledger
  pub open ledger use *

-- The clock and the inventory provider: what each answers at the n-th call that the manager
-- makes of either.
pub record World : Type 0 where
  pub now : ℕ → ℕ
  pub resolve : ℕ → DriveIdentity → Result Drive

-- `state == Running || state == Paused`.
abbrev pub is_live : JobState → Bool
is_live running = true
is_live paused = true
is_live _ = false

abbrev pub is_running : JobState → Bool
is_running running = true
is_running _ = false

abbrev pub is_paused : JobState → Bool
is_paused paused = true
is_paused _ = false

abbrev pub is_queued : JobState → Bool
is_queued queued = true
is_queued _ = false

-- `std::map` by drive: look up, `operator[]` assignment, and `erase` of the entry found.
unfoldable pub lock_owner : DriveId → List Lock → Option ℕ
lock_owner d [] = none
lock_owner d (l ∷ ls) = if id_eq l.key d then some l.owner else lock_owner d ls

abbrev pub is_some {ℓ} : {A : Type ℓ} → Option A → Bool
is_some none = false
is_some (some a) = true

abbrev pub is_locked : DriveId → List Lock → Bool
is_locked d ls = is_some (lock_owner d ls)

unfoldable pub set_lock : DriveId → ℕ → List Lock → List Lock
set_lock d id [] = record { key = d; owner = id } ∷ []
set_lock d id (l ∷ ls) =
    if id_eq l.key d then record { key = d; owner = id } ∷ ls else l ∷ set_lock d id ls

unfoldable pub erase_lock : DriveId → List Lock → List Lock
erase_lock d [] = []
erase_lock d (l ∷ ls) = if id_eq l.key d then ls else l ∷ erase_lock d ls

-- `find` and `findMutable`: the first job with the id.
unfoldable pub find_job : ℕ → List JobRecord → Option JobRecord
find_job id js = find_if (λ j. j.id == id) js

-- A write through the pointer that `findMutable` returns.
unfoldable pub write_job : ℕ → JobRecord → List JobRecord → List JobRecord
write_job id j' [] = []
write_job id j' (j ∷ js) = if j.id == id then j' ∷ js else j ∷ write_job id j' js
