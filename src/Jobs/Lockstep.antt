-- ===== src/Jobs/Lockstep.antt =====
-- The jobs and the locks of jobs/job_manager.cpp: the invariant that relates them.
pub mod Parts
pub mod Keeps
use drive_lab.Prelude.{
  ℕ, suc, ◌+◌, ◌<◌, ◌≤◌, ◌≡◌, refl, ap, ◌∙◌, ◌≢◌, ◌⊎◌, inl, inr, Bool, true, false, Option, none,
  some, List, [], ◌∷◌, ◌++◌, ◌==◌, length, count_if, count_if-append, if◌then◌else◌, arith,
  Bool-cases, Option-cases,
}
use drive_lab.Drive.{DriveId, Drive, id_eq}
use drive_lab.Drive.Identity.{id_eq_iff}
use drive_lab.Mode.{ExecutionMode}
use drive_lab.Jobs.{
  JobRecord, JobState, Lock, queued, running, is_live, lock_owner, set_lock, erase_lock, find_job,
  write_job,
}
use drive_lab.Jobs.Find.{
  Distinct, tally, find_job-id, find_job-write, find_job-append_some, find_job-append_none,
  Distinct-write, Distinct-append, count-write,
}
use drive_lab.Jobs.Locks.{
  KeysDistinct, lock_owner-set, lock_owner-erase, length-set_lock, length-erase_lock,
  KeysDistinct-set, KeysDistinct-erase,
}
use drive_lab.Jobs.Launch.{released}
use drive_lab.Jobs.Moves.{
  Board, Same, Move, record_job, launch, leave, carry_on, finish, Moves, here, after,
}

-- Some live job with this id works on this drive.
abbrev pub Works : List JobRecord → ℕ → DriveId → Type 0
Works js id d =
    (j : JobRecord) × (find_job id js ≡ some j) × (is_live j.state ≡ true) × (j.drive_id ≡ d)

pub record InStep (limit : ℕ) (b : Board) : Type 0 where
  pub fresh : (k : ℕ) → b.next ≤ k → find_job k b.jobs ≡ none
  pub distinct : Distinct b.jobs
  pub keys : KeysDistinct b.locks
  pub held :
      (k : ℕ) (j : JobRecord)
      → find_job k b.jobs ≡ some j
      → is_live j.state ≡ true
      → lock_owner j.drive_id b.locks ≡ some k
  pub owned : (d : DriveId) (id : ℕ) → lock_owner d b.locks ≡ some id → Works b.jobs id d
  pub bounded : length b.locks ≤ limit
  pub counted : count_if (λ j. is_live j.state) b.jobs ≡ length b.locks
