-- ===== src/Jobs/Promises.antt =====
-- Statements on jobs/job_manager.cpp after a sequence of calls, with any clock and inventory.
use drive_lab.Prelude.{
  Within, ℕ, ◌+◌, ◌^◌, ◌<◌, ◌≤◌, ◌≡◌, refl, sym, ap, ◌∙◌, ◌↔◌, ◌⊎◌, inl, inr, true, false, none,
  some, List, leb, length, count_if, if◌then◌else◌, arith, Option-cases, Bool-cases, All-find_if,
}
use mathlib.Core.Path.{subst}
use drive_lab.Drive.{DriveId, Drive}
use drive_lab.Mode.{ExecutionMode, real, dry_run}
use drive_lab.Safety.{erases}
use drive_lab.Jobs.{JobRecord, World, queued, is_live, is_queued, find_job, lock_owner, is_locked}
use drive_lab.Jobs.Manager.{new_manager, active_drive_count}
use drive_lab.Jobs.Moves.{Vetted, Cleared}
use drive_lab.Jobs.Lockstep.{Works}
use drive_lab.Jobs.History.{Survives}
use drive_lab.Jobs.Runs.{
  run-Survives, run-next_id, Call, run, run-Kept, after_calls, after_calls-Consistent,
}

module _ (w : World) (mode : ExecutionMode) (limit : ℕ) (cs : List Call) where
  mode-kept : (after_calls w mode limit cs).mode ≡ mode
  mode-kept = (run-Kept w (new_manager mode limit) cs).0 ∙ unfold new_manager in refl

  limit-kept :
      (after_calls w mode limit cs).max_parallel_drives ≡ (if leb 1 limit then limit else 1)
  limit-kept = (run-Kept w (new_manager mode limit) cs).1 ∙ unfold new_manager in refl

new_manager_next : (mode : ExecutionMode) (limit : ℕ) → (new_manager mode limit).next_id ≡ 1
unfolding new_manager
new_manager_next mode limit = refl

-- After any fewer than 2^64 - 1 calls, a drive is locked by a job exactly when that job is running
-- or paused on it.
pub locks-Works :
    (w : World) (mode : ExecutionMode) (limit : ℕ) (cs : List Call)
    → length cs + 1 < 2 ^ 64
    → (d : DriveId) (id : ℕ)
    → (lock_owner d (after_calls w mode limit cs).active_locks ≡ some id)
      ↔ Works (after_calls w mode limit cs).jobs id d
locks-Works w mode limit cs few d id =
    let v = (after_calls-Consistent w mode limit cs few).in_step in
    (v.owned d id, λ (j, f, a, e). subst (λ d. lock_owner d _ ≡ some id) e (v.held id j f a))

-- After any fewer than 2^64 - 1 calls, two jobs that are running or paused on the same drive are one
-- job.
pub Works-alone :
    (w : World) (mode : ExecutionMode) (limit : ℕ) (cs : List Call)
    → length cs + 1 < 2 ^ 64
    → (i k : ℕ) (d : DriveId) → Works (after_calls w mode limit cs).jobs i d
    → Works (after_calls w mode limit cs).jobs k d
    → i ≡ k
Works-alone w mode limit cs few i k d p q =
    ground
      (arith, (locks-Works w mode limit cs few d i).1 p, (locks-Works w mode limit cs few d k).1 q)

-- After any fewer than 2^64 - 1 calls, the jobs that are running or paused are as many as
-- `activeDriveCount` says, and no more than the limit that the manager was made with (or one, if
-- that was 0).
pub active_drive_count-bounds :
    (w : World) (mode : ExecutionMode) (limit : ℕ) (cs : List Call)
    → length cs + 1 < 2 ^ 64
    → let m = after_calls w mode limit cs in
      (active_drive_count m ≡ count_if (λ j. is_live j.state) m.jobs)
      × (active_drive_count m ≤ (if leb 1 limit then limit else 1))
unfolding active_drive_count
active_drive_count-bounds w mode limit cs few =
    let v = (after_calls-Consistent w mode limit cs few).in_step in
    (sym v.counted, rw (← limit-kept w mode limit cs) v.bounded)

-- If a job is running or paused after fewer than 2^64 - 1 calls, there is a drive that the inventory
-- answered with for the job's target, that is the same device as the target and on which the policy
-- permits the job's operation, and the mode is not dry-run.
pub live-Cleared :
    (w : World) (mode : ExecutionMode) (limit : ℕ) (cs : List Call)
    → length cs + 1 < 2 ^ 64
    → (k : ℕ) (j : JobRecord) → find_job k (after_calls w mode limit cs).jobs ≡ some j
    → is_live j.state ≡ true
    → (d : Drive) × Cleared w mode j.operation d
live-Cleared w mode limit cs few k j f a =
    let (d, c) = ((after_calls-Consistent w mode limit cs few).lawful k j f).cleared a in
    (d, rw (mode-kept w mode limit cs) at c)

dry_run-not_live :
    (w : World) (limit : ℕ) (cs : List Call)
    → length cs + 1 < 2 ^ 64
    → (k : ℕ) (j : JobRecord) → find_job k (after_calls w dry_run limit cs).jobs ≡ some j
    → is_live j.state ≡ false
dry_run-not_live w limit cs few k j f = elim (Bool-cases (is_live j.state)) [
  | inr idle ↦ idle
  | inl a ↦ absurd ((live-Cleared w dry_run limit cs few k j f a).1.executes refl)
]

-- In dry-run mode, after any fewer than 2^64 - 1 calls, no job is running or paused and no drive is
-- locked.
pub dry_run-idle :
    (w : World) (limit : ℕ) (cs : List Call)
    → length cs + 1 < 2 ^ 64
    → let m = after_calls w dry_run limit cs in
      ((k : ℕ) (j : JobRecord) → find_job k m.jobs ≡ some j → is_live j.state ≡ false)
      × ((d : DriveId) → lock_owner d m.active_locks ≡ none)
dry_run-idle w limit cs few = (
  dry_run-not_live w limit cs few,
  λ d. elim (Option-cases (lock_owner d (after_calls w dry_run limit cs).active_locks)) [
    | inl free ↦ free
    | inr (id, e) ↦
        let (j, f, a, _) = (locks-Works w dry_run limit cs few d id).0 e in
        cc (dry_run-not_live w limit cs few id j f)
  ],
)

-- A job that is running or paused in real mode, after fewer than 2^64 - 1 calls, does not erase: it
-- is neither destructive nor irreversible.
pub real-harmless :
    (w : World) (limit : ℕ) (cs : List Call)
    → length cs + 1 < 2 ^ 64
    → (k : ℕ) (j : JobRecord) → find_job k (after_calls w real limit cs).jobs ≡ some j
    → is_live j.state ≡ true
    → erases j.operation.safety_class ≡ false
real-harmless w limit cs few k j f a =
    (live-Cleared w real limit cs few k j f a).1.allowed.harmless refl

-- After any fewer than 2^64 - 1 calls, a job waits in the queue only while its drive is locked or the
-- limit is reached.
pub queued-waits :
    (w : World) (mode : ExecutionMode) (limit : ℕ) (cs : List Call)
    → length cs + 1 < 2 ^ 64
    → (k : ℕ) (j : JobRecord)
    → let m = after_calls w mode limit cs in
      find_job k m.jobs ≡ some j
      → j.state ≡ queued
      → (is_locked j.drive_id m.active_locks ≡ true)
        ⊎ (m.max_parallel_drives ≤ active_drive_count m)
unfolding active_drive_count find_job
queued-waits w mode limit cs few k j f q =
    elim (after_calls-Consistent w mode limit cs few).settled [
      | inl full ↦ inr full
      | inr waits ↦ inl (All-find_if _ _ _ j waits f (ap is_queued q))
    ]

-- As long as there are fewer than 2^64 - 1 calls in all, no later call loses a job or changes its id,
-- drive or operation, and a job that is planned, completed, cancelled or failed stays as it is in
-- every field.
pub jobs-Survive :
    (w : World) (mode : ExecutionMode) (limit : ℕ) (cs later : List Call)
    → length cs + length later + 1 < 2 ^ 64
    → (k : ℕ) (j : JobRecord) → find_job k (after_calls w mode limit cs).jobs ≡ some j
    → Survives k j (run w (after_calls w mode limit cs) later).jobs
jobs-Survive w mode limit cs later few k j f =
    run-Survives w (after_calls w mode limit cs) later k j
      (omega (arith, run-next_id w (new_manager mode limit) cs, new_manager_next mode limit))
      (after_calls-Consistent w mode limit cs (omega arith)) f

-- After any fewer than 2^64 - 1 calls, the progress of every job is a number from 0 to 100.
pub progress-Within :
    (w : World) (mode : ExecutionMode) (limit : ℕ) (cs : List Call)
    → length cs + 1 < 2 ^ 64
    → (k : ℕ) (j : JobRecord) → find_job k (after_calls w mode limit cs).jobs ≡ some j
    → Within 100 j.progress_percent
progress-Within w mode limit cs few k j f =
    ((after_calls-Consistent w mode limit cs few).lawful k j f).percent

-- After any fewer than 2^64 - 1 calls, every job on record is one that the policy permits in the
-- manager's mode on the drive as it was described, and carries that drive's id.
pub jobs-Vetted :
    (w : World) (mode : ExecutionMode) (limit : ℕ) (cs : List Call)
    → length cs + 1 < 2 ^ 64
    → (k : ℕ) (j : JobRecord) → find_job k (after_calls w mode limit cs).jobs ≡ some j
    → Vetted mode j
jobs-Vetted w mode limit cs few k j f =
    rw (mode-kept w mode limit cs) at
      (((after_calls-Consistent w mode limit cs few).lawful k j f).vetted)
