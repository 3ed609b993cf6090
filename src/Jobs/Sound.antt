-- ===== src/Jobs/Sound.antt =====
-- The public operations of jobs/job_manager.cpp as sequences of moves.
use drive_lab.Prelude.{
  Within, pos, negsuc, ℕ, suc, ◌≡◌, refl, ap, ◌∙◌, sym, ◌≢◌, inl, inr, Bool, true, false, ◌&&◌,
  ◌||◌, Option, some, List, ℤ, is_negative, exceeds, Text, bytes, length, arith, Bool-cases,
  Option-cases,
}
use mathlib.Core.Path.{subst, subst₂}
use drive_lab.Result.{Result, Error}
use drive_lab.Logging.{LogSeverity, info}
use drive_lab.Jobs.{
  JobRecord, JobManager, Ledger, World, starting, running, paused, failed, is_live, is_queued,
  find_job, write_job,
}
use drive_lab.Jobs.Find.{find_job-id}
use drive_lab.Jobs.Launch.{log, fail, start_eligible_jobs, released, release_lock}
use drive_lab.Jobs.Manager.{
  on_job, update_progress, complete, mark_failed, pause, resume, cancel, cancelled_job,
  cancel_queued, cancel_active,
}
use drive_lab.Jobs.Moves.{
  board, Same, Done, Move, leave, carry_on, finish, Moves, here, after, Moves-trans,
}
use drive_lab.Jobs.Lockstep.{InStep}
use drive_lab.Jobs.Lockstep.Keeps.{Move-InStep}
use drive_lab.Jobs.Eligible.{start_loop-Moves}

-- What an operation did to a manager, as moves of its board.
abbrev pub Did : World → JobManager → JobManager → Type 0
Did w m m' = Moves w m.mode m.max_parallel_drives (board m) (board m')

abbrev pub Steady : JobManager → Type 0
Steady m = InStep m.max_parallel_drives (board m)

pub start_eligible_jobs-Did :
    (w : World) (m : JobManager) → Steady m → Did w m (start_eligible_jobs w m)
unfolding start_eligible_jobs
start_eligible_jobs-Did w m v =
    start_loop-Moves w m.mode m.max_parallel_drives m.next_id (suc (length m.jobs)) m.jobs m.ledger
      v

-- One move, and then the jobs that it lets start.
and_start :
    (w : World) (m m' : JobManager)
    → m'.mode ≡ m.mode
    → m'.max_parallel_drives ≡ m.max_parallel_drives
    → Steady m
    → Move w m.mode m.max_parallel_drives (board m) (board m')
    → Did w m (start_eligible_jobs w m')
and_start w m m' em el v mv = Moves-trans (after here mv) (
    subst₂ (λ mode limit. Moves w mode limit (board m') (board (start_eligible_jobs w m'))) em el
      (start_eligible_jobs-Did w m'
        (subst (λ limit. InStep limit (board m')) (sym el) (Move-InStep mv v))))

pub log_locks :
    (w : World) (j : JobRecord) (s : LogSeverity) (t : Text) (l : Ledger)
    → (log w j s t l).active_locks ≡ l.active_locks
unfolding log
log_locks w j s t l = refl

pub on_job_cases {ℓ} :
    (P : JobManager → Type ℓ) (id : ℕ) (allowed : JobRecord → Bool) (message : Text)
    (act : JobRecord → JobManager × Result (Unit {0})) (m : JobManager)
    → P m
    → ((j : JobRecord) → find_job id m.jobs ≡ some j → allowed j ≡ true → P (act j).0)
    → P (on_job id allowed message act m).0
unfolding on_job
on_job_cases P id allowed message act m unchanged acted = elim (Option-cases (find_job id m.jobs)) [
  | inl e ↦ rw (e, on_job) unchanged
  | inr (j, e) ↦ elim (Bool-cases (allowed j)) [
    | inl a ↦ rw (e, on_job, a) (acted j e a)
    | inr a ↦ rw (e, on_job, a) unchanged
  ]
]

-- The job that `find_job` returned stands in the list under its own id.
own_id :
    (id : ℕ) (js : List JobRecord) (j : JobRecord)
    → find_job id js ≡ some j
    → find_job j.id js ≡ some j
own_id id js j e = ap (λ (k : ℕ). find_job k js) (find_job-id id js j e) ∙ e

release_lock_locks :
    (j : JobRecord) (l : Ledger)
    → (release_lock j l).active_locks ≡ released j.drive_id j.id l.active_locks
unfolding release_lock
release_lock_locks j l = refl

in_percent : (p : ℤ) → is_negative p || exceeds p 100 ≡ false → Within 100 p
in_percent (pos n) h = ground arith
in_percent (negsuc n) h = cc

module _ (w : World) (j : JobRecord) (e : Error) (l : Ledger) where
  fail-Same : Same j (fail w j e l).0
  unfolding fail
  fail-Same = record { same_id = refl; same_drive = refl; same_operation = refl; sane = λ h. h }

  fail-failed : (fail w j e l).0.state ≡ failed
  unfolding fail
  fail-failed = refl

  fail_locks : (fail w j e l).1.active_locks ≡ l.active_locks
  unfolding fail log
  fail_locks = refl

-- Between operations no job is half started.
abbrev pub NotStarting : JobManager → Type 0
NotStarting m = (k : ℕ) (j : JobRecord) → find_job k m.jobs ≡ some j → j.state ≢ starting

pub cancel_cases {ℓ} :
    (P : JobManager → Type ℓ) (w : World) (id : ℕ) (m : JobManager)
    → P m
    → ((j : JobRecord)
        → find_job id m.jobs ≡ some j
        → is_queued j.state ≡ true
        → P (cancel_queued w id j m).0)
    → ((j : JobRecord)
        → find_job id m.jobs ≡ some j
        → is_live j.state ≡ true
        → j.operation.controls.can_cancel ≡ true
        → P (cancel_active w id j m).0)
    → P (cancel w id m).0
unfolding cancel
cancel_cases P w id m unchanged from_queue active = elim (Option-cases (find_job id m.jobs)) [
  | inl e ↦ rw (e, cancel) unchanged
  | inr (j, e) ↦ elim (Bool-cases (is_queued j.state)) [
    | inl q ↦ rw (e, cancel, q) (from_queue j e q)
    | inr q ↦ elim (Bool-cases (is_live j.state && j.operation.controls.can_cancel)) [
      | inl a ↦ rw (e, cancel, q, a) (active j e (ground arith) (ground arith))
      | inr a ↦ rw (e, cancel, q, a) unchanged
    ]
  ]
]

module _ (w : World) (m : JobManager) (v : Steady m) where
  carry :
      (id : ℕ) (j j' : JobRecord) (l : Ledger)
      → find_job id m.jobs ≡ some j
      → Same j j'
      → is_live j.state ≡ true
      → is_live j'.state ≡ true
      → l.active_locks ≡ m.active_locks
      → Did w m (record m { jobs = write_job id j' m.jobs; ledger = l })
  carry id j j' l e s a a' el = after here (
      carry_on j j' (own_id id m.jobs j e) s a a' refl
        (ap (λ (k : ℕ). write_job k j' m.jobs) (sym (find_job-id id m.jobs j e))) el)

  pub update_progress-Did : (id : ℕ) (p : ℤ) (r : Option ℤ) → Did w m (update_progress id p r m).0
  unfolding update_progress
  update_progress-Did id p r = on_job_cases (Did w m) id _ _ _ m here λ j e a.
      elim (Bool-cases (is_negative p || exceeds p 100)) [
        | inl bad ↦ rw bad here
        | inr good ↦ rw good (
            carry id j _ m.ledger e
              (record {
                same_id = refl;
                same_drive = refl;
                same_operation = refl;
                sane = λ _. in_percent p good;
              })
              a a refl)
      ]

  pub pause-Did : (id : ℕ) → Did w m (pause w id m).0
  unfolding pause
  pause-Did id = on_job_cases (Did w m) id _ _ _ m here λ j e a.
      carry id j _
        (log w (record j { state = paused }) info (bytes "Job paused; physical-drive lock retained")
          m.ledger)
        e (record { same_id = refl; same_drive = refl; same_operation = refl; sane = λ h. h })
        (ground arith) refl (log_locks w _ _ _ _)

  pub resume-Did : (id : ℕ) → Did w m (resume w id m).0
  unfolding resume
  resume-Did id = on_job_cases (Did w m) id _ _ _ m here λ j e a.
      carry id j _ (log w (record j { state = running }) info (bytes "Job resumed") m.ledger) e
        (record { same_id = refl; same_drive = refl; same_operation = refl; sane = λ h. h })
        (ground arith) refl (log_locks w _ _ _ _)

  -- A live job ends, its lock is released, and waiting jobs start.
  close :
      (id : ℕ) (j j' : JobRecord) (l : Ledger)
      → find_job id m.jobs ≡ some j
      → Same j j'
      → is_live j.state ≡ true
      → Done j'.state
      → l.active_locks ≡ released j.drive_id j.id m.active_locks
      → Did w m (start_eligible_jobs w (record m { jobs = write_job id j' m.jobs; ledger = l }))
  close id j j' l e s a o el =
      and_start w m (record m { jobs = write_job id j' m.jobs; ledger = l }) refl refl v
        (finish j j' (own_id id m.jobs j e) s a o refl
          (ap (λ (k : ℕ). write_job k j' m.jobs) (sym (find_job-id id m.jobs j e))) el)

  pub complete-Did : (id : ℕ) → Did w m (complete w id m).0
  unfolding complete
  complete-Did id = on_job_cases (Did w m) id _ _ _ m here λ j e a.
      close id j _ _ e
        (record {
          same_id = refl;
          same_drive = refl;
          same_operation = refl;
          sane = λ _. omega arith;
        })
        a (inl refl) (log_locks w _ _ _ _ ∙ release_lock_locks _ _)

  pub mark_failed-Did :
      (id : ℕ) (error : Error) → NotStarting m → Did w m (mark_failed w id error m).0
  unfolding mark_failed
  mark_failed-Did id error ns = on_job_cases (Did w m) id _ _ _ m here λ j e a.
      close id j _ _ e (fail-Same w j error _) (ground (arith, ns id j e))
        (inr (inl (fail-failed w j error _))) (fail_locks w j error _ ∙ release_lock_locks _ _)

  cancel_queued-Did :
      (id : ℕ) (j : JobRecord)
      → find_job id m.jobs ≡ some j
      → is_queued j.state ≡ true
      → Did w m (cancel_queued w id j m).0
  unfolding cancel_queued
  cancel_queued-Did id j e q = after here (
      leave j (cancelled_job w m j) (own_id id m.jobs j e)
        (record { same_id = refl; same_drive = refl; same_operation = refl; sane = λ h. h })
        (ground arith) (inr (inr refl)) refl
        (ap (λ (k : ℕ). write_job k (cancelled_job w m j) m.jobs) (sym (find_job-id id m.jobs j e)))
        (log_locks w _ _ _ _))

  cancel_active-Did :
      (id : ℕ) (j : JobRecord)
      → find_job id m.jobs ≡ some j
      → is_live j.state ≡ true
      → Did w m (cancel_active w id j m).0
  unfolding cancel_active
  cancel_active-Did id j e a =
      close id j _ _ e
        (record { same_id = refl; same_drive = refl; same_operation = refl; sane = λ h. h }) a
        (inr (inr refl)) (log_locks w _ _ _ _ ∙ release_lock_locks _ _)

  pub cancel-Did : (id : ℕ) → Did w m (cancel w id m).0
  cancel-Did id =
      cancel_cases (Did w m) w id m here (cancel_queued-Did id)
        (λ j e a c. cancel_active-Did id j e a)
