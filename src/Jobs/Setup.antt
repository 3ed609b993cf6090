-- ===== src/Jobs/Setup.antt =====
-- The mode, the limit and the id counter of jobs/job_manager.cpp over one call.
use drive_lab.Prelude.{
  ℕ, suc, ◌≤◌, ◌≡◌, refl, inl, inr, ◌||◌, ℤ, Option, is_negative, exceeds, leb, length, arith,
  Bool-cases,
}
use drive_lab.Operation.{OperationRequest}
use drive_lab.Result.{Error}
use drive_lab.Jobs.{JobRecord, JobManager, World, is_queued, is_locked}
use drive_lab.Jobs.Launch.{start_eligible_jobs}
use drive_lab.Jobs.Manager.{
  dispatch, enqueue, submit, update_progress, complete, mark_failed, pause, resume, cancel,
  cancel_queued, cancel_active, new_job,
}
use drive_lab.Jobs.Sound.{on_job_cases, cancel_cases}
use drive_lab.Jobs.Submit.{submit_cases}

pub record Kept (m m' : JobManager) : Type 0 where
  pub same_mode : m'.mode ≡ m.mode
  pub same_limit : m'.max_parallel_drives ≡ m.max_parallel_drives
  pub next_bound : m'.next_id ≤ suc m.next_id

Kept-same :
    (m m' : JobManager)
    → m'.mode ≡ m.mode
    → m'.max_parallel_drives ≡ m.max_parallel_drives
    → m'.next_id ≡ m.next_id
    → Kept m m'
Kept-same m m' a b c = record { same_mode = a; same_limit = b; next_bound = omega arith }

dispatch-Kept :
    (w : World) (m n : JobManager) (job : JobRecord) → Kept m n → Kept m (dispatch w job n)
unfolding dispatch
dispatch-Kept w m n job k = elim (Bool-cases (is_queued job.state)) [
  | inr plan ↦ rw plan k'
  | inl q ↦
      elim (Bool-cases (
        is_locked job.drive_id n.active_locks
        || leb n.max_parallel_drives (length n.active_locks))) [
          | inl wait ↦ rw (q, wait) k'
          | inr go ↦ rw (q, go) k'
        ]
]
  where
    k' : {js : _} {l : _} → Kept m (record n { jobs = js; ledger = l })
    k' = record { same_mode = k.same_mode; same_limit = k.same_limit; next_bound = k.next_bound }

module _ (w : World) (m : JobManager) where
  same : Kept m m
  same = Kept-same m m refl refl refl

  pub submit-Kept : (op : OperationRequest) → Kept m (submit w op m).0
  submit-Kept op = submit_cases (Kept m) w op m same λ id a e f.
      unfold enqueue in
      dispatch-Kept w m _ (new_job op id a m.next_id (w.now m.calls))
        (record { same_mode = refl; same_limit = refl; next_bound = omega arith })

  pub update_progress-Kept : (id : ℕ) (p : ℤ) (r : Option ℤ) → Kept m (update_progress id p r m).0
  unfolding update_progress
  update_progress-Kept id p r = on_job_cases (Kept m) id _ _ _ m same λ j e a.
      elim (Bool-cases (is_negative p || exceeds p 100)) [
        | inl bad ↦ rw bad same
        | inr good ↦ rw good (Kept-same m _ refl refl refl)
      ]

  pub complete-Kept : (id : ℕ) → Kept m (complete w id m).0
  unfolding complete start_eligible_jobs
  complete-Kept id = on_job_cases (Kept m) id _ _ _ m same λ j e a. Kept-same m _ refl refl refl

  pub mark_failed-Kept : (id : ℕ) (error : Error) → Kept m (mark_failed w id error m).0
  unfolding mark_failed start_eligible_jobs
  mark_failed-Kept id error =
      on_job_cases (Kept m) id _ _ _ m same λ j e a. Kept-same m _ refl refl refl

  pub pause-Kept : (id : ℕ) → Kept m (pause w id m).0
  unfolding pause
  pause-Kept id = on_job_cases (Kept m) id _ _ _ m same λ j e a. Kept-same m _ refl refl refl

  pub resume-Kept : (id : ℕ) → Kept m (resume w id m).0
  unfolding resume
  resume-Kept id = on_job_cases (Kept m) id _ _ _ m same λ j e a. Kept-same m _ refl refl refl

  pub cancel-Kept : (id : ℕ) → Kept m (cancel w id m).0
  cancel-Kept id =
      cancel_cases (Kept m) w id m same
        (λ j e q. unfold cancel_queued in Kept-same m _ refl refl refl)
        (λ j e a c. unfold cancel_active start_eligible_jobs in Kept-same m _ refl refl refl)

  pub update_progress-next_id :
      (id : ℕ) (p : ℤ) (r : Option ℤ) → (update_progress id p r m).0.next_id ≡ m.next_id
  unfolding update_progress
  update_progress-next_id id p r =
      on_job_cases (λ n. n.next_id ≡ m.next_id) id _ _ _ m refl
        λ j e a. elim (Bool-cases (is_negative p || exceeds p 100)) [
          | inl bad ↦ rw bad refl
          | inr good ↦ rw good refl
        ]

  pub complete-next_id : (id : ℕ) → (complete w id m).0.next_id ≡ m.next_id
  unfolding complete start_eligible_jobs
  complete-next_id id = on_job_cases (λ n. n.next_id ≡ m.next_id) id _ _ _ m refl λ j e a. refl

  pub mark_failed-next_id :
      (id : ℕ) (error : Error) → (mark_failed w id error m).0.next_id ≡ m.next_id
  unfolding mark_failed start_eligible_jobs
  mark_failed-next_id id error =
      on_job_cases (λ n. n.next_id ≡ m.next_id) id _ _ _ m refl λ j e a. refl

  pub pause-next_id : (id : ℕ) → (pause w id m).0.next_id ≡ m.next_id
  unfolding pause
  pause-next_id id = on_job_cases (λ n. n.next_id ≡ m.next_id) id _ _ _ m refl λ j e a. refl

  pub resume-next_id : (id : ℕ) → (resume w id m).0.next_id ≡ m.next_id
  unfolding resume
  resume-next_id id = on_job_cases (λ n. n.next_id ≡ m.next_id) id _ _ _ m refl λ j e a. refl

  pub cancel-next_id : (id : ℕ) → (cancel w id m).0.next_id ≡ m.next_id
  cancel-next_id id =
      cancel_cases (λ n. n.next_id ≡ m.next_id) w id m refl (λ j e q. unfold cancel_queued in refl)
        (λ j e a c. unfold cancel_active start_eligible_jobs in refl)
