-- ===== src/Jobs/Conserving.antt =====
-- The jobs that wait in the queue of jobs/job_manager.cpp, and what they wait for.
use drive_lab.Prelude.{
  ℕ, suc, ◌≤◌, ◌≡◌, refl, ◌⊎◌, inl, inr, true, false, ◌||◌, Option, none, List, [], ◌∷◌, ◌++◌, ◌==◌,
  leb, ℤ, is_negative, exceeds, length, count_if-le-length, All, All-append, All-map, arith,
  Bool-cases,
}
use drive_lab.Drive.{DriveId}
use drive_lab.Mode.{ExecutionMode}
use drive_lab.Operation.{OperationRequest}
use drive_lab.Result.{Error}
use drive_lab.Jobs.{
  JobRecord, JobManager, Lock, Ledger, World, is_queued, is_locked, lock_owner, set_lock, write_job,
}
use drive_lab.Jobs.Locks.{lock_owner-set, length-set_lock}
use drive_lab.Jobs.Launch.{start, start_eligible_jobs}
use drive_lab.Jobs.Manager.{
  dispatch, enqueue, submit, update_progress, complete, mark_failed, pause, resume, cancel,
  cancel_queued, cancel_active, new_job,
}
use drive_lab.Jobs.Starting.{launched, refused, start-Started, start_not_queued}
use drive_lab.Jobs.Eligible.{Settled, start_loop-Settled}
use drive_lab.Jobs.Sound.{log_locks, on_job_cases, cancel_cases}
use drive_lab.Jobs.Submit.{submit_cases}

abbrev pub IsSettled : JobManager → Type 0
IsSettled m = Settled m.max_parallel_drives m.jobs m.active_locks

abbrev Waits : List Lock → JobRecord → Type 0
Waits ls j = is_queued j.state ≡ true → is_locked j.drive_id ls ≡ true

pub start_eligible_jobs-IsSettled :
    (w : World) (m : JobManager) → IsSettled (start_eligible_jobs w m)
unfolding start_eligible_jobs
start_eligible_jobs-IsSettled w m =
    start_loop-Settled w m.mode m.max_parallel_drives (suc (length m.jobs)) m.jobs m.ledger
      (omega (arith, count_if-le-length (λ (j : JobRecord). is_queued j.state) m.jobs))

write-Waits :
    (ls : List Lock) (id : ℕ) (j' : JobRecord) (js : List JobRecord)
    → is_queued j'.state ≡ false
    → All (Waits ls) js
    → All (Waits ls) (write_job id j' js)
unfolding write_job
write-Waits ls id j' [] q h = tt
write-Waits ls id j' (j ∷ js) q h = elim (Bool-cases (j.id == id)) [
  | inl hit ↦ rw hit (λ k. ground arith, h.1)
  | inr miss ↦ rw miss (h.0, write-Waits ls id j' js q h.1)
]

write-Settled :
    (limit : ℕ) (ls : List Lock) (id : ℕ) (j' : JobRecord) (js : List JobRecord)
    → is_queued j'.state ≡ false
    → Settled limit js ls
    → Settled limit (write_job id j' js) ls
write-Settled limit ls id j' js q (inl full) = inl full
write-Settled limit ls id j' js q (inr h) = inr (write-Waits ls id j' js q h)

is_locked-set :
    (d e : DriveId) (id : ℕ) (ls : List Lock)
    → is_locked e ls ≡ true
    → is_locked e (set_lock d id ls) ≡ true
is_locked-set d e id ls h = ground (arith, lock_owner-set d e id ls)

append-Settled :
    (limit : ℕ) (ls : List Lock) (j : JobRecord) (js : List JobRecord)
    → (is_queued j.state ≡ false) ⊎ ((is_locked j.drive_id ls ≡ true) ⊎ (limit ≤ length ls))
    → Settled limit js ls
    → Settled limit (js ++ (j ∷ [])) ls
append-Settled limit ls j js h (inl full) = inl full
append-Settled limit ls j js (inl q) (inr a) =
    inr (All-append (Waits ls) js (j ∷ []) a (λ k. ground arith, tt))
append-Settled limit ls j js (inr (inl l)) (inr a) =
    inr (All-append (Waits ls) js (j ∷ []) a (λ k. l, tt))
append-Settled limit ls j js (inr (inr full)) (inr a) = inl full

set-Settled :
    (limit : ℕ) (d : DriveId) (id : ℕ) (ls : List Lock) (js : List JobRecord)
    → lock_owner d ls ≡ none
    → Settled limit js ls
    → Settled limit js (set_lock d id ls)
set-Settled limit d id ls js free (inl full) = inl (omega (arith, length-set_lock d id ls free))
set-Settled limit d id ls js free (inr h) = inr (
    All-map {P = Waits ls} {Q = Waits (set_lock d id ls)}
      (λ j wait q. is_locked-set d j.drive_id id ls (wait q)) js h)

start-Settled :
    (w : World) (mode : ExecutionMode) (limit : ℕ) (j : JobRecord) (js : List JobRecord)
    (l : Ledger)
    → lock_owner j.drive_id l.active_locks ≡ none
    → Settled limit js l.active_locks
    → Settled limit js (start w mode j l).1.active_locks
start-Settled w mode limit j js l free h = elim (start-Started w mode j l) [
  | launched _ _ _ _ e ↦ rw e (set-Settled limit j.drive_id j.id l.active_locks js free h)
  | refused _ _ e ↦ rw e h
]

dispatch-IsSettled :
    (w : World) (job : JobRecord) (m : JobManager) → IsSettled m → IsSettled (dispatch w job m)
unfolding dispatch
dispatch-IsSettled w job m h = elim (Bool-cases (is_queued job.state)) [
  | inr plan ↦
      rw (plan, log_locks w)
        (append-Settled m.max_parallel_drives m.active_locks job m.jobs (inl plan) h)
  | inl q ↦
      elim (Bool-cases (
        is_locked job.drive_id m.active_locks
        || leb m.max_parallel_drives (length m.active_locks))) [
          | inl wait ↦
              rw (q, wait, log_locks w)
                (append-Settled m.max_parallel_drives m.active_locks job m.jobs (inr (ground arith))
                  h)
          | inr go ↦
              rw (q, go)
                (append-Settled m.max_parallel_drives (start w m.mode job m.ledger).1.active_locks
                  (start w m.mode job m.ledger).0 m.jobs
                  (inl (start_not_queued w m.mode job m.ledger))
                  (start-Settled w m.mode m.max_parallel_drives job m.jobs m.ledger (ground arith)
                    h))
        ]
]

module _ (w : World) (m : JobManager) (h : IsSettled m) where
  pub submit-IsSettled : (op : OperationRequest) → IsSettled (submit w op m).0
  submit-IsSettled op = submit_cases IsSettled w op m h λ id a e f.
      unfold enqueue in dispatch-IsSettled w (new_job op id a m.next_id (w.now m.calls)) _ h

  pub update_progress-IsSettled :
      (id : ℕ) (p : ℤ) (r : Option ℤ) → IsSettled (update_progress id p r m).0
  unfolding update_progress
  update_progress-IsSettled id p r = on_job_cases IsSettled id _ _ _ m h λ j e a.
      elim (Bool-cases (is_negative p || exceeds p 100)) [
        | inl bad ↦ rw bad h
        | inr good ↦
            rw good
              (write-Settled m.max_parallel_drives m.active_locks id _ m.jobs (ground arith) h)
      ]

  pub complete-IsSettled : (id : ℕ) → IsSettled (complete w id m).0
  unfolding complete
  complete-IsSettled id =
      on_job_cases IsSettled id _ _ _ m h λ j e a. start_eligible_jobs-IsSettled w _

  pub mark_failed-IsSettled : (id : ℕ) (error : Error) → IsSettled (mark_failed w id error m).0
  unfolding mark_failed
  mark_failed-IsSettled id error =
      on_job_cases IsSettled id _ _ _ m h λ j e a. start_eligible_jobs-IsSettled w _

  pub pause-IsSettled : (id : ℕ) → IsSettled (pause w id m).0
  unfolding pause
  pause-IsSettled id = on_job_cases IsSettled id _ _ _ m h λ j e a.
      rw (log_locks w) (write-Settled m.max_parallel_drives m.active_locks id _ m.jobs refl h)

  pub resume-IsSettled : (id : ℕ) → IsSettled (resume w id m).0
  unfolding resume
  resume-IsSettled id = on_job_cases IsSettled id _ _ _ m h λ j e a.
      rw (log_locks w) (write-Settled m.max_parallel_drives m.active_locks id _ m.jobs refl h)

  pub cancel-IsSettled : (id : ℕ) → IsSettled (cancel w id m).0
  cancel-IsSettled id =
      cancel_cases IsSettled w id m h
        (λ j e q.
          unfold cancel_queued in
          rw (log_locks w) (write-Settled m.max_parallel_drives m.active_locks id _ m.jobs refl h))
        (λ j e a c. unfold cancel_active in start_eligible_jobs-IsSettled w _)
