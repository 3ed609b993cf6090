-- ===== src/Jobs/Runs.antt =====
-- Sequences of calls of the public operations of jobs/job_manager.cpp.
use drive_lab.Prelude.{
  find_if, ℕ, ◌+◌, ◌^◌, ◌<◌, ◌≤◌, ◌≡◌, refl, ◌∙◌, inl, inr, Bool, true, false, Bool-cases, Option,
  some, List, [], ◌∷◌, ℤ, length, count_if, arith,
}
use drive_lab.Mode.{ExecutionMode}
use drive_lab.Operation.{OperationRequest}
use drive_lab.Result.{Error}
use drive_lab.Jobs.{JobRecord, JobManager, World, find_job, lock_owner}
use drive_lab.Jobs.Manager.{
  new_manager, submit, update_progress, complete, mark_failed, pause, resume, cancel,
}
use drive_lab.Jobs.Moves.{board}
use drive_lab.Jobs.Lockstep.{InStep}
use drive_lab.Jobs.Lockstep.Keeps.{Moves-InStep}
use drive_lab.Jobs.Sound.{
  Did, update_progress-Did, complete-Did, mark_failed-Did, pause-Did, resume-Did, cancel-Did,
}
use drive_lab.Jobs.Submit.{submit-Did}
use drive_lab.Jobs.History.{
  Survives, Moves-Survives, Grown-trans, Grown-refl, AllLawful, Moves-AllLawful,
}
use drive_lab.Jobs.Setup.{
  Kept, submit-Kept, update_progress-Kept, complete-Kept, mark_failed-Kept, pause-Kept, resume-Kept,
  cancel-Kept, update_progress-next_id, complete-next_id, mark_failed-next_id, pause-next_id,
  resume-next_id, cancel-next_id,
}
use drive_lab.Jobs.Conserving.{
  IsSettled, submit-IsSettled, update_progress-IsSettled, complete-IsSettled, mark_failed-IsSettled,
  pause-IsSettled, resume-IsSettled, cancel-IsSettled,
}

-- A call of the manager.
pub data Call : Type 0 where
  submits : OperationRequest → Call
  reports : ℕ → ℤ → Option ℤ → Call
  completes pauses resumes cancels : ℕ → Call
  fails : ℕ → Error → Call

unfoldable pub step : World → JobManager → Call → JobManager
step w m (submits op) = (submit w op m).0
step w m (reports id p r) = (update_progress id p r m).0
step w m (completes id) = (complete w id m).0
step w m (pauses id) = (pause w id m).0
step w m (resumes id) = (resume w id m).0
step w m (cancels id) = (cancel w id m).0
step w m (fails id e) = (mark_failed w id e m).0

unfoldable pub run : World → JobManager → List Call → JobManager
run w m [] = m
run w m (c ∷ cs) = run w (step w m c) cs

-- What holds between two calls.
pub record Consistent (w : World) (m : JobManager) : Type 0 where
  pub in_step : InStep m.max_parallel_drives (board m)
  pub lawful : AllLawful w m.mode m.jobs
  pub settled : IsSettled m

abbrev pub is_submission : Call → Bool
is_submission (submits op) = true
is_submission _ = false

quiet-Did :
    (w : World) (m : JobManager) (c : Call)
    → is_submission c ≡ false
    → Consistent w m
    → Did w m (step w m c)
unfolding step
quiet-Did w m (submits op) q v = cc
quiet-Did w m (reports id p r) q v = update_progress-Did w m v.in_step id p r
quiet-Did w m (completes id) q v = complete-Did w m v.in_step id
quiet-Did w m (pauses id) q v = pause-Did w m v.in_step id
quiet-Did w m (resumes id) q v = resume-Did w m v.in_step id
quiet-Did w m (cancels id) q v = cancel-Did w m v.in_step id
quiet-Did w m (fails id e) q v =
    mark_failed-Did w m v.in_step id e (λ k j f. (v.lawful k j f).at_rest)

quiet-next_id :
    (w : World) (m : JobManager) (c : Call)
    → is_submission c ≡ false
    → (step w m c).next_id ≡ m.next_id
unfolding step
quiet-next_id w m (submits op) q = cc
quiet-next_id w m (reports id p r) q = update_progress-next_id w m id p r
quiet-next_id w m (completes id) q = complete-next_id w m id
quiet-next_id w m (pauses id) q = pause-next_id w m id
quiet-next_id w m (resumes id) q = resume-next_id w m id
quiet-next_id w m (cancels id) q = cancel-next_id w m id
quiet-next_id w m (fails id e) q = mark_failed-next_id w m id e

submission-Did :
    (w : World) (m : JobManager) (c : Call)
    → is_submission c ≡ true
    → m.next_id + 1 < 2 ^ 64
    → Consistent w m
    → Did w m (step w m c)
unfolding step
submission-Did w m (submits op) s h v = submit-Did w m v.in_step op h
submission-Did w m (reports id p r) s h v = cc
submission-Did w m (completes id) s h v = cc
submission-Did w m (pauses id) s h v = cc
submission-Did w m (resumes id) s h v = cc
submission-Did w m (cancels id) s h v = cc
submission-Did w m (fails id e) s h v = cc

-- Every call of a consistent manager moves its board, the job list with the locks and the next id,
-- by a sequence of the moves that an abstract board allows, as long as the next job id is not the
-- last that 64 bits hold.
pub step-Did :
    (w : World) (m : JobManager) (c : Call)
    → m.next_id + 1 < 2 ^ 64
    → Consistent w m
    → Did w m (step w m c)
step-Did w m c h v = elim (Bool-cases (is_submission c)) [
  | inl s ↦ submission-Did w m c s h v
  | inr q ↦ quiet-Did w m c q v
]

step-IsSettled : (w : World) (m : JobManager) (c : Call) → IsSettled m → IsSettled (step w m c)
unfolding step
step-IsSettled w m (submits op) h = submit-IsSettled w m h op
step-IsSettled w m (reports id p r) h = update_progress-IsSettled w m h id p r
step-IsSettled w m (completes id) h = complete-IsSettled w m h id
step-IsSettled w m (pauses id) h = pause-IsSettled w m h id
step-IsSettled w m (resumes id) h = resume-IsSettled w m h id
step-IsSettled w m (cancels id) h = cancel-IsSettled w m h id
step-IsSettled w m (fails id e) h = mark_failed-IsSettled w m h id e

pub step-Kept : (w : World) (m : JobManager) (c : Call) → Kept m (step w m c)
unfolding step
step-Kept w m (submits op) = submit-Kept w m op
step-Kept w m (reports id p r) = update_progress-Kept w m id p r
step-Kept w m (completes id) = complete-Kept w m id
step-Kept w m (pauses id) = pause-Kept w m id
step-Kept w m (resumes id) = resume-Kept w m id
step-Kept w m (cancels id) = cancel-Kept w m id
step-Kept w m (fails id e) = mark_failed-Kept w m id e

Did-Consistent :
    (w : World) (m : JobManager) (c : Call)
    → Did w m (step w m c)
    → Consistent w m
    → Consistent w (step w m c)
Did-Consistent w m c d v =
    let k = step-Kept w m c in
    record {
      in_step = rw k.same_limit (Moves-InStep d v.in_step);
      lawful = rw k.same_mode (Moves-AllLawful d v.lawful);
      settled = step-IsSettled w m c v.settled;
    }

-- Every call of a consistent manager leaves it consistent, as long as the next job id is not the last
-- that 64 bits hold.
pub step-Consistent :
    (w : World) (m : JobManager) (c : Call)
    → m.next_id + 1 < 2 ^ 64
    → Consistent w m
    → Consistent w (step w m c)
step-Consistent w m c h v = Did-Consistent w m c (step-Did w m c h v) v

-- A call that submits nothing takes no job id.
pub quiet-Consistent :
    (w : World) (m : JobManager) (c : Call)
    → is_submission c ≡ false
    → Consistent w m
    → Consistent w (step w m c) × ((step w m c).next_id ≡ m.next_id)
quiet-Consistent w m c q v = (Did-Consistent w m c (quiet-Did w m c q v) v, quiet-next_id w m c q)

pub run-Consistent :
    (w : World) (m : JobManager) (cs : List Call)
    → m.next_id + length cs < 2 ^ 64
    → Consistent w m
    → Consistent w (run w m cs)
unfolding run
run-Consistent w m [] h v = v
run-Consistent w m (c ∷ cs) h v =
    run-Consistent w (step w m c) cs (omega (arith, (step-Kept w m c).next_bound))
      (step-Consistent w m c (omega arith) v)

pub run-Survives :
    (w : World) (m : JobManager) (cs : List Call) (k : ℕ) (i : JobRecord)
    → m.next_id + length cs < 2 ^ 64
    → Consistent w m
    → find_job k m.jobs ≡ some i
    → Survives k i (run w m cs).jobs
unfolding run
run-Survives w m [] k i h v f = (i, f, Grown-refl i)
run-Survives w m (c ∷ cs) k i h v f =
    let (j, g, u) = Moves-Survives k i (step-Did w m c (omega arith) v) f in
    let (l, e, t) =
      run-Survives w (step w m c) cs k j (omega (arith, (step-Kept w m c).next_bound))
        (step-Consistent w m c (omega arith) v) g in
    (l, e, Grown-trans i j l u t)

pub run-next_id :
    (w : World) (m : JobManager) (cs : List Call) → (run w m cs).next_id ≤ m.next_id + length cs
unfolding run
run-next_id w m [] = omega arith
run-next_id w m (c ∷ cs) =
    omega (arith, (step-Kept w m c).next_bound, run-next_id w (step w m c) cs)

pub run-Kept :
    (w : World) (m : JobManager) (cs : List Call)
    → ((run w m cs).mode ≡ m.mode) × ((run w m cs).max_parallel_drives ≡ m.max_parallel_drives)
unfolding run
run-Kept w m [] = (refl, refl)
run-Kept w m (c ∷ cs) =
    let k = step-Kept w m c in
    let r = run-Kept w (step w m c) cs in (r.0 ∙ k.same_mode, r.1 ∙ k.same_limit)

new_manager-Consistent :
    (w : World) (mode : ExecutionMode) (limit : ℕ) → Consistent w (new_manager mode limit)
unfolding new_manager find_job find_if lock_owner count_if
new_manager-Consistent w mode limit = record {
  in_step = record {
    fresh = λ k le. refl;
    distinct = tt;
    keys = tt;
    held = λ k j f a. absurd (cc);
    owned = λ d id e. absurd (cc);
    bounded = omega arith;
    counted = refl;
  };
  lawful = λ k j f. absurd (cc);
  settled = inr tt;
}

-- The manager after any calls since it was made.
abbrev pub after_calls : World → ExecutionMode → ℕ → List Call → JobManager
after_calls w mode limit cs = run w (new_manager mode limit) cs

pub after_calls-Consistent :
    (w : World) (mode : ExecutionMode) (limit : ℕ) (cs : List Call)
    → length cs + 1 < 2 ^ 64
    → Consistent w (after_calls w mode limit cs)
after_calls-Consistent w mode limit cs h =
    run-Consistent w (new_manager mode limit) cs (unfold new_manager in omega arith)
      (new_manager-Consistent w mode limit)
