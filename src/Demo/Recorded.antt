-- ===== src/Demo/Recorded.antt =====
-- The job that `runWorkflow` of app/demo_session.cpp has submitted, found again.
use drive_lab.Prelude.{
  ℕ, ◌≡◌, refl, ap, ◌∙◌, inl, inr, true, ◌||◌, Option, some, List, [], ◌∷◌, ◌++◌, ==_refl, leb,
  length, ℤ, pos, Text, arith, Bool-cases, Option-cases,
}
use mathlib.Core.Path.{subst}
use drive_lab.Result.{ok, Result-cases, is_ok}
use drive_lab.Drive.{drive_id}
use drive_lab.Operation.{OperationRequest}
use drive_lab.Safety.{authorize}
use drive_lab.Jobs.{
  JobManager, JobRecord, World, is_live, is_running, is_queued, is_locked, find_job, write_job,
}
use drive_lab.Jobs.Find.{find_job-id, find_job-write, find_job-append_some, find_job-append_none}
use drive_lab.Jobs.Launch.{start, called}
use drive_lab.Jobs.Starting.{start-Same}
use drive_lab.Jobs.Manager.{
  submit, enqueue, dispatch, new_job, next_job_id, update_progress, on_job,
}
use drive_lab.Demo.{DemoFeature, DemoWorkflowCommand}
use drive_lab.Demo.State.{DemoWorld, DemoState}
use drive_lab.Demo.Workflows.{report_started, announce, submitted}

-- A job that `submit` accepts is on record.
abbrev pub OnRecord : ℕ → JobManager → Type 0
OnRecord id m = (j : JobRecord) × (find_job id m.jobs ≡ some j)

append-OnRecord :
    (js : List JobRecord) (n : JobRecord) (k : ℕ)
    → n.id ≡ k
    → (j : JobRecord) × (find_job k (js ++ (n ∷ [])) ≡ some j)
append-OnRecord js n k e = elim (Option-cases (find_job k js)) [
  | inr (j, f) ↦ (j, find_job-append_some k js n j f)
  | inl f ↦ (n, ground (arith, find_job-append_none k js n, ==_refl k))
]

dispatch-OnRecord :
    (w : World) (job : JobRecord) (m : JobManager) → OnRecord job.id (dispatch w job m)
unfolding dispatch
dispatch-OnRecord w job m = elim (Bool-cases (is_queued job.state)) [
  | inr plan ↦ rw plan (append-OnRecord m.jobs job job.id refl)
  | inl q ↦
      elim (Bool-cases (
        is_locked job.drive_id m.active_locks
        || leb m.max_parallel_drives (length m.active_locks))) [
          | inl wait ↦ rw (q, wait) (append-OnRecord m.jobs job job.id refl)
          | inr go ↦
              rw (q, go)
                (append-OnRecord m.jobs (start w m.mode job m.ledger).0 job.id
                  (start-Same w m.mode job m.ledger).same_id)
        ]
]

pub submit-OnRecord :
    (w : World) (op : OperationRequest) (m : JobManager) (id : ℕ)
    → (submit w op m).1 ≡ ok id
    → OnRecord id (submit w op m).0
unfolding submit enqueue
submit-OnRecord w op m id h = elim (Result-cases (drive_id op.target.identity)) [
  | inr (x, e) ↦ cc (rw (e, submit) at h)
  | inl (d, e) ↦ elim (Result-cases (authorize op.target op.safety_class m.mode)) [
    | inr (x, f) ↦ cc (rw (e, submit, f) at h)
    | inl (a, f) ↦
        let i : m.next_id ≡ id = cc (rw (e, submit, f) at h) in
        rw (e, submit, f)
          (subst (λ k. OnRecord k (enqueue w op d a m).0) i
            (dispatch-OnRecord w (new_job op d a m.next_id (w.now m.calls))
              (record m { next_id = next_job_id m.next_id; ledger = called m.ledger })))
  ]
]

-- A first report reaches a job that runs.
update_progress-reached :
    (id : ℕ) (r : Option ℤ) (m : JobManager) (j : JobRecord)
    → find_job id m.jobs ≡ some j
    → is_running j.state ≡ true
    → update_progress id (pos 0) r m ≡ (
      record m {
        jobs = write_job id (record j { progress_percent = pos 0; estimated_remaining = r }) m.jobs;
      },
      ok tt,
    )
unfolding update_progress on_job
update_progress-reached id r m j f a =
    let live : is_live j.state ≡ true = ground arith in rw (f, on_job, live) refl

report_started-OnRecord :
    (id : ℕ) (m : JobManager)
    → OnRecord id m
    → ((report_started id m).1 ≡ ok tt) × OnRecord id (report_started id m).0
unfolding report_started
report_started-OnRecord id m (j, f) = elim (Bool-cases (is_running j.state)) [
  | inr idle ↦ rw (f, report_started, idle) (refl, (j, f))
  | inl a ↦
      let e : j.id ≡ id = find_job-id id m.jobs j f in
      let g : find_job j.id m.jobs ≡ some j = ap (λ k. find_job k m.jobs) e ∙ f in
      let j' : JobRecord = record j {
        progress_percent = pos 0;
        estimated_remaining = some (pos 25);
      } in
      rw (f, report_started, a, update_progress-reached j.id (some (pos 25)) m j g a)
        (refl, (j', ground (arith, find_job-write j.id id j' m.jobs j g refl)))
]

pub submitted-ok :
    (w : DemoWorld) (feature : DemoFeature) (command : DemoWorkflowCommand) (path : Text) (id : ℕ)
    (s : DemoState)
    → OnRecord id s.jobs
    → is_ok (submitted w feature command path id s).1 ≡ true
unfolding submitted announce
submitted-ok w feature command path id s o =
    let (e, (j, f)) = report_started-OnRecord id s.jobs o in rw (e, submitted, f) refl
