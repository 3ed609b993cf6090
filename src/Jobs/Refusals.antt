-- ===== src/Jobs/Refusals.antt =====
-- The calls that jobs/job_manager.cpp refuses.
use drive_lab.Prelude.{
  ℕ, ◌≡◌, refl, ◌↔◌, ◌⊎◌, inl, inr, Bool, true, false, not, ◌&&◌, ◌||◌, Option, some, List, [], ◌∷◌,
  ℤ, is_negative, exceeds, Within, pos, negsuc, Text, any_of, find_if, ◌==◌, arith, Bool-cases,
  Option-cases,
}
use drive_lab.Drive.{drive_id}
use drive_lab.Drive.Identity.{drive_id-ok_iff}
use mathlib.Core.Path.{subst}
use drive_lab.Operation.{OperationRequest}
use drive_lab.Result.{Result, Result-cases, is_ok}
use drive_lab.Safety.{authorize}
use drive_lab.Safety.Policy.{Permits, grant, authorize_iff}
use drive_lab.Jobs.{
  JobRecord, JobManager, World, running, paused, queued, starting, is_live, is_queued, find_job,
}
use drive_lab.Jobs.Manager.{
  on_job, invalid_transition, enqueue, submit, update_progress, complete, mark_failed, pause,
  resume, cancel, cancel_queued, cancel_active, can_terminate,
}
use drive_lab.Jobs.Runs.{Call, submits, reports, completes, pauses, resumes, cancels, fails, step}

-- Whether a call returns a success.
unfoldable pub accepted : World → JobManager → Call → Bool
accepted w m (submits op) = is_ok (submit w op m).1
accepted w m (reports id p r) = is_ok (update_progress id p r m).1
accepted w m (completes id) = is_ok (complete w id m).1
accepted w m (pauses id) = is_ok (pause w id m).1
accepted w m (resumes id) = is_ok (resume w id m).1
accepted w m (cancels id) = is_ok (cancel w id m).1
accepted w m (fails id e) = is_ok (mark_failed w id e m).1

-- A call that fails leaves the manager as it was.
abbrev Atomic {ℓ} : {A : Type ℓ} → JobManager → JobManager × Result A → Type 0
Atomic m r = is_ok r.1 ≡ false → r.0 ≡ m

on_job-Atomic :
    (id : ℕ) (allowed : JobRecord → Bool) (message : Text)
    (act : JobRecord → JobManager × Result (Unit {0})) (m : JobManager)
    → ((j : JobRecord) → Atomic m (act j))
    → Atomic m (on_job id allowed message act m)
unfolding on_job
on_job-Atomic id allowed message act m h = elim (Option-cases (find_job id m.jobs)) [
  | inl e ↦ rw (e, on_job) (λ _. refl)
  | inr (j, e) ↦ elim (Bool-cases (allowed j)) [
    | inl a ↦ rw (e, on_job, a) (h j)
    | inr a ↦ rw (e, on_job, a) (λ _. refl)
  ]
]

submit-Atomic : (w : World) (op : OperationRequest) (m : JobManager) → Atomic m (submit w op m)
unfolding submit enqueue
submit-Atomic w op m = elim (Result-cases (drive_id op.target.identity)) [
  | inr (x, e) ↦ rw (e, submit) (λ _. refl)
  | inl (id, e) ↦ elim (Result-cases (authorize op.target op.safety_class m.mode)) [
    | inr (x, f) ↦ rw (e, submit, f) (λ _. refl)
    | inl (a, f) ↦ rw (e, submit, f) (λ q. cc)
  ]
]

update_progress-Atomic :
    (id : ℕ) (p : ℤ) (r : Option ℤ) (m : JobManager) → Atomic m (update_progress id p r m)
unfolding update_progress
update_progress-Atomic id p r m = on_job-Atomic id _ _ _ m λ j.
    elim (Bool-cases (is_negative p || exceeds p 100)) [
      | inl bad ↦ rw bad (λ _. refl)
      | inr good ↦ rw good (λ q. cc)
    ]

cancel-Atomic : (w : World) (id : ℕ) (m : JobManager) → Atomic m (cancel w id m)
unfolding cancel cancel_queued cancel_active
cancel-Atomic w id m = elim (Option-cases (find_job id m.jobs)) [
  | inl e ↦ rw (e, cancel) (λ _. refl)
  | inr (j, e) ↦ elim (Bool-cases (is_queued j.state)) [
    | inl q ↦ rw (e, cancel, q) (λ q. cc)
    | inr q ↦ elim (Bool-cases (is_live j.state && j.operation.controls.can_cancel)) [
      | inl a ↦ rw (e, cancel, q, a) (λ q. cc)
      | inr a ↦ rw (e, cancel, q, a) (λ _. refl)
    ]
  ]
]

-- A call that returns a failure leaves the manager as it was, its log included.
pub refused-unchanged :
    (w : World) (m : JobManager) (c : Call) → accepted w m c ≡ false → step w m c ≡ m
unfolding accepted step complete pause resume mark_failed
refused-unchanged w m (submits op) = submit-Atomic w op m
refused-unchanged w m (reports id p r) = update_progress-Atomic id p r m
refused-unchanged w m (completes id) = on_job-Atomic id _ _ _ m (λ j q. cc)
refused-unchanged w m (pauses id) = on_job-Atomic id _ _ _ m (λ j q. cc)
refused-unchanged w m (resumes id) = on_job-Atomic id _ _ _ m (λ j q. cc)
refused-unchanged w m (cancels id) = cancel-Atomic w id m
refused-unchanged w m (fails id e) = on_job-Atomic id _ _ _ m (λ j q. cc)

-- The job that a call names is on record and passes a test.
abbrev pub Finds : JobManager → ℕ → (JobRecord → Type 0) → Type 0
Finds m id P = (j : JobRecord) × (find_job id m.jobs ≡ some j) × P j

-- What each call asks for.
unfoldable pub Acceptable : JobManager → Call → Type 0
Acceptable m (submits op) = Permits op.target op.safety_class m.mode
Acceptable m (reports id p r) = Finds m id (λ j. (is_live j.state ≡ true) × Within 100 p)
Acceptable m (completes id) = Finds m id (λ j. is_live j.state ≡ true)
Acceptable m (pauses id) =
    Finds m id (λ j. (j.state ≡ running) × (j.operation.controls.can_pause ≡ true))
Acceptable m (resumes id) =
    Finds m id (λ j. (j.state ≡ paused) × (j.operation.controls.can_resume ≡ true))
Acceptable m (cancels id) = Finds m id (λ j.
    (j.state ≡ queued) ⊎ ((is_live j.state ≡ true) × (j.operation.controls.can_cancel ≡ true)))
Acceptable m (fails id e) = Finds m id (λ j. (j.state ≡ starting) ⊎ (is_live j.state ≡ true))

some-injective {ℓ} : {A : Type ℓ} (x y : A) → some x ≡ some y → y ≡ x
some-injective x y e = cc

on_job-ok_iff :
    (P : JobRecord → Type 0) (id : ℕ) (allowed : JobRecord → Bool) (message : Text)
    (act : JobRecord → JobManager × Result (Unit {0})) (m : JobManager)
    → ((j : JobRecord) → ((allowed j ≡ true) × (is_ok (act j).1 ≡ true)) ↔ P j)
    → (is_ok (on_job id allowed message act m).1 ≡ true) ↔ Finds m id P
unfolding on_job invalid_transition
on_job-ok_iff P id allowed message act m h = elim (Option-cases (find_job id m.jobs)) [
  | inl e ↦ rw (e, on_job) (λ q. cc, λ (j, f, p). cc)
  | inr (j, e) ↦ elim (Bool-cases (allowed j)) [
    | inl a ↦
        rw (e, on_job, a)
          (
            λ q. (j, refl, (h j).0 (a, q)),
            λ (k, f, p). ((h j).1 (subst P (some-injective j k f) p)).1,
          )
    | inr a ↦
        rw (e, on_job, a)
          (λ q. cc, λ (k, f, p). cc (((h j).1 (subst P (some-injective j k f) p)).0, a))
  ]
]

submit-ok_iff :
    (w : World) (op : OperationRequest) (m : JobManager)
    → (is_ok (submit w op m).1 ≡ true) ↔ Permits op.target op.safety_class m.mode
unfolding submit enqueue
submit-ok_iff w op m = elim (Result-cases (drive_id op.target.identity)) [
  | inr (x, e) ↦
      rw (e, submit)
        (λ q. cc, λ p. let (id, f) = (drive_id-ok_iff op.target.identity).1 p.identified in cc)
  | inl (id, e) ↦ elim (Result-cases (authorize op.target op.safety_class m.mode)) [
    | inr (x, f) ↦
        rw (e, submit, f)
          (
            λ q. cc,
            λ p.
                cc ((authorize_iff op.target op.safety_class m.mode (grant m.mode)).1 (p, refl), f),
          )
    | inl (a, f) ↦
        rw (e, submit, f)
          (λ q. ((authorize_iff op.target op.safety_class m.mode a).0 f).0, λ p. refl)
  ]
]

cancel-ok_iff :
    (w : World) (id : ℕ) (m : JobManager)
    → (is_ok (cancel w id m).1 ≡ true) ↔ Acceptable m (cancels id)
unfolding Acceptable cancel cancel_queued cancel_active invalid_transition
cancel-ok_iff w id m = elim (Option-cases (find_job id m.jobs)) [
  | inl e ↦ rw (e, cancel) (λ q. cc, λ (j, f, p). cc)
  | inr (j, e) ↦ elim (Bool-cases (is_queued j.state)) [
    | inl q ↦ rw (e, cancel, q) (λ p. (j, refl, ground arith), λ p. refl)
    | inr q ↦ elim (Bool-cases (is_live j.state && j.operation.controls.can_cancel)) [
      | inl a ↦ rw (e, cancel, q, a) (λ p. (j, refl, ground arith), λ p. refl)
      | inr a ↦ rw (e, cancel, q, a) (λ q. cc, λ (k, f, p). ground (arith, some-injective j k f))
    ]
  ]
]

report-ok_iff :
    (id : ℕ) (p : ℤ) (r : Option ℤ) (m : JobManager)
    → (is_ok (update_progress id p r m).1 ≡ true) ↔ Acceptable m (reports id p r)
unfolding Acceptable update_progress
report-ok_iff id (pos n) r m = on_job-ok_iff _ id _ _ _ m (λ j. ground arith)
report-ok_iff id (negsuc n) r m = on_job-ok_iff _ id _ _ _ m (λ j. ground arith)

-- Which calls succeed: `submit` exactly for an operation that the policy permits on the drive as
-- described; every other call exactly for a job on record whose state, and whose controls for
-- pause, resume and cancel, admit the call, and `updateProgress` only with 0 to 100 percent.
pub accepted_iff :
    (w : World) (m : JobManager) (c : Call) → (accepted w m c ≡ true) ↔ Acceptable m c
unfolding accepted Acceptable complete pause resume mark_failed
accepted_iff w m (submits op) = submit-ok_iff w op m
accepted_iff w m (reports id p r) = report-ok_iff id p r m
accepted_iff w m (completes id) = on_job-ok_iff _ id _ _ _ m (λ j. ground arith)
accepted_iff w m (pauses id) = on_job-ok_iff _ id _ _ _ m (λ j. ground arith)
accepted_iff w m (resumes id) = on_job-ok_iff _ id _ _ _ m (λ j. ground arith)
accepted_iff w m (cancels id) = cancel-ok_iff w id m
accepted_iff w m (fails id e) = on_job-ok_iff _ id _ _ _ m (λ j. ground arith)

any_of-false :
    (p : JobRecord → Bool) (js : List JobRecord) (id : ℕ) (j : JobRecord)
    → any_of p js ≡ false
    → find_if (λ k. k.id == id) js ≡ some j
    → p j ≡ false
unfolding any_of find_if
any_of-false p [] id j a f = cc
any_of-false p (k ∷ js) id j a f = ground (arith, any_of-false p js id j)

-- When `canTerminate` says so, cancelling any job that is running or paused succeeds.
pub can_terminate-accepted :
    (w : World) (m : JobManager)
    → can_terminate m ≡ true
    → (id : ℕ) (j : JobRecord) → find_job id m.jobs ≡ some j
    → is_live j.state ≡ true
    → accepted w m (cancels id) ≡ true
unfolding can_terminate find_job Acceptable
can_terminate-accepted w m t id j f a = (accepted_iff w m (cancels id)).1 (
  j,
  f,
  inr (
    a,
    ground (
      arith,
      any_of-false (λ j. is_live j.state && not j.operation.controls.can_cancel) m.jobs id j,
    ),
  ),
)
