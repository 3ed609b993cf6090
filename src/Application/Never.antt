-- ===== src/Application/Never.antt =====
-- The mode in which an application of app/core_application.cpp works.
use drive_lab.Prelude.{
  ℕ, ◌≡◌, ◌≢◌, refl, ◌∙◌, ap, ◌⊎◌, inl, inr, true, false, List, [], ◌∷◌, ℤ, Text, Bool-cases,
}
use mathlib.Core.Path.{subst}
use drive_lab.Result.{Result, ok, Result-cases}
use drive_lab.Mode.{ExecutionMode, real, demo, dry_run}
use drive_lab.Drive.{Drive}
use drive_lab.Operation.{OperationRequest}
use drive_lab.Options.{AppConfig, validate}
use drive_lab.Providers.{HealthTestType, AtaInspectionType, BenchmarkProfile, SanitizeMethod}
use drive_lab.Jobs.{JobManager, World}
use drive_lab.Jobs.Manager.{submit, new_manager}
use drive_lab.Jobs.Runs.{submits, step, step-Kept}
use drive_lab.Demo.State.{DemoWorld, DemoState, DemoSession, add_event, create}
use drive_lab.Demo.Calls.{
  Closed, SessionCall, scans, runs, pauses_job, resumes_job, cancels_job, asks_to_end, waits,
  session_step,
}
use drive_lab.Demo.Calls.Asking.{session_step-keeps}
use drive_lab.Demo.Runs.{create-same_jobs}
use drive_lab.Application.{
  Backend, alone, shared, CoreApplication, jobs_of, is_real, is_demo, new_application, create_mock,
  widened, world_of, create_demo,
}
use drive_lab.Application.Commands.{
  with_jobs, submit_planned, submit_health, submit_ata_inspection, submit_benchmark,
  submit_sanitize, tell_session, scan_demo_inventory, run_demo_workflow, pause_demo_job,
  resume_demo_job, cancel_demo_job, advance_session, advance_demo, request_demo_termination,
}

-- What a user asks of an application.
pub data AppCall : Type 0 where
  tests_health : Drive → HealthTestType → AppCall
  inspects : Drive → AtaInspectionType → AppCall
  benchmarks : Drive → BenchmarkProfile → AppCall
  sanitizes : Drive → SanitizeMethod → AppCall
  asks_session : SessionCall → AppCall

unfoldable pub session_call : DemoWorld → SessionCall → CoreApplication → CoreApplication
session_call w scans app = (scan_demo_inventory w app).0
session_call w (runs command) app = (run_demo_workflow w command app).0
session_call w (pauses_job id) app = (pause_demo_job w id app).0
session_call w (resumes_job id) app = (resume_demo_job w id app).0
session_call w (cancels_job id) app = (cancel_demo_job w id app).0
session_call w asks_to_end app = (request_demo_termination w app).0
session_call w (waits elapsed) app = (advance_demo w elapsed app).0

unfoldable pub app_step : DemoWorld → CoreApplication → AppCall → CoreApplication
unfolding session_call
app_step w app (tests_health drive test) = (submit_health w.jobs drive test app).0
app_step w app (inspects drive inspection) = (submit_ata_inspection w.jobs drive inspection app).0
app_step w app (benchmarks drive profile) = (submit_benchmark w.jobs drive profile app).0
app_step w app (sanitizes drive method) = (submit_sanitize w.jobs drive method app).0
app_step w app (asks_session c) = session_call w c app

unfoldable pub app_run : DemoWorld → CoreApplication → List AppCall → CoreApplication
app_run w app [] = app
app_run w app (c ∷ cs) = app_run w (app_step w app c) cs

-- The manager's mode.
abbrev InMode : ExecutionMode → CoreApplication → Type 0
InMode mode app = (jobs_of app.backend).mode ≡ mode

with_jobs-same : (m : JobManager) (b : Backend) → jobs_of (with_jobs m b) ≡ m
with_jobs-same m (alone _) = refl
with_jobs-same m (shared s) = refl

submit-same_mode :
    (w : World) (op : OperationRequest) (m : JobManager) → (submit w op m).0.mode ≡ m.mode
unfolding step
submit-same_mode w op m = (step-Kept w m (submits op)).same_mode

submit_planned-InMode :
    (w : World) (message : Text) (operation : Result OperationRequest) (app : CoreApplication)
    {mode : ExecutionMode}
    → InMode mode app
    → InMode mode (submit_planned w message operation app).0
unfolding submit_planned
submit_planned-InMode w message operation app h = elim (Bool-cases (is_real app.config.mode)) [
  | inl a ↦ rw a h
  | inr a ↦ elim (Result-cases operation) [
    | inr (x, e) ↦ rw (a, e) h
    | inl (op, e) ↦
        rw (a, e, with_jobs-same (submit w op (jobs_of app.backend)).0 app.backend)
          (submit-same_mode w op (jobs_of app.backend) ∙ h)
  ]
]

Mode-Closed : (w : DemoWorld) (mode : ExecutionMode) → Closed w (λ s. s.jobs.mode ≡ mode)
unfolding add_event
Mode-Closed w mode = record {
  keep = λ s c q h. (step-Kept w.jobs s.jobs c).same_mode ∙ h;
  note = λ message s h. h;
  rest = λ s ds p q n h. h;
}

session_step-same_mode :
    (w : DemoWorld) (s : DemoSession) (c : SessionCall) {mode : ExecutionMode}
    → s.jobs.mode ≡ mode
    → (session_step w s c).jobs.mode ≡ mode
session_step-same_mode w s c {mode} h =
    session_step-keeps (Mode-Closed w mode) s.state h (λ op. submit-same_mode w.jobs op s.jobs ∙ h)
      s.tick_remainder c

module _ (w : DemoWorld) (mode : ExecutionMode) where
  tell-InMode {ℓ} :
      {A : Type ℓ} (act : DemoState → DemoState × Result A)
      → ((s : DemoSession) → s.jobs.mode ≡ mode → (act s.state).0.jobs.mode ≡ mode)
      → (b : Backend) → (jobs_of b).mode ≡ mode
      → (jobs_of (tell_session act b).0).mode ≡ mode
  unfolding tell_session
  tell-InMode act f (alone m) h = h
  tell-InMode act f (shared s) h = f s h

  advance-InMode :
      (elapsed : ℤ) (b : Backend)
      → (jobs_of b).mode ≡ mode
      → (jobs_of (advance_session w elapsed b).0).mode ≡ mode
  unfolding advance_session session_step
  advance-InMode elapsed (alone m) h = h
  advance-InMode elapsed (shared s) h = session_step-same_mode w s (waits elapsed) h

  session_call-InMode :
      (c : SessionCall) (app : CoreApplication)
      → InMode mode app
      → InMode mode (session_call w c app)
  unfolding session_call scan_demo_inventory run_demo_workflow pause_demo_job resume_demo_job
      cancel_demo_job request_demo_termination advance_demo session_step
  session_call-InMode scans app h =
      tell-InMode _ (λ s. session_step-same_mode w s scans) app.backend h
  session_call-InMode (runs command) app h =
      tell-InMode _ (λ s. session_step-same_mode w s (runs command)) app.backend h
  session_call-InMode (pauses_job id) app h =
      tell-InMode _ (λ s. session_step-same_mode w s (pauses_job id)) app.backend h
  session_call-InMode (resumes_job id) app h =
      tell-InMode _ (λ s. session_step-same_mode w s (resumes_job id)) app.backend h
  session_call-InMode (cancels_job id) app h =
      tell-InMode _ (λ s. session_step-same_mode w s (cancels_job id)) app.backend h
  session_call-InMode asks_to_end app h =
      tell-InMode _ (λ s. session_step-same_mode w s asks_to_end) app.backend h
  session_call-InMode (waits elapsed) app h = advance-InMode elapsed app.backend h

  app_step-InMode :
      (app : CoreApplication) (c : AppCall) → InMode mode app → InMode mode (app_step w app c)
  unfolding app_step submit_health submit_ata_inspection submit_benchmark submit_sanitize
  app_step-InMode app (tests_health drive test) h = submit_planned-InMode w.jobs _ _ app h
  app_step-InMode app (inspects drive inspection) h = submit_planned-InMode w.jobs _ _ app h
  app_step-InMode app (benchmarks drive profile) h = submit_planned-InMode w.jobs _ _ app h
  app_step-InMode app (sanitizes drive method) h = submit_planned-InMode w.jobs _ _ app h
  app_step-InMode app (asks_session c) h = session_call-InMode c app h

  app_run-InMode :
      (app : CoreApplication) (cs : List AppCall) → InMode mode app → InMode mode (app_run w app cs)
  unfolding app_run
  app_run-InMode app [] h = h
  app_run-InMode app (c ∷ cs) h = app_run-InMode (app_step w app c) cs (app_step-InMode app c h)

-- What the two factories make.
abbrev pub Made : AppConfig → CoreApplication → Type 0
Made config app =
    (create_mock config ≡ ok app)
    ⊎ ((manager_clock session_clock : ℕ → ℕ) × (create_demo manager_clock session_clock config
          ≡ ok app))

new_application-InMode : (config : AppConfig) → InMode config.mode (new_application config)
unfolding new_application new_manager
new_application-InMode config = refl

ok-injective {ℓ} : {A : Type ℓ} (a b : A) → ok a ≡ ok b → a ≡ b
ok-injective a b h = cc

mock-InMode :
    (config : AppConfig) (app : CoreApplication)
    → create_mock config ≡ ok app
    → InMode config.mode app × (is_real config.mode ≡ false)
unfolding create_mock
mock-InMode config app h = elim (Result-cases (validate config)) [
  | inr (x, e) ↦ cc (rw (e, create_mock) at h)
  | inl (u, e) ↦ elim (Bool-cases (is_real config.mode)) [
    | inl a ↦ cc (rw (e, create_mock, a) at h)
    | inr a ↦ (
      subst (InMode config.mode) (ok-injective _ app (rw (e, create_mock, a) at h))
          (new_application-InMode config),
      a,
    )
  ]
]

not_demo_real : (m : ExecutionMode) → is_demo m ≡ true → is_real m ≡ false
not_demo_real real h = cc
not_demo_real demo h = refl
not_demo_real dry_run h = cc

demo-InMode :
    (manager_clock session_clock : ℕ → ℕ) (config : AppConfig) (app : CoreApplication)
    → create_demo manager_clock session_clock config ≡ ok app
    → InMode config.mode app × (is_real config.mode ≡ false)
unfolding create_demo widened
demo-InMode c k config app h = elim (Bool-cases (is_demo config.mode)) [
  | inr a ↦ cc (rw (a, create_demo) at h)
  | inl a ↦ elim (Result-cases (validate config)) [
    | inr (x, e) ↦ cc (rw (a, create_demo, e) at h)
    | inl (u, e) ↦
        let made = new_application (widened config) in
        let w = world_of c k made.inventory in
        elim (Result-cases (create w (jobs_of made.backend))) [
          | inr (x, f) ↦ cc (rw (a, create_demo, e, f) at h)
          | inl (s, f) ↦ (
            subst (InMode config.mode) (ok-injective _ app (rw (a, create_demo, e, f) at h)) (
                ap (λ (m : JobManager). m.mode) (create-same_jobs w (jobs_of made.backend) s f)
                ∙ new_application-InMode (widened config)),
            not_demo_real config.mode a,
          )
        ]
  ]
]

-- However an application that one of the two mock factories made is used, its job manager works in
-- the mode that it was configured with, and that mode is not real.
pub Made-NeverReal :
    (w : DemoWorld) (config : AppConfig) (app : CoreApplication) (cs : List AppCall)
    → Made config app
    → ((jobs_of (app_run w app cs).backend).mode ≡ config.mode) × (config.mode ≢ real)
Made-NeverReal w config app cs made =
    (app_run-InMode w config.mode app cs (both made).0, λ e. cc (ap is_real e, (both made).1))
  where
    both : Made config app → InMode config.mode app × (is_real config.mode ≡ false)
    both (inl h) = mock-InMode config app h
    both (inr (c, k, h)) = demo-InMode c k config app h
