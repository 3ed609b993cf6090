-- ===== src/Demo/Running.antt =====
-- When `runWorkflow` of app/demo_session.cpp succeeds, and what it does when it does not.
use drive_lab.Prelude.{
  ◌≡◌, refl, ap, ◌∙◌, ◌↔◌, ◌⊎◌, inl, inr, true, false, none, some, Text, Bool-cases, Option-cases,
}
use mathlib.Core.Path.{subst, subst₂}
use drive_lab.Result.{err, Result-cases, is_ok}
use drive_lab.Drive.{is_protected}
use drive_lab.Operation.{OperationRequest}
use drive_lab.Safety.Policy.{Permits}
use drive_lab.Jobs.{JobManager, World}
use drive_lab.Jobs.Manager.{submit}
use drive_lab.Jobs.Runs.{submits, step}
use drive_lab.Jobs.Refusals.{accepted, Acceptable, accepted_iff, refused-unchanged}
use drive_lab.Demo.{
  DemoWorkflowBehavior, inspection, simulated_job, DemoWorkflowCommand, DemoWorkflowDefinition,
  DemoDriveDetails,
}
use drive_lab.Demo.Catalog.{find_demo_workflow}
use drive_lab.Providers.Mock.{mock_planners}
use drive_lab.Demo.Menu.{withheld, workflows-ok, Catalogued, demo_workflows-Catalogued}
use drive_lab.Demo.State.{DemoWorld, DemoState, find_drive}
use drive_lab.Demo.Session.{is_hdd, no_such_drive}
use drive_lab.Demo.Workflows.{
  planned_workflow, run_found, run_workflow, job_name, plan_workflow, not_offered, protected_drive,
}
use drive_lab.Demo.Recorded.{submit-OnRecord, submitted-ok}

-- The operation as `runWorkflow` renames it.
abbrev renamed : DemoWorkflowDefinition → OperationRequest → OperationRequest
renamed d op = record op { name = job_name d.feature d.label }

submit_ok_iff :
    (w : World) (op : OperationRequest) (m : JobManager)
    → (is_ok (submit w op m).1 ≡ true) ↔ Permits op.target op.safety_class m.mode
unfolding accepted Acceptable
submit_ok_iff w op m = accepted_iff w m (submits op)

submit-unchanged :
    (w : World) (op : OperationRequest) (m : JobManager)
    → is_ok (submit w op m).1 ≡ false
    → (submit w op m).0 ≡ m
unfolding accepted step
submit-unchanged w op m h = refused-unchanged w m (submits op) h

module _ (w : DemoWorld) (command : DemoWorkflowCommand) (path : Text) (op : OperationRequest)
    (s : DemoState) where
  planned-ok_iff :
      (b : DemoWorkflowBehavior) (d : DemoWorkflowDefinition)
      → d.behavior ≡ b
      → (is_ok (planned_workflow w d command path op s).1 ≡ true)
        ↔ ((d.behavior ≡ inspection) ⊎ Permits op.target op.safety_class s.jobs.mode)
  unfolding planned_workflow
  planned-ok_iff inspection d e = rw (e, planned_workflow) (λ _. inl refl, λ _. refl)
  planned-ok_iff simulated_job d e =
      let p = submit_ok_iff w.jobs (renamed d op) s.jobs in
      elim (Result-cases (submit w.jobs (renamed d op) s.jobs).1) [
        | inr (x, q) ↦
            rw (e, planned_workflow, q)
              (λ h. cc, λ h. elim h [ inl i ↦ cc | inr a ↦ cc (p.1 a, ap is_ok q) ])
        | inl (id, q) ↦
            rw (e, planned_workflow, q)
              (
                λ _. inr (p.0 (ap is_ok q)),
                λ _.
                    submitted-ok w d.feature command path id _
                      (submit-OnRecord w.jobs (renamed d op) s.jobs id q),
              )
      ]

  planned-unchanged :
      (b : DemoWorkflowBehavior) (d : DemoWorkflowDefinition)
      → d.behavior ≡ b
      → is_ok (planned_workflow w d command path op s).1 ≡ false
      → (planned_workflow w d command path op s).0 ≡ s
  unfolding planned_workflow
  planned-unchanged inspection d e = rw (e, planned_workflow) (λ h. cc)
  planned-unchanged simulated_job d e =
      elim (Result-cases (submit w.jobs (renamed d op) s.jobs).1) [
        | inr (x, q) ↦
            rw (e, planned_workflow, q)
              (λ _.
                ap (λ (m : JobManager). let t : DemoState = record s { jobs = m } in t)
                  (submit-unchanged w.jobs (renamed d op) s.jobs (ap is_ok q)))
        | inl (id, q) ↦
            let s' : DemoState = record s { jobs = (submit w.jobs (renamed d op) s.jobs).0 } in
            rw (e, planned_workflow, q)
              (λ h. cc (
                submitted-ok w d.feature command path id s'
                    (submit-OnRecord w.jobs (renamed d op) s.jobs id q),
                h,
              ))
      ]

-- What a command asks for, with the mock planners: a drive of the session that is not protected and
-- does not withhold the workflow, and for a job the policy's consent.
pub record Runnable (command : DemoWorkflowCommand) (s : DemoState) : Type 0 where
  pub drive : DemoDriveDetails
  pub definition : DemoWorkflowDefinition
  pub listed : find_drive command.drive_id s.drives ≡ some drive
  pub unprotected : is_protected drive.drive ≡ false
  pub catalogued : find_demo_workflow command.workflow ≡ some definition
  pub offered : withheld (is_hdd drive.drive.media) command.workflow ≡ false
  pub consented :
      (definition.behavior ≡ inspection) ⊎ Permits drive.drive definition.safety_class s.jobs.mode

module _ (w : DemoWorld) (mock : w.planners ≡ mock_planners) (command : DemoWorkflowCommand)
    (s : DemoState) where
  module _ (d : DemoDriveDetails) (listed : find_drive command.drive_id s.drives ≡ some d)
      (unprotected : is_protected d.drive ≡ false) (k : Catalogued d.drive command.workflow) where
    run_found-offered :
        withheld (is_hdd d.drive.media) command.workflow ≡ false
        → run_found w command d k.definition s
          ≡ planned_workflow w k.definition command d.drive.current_path k.operation s
    unfolding run_found
    run_found-offered o =
        rw
          (
            workflows-ok command.drive_id k.definition.feature s d listed unprotected k.featured,
            run_found,
            k.offers (is_hdd d.drive.media),
            o,
            ap (λ p. plan_workflow p d.drive command.workflow) mock ∙ k.planned,
          )
          refl

    run_found-withheld :
        withheld (is_hdd d.drive.media) command.workflow ≡ true
        → run_found w command d k.definition s ≡ (s, err not_offered)
    unfolding run_found
    run_found-withheld o =
        rw
          (
            workflows-ok command.drive_id k.definition.feature s d listed unprotected k.featured,
            run_found,
            k.offers (is_hdd d.drive.media),
            o,
          )
          refl

    -- What `runWorkflow` comes to, on a drive that it finds and may use.
    run_workflow-found : run_workflow w command s ≡ run_found w command d k.definition s
    unfolding run_workflow
    run_workflow-found = rw (listed, run_workflow, unprotected, k.found) refl

    found-ok_iff : (is_ok (run_workflow w command s).1 ≡ true) ↔ (
        (withheld (is_hdd d.drive.media) command.workflow ≡ false)
        × ((k.definition.behavior ≡ inspection)
            ⊎ Permits d.drive k.definition.safety_class s.jobs.mode))
    found-ok_iff = elim (Bool-cases (withheld (is_hdd d.drive.media) command.workflow)) [
      | inl o ↦ rw (run_workflow-found, run_found-withheld o, o) (λ h. cc, λ (h, _). cc)
      | inr o ↦
          let p =
            planned-ok_iff w command d.drive.current_path k.operation s k.definition.behavior
              k.definition refl in
          rw (run_workflow-found, run_found-offered o, o)
            (
              λ h. (refl, rw (k.same_target, k.same_class) at (p.0 h)),
              λ (_, h). p.1 (rw (k.same_target, k.same_class) h),
            )
    ]

    found-unchanged : is_ok (run_workflow w command s).1 ≡ false → (run_workflow w command s).0 ≡ s
    found-unchanged = elim (Bool-cases (withheld (is_hdd d.drive.media) command.workflow)) [
      | inl o ↦ rw (run_workflow-found, run_found-withheld o) (λ h. refl)
      | inr o ↦
          rw (run_workflow-found, run_found-offered o)
            (planned-unchanged w command d.drive.current_path k.operation s k.definition.behavior
              k.definition refl)
    ]

  run_workflow-missing :
      find_drive command.drive_id s.drives ≡ none
      → run_workflow w command s ≡ (s, err no_such_drive)
  unfolding run_workflow
  run_workflow-missing e = rw (e, run_workflow) refl

  run_workflow-protected :
      (d : DemoDriveDetails)
      → find_drive command.drive_id s.drives ≡ some d
      → is_protected d.drive ≡ true
      → run_workflow w command s ≡ (s, err protected_drive)
  unfolding run_workflow
  run_workflow-protected d e p = rw (e, run_workflow, p) refl

  listed_once :
      {d : DemoDriveDetails}
      → find_drive command.drive_id s.drives ≡ some d
      → (r : Runnable command s) → r.drive ≡ d
  listed_once e r = cc (e, r.listed)

  -- With the mock planners, `runWorkflow` succeeds exactly when the session lists the drive, the drive
  -- is not protected and does not withhold the workflow, and the workflow is an inspection or the
  -- safety policy permits its class on the drive in the manager's mode.
  pub run_workflow_iff : (is_ok (run_workflow w command s).1 ≡ true) ↔ Runnable command s
  run_workflow_iff = elim (Option-cases (find_drive command.drive_id s.drives)) [
    | inl e ↦ rw (run_workflow-missing e) (λ h. cc, λ r. cc (r.listed, e))
    | inr (d, e) ↦ elim (Bool-cases (is_protected d.drive)) [
      | inl p ↦ rw (run_workflow-protected d e p) (
        λ h. cc,
        λ r. cc (
          ap (λ (x : DemoDriveDetails). is_protected x.drive) (listed_once e r),
          p,
          r.unprotected,
        ),
      )
      | inr p ↦
          let k = demo_workflows-Catalogued d.drive command.workflow in
          let q = found-ok_iff d e p k in
          (
            λ h. record {
              drive = d;
              definition = k.definition;
              listed = e;
              unprotected = p;
              catalogued = k.found;
              offered = (q.0 h).0;
              consented = (q.0 h).1;
            },
            λ r.
                let a = listed_once e r in
                let b : r.definition ≡ k.definition = cc (r.catalogued, k.found) in
                q.1 (
                  subst
                      (λ (x : DemoDriveDetails).
                        withheld (is_hdd x.drive.media) command.workflow ≡ false)
                      a r.offered,
                  subst₂
                      (λ (x : DemoDriveDetails) (y : DemoWorkflowDefinition).
                        (y.behavior ≡ inspection) ⊎ Permits x.drive y.safety_class s.jobs.mode)
                      a b r.consented,
                ),
          )
    ]
  ]

  -- With the mock planners, a run that fails leaves the session as it was.
  pub run_workflow-unchanged :
      is_ok (run_workflow w command s).1 ≡ false → (run_workflow w command s).0 ≡ s
  run_workflow-unchanged = elim (Option-cases (find_drive command.drive_id s.drives)) [
    | inl e ↦ rw (run_workflow-missing e) (λ h. refl)
    | inr (d, e) ↦ elim (Bool-cases (is_protected d.drive)) [
      | inl p ↦ rw (run_workflow-protected d e p) (λ h. refl)
      | inr p ↦ found-unchanged d e p (demo_workflows-Catalogued d.drive command.workflow)
    ]
  ]
