-- ===== src/Demo/Runs.antt =====
-- Sessions of app/demo_session.cpp: any operations, one after the other.
use drive_lab.Prelude.{
  ℕ, zero, suc, ◌+◌, ◌^◌, ◌<◌, ◌≤◌, ◌≡◌, refl, sym, ap, ◌∙◌, inl, inr, false, List, [], ◌∷◌, ◌++◌,
  length, length-take_le, count_if, count_if-append, arith, ℤ, pos, negsuc,
}
use mathlib.Core.Path.{subst}
use drive_lab.Result.{ok, Result-cases}
use drive_lab.Drive.{drive_id}
use drive_lab.Jobs.{JobManager, World}
use drive_lab.Jobs.Runs.{
  Call, submits, step, run, is_submission, Consistent, step-Consistent, quiet-Consistent, step-Kept,
}
use drive_lab.Demo.{DemoDriveDetails, DemoEvent}
use drive_lab.Demo.State.{
  DemoWorld, DemoSession, add_event, create, open_session, load_drive_fixtures,
}
use drive_lab.Demo.Clock.{advance}
use drive_lab.Demo.Ticks.{advance-after_ticks}
use drive_lab.Demo.Calls.{
  Closed, SessionCall, scans, runs, pauses_job, resumes_job, cancels_job, asks_to_end, waits,
  session_step,
}
use drive_lab.Demo.Calls.Asking.{session_step-keeps}

unfoldable pub session_run : DemoWorld → DemoSession → List SessionCall → DemoSession
session_run w s [] = s
session_run w s (c ∷ cs) = session_run w (session_step w s c) cs

-- A manager is what some calls made of another, at most one of which submits.
abbrev pub Called : World → JobManager → JobManager → Type 0
Called w m n = (cs : List Call) × (n ≡ run w m cs) × (count_if is_submission cs ≤ 1)

run-append :
    (w : World) (m : JobManager) (cs ds : List Call) → run w m (cs ++ ds) ≡ run w (run w m cs) ds
unfolding run
run-append w m [] ds = refl
run-append w m (c ∷ cs) ds = run-append w (step w m c) cs ds

run_one : (w : World) (m : JobManager) (c : Call) → run w m (c ∷ []) ≡ step w m c
unfolding run
run_one w m c = refl

run_none : (w : World) (m : JobManager) → m ≡ run w m []
unfolding run
run_none w m = refl

quiet_count : (c : Call) → is_submission c ≡ false → count_if is_submission (c ∷ []) ≡ 0
unfolding count_if
quiet_count c h = ground arith

Called-Closed : (w : DemoWorld) (m : JobManager) → Closed w (λ s. Called w.jobs m s.jobs)
unfolding add_event
Called-Closed w m = record {
  keep = λ s c q (cs, e, le). (
    cs ++ (c ∷ []),
    ap (λ n. step w.jobs n c) e
        ∙ sym (run_one w.jobs (run w.jobs m cs) c)
        ∙ sym (run-append w.jobs m cs (c ∷ [])),
    omega (arith, count_if-append is_submission cs (c ∷ []), quiet_count c q),
  );
  note = λ message s h. h;
  rest = λ s ds p q n h. h;
}

-- Whatever is asked of a session, it touches its job manager only by calls of the manager's public
-- operations, of which at most one submits a job.
pub session_step-Called :
    (w : DemoWorld) (s : DemoSession) (c : SessionCall)
    → Called w.jobs s.jobs (session_step w s c).jobs
unfolding step count_if
session_step-Called w s c =
    session_step-keeps (Called-Closed w s.jobs) s.state ([], run_none w.jobs s.jobs, omega arith)
      (λ op. (submits op ∷ [], sym (run_one w.jobs s.jobs (submits op)), omega arith))
      s.tick_remainder c

Consistent-Closed :
    (w : DemoWorld) (n : ℕ) → Closed w (λ s. Consistent w.jobs s.jobs × (s.jobs.next_id ≤ n))
unfolding add_event
Consistent-Closed w n = record {
  keep =
      λ s c q (v, le). let (v', e) = quiet-Consistent w.jobs s.jobs c q v in (v', omega (arith, e));
  note = λ message s h. h;
  rest = λ s ds p q k h. h;
}

Events-Closed : (w : DemoWorld) → Closed w (λ s. length s.events ≤ 50)
unfolding add_event
Events-Closed w = record {
  keep = λ s c q h. h;
  note = λ message s h.
      let e : DemoEvent = record { timestamp = w.now s.calls; message = message } in
      length-take_le 50 (e ∷ s.events);
  rest = λ s ds p q k h. h;
}

-- What is true of a session between two operations.
pub record Orderly (w : DemoWorld) (s : DemoSession) : Type 0 where
  pub manager : Consistent w.jobs s.jobs
  pub few_events : length s.events ≤ 50
  pub less_than_tick : s.tick_remainder < 500

advance_negative : (w : DemoWorld) (n : ℕ) (s : DemoSession) → advance w (negsuc n) s ≡ s
unfolding advance
advance_negative w n s = refl

advance_zero : (w : DemoWorld) (s : DemoSession) → advance w (pos 0) s ≡ s
unfolding advance
advance_zero w s = refl

advance_remainder :
    (w : DemoWorld) (elapsed : ℤ) (s : DemoSession)
    → s.tick_remainder < 500
    → (advance w elapsed s).tick_remainder < 500
advance_remainder w (negsuc n) s h = rw (advance_negative w n s) h
advance_remainder w (pos zero) s h = rw (advance_zero w s) h
advance_remainder w (pos (suc n)) s h =
    rw (advance-after_ticks w (suc n) s (omega arith)) (omega arith)

step_remainder :
    (w : DemoWorld) (s : DemoSession) (c : SessionCall)
    → s.tick_remainder < 500
    → (session_step w s c).tick_remainder < 500
unfolding session_step
step_remainder w s scans h = h
step_remainder w s (runs command) h = h
step_remainder w s (pauses_job id) h = h
step_remainder w s (resumes_job id) h = h
step_remainder w s (cancels_job id) h = h
step_remainder w s asks_to_end h = h
step_remainder w s (waits elapsed) h = advance_remainder w elapsed s h

step_next_id :
    (w : DemoWorld) (s : DemoSession) (c : SessionCall)
    → s.jobs.next_id + 1 < 2 ^ 64
    → Orderly w s
    → Consistent w.jobs (session_step w s c).jobs
      × ((session_step w s c).jobs.next_id ≤ suc s.jobs.next_id)
unfolding step
step_next_id w s c h o =
    session_step-keeps (Consistent-Closed w (suc s.jobs.next_id)) s.state (o.manager, omega arith)
      (λ op. (
        step-Consistent w.jobs s.jobs (submits op) h o.manager,
        (step-Kept w.jobs s.jobs (submits op)).next_bound,
      ))
      s.tick_remainder c

session_step-Orderly :
    (w : DemoWorld) (s : DemoSession) (c : SessionCall)
    → s.jobs.next_id + 1 < 2 ^ 64
    → Orderly w s
    → Orderly w (session_step w s c)
session_step-Orderly w s c h o = record {
  manager = (step_next_id w s c h o).0;
  few_events =
      session_step-keeps (Events-Closed w) s.state o.few_events (λ op. o.few_events)
        s.tick_remainder c;
  less_than_tick = step_remainder w s c o.less_than_tick;
}

session_run-Orderly :
    (w : DemoWorld) (s : DemoSession) (cs : List SessionCall)
    → s.jobs.next_id + length cs < 2 ^ 64
    → Orderly w s
    → Orderly w (session_run w s cs)
unfolding session_run
session_run-Orderly w s [] h o = o
session_run-Orderly w s (c ∷ cs) h o =
    session_run-Orderly w (session_step w s c) cs
      (omega (arith, (step_next_id w s c (omega arith) o).1))
      (session_step-Orderly w s c (omega arith) o)

-- What `create` leaves.
record Created (m : JobManager) (s : DemoSession) : Type 0 where
  same_jobs : s.jobs ≡ m
  one_event : length s.events ≡ 1
  no_remainder : s.tick_remainder ≡ 0

Created-open :
    (w : DemoWorld) (m : JobManager) (ds : List DemoDriveDetails) (s : DemoSession)
    → open_session w m ds ≡ ok s
    → Created m s
unfolding open_session
Created-open w m [] s h = cc
Created-open w m (d ∷ ds) s h = elim (Result-cases (drive_id d.drive.identity)) [
  | inr (x, e) ↦ cc (rw (e, open_session) at h)
  | inl (id, e) ↦
      subst (Created m) (ok-injective _ s (rw (e, open_session) at h))
        (record { same_jobs = refl; one_event = refl; no_remainder = refl })
]
  where
    ok-injective : (a b : DemoSession) → ok a ≡ ok b → a ≡ b
    ok-injective a b h = cc

create-Created :
    (w : DemoWorld) (m : JobManager) (s : DemoSession) → create w m ≡ ok s → Created m s
unfolding create
create-Created w m s h = elim (Result-cases (w.scan 0)) [
  | inr (x, e) ↦ cc (rw (e, create) at h)
  | inl (drives, e) ↦ elim (Result-cases (load_drive_fixtures drives)) [
    | inr (x, f) ↦ cc (rw (e, create, f) at h)
    | inl (ds, f) ↦ Created-open w m ds s (rw (e, create, f) at h)
  ]
]

-- A session that is created over a consistent job manager stays orderly under any operations, as
-- long as the next job id and their number together stay below 2^64: its manager is consistent, it
-- keeps at most 50 events, and less than one tick of time, 500 ms, waits.
pub sessions-Orderly :
    (w : DemoWorld) (m : JobManager) (s : DemoSession) (cs : List SessionCall)
    → create w m ≡ ok s
    → Consistent w.jobs m
    → m.next_id + length cs < 2 ^ 64
    → Orderly w (session_run w s cs)
sessions-Orderly w m s cs h v few =
    let c = create-Created w m s h in
    session_run-Orderly w s cs (rw c.same_jobs few) (record {
      manager = rw c.same_jobs v;
      few_events = omega (arith, c.one_event);
      less_than_tick = omega (arith, c.no_remainder);
    })

pub create-same_jobs :
    (w : DemoWorld) (m : JobManager) (s : DemoSession) → create w m ≡ ok s → s.jobs ≡ m
create-same_jobs w m s h = (create-Created w m s h).same_jobs
