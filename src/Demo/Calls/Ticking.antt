-- ===== src/Demo/Calls/Ticking.antt =====
-- Time in app/demo_session.cpp keeps what its calls and its events keep.
use drive_lab.Prelude.{
  ℕ, zero, suc, ◌+◌, refl, ◌&&◌, inl, inr, Option, List, [], ◌∷◌, leb, ℤ, Text, Bool-cases,
  Option-cases,
}
use drive_lab.Result.{Result, ok, err, Result-cases}
use drive_lab.Jobs.{JobRecord, find_job, is_running}
use drive_lab.Jobs.Manager.{update_progress, complete, mark_failed}
use drive_lab.Jobs.Runs.{reports, completes, fails, step}
use drive_lab.Demo.Calls.{Closed}
use drive_lab.Demo.State.{DemoWorld, DemoState, DemoSession, sync_tracked_progress}
use drive_lab.Demo.Session.{announce_started}
use drive_lab.Demo.Clock.{
  with_event, tick_failing, tick_complete, tick_report, tick_running, tick_job, tick_jobs,
  was_queued, announce_one, announce_all, running_ids, tick_once, tick_loop, advance, fails_at,
  is_100, next_progress, eta_for_progress, simulated_failure, demo_tick, is_positive, magnitude,
}

module _ {ℓ} {w : DemoWorld} {P : DemoState → Type ℓ} (k : Closed w P) where
  pub keep_report :
      (id : ℕ) (p : ℤ) (r : Option ℤ) (s : DemoState)
      → P s
      → P (record s { jobs = (update_progress id p r s.jobs).0 })
  unfolding step
  keep_report id p r s h = k.keep s (reports id p r) refl h

  keep_failure :
      (id : ℕ) (s : DemoState)
      → P s
      → P (record s { jobs = (mark_failed w.jobs id simulated_failure s.jobs).0 })
  unfolding step
  keep_failure id s h = k.keep s (fails id simulated_failure) refl h

  keep_completion :
      (id : ℕ) (s : DemoState) → P s → P (record s { jobs = (complete w.jobs id s.jobs).0 })
  unfolding step
  keep_completion id s h = k.keep s (completes id) refl h

  with_event-keeps :
      (r : Result (Unit {0})) (message : Text) (s : DemoState) → P s → P (with_event w r message s)
  with_event-keeps (ok _) message s h = k.note message s h
  with_event-keeps (err e) message s h = h

  tick_failing-keeps : (id : ℕ) (p : ℤ) (s : DemoState) → P s → P (tick_failing w id p s)
  unfolding tick_failing
  tick_failing-keeps id p s h =
      elim (Result-cases (update_progress id p (eta_for_progress p) s.jobs).1) [
        | inl (u, e) ↦
            rw (e, tick_failing)
              (with_event-keeps _ _ _ (keep_failure id _ (keep_report id p _ s h)))
        | inr (x, e) ↦ rw (e, tick_failing) (keep_report id p _ s h)
      ]

  tick_running-keeps : (id : ℕ) (j : JobRecord) (s : DemoState) → P s → P (tick_running w id j s)
  unfolding tick_running tick_complete tick_report
  tick_running-keeps id j s h = elim (Bool-cases (fails_at j (next_progress j.progress_percent))) [
    | inl f ↦ rw f (tick_failing-keeps id _ s h)
    | inr f ↦ elim (Bool-cases (is_100 (next_progress j.progress_percent))) [
      | inl c ↦ rw (f, c) (with_event-keeps _ _ _ (keep_completion id s h))
      | inr c ↦ rw (f, c) (keep_report id _ _ s h)
    ]
  ]

  tick_job-keeps : (id : ℕ) (s : DemoState) → P s → P (tick_job w id s)
  unfolding tick_job
  tick_job-keeps id s h = elim (Option-cases (find_job id s.jobs.jobs)) [
    | inl e ↦ rw (e, tick_job) h
    | inr (j, e) ↦ elim (Bool-cases (is_running j.state)) [
      | inl a ↦ rw (e, tick_job, a) (tick_running-keeps id j s h)
      | inr a ↦ rw (e, tick_job, a) h
    ]
  ]

  tick_jobs-keeps : (ids : List ℕ) (s : DemoState) → P s → P (tick_jobs w ids s)
  unfolding tick_jobs
  tick_jobs-keeps [] s h = h
  tick_jobs-keeps (id ∷ ids) s h = tick_jobs-keeps ids (tick_job w id s) (tick_job-keeps id s h)

  pub announce_started-keeps : (j : JobRecord) (s : DemoState) → P s → P (announce_started w j s)
  unfolding announce_started
  announce_started-keeps j s h = k.note _ _ (keep_report j.id j.progress_percent _ s h)

  announce_one-keeps :
      (before : List JobRecord) (j : JobRecord) (s : DemoState)
      → P s
      → P (announce_one w before j s)
  unfolding announce_one
  announce_one-keeps before j s h =
      elim (Bool-cases (was_queued j.id before && is_running j.state)) [
        | inl a ↦ rw a (announce_started-keeps j s h)
        | inr a ↦ rw a h
      ]

  announce_all-keeps :
      (before js : List JobRecord) (s : DemoState) → P s → P (announce_all w before js s)
  unfolding announce_all
  announce_all-keeps before [] s h = h
  announce_all-keeps before (j ∷ js) s h =
      announce_all-keeps before js (announce_one w before j s) (announce_one-keeps before j s h)

  pub tick_once-keeps : (s : DemoState) → P s → P (tick_once w s)
  unfolding tick_once sync_tracked_progress
  tick_once-keeps s h =
      let t = tick_jobs w (running_ids s.jobs.jobs) s in
      k.rest _ _ _ _ _ (
        announce_all-keeps s.jobs.jobs t.jobs.jobs t
          (tick_jobs-keeps (running_ids s.jobs.jobs) s h))

  tick_loop-keeps : (fuel r : ℕ) (s : DemoState) → P s → P (tick_loop w fuel r s).state
  unfolding tick_loop
  tick_loop-keeps zero r s h = h
  tick_loop-keeps (suc fuel) r s h = elim (Bool-cases (leb demo_tick r)) [
    | inl more ↦ rw (more, tick_loop) (tick_loop-keeps fuel _ (tick_once w s) (tick_once-keeps s h))
    | inr less ↦ rw (less, tick_loop) h
  ]

  pub advance-keeps : (elapsed : ℤ) (s : DemoSession) → P s.state → P (advance w elapsed s).state
  unfolding advance
  advance-keeps elapsed s h = elim (Bool-cases (is_positive elapsed)) [
    | inl a ↦
        let total = s.tick_remainder + magnitude elapsed in
        rw a (tick_loop-keeps (suc total) total s.state h)
    | inr a ↦ rw a h
  ]
