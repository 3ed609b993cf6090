-- ===== src/Demo/Clock.antt =====
-- Time in app/demo_session.cpp: ticks, and what they do to the jobs.
use drive_lab.Prelude.{
  ℕ, zero, suc, ◌+◌, ◌-◌, ◌/◌, Bool, true, false, ◌&&◌, Option, none, some, List, [], ◌∷◌, ◌++◌,
  ltb, leb, ◌==◌, ℤ, pos, negsuc, Text, bytes, to_text, if◌then◌else◌,
}
use drive_lab.Result.{Result, ok, err, Error, process_failure}
use drive_lab.Drive.{DriveStatus, failing}
use drive_lab.Operation.{
  OperationKind, health_short_test, health_extended_test, health_conveyance_test,
}
use drive_lab.Jobs.{JobRecord, is_running, is_queued, find_job}
use drive_lab.Jobs.Manager.{update_progress, complete, mark_failed}
use drive_lab.Demo.State.{DemoWorld, DemoState, DemoSession, add_event, sync_tracked_progress}
use drive_lab.Demo.Session.{announce_started}

abbrev pub demo_tick : ℕ
demo_tick = 500

-- `std::max(0, (100 - progress) / 4)`, where `/` drops the fraction.
unfoldable pub eta_for_progress : ℤ → Option ℤ
eta_for_progress (pos n) = some (pos ((100 - n) / 4))
eta_for_progress (negsuc n) = some (pos ((101 + n) / 4))

unfoldable pub is_health_operation : OperationKind → Bool
is_health_operation health_short_test = true
is_health_operation health_extended_test = true
is_health_operation health_conveyance_test = true
is_health_operation _ = false

abbrev pub is_failing : DriveStatus → Bool
is_failing failing = true
is_failing _ = false

-- `std::min(100, progress_percent + 2)`.
unfoldable pub next_progress : ℤ → ℤ
next_progress (pos n) = if ltb 98 n then pos 100 else pos (n + 2)
next_progress (negsuc zero) = pos 1
next_progress (negsuc (suc zero)) = pos 0
next_progress (negsuc (suc (suc n))) = negsuc n

abbrev pub is_at_least : ℕ → ℤ → Bool
is_at_least bound (pos n) = leb bound n
is_at_least bound (negsuc n) = false

abbrev pub is_100 : ℤ → Bool
is_100 (pos n) = n == 100
is_100 (negsuc n) = false

abbrev pub simulated_failure : Error
simulated_failure = record {
  code = process_failure;
  component = bytes "mock-health";
  message = bytes "Simulated S.M.A.R.T failure";
}

-- Whether the tick fails the job, at its new progress.
unfoldable pub fails_at : JobRecord → ℤ → Bool
fails_at j progress =
    is_failing j.operation.target.status
    && is_health_operation j.operation.kind
    && is_at_least 20 progress

abbrev pub with_event : DemoWorld → Result (Unit {0}) → Text → DemoState → DemoState
with_event w (ok _) message s = add_event w message s
with_event w (err e) message s = s

-- The job fails, if it can be told its progress.
unfoldable pub tick_failing : DemoWorld → ℕ → ℤ → DemoState → DemoState
tick_failing w id progress s =
    let (m, r) = update_progress id progress (eta_for_progress progress) s.jobs in
    elim r [
      | err e ↦ record s { jobs = m }
      | ok _ ↦
          let (m', r') = mark_failed w.jobs id simulated_failure m in
          with_event w r'
            (bytes "Job #" ++ (to_text id ++ bytes " failed (simulated S.M.A.R.T failure)"))
            (record s { jobs = m' })
    ]

unfoldable pub tick_complete : DemoWorld → ℕ → DemoState → DemoState
tick_complete w id s =
    let (m, r) = complete w.jobs id s.jobs in
    with_event w r (bytes "Job #" ++ (to_text id ++ bytes " completed (simulated)"))
      (record s { jobs = m })

unfoldable pub tick_report : ℕ → ℤ → DemoState → DemoState
tick_report id progress s = record s {
  jobs = (update_progress id progress (eta_for_progress progress) s.jobs).0;
}

-- What a tick does to a running job.
unfoldable pub tick_running : DemoWorld → ℕ → JobRecord → DemoState → DemoState
unfolding tick_failing tick_complete tick_report
tick_running w id j s =
    let progress = next_progress j.progress_percent in
    if fails_at j progress
    then tick_failing w id progress s
    else if is_100 progress
    then tick_complete w id s
    else tick_report id progress s

-- The body of the loop over `running`.
unfoldable pub tick_job : DemoWorld → ℕ → DemoState → DemoState
unfolding tick_running
tick_job w id s = elim (find_job id s.jobs.jobs) [
  | none ↦ s
  | some j ↦ if is_running j.state then tick_running w id j s else s
]

unfoldable pub tick_jobs : DemoWorld → List ℕ → DemoState → DemoState
unfolding tick_job
tick_jobs w [] s = s
tick_jobs w (id ∷ ids) s = tick_jobs w ids (tick_job w id s)

-- `running`, and `previous->second == JobState::Queued` for the states that `before` keeps.
unfoldable pub running_ids : List JobRecord → List ℕ
running_ids [] = []
running_ids (j ∷ js) = if is_running j.state then j.id ∷ running_ids js else running_ids js

unfoldable pub was_queued : ℕ → List JobRecord → Bool
was_queued id before = elim (find_job id before) [ none ↦ false | some j ↦ is_queued j.state ]

-- The last loop: what it writes, the progress of the job that it looks at, is no part of its tests.
unfoldable pub announce_one : DemoWorld → List JobRecord → JobRecord → DemoState → DemoState
unfolding was_queued
announce_one w before j s =
    if was_queued j.id before && is_running j.state then announce_started w j s else s

unfoldable pub announce_all : DemoWorld → List JobRecord → List JobRecord → DemoState → DemoState
unfolding announce_one
announce_all w before [] s = s
announce_all w before (j ∷ js) s = announce_all w before js (announce_one w before j s)

unfoldable pub tick_once : DemoWorld → DemoState → DemoState
unfolding tick_jobs running_ids announce_all
tick_once w s =
    let s' = tick_jobs w (running_ids s.jobs.jobs) s in
    sync_tracked_progress (announce_all w s.jobs.jobs s'.jobs.jobs s')

-- The `while` loop of `advance`, with fuel.
unfoldable pub tick_loop : DemoWorld → ℕ → ℕ → DemoState → DemoSession
tick_loop w zero remainder s = record { state = s; tick_remainder = remainder }
tick_loop w (suc fuel) remainder s = elim (leb demo_tick remainder) [
  | false ↦ record { state = s; tick_remainder = remainder }
  | true ↦ tick_loop w fuel (remainder - demo_tick) (tick_once w s)
]

abbrev pub is_positive : ℤ → Bool
is_positive (pos n) = ltb 0 n
is_positive (negsuc n) = false

abbrev pub magnitude : ℤ → ℕ
magnitude (pos n) = n
magnitude (negsuc n) = n

-- Each round takes a tick off the remainder, so there are fewer rounds than milliseconds.
unfoldable pub advance : DemoWorld → ℤ → DemoSession → DemoSession
unfolding tick_loop
advance w elapsed s =
    if is_positive elapsed
    then (let total = s.tick_remainder + magnitude elapsed in tick_loop w (suc total) total s.state)
    else s
