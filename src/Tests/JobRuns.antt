-- ===== src/Tests/JobRuns.antt =====
-- The job manager on two drives and a few calls.
use drive_lab.Prelude.{
  is_space, to_lower, text_eq, find_if, ℕ, ◌≡◌, refl, true, false, none, some, List, [], ◌∷◌, Text,
  bytes, pos, arith,
}
use drive_lab.Prelude.{Within, ◌↔◌, ◌⊎◌, ◌≤◌, count_if, any_of}
use drive_lab.Jobs.{is_live, is_locked}
use drive_lab.Jobs.Lockstep.{Works}
use drive_lab.Jobs.Moves.{Cleared, Vetted}
use drive_lab.Jobs.Runs.{cancels, Consistent, step-Consistent, after_calls-Consistent, step-Did}
use drive_lab.Jobs.History.{Survives}
use drive_lab.Jobs.Starting.{Started, start-Started}
use drive_lab.Jobs.Manager.{pause, on_job, invalid_transition, can_terminate, active_drive_count}
use drive_lab.Jobs.Refusals.{accepted, Acceptable, accepted_iff, refused-unchanged}
use drive_lab.Jobs.Promises.{
  locks-Works, Works-alone, live-Cleared, real-harmless, dry_run-idle, active_drive_count-bounds,
  queued-waits, jobs-Survive, jobs-Vetted, progress-Within,
}
use drive_lab.Safety.{erases}
use drive_lab.Result.{ok}
use drive_lab.Drive.{
  wwn_key, lock_key, is_protected, same_physical_device, differs_when_known, id_eq, DriveId, Drive,
  ready, hdd, drive_id, canonical,
}
use drive_lab.Mode.{demo, real, dry_run}
use drive_lab.Operation.{OperationRequest, health_short_test, read_only}
use drive_lab.Logging.{vector_log}
use drive_lab.Safety.{authorize}
use drive_lab.Jobs.Launch.{log, start, start_observed, start_authorized, start_loop}
use drive_lab.Jobs.{lock_owner, set_lock, JobRecord, World, queued, running, find_job}
use drive_lab.Jobs.Runs.{Call, submits, completes, pauses, after_calls, run, step}
use drive_lab.Jobs.Manager.{new_manager, submit, enqueue, dispatch}
use drive_lab.Jobs.Sound.{Did}
use drive_lab.Jobs.Eligible.{Settled, start_loop-Settled}

abbrev disk : Text → Drive
disk wwn = record {
  identity = record {
    serial = bytes "S1";
    wwn = wwn;
    model = bytes "M1";
    topology = [];
    capacity_bytes = 1000;
  };
  current_path = bytes "/dev/sda";
  media = hdd;
  status = ready;
  protection_reasons = [];
}

abbrev read_test : Drive → OperationRequest
read_test d = record {
  kind = health_short_test;
  name = bytes "Short Test";
  provider = bytes "mock";
  target = d;
  safety_class = read_only;
  controls = record { can_pause = true; can_resume = true; can_cancel = true };
}

-- The clock counts, and the inventory always finds the drive that is asked for.
abbrev world : World
world = record { now = λ n. n; resolve = λ n i. ok (record (disk (bytes "a")) { identity = i }) }

abbrev two_calls : List Call
two_calls = submits (read_test (disk (bytes " A "))) ∷ submits (read_test (disk (bytes "a"))) ∷ []

canonical_test : drive_id (disk (bytes " A ")).identity ≡ ok (record { value = bytes "wwn:a" })
unfolding drive_id canonical bytes is_space wwn_key to_lower
canonical_test = refl

-- The jobs that the two calls leave: the first at work, the second waiting for its drive.
abbrev job_one : JobRecord
job_one = record {
  id = 1;
  operation = read_test (disk (bytes " A "));
  drive_id = record { value = bytes "wwn:a" };
  observed_path = bytes "/dev/sda";
  state = running;
  progress_percent = pos 0;
  estimated_remaining = none;
  queued_at = 0;
  started_at = some 2;
  finished_at = none;
  failure = none;
}

abbrev job_two : JobRecord
job_two = record {
  id = 2;
  operation = read_test (disk (bytes "a"));
  drive_id = record { value = bytes "wwn:a" };
  observed_path = bytes "/dev/sda";
  state = queued;
  progress_percent = pos 0;
  estimated_remaining = none;
  queued_at = 4;
  started_at = none;
  finished_at = none;
  failure = none;
}

one_found : find_job 1 (after_calls world demo 2 two_calls).jobs ≡ some job_one
unfolding run step submit dispatch enqueue new_manager start start_observed start_authorized log
    lock_owner set_lock find_job find_if vector_log drive_id canonical wwn_key lock_key is_protected
    same_physical_device differs_when_known id_eq authorize text_eq bytes is_space to_lower
one_found = refl

two_found : find_job 2 (after_calls world demo 2 two_calls).jobs ≡ some job_two
unfolding run step submit dispatch enqueue new_manager start start_observed start_authorized log
    lock_owner set_lock find_job find_if vector_log drive_id canonical wwn_key lock_key is_protected
    same_physical_device differs_when_known id_eq authorize text_eq bytes is_space to_lower
two_found = refl

one_found_real : find_job 1 (after_calls world real 2 two_calls).jobs ≡ some job_one
unfolding run step submit dispatch enqueue new_manager start start_observed start_authorized log
    lock_owner set_lock find_job find_if vector_log drive_id canonical wwn_key lock_key is_protected
    same_physical_device differs_when_known id_eq authorize text_eq bytes is_space to_lower
one_found_real = refl

one-Works : Works (after_calls world demo 2 two_calls).jobs 1 job_one.drive_id
one-Works = (job_one, one_found, refl, refl)

locks-Works_example :
    (lock_owner job_one.drive_id (after_calls world demo 2 two_calls).active_locks ≡ some 1)
    ↔ Works (after_calls world demo 2 two_calls).jobs 1 job_one.drive_id
locks-Works_example = locks-Works world demo 2 two_calls (omega arith) job_one.drive_id 1

Works-alone_example : job_one.id ≡ job_one.id
Works-alone_example =
    Works-alone world demo 2 two_calls (omega arith) 1 1 job_one.drive_id one-Works one-Works

live-Cleared_example : (d : Drive) × Cleared world demo job_one.operation d
live-Cleared_example = live-Cleared world demo 2 two_calls (omega arith) 1 job_one one_found refl

real-harmless_example : erases read_only ≡ false
real-harmless_example = real-harmless world 2 two_calls (omega arith) 1 job_one one_found_real refl

dry_run-idle_example :
    ((k : ℕ) (j : JobRecord)
      → find_job k (after_calls world dry_run 2 two_calls).jobs ≡ some j
      → is_live j.state ≡ false)
    × ((d : DriveId) → lock_owner d (after_calls world dry_run 2 two_calls).active_locks ≡ none)
dry_run-idle_example = dry_run-idle world 2 two_calls (omega arith)

active_drive_count-bounds_example :
    (active_drive_count (after_calls world demo 2 two_calls)
      ≡ count_if (λ j. is_live j.state) (after_calls world demo 2 two_calls).jobs)
    × (active_drive_count (after_calls world demo 2 two_calls) ≤ 2)
active_drive_count-bounds_example = active_drive_count-bounds world demo 2 two_calls (omega arith)

queued-waits_example :
    (is_locked job_two.drive_id (after_calls world demo 2 two_calls).active_locks ≡ true)
    ⊎ ((after_calls world demo 2 two_calls).max_parallel_drives
        ≤ active_drive_count (after_calls world demo 2 two_calls))
queued-waits_example = queued-waits world demo 2 two_calls (omega arith) 2 job_two two_found refl

jobs-Survive_example :
    Survives 2 job_two
      (run world (after_calls world demo 2 two_calls) (completes 1 ∷ pauses 2 ∷ [])).jobs
jobs-Survive_example =
    jobs-Survive world demo 2 two_calls (completes 1 ∷ pauses 2 ∷ []) (omega arith) 2 job_two
      two_found

jobs-Vetted_example : Vetted demo job_two
jobs-Vetted_example = jobs-Vetted world demo 2 two_calls (omega arith) 2 job_two two_found

progress-Within_example : Within 100 (pos 0)
progress-Within_example = progress-Within world demo 2 two_calls (omega arith) 1 job_one one_found

step-Consistent_example :
    Consistent world (step world (after_calls world demo 2 two_calls) (completes 1))
unfolding run step submit dispatch enqueue new_manager start start_observed start_authorized log
    lock_owner set_lock find_job find_if vector_log drive_id canonical wwn_key lock_key is_protected
    same_physical_device differs_when_known id_eq authorize text_eq bytes is_space to_lower
step-Consistent_example =
    step-Consistent world (after_calls world demo 2 two_calls) (completes 1) (omega arith)
      (after_calls-Consistent world demo 2 two_calls (omega arith))

start-Started_example :
    Started world demo job_two
      (new_manager demo 1).ledger
      (start world demo job_two (new_manager demo 1).ledger)
start-Started_example = start-Started world demo job_two (new_manager demo 1).ledger

accepted_iff_example :
    (accepted world (after_calls world demo 2 two_calls) (cancels 2) ≡ true)
    ↔ Acceptable (after_calls world demo 2 two_calls) (cancels 2)
accepted_iff_example = accepted_iff world (after_calls world demo 2 two_calls) (cancels 2)

two_not_paused : accepted world (after_calls world demo 2 two_calls) (pauses 2) ≡ false
unfolding run step submit dispatch enqueue new_manager start start_observed start_authorized log
    lock_owner set_lock find_job find_if vector_log drive_id canonical wwn_key lock_key is_protected
    same_physical_device differs_when_known id_eq authorize text_eq bytes is_space to_lower accepted
    pause on_job invalid_transition
two_not_paused = refl

refused-unchanged_example :
    step world (after_calls world demo 2 two_calls) (pauses 2) ≡ after_calls world demo 2 two_calls
refused-unchanged_example =
    refused-unchanged world (after_calls world demo 2 two_calls) (pauses 2) two_not_paused

may_terminate : can_terminate (after_calls world demo 2 two_calls) ≡ true
unfolding run step submit dispatch enqueue new_manager start start_observed start_authorized log
    lock_owner set_lock find_job find_if vector_log drive_id canonical wwn_key lock_key is_protected
    same_physical_device differs_when_known id_eq authorize text_eq bytes is_space to_lower
    can_terminate any_of
may_terminate = refl

step-Did_example :
    Did world
      (after_calls world demo 2 two_calls)
      (step world (after_calls world demo 2 two_calls) (completes 1))
unfolding run step submit dispatch enqueue new_manager start start_observed start_authorized log
    lock_owner set_lock find_job find_if vector_log drive_id canonical wwn_key lock_key is_protected
    same_physical_device differs_when_known id_eq authorize text_eq bytes is_space to_lower
step-Did_example =
    step-Did world (after_calls world demo 2 two_calls) (completes 1) (omega arith)
      (after_calls-Consistent world demo 2 two_calls (omega arith))

start_loop-Settled_example :
    Settled 2
      (start_loop world demo 2 2 (job_two ∷ []) (new_manager demo 2).ledger).0
      (start_loop world demo 2 2 (job_two ∷ []) (new_manager demo 2).ledger).1.active_locks
unfolding count_if
start_loop-Settled_example =
    start_loop-Settled world demo 2 2 (job_two ∷ []) (new_manager demo 2).ledger (omega arith)
