-- ===== src/Tests/Sessions.antt =====
-- The demo session on the fixture drives.
use drive_lab.Prelude.{
  ℕ, ◌+◌, ◌≤◌, ◌≡◌, ◌↔◌, refl, true, false, none, some, List, [], ◌∷◌, Text, bytes, ℤ, pos, length,
  arith, ◌≢◌, inl,
}
use drive_lab.Result.{ok, err, is_ok}
use drive_lab.Mode.{demo, real}
use drive_lab.Drive.{DriveId, Drive, lock_key, MediaKind, ready}
use drive_lab.Providers.Mock.{mock_planners}
use drive_lab.Providers.Fixtures.{fixture_drives, mock_scan, mock_resolve}
use drive_lab.Jobs.{JobManager, World, JobState, running, find_job}
use drive_lab.Jobs.Manager.{new_manager}
use drive_lab.Jobs.Runs.{after_calls-Consistent}
use drive_lab.Demo.{
  DemoDriveDetails, DemoSnapshot, DemoWorkflowCommand, smart_short_test, smart_conveyance_test,
  smart_extended_test, benchmark_quick_sequential,
}
use drive_lab.Demo.State.{
  DemoWorld, DemoState, DemoSession, create, load_drive_fixtures, open_session, find_drive, details,
}
use drive_lab.Demo.Clock.{advance, tick_once}
use drive_lab.Demo.Ticks.{after_ticks, advance-after_ticks, advance-advance}
use drive_lab.Demo.Calls.{SessionCall, runs, waits, pauses_job, session_step}
use drive_lab.Demo.Runs.{session_run, Called, session_step-Called, Orderly, sessions-Orderly}
use drive_lab.Demo.Menu.{Offering, workflows-Offering}
use drive_lab.Demo.Workflows.{run_workflow}
use drive_lab.Demo.Running.{Runnable, run_workflow_iff, run_workflow-unchanged}
use drive_lab.Options.{AppConfig, validate}
use drive_lab.Application.{new_application, create_mock, jobs_of}
use drive_lab.Application.Never.{Made, app_run, tests_health, asks_session, Made-NeverReal}
use drive_lab.Providers.{short}

abbrev demo_world : DemoWorld
demo_world = record {
  jobs = record { now = λ n. n; resolve = λ n i. mock_resolve fixture_drives i };
  scan = λ n. mock_scan fixture_drives;
  now = λ n. n;
  planners = mock_planners;
}

abbrev manager : JobManager
manager = new_manager demo 7

abbrev id_of : Text → DriveId
id_of text = record { value = text }

abbrev loaded : List DemoDriveDetails
unfolding load_drive_fixtures
loaded = elim (load_drive_fixtures fixture_drives) [ ok ds ↦ ds | err e ↦ [] ]

abbrev opened : DemoSession
opened = record {
  state = record {
    jobs = manager;
    drives = loaded;
    events =
        record {
          timestamp = 1;
          message =
              bytes "Demo session started: 7 canned drives loaded; no device commands executed";
        }
        ∷ [];
    smart_progress = record {
      workflow = smart_extended_test;
      drive_id = id_of (bytes "wwn:0x50014ee001234567");
      observed_path = bytes "/dev/sdd";
      state = JobState.planned;
      progress_percent = pos 0;
      job_id = none;
    };
    benchmark_progress = record {
      workflow = benchmark_quick_sequential;
      drive_id = id_of (bytes "wwn:0x50014ee001234567");
      observed_path = bytes "/dev/sdd";
      state = JobState.planned;
      progress_percent = pos 0;
      job_id = none;
    };
    calls = 2;
  };
  tick_remainder = 0;
}

session_opens : create demo_world manager ≡ ok opened
unfolding create mock_scan fixture_drives drive_lab.Drive.drive_id drive_lab.Drive.canonical
    drive_lab.Demo.State.details bytes drive_lab.Prelude.is_space drive_lab.Drive.wwn_key
    drive_lab.Prelude.to_lower
session_opens = refl

abbrev test_first : DemoWorkflowCommand
test_first = record {
  drive_id = id_of (bytes "wwn:0x50014ee001234567");
  workflow = smart_short_test;
}

-- The third drive is protected.
abbrev test_third : DemoWorkflowCommand
test_third = record {
  drive_id = id_of (bytes "wwn:0x5000c500system01");
  workflow = smart_short_test;
}

abbrev plan_of_use : List SessionCall
plan_of_use = runs test_first ∷ waits (pos 1700) ∷ pauses_job 1 ∷ []

-- Three ticks have passed, and the short test cannot be paused.
session_runs : (session_run demo_world opened plan_of_use).smart_progress.progress_percent ≡ pos 6
unfolding loaded fixture_drives drive_lab.Drive.drive_id drive_lab.Drive.canonical
    drive_lab.Demo.State.details bytes drive_lab.Prelude.is_space drive_lab.Drive.id_eq
    drive_lab.Prelude.text_eq drive_lab.Drive.wwn_key drive_lab.Prelude.to_lower
    drive_lab.Drive.is_protected drive_lab.Prelude.find_if drive_lab.Prelude.to_text
    drive_lab.Prelude.digits_upto drive_lab.Demo.Runs.session_run drive_lab.Demo.Calls.session_step
    drive_lab.Demo.Clock.eta_for_progress drive_lab.Demo.Clock.is_health_operation
    drive_lab.Demo.Clock.next_progress drive_lab.Demo.Clock.fails_at
    drive_lab.Demo.Clock.tick_failing drive_lab.Demo.Clock.tick_complete
    drive_lab.Demo.Clock.tick_report drive_lab.Demo.Clock.tick_running drive_lab.Demo.Clock.tick_job
    drive_lab.Demo.Clock.tick_jobs drive_lab.Demo.Clock.running_ids drive_lab.Demo.Clock.was_queued
    drive_lab.Demo.Clock.announce_one drive_lab.Demo.Clock.announce_all
    drive_lab.Demo.Clock.tick_once drive_lab.Demo.Clock.tick_loop drive_lab.Demo.Clock.advance
    drive_lab.Demo.State.benchmark_results drive_lab.Demo.State.load_drive_fixtures
    drive_lab.Demo.State.open_session drive_lab.Demo.State.create drive_lab.Demo.State.add_event
    drive_lab.Demo.State.has_drive_id drive_lab.Demo.State.find_drive
    drive_lab.Demo.State.sync_progress drive_lab.Demo.State.sync_tracked_progress
    drive_lab.Demo.Session.insert_newest drive_lab.Demo.Session.newest_first
    drive_lab.Demo.Session.snapshot drive_lab.Demo.Session.available_features
    drive_lab.Demo.Session.available_workflow drive_lab.Demo.Session.offered
    drive_lab.Demo.Session.workflows drive_lab.Demo.Session.replace_drive
    drive_lab.Demo.Session.refresh drive_lab.Demo.Session.scan_inventory
    drive_lab.Demo.Session.control_job drive_lab.Demo.Session.pause_job
    drive_lab.Demo.Session.resume_job drive_lab.Demo.Session.announce_started
    drive_lab.Demo.Session.queued_ids drive_lab.Demo.Session.announce_waiting
    drive_lab.Demo.Session.announce_queued drive_lab.Demo.Session.cancel_job
    drive_lab.Demo.Session.request_termination drive_lab.Demo.Workflows.plan_workflow
    drive_lab.Demo.Workflows.inspection_message drive_lab.Demo.Workflows.job_name
    drive_lab.Demo.Workflows.report_started drive_lab.Demo.Workflows.track
    drive_lab.Demo.Workflows.announce drive_lab.Demo.Workflows.submitted
    drive_lab.Demo.Workflows.planned_workflow drive_lab.Demo.Workflows.supports
    drive_lab.Demo.Workflows.run_found drive_lab.Demo.Workflows.run_workflow
    drive_lab.Demo.Catalog.demo_workflow_catalog drive_lab.Demo.Catalog.find_demo_workflow
    drive_lab.Demo.same_workflow drive_lab.Demo.same_feature drive_lab.Demo.demo_feature_name
    drive_lab.Demo.demo_workflow_safety_label drive_lab.Providers.Mock.plan_health
    drive_lab.Providers.Mock.plan_ata drive_lab.Providers.Mock.plan_benchmark
    drive_lab.Providers.Mock.plan_sanitize drive_lab.Providers.Fixtures.mock_scan
    drive_lab.Providers.Fixtures.has_lock_key drive_lab.Providers.Fixtures.mock_resolve
    drive_lab.Providers.Fixtures.replace drive_lab.Jobs.job_state_name drive_lab.Jobs.lock_owner
    drive_lab.Jobs.set_lock drive_lab.Jobs.erase_lock drive_lab.Jobs.find_job
    drive_lab.Jobs.write_job drive_lab.Jobs.Manager.new_manager drive_lab.Jobs.Manager.dispatch
    drive_lab.Jobs.Manager.enqueue drive_lab.Jobs.Manager.submit
    drive_lab.Jobs.Manager.invalid_transition drive_lab.Jobs.Manager.on_job
    drive_lab.Jobs.Manager.update_progress drive_lab.Jobs.Manager.complete
    drive_lab.Jobs.Manager.mark_failed drive_lab.Jobs.Manager.pause drive_lab.Jobs.Manager.resume
    drive_lab.Jobs.Manager.cancel_queued drive_lab.Jobs.Manager.cancel_active
    drive_lab.Jobs.Manager.cancel drive_lab.Jobs.Manager.active_drive_count
    drive_lab.Jobs.Manager.can_terminate drive_lab.Jobs.Launch.log drive_lab.Jobs.Launch.fail
    drive_lab.Jobs.Launch.start_authorized drive_lab.Jobs.Launch.start_observed
    drive_lab.Jobs.Launch.start drive_lab.Jobs.Launch.start_next drive_lab.Jobs.Launch.start_loop
    drive_lab.Jobs.Launch.start_eligible_jobs drive_lab.Jobs.Launch.released
    drive_lab.Jobs.Launch.release_lock drive_lab.Safety.authorize drive_lab.Drive.serial_key
    drive_lab.Drive.lock_key drive_lab.Drive.differs_when_known drive_lab.Drive.same_physical_device
    drive_lab.Drive.media_kind_name drive_lab.Drive.drive_status_name drive_lab.Logging.vector_log
    drive_lab.Logging.log_severity_name drive_lab.Operation.operation_kind_name
    drive_lab.Operation.safety_class_name
session_runs = refl

third_fails : is_ok (run_workflow demo_world test_third opened.state).1 ≡ false
unfolding run_workflow drive_lab.Demo.State.find_drive drive_lab.Prelude.find_if loaded
    fixture_drives drive_lab.Demo.State.has_drive_id drive_lab.Drive.drive_id
    drive_lab.Drive.canonical drive_lab.Demo.State.details bytes drive_lab.Prelude.is_space
    drive_lab.Drive.id_eq drive_lab.Prelude.text_eq drive_lab.Drive.wwn_key
    drive_lab.Prelude.to_lower drive_lab.Drive.is_protected
third_fails = refl

sessions-Orderly_example : Orderly demo_world (session_run demo_world opened plan_of_use)
unfolding new_manager drive_lab.Jobs.Runs.run
sessions-Orderly_example =
    sessions-Orderly demo_world manager opened plan_of_use session_opens
      (after_calls-Consistent demo_world.jobs demo 7 [] (omega arith)) (omega arith)

session_step-Called_example :
    Called demo_world.jobs opened.jobs (session_step demo_world opened (runs test_first)).jobs
session_step-Called_example = session_step-Called demo_world opened (runs test_first)

advance-after_ticks_example :
    advance demo_world (pos 1700) opened
    ≡ record { state = after_ticks demo_world 3 opened.state; tick_remainder = 200 }
advance-after_ticks_example = advance-after_ticks demo_world 1700 opened (omega arith)

advance-advance_example :
    advance demo_world (pos 900) (advance demo_world (pos 800) opened)
    ≡ advance demo_world (pos 1700) opened
advance-advance_example = advance-advance demo_world 800 900 opened (omega arith) (omega arith)

run_workflow_iff_example :
    (is_ok (run_workflow demo_world test_first opened.state).1 ≡ true)
    ↔ Runnable test_first opened.state
run_workflow_iff_example = run_workflow_iff demo_world refl test_first opened.state

run_workflow-unchanged_example : (run_workflow demo_world test_third opened.state).0 ≡ opened.state
run_workflow-unchanged_example =
    run_workflow-unchanged demo_world refl test_third opened.state third_fails

abbrev a_drive : Drive
a_drive = record {
  identity = record {
    serial = [];
    wwn = bytes "0x5000C500DEMO0001";
    model = [];
    topology = [];
    capacity_bytes = 0;
  };
  current_path = [];
  media = MediaKind.unknown;
  status = ready;
  protection_reasons = [];
}

-- The first drive of the session.
abbrev first_drive : DemoDriveDetails
first_drive = elim loaded [ [] ↦ details a_drive [] [] [] 0 0 0 0 0 [] [] [] [] false | d ∷ ds ↦ d ]

first_found : find_drive test_first.drive_id opened.state.drives ≡ some first_drive
unfolding find_drive drive_lab.Prelude.find_if loaded fixture_drives
    drive_lab.Demo.State.has_drive_id drive_lab.Drive.drive_id drive_lab.Drive.canonical
    drive_lab.Demo.State.details bytes drive_lab.Prelude.is_space drive_lab.Drive.id_eq
    drive_lab.Prelude.text_eq drive_lab.Drive.wwn_key drive_lab.Prelude.to_lower
first_found = refl

workflows-Offering_example :
    Offering opened.state test_first.drive_id first_drive smart_conveyance_test
workflows-Offering_example =
    workflows-Offering opened.state test_first.drive_id first_drive first_found
      smart_conveyance_test

abbrev demo_config : AppConfig
demo_config = record {
  mode = demo;
  max_parallel_drives = 1;
  report_directory = bytes "/tmp";
  mouse_enabled = false;
}

demo_config-Made : Made demo_config (new_application demo_config)
unfolding create_mock validate bytes
demo_config-Made = inl refl

Made-NeverReal_example :
    ((jobs_of
        (app_run demo_world
          (new_application demo_config)
          (tests_health a_drive short ∷ asks_session (waits (pos 3)) ∷ [])).backend).mode
      ≡ demo)
    × (demo ≢ real)
Made-NeverReal_example =
    Made-NeverReal demo_world demo_config (new_application demo_config)
      (tests_health a_drive short ∷ asks_session (waits (pos 3)) ∷ []) demo_config-Made
