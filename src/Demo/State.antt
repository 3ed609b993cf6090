-- ===== src/Demo/State.antt =====
-- The state of app/demo_session.h, and how app/demo_session.cpp sets it up.
use drive_lab.Prelude.{
  ℕ, suc, Bool, true, false, not, ◌&&◌, Option, none, some, List, [], ◌∷◌, pos, Text, bytes,
  text_eq, take, find_if,
}
use drive_lab.Result.{Result, ok, err, Error, invalid_argument}
use drive_lab.Drive.{Drive, DriveId, drive_id, id_eq}
use drive_lab.Providers.{Planners}
use drive_lab.Jobs.{JobManager, World, planned, find_job}
use drive_lab.Demo.{
  DemoWorkflowId, smart_extended_test, benchmark_quick_sequential,
  benchmark_hdd_zone_characterization, benchmark_random4k_qd1, benchmark_random4k_qd32,
  benchmark_latency, DemoBenchmarkResult, DemoDriveDetails, DemoFeatureProgress, DemoEvent,
}

-- What a session asks: its job manager's clock and inventory, the answer of the inventory's
-- n-th scan or the clock's n-th time, counted together, and the planners.
pub record DemoWorld : Type 0 where
  pub jobs : World
  pub scan : ℕ → Result (List Drive)
  pub now : ℕ → ℕ
  pub planners : Planners

-- The session without its `tick_remainder_`; `calls` counts its scans and times.
pub record DemoState : Type 0 where
  pub jobs : JobManager
  pub drives : List DemoDriveDetails
  pub events : List DemoEvent
  pub smart_progress : DemoFeatureProgress
  pub benchmark_progress : DemoFeatureProgress
  pub calls : ℕ

-- Milliseconds are counted in ℕ: the source adds only a positive time, and stays below 2^63.
pub record DemoSession : Type 0 where
  pub state : DemoState
  pub open state use *
  pub tick_remainder : ℕ

abbrev pub max_demo_events : ℕ
max_demo_events = 50

abbrev benchmark_result : DemoWorkflowId → Text → DemoBenchmarkResult
benchmark_result workflow result = record { workflow = workflow; result = result }

unfoldable pub benchmark_results : List DemoBenchmarkResult
benchmark_results =
    benchmark_result benchmark_quick_sequential (bytes "184.6 MiB/s avg . 192.3 MiB/s peak")
    ∷ benchmark_result benchmark_hdd_zone_characterization
        (bytes "Outer 189 . Middle 162 . Inner 108 MiB/s")
    ∷ benchmark_result benchmark_random4k_qd1 (bytes "183 IOPS . p99 24.1 ms")
    ∷ benchmark_result benchmark_random4k_qd32 (bytes "1,612 IOPS . p99 18.7 ms")
    ∷ benchmark_result benchmark_latency (bytes "avg 7.4 ms . p95 12.8 ms . p99 24.1 ms")
    ∷ []

abbrev when {ℓ} : {A : Type ℓ} → Bool → A → Option A
when true a = some a
when false a = none

unfoldable pub details :
    Drive
    → Text
    → Text
    → Text
    → ℕ
    → ℕ
    → ℕ
    → ℕ
    → ℕ
    → Text
    → Text
    → Text
    → Text
    → Bool
    → DemoDriveDetails
unfolding benchmark_results
details drive display_capacity transport health temperature power_on_hours reallocated pending
      offline_uncorrectable ata_security hpa security dco erase_supported =
    let capacity = drive.identity.capacity_bytes in
    let hpa_capacity_available =
      not (text_eq hpa (bytes "Not applicable")) && not (text_eq hpa (bytes "Status only")) in
    record {
      drive = drive;
      display_capacity = display_capacity;
      transport = transport;
      smart = record {
        health_summary = health;
        temperature_celsius = some (pos temperature);
        power_on_hours = power_on_hours;
        reallocated = reallocated;
        pending = pending;
        offline_uncorrectable = offline_uncorrectable;
      };
      ata = record {
        ata_security_state = ata_security;
        hpa_state = hpa;
        security_state = security;
        hpa_current_capacity_bytes = when hpa_capacity_available capacity;
        hpa_native_capacity_bytes = when hpa_capacity_available capacity;
        dco_status = dco;
        secure_erase_supported = erase_supported;
        enhanced_secure_erase_supported = erase_supported;
        secure_erase_duration = when erase_supported 102;
        enhanced_secure_erase_duration = when erase_supported 78;
      };
      benchmark_results = benchmark_results;
    }

abbrev pub seven_drives : Error
seven_drives = record {
  code = invalid_argument;
  component = bytes "DemoSession";
  message = bytes "The approved demo fixture requires exactly seven drives";
}

-- `loadDriveFixtures`.
unfoldable pub load_drive_fixtures : List Drive → Result (List DemoDriveDetails)
load_drive_fixtures (a ∷ b ∷ c ∷ d ∷ e ∷ f ∷ g ∷ []) = ok (
    details a (bytes "596.2 GiB") (bytes "SATA 3 Gb/s") (bytes "PASSED") 35 37256 0 0 0
      (bytes "Supported - Disabled") (bytes "Disabled - native max exposed") (bytes "Not Frozen")
      (bytes "Unrestricted") true
    ∷ details b (bytes "3.64 TiB") (bytes "SAS 6 Gb/s") (bytes "PASSED") 31 18204 0 0 0
        (bytes "Supported") (bytes "Not applicable") (bytes "Unlocked") (bytes "Not applicable")
        true
    ∷ details c (bytes "1.82 TiB") (bytes "SATA 6 Gb/s") (bytes "PASSED") 33 42891 0 0 0
        (bytes "Status only") (bytes "Status only") (bytes "Not exposed") (bytes "Status only")
        false
    ∷ details d (bytes "223.6 GiB") (bytes "SATA 6 Gb/s") (bytes "PASSED") 29 9842 0 0 0
        (bytes "Status only") (bytes "Status only") (bytes "Not exposed") (bytes "Status only")
        false
    ∷ details e (bytes "7.28 TiB") (bytes "SATA 6 Gb/s") (bytes "PASSED") 36 22106 0 0 0
        (bytes "Status only") (bytes "Status only") (bytes "Not exposed") (bytes "Status only")
        false
    ∷ details f (bytes "1.82 TiB") (bytes "PCIe 4.0 x4") (bytes "FAILED") 57 16772 18 7 3
        (bytes "Not applicable") (bytes "Not applicable") (bytes "Not applicable")
        (bytes "Not applicable") false
    ∷ details g (bytes "931.5 GiB") (bytes "SATA 6 Gb/s") (bytes "PASSED") 42 31449 12 0 0
        (bytes "Supported - Disabled") (bytes "Disabled") (bytes "Not Frozen")
        (bytes "Unrestricted") true
    ∷ [])
load_drive_fixtures _ = err seven_drives

abbrev progress_of : DemoWorkflowId → DriveId → Text → DemoFeatureProgress
progress_of workflow id path = record {
  workflow = workflow;
  drive_id = id;
  observed_path = path;
  state = planned;
  progress_percent = pos 0;
  job_id = none;
}

-- The rest of `initialize`, for drives that are loaded; there are seven of them, and the first is
-- looked at. The scan was call 0, and the time of the first event is call 1.
unfoldable pub open_session : DemoWorld → JobManager → List DemoDriveDetails → Result DemoSession
open_session w m [] = err seven_drives
open_session w m (d ∷ ds) = elim (drive_id d.drive.identity) [
  | err e ↦ err e
  | ok id ↦ ok (record {
    state = record {
      jobs = m;
      drives = d ∷ ds;
      events =
          record {
            timestamp = w.now 1;
            message =
                bytes "Demo session started: 7 canned drives loaded; no device commands executed";
          }
          ∷ [];
      smart_progress = progress_of smart_extended_test id d.drive.current_path;
      benchmark_progress = progress_of benchmark_quick_sequential id d.drive.current_path;
      calls = 2;
    };
    tick_remainder = 0;
  })
]

-- `DemoSession::create`, with `initialize`.
unfoldable pub create : DemoWorld → JobManager → Result DemoSession
unfolding load_drive_fixtures open_session
create w m = elim (w.scan 0) [
  | err e ↦ err e
  | ok drives ↦ elim (load_drive_fixtures drives) [
    | err e ↦ err e
    | ok loaded ↦ open_session w m loaded
  ]
]

-- `addEvent`: the newest event stands first, and the list is cut.
unfoldable pub add_event : DemoWorld → Text → DemoState → DemoState
add_event w message s = record s {
  events =
      take max_demo_events (record { timestamp = w.now s.calls; message = message } ∷ s.events);
  calls = suc s.calls;
}

-- Whether the drive's identity has the id.
unfoldable pub has_drive_id : DriveId → Drive → Bool
has_drive_id id d = elim (drive_id d.identity) [ err e ↦ false | ok c ↦ id_eq c id ]

-- `findDrive`.
unfoldable pub find_drive : DriveId → List DemoDriveDetails → Option DemoDriveDetails
find_drive id ds = find_if (λ d. has_drive_id id d.drive) ds

-- The lambda of `syncTrackedProgress`.
unfoldable pub sync_progress : JobManager → DemoFeatureProgress → DemoFeatureProgress
sync_progress m p = elim p.job_id [
  | none ↦ p
  | some id ↦ elim (find_job id m.jobs) [
    | none ↦ p
    | some j ↦ record p {
      state = j.state;
      progress_percent = j.progress_percent;
      observed_path = j.observed_path;
    }
  ]
]

unfoldable pub sync_tracked_progress : DemoState → DemoState
unfolding sync_progress
sync_tracked_progress s = record s {
  smart_progress = sync_progress s.jobs s.smart_progress;
  benchmark_progress = sync_progress s.jobs s.benchmark_progress;
}
