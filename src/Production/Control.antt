-- ===== src/Production/Control.antt =====
-- The operations of app/production_application.cpp on the scan, and what they share with its thread.
use drive_lab.Prelude.{
  ℕ, ◌+◌, ◌%◌, ◌^◌, Bool, true, false, not, ◌&&◌, ◌||◌, Option, none, some, List, [], ◌∷◌, Text,
  bytes, if◌then◌else◌, map, ◌++◌,
}
use drive_lab.Result.{Result, ok, err, Error, unavailable, invalid_argument, invalid_state}
use drive_lab.Options.{AppConfig, validate}
use drive_lab.Application.{CoreApplication, new_application, app_error, is_real}
use drive_lab.Production.{ProductionScanPhase, ProductionSnapshot, empty_snapshot}
use drive_lab.Production.Worker.{
  Answers, Worker, absent, scanning, leaving, thrown, turn, thread_error, showing,
}

-- `control_held`: `waitForProductionScan` or `cancelProductionScan` waits for the thread, with the
-- control mutex locked.
pub record Production : Type 0 where
  pub app : CoreApplication
  pub has_source : Bool
  pub published : ProductionSnapshot
  pub running : Bool
  pub worker : Worker
  pub stop_requested : Bool
  pub control_held : Bool

abbrev pub no_real_source : Error
no_real_source =
    app_error invalid_argument
      (bytes "Production requires real mode and a production inventory source")

abbrev pub new_production : Bool → CoreApplication → Production
new_production has_source app = record {
  app = app;
  has_source = has_source;
  published = empty_snapshot 0;
  running = false;
  worker = absent;
  stop_requested = false;
  control_held = false;
}

unfoldable pub create_production : AppConfig → Bool → Result Production
create_production config has_source = elim (validate config) [
  | err e ↦ err e
  | ok _ ↦
      if not (is_real config.mode) || not has_source
      then err no_real_source
      else ok (new_production has_source (new_application config))
]

abbrev pub no_discovery : Error
no_discovery = app_error unavailable (bytes "Production discovery is unavailable in this mode")

abbrev pub already_running : Error
already_running = app_error invalid_state (bytes "A production scan is already running")

-- `productionSnapshotView`, and `productionSnapshot`, which copies it.
unfoldable pub production_snapshot : Production → Result ProductionSnapshot
production_snapshot p = if p.has_source then ok p.published else err no_discovery

abbrev pub next_generation : Production → ℕ
next_generation p = (p.published.generation + 1) % 2 ^ 64

abbrev pub pending : ℕ → ProductionSnapshot
pending generation = record (empty_snapshot generation) { phase = ProductionScanPhase.inventory }

-- The thread starts, or its start throws.
abbrev pub launched : Option Text → ℕ → Production → Production × Result (Unit {0})
launched none generation p = (
  record p {
    published = pending generation;
    running = true;
    worker = scanning generation;
    stop_requested = false;
  },
  ok tt,
)
launched (some message) generation p = (
  record p { published = thrown generation message; running = false; worker = absent },
  err (thread_error message),
)

-- `startProductionScan`, once it has the control mutex.
unfoldable pub start_scan : Option Text → Production → Production × Result (Unit {0})
start_scan refusal p =
    if not p.has_source
    then (p, err no_discovery)
    else if p.running
    then (p, err already_running)
    else launched refusal (next_generation p) p

-- Whether no check for a cancelled scan is left, after the last one or an exception.
abbrev pub is_checked : Worker → Bool
is_checked (showing s) = true
is_checked leaving = true
is_checked _ = false

abbrev is_leaving : Worker → Bool
is_leaving leaving = true
is_leaving _ = false

abbrev pub shown : ProductionSnapshot → Option ProductionSnapshot → ProductionSnapshot
shown s none = s
shown s (some t) = t

-- A step of the thread, which publishes what it has to publish.
unfoldable pub work : Answers → Production → Production
unfolding turn
work a p =
    let (w, s) = turn p.stop_requested p.worker a in
    record p {
      worker = w;
      running = if is_leaving p.worker then false else p.running;
      published = shown p.published s;
    }

-- What may happen to the application.
pub data Event : Type 0 where
  starts : Option Text → Event
  works : Answers → Event
  waits cancels joins : Event

-- A call that needs the control mutex does nothing yet while another holds it, and a join nothing
-- while the thread runs.
unfoldable pub happens : Production → Event → Production
unfolding start_scan work
happens p (starts refusal) = if p.control_held then p else (start_scan refusal p).0
happens p (works a) = work a p
happens p waits = if p.control_held then p else record p { control_held = true }
happens p cancels =
    if p.control_held then p else record p { control_held = true; stop_requested = true }
happens p joins =
    if p.control_held && not p.running
    then record p { control_held = false; worker = absent }
    else p

unfoldable pub history : Production → List Event → Production
unfolding happens
history p [] = p
history p (e ∷ es) = history (happens p e) es

-- What `rescanProduction` returns of the snapshot at the end.
abbrev rescan_result : Result ProductionSnapshot → Result (Unit {0})
rescan_result (err e) = err e
rescan_result (ok s) = elim s.scan_error [ none ↦ ok tt | some e ↦ err e ]

abbrev rescan_started :
    List Answers → Production × Result (Unit {0}) → Production × Result (Unit {0})
rescan_started as' (p, err e) = (p, err e)
rescan_started as' (p, ok _) =
    let q = history p (waits ∷ (map works as' ++ (joins ∷ []))) in
    (q, rescan_result (production_snapshot q))

-- `rescanProduction`, if nobody else acts: the steps of the thread get the answers.
unfoldable pub rescan : Option Text → List Answers → Production → Production × Result (Unit {0})
unfolding start_scan history production_snapshot
rescan refusal as' p = rescan_started as' (start_scan refusal p)
