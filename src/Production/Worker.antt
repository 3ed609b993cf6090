-- ===== src/Production/Worker.antt =====
-- The thread that `startProductionScan` of app/production_application.cpp starts, step by step.
use drive_lab.Prelude.{ℕ, Bool, true, false, Option, none, some, map, Text, bytes}
use drive_lab.Result.{Result, ok, err, Error, ErrorCode, unavailable, internal}
use drive_lab.Inventory.{ResolvedInventorySnapshot}
use drive_lab.Ownership.{OwnershipEvidence, disks}
use drive_lab.Ownership.Assess.{assess_ownership}
use drive_lab.Production.{
  ownership, complete, failed, ProductionSnapshot, empty_snapshot, inventory_rows, has_disk,
  decided,
}

-- What a call of the inventory source comes to: a value, an exception with its text, or another one.
pub data Answer (A : Type 0) : Type 0 where
  returned : A → Answer A
  threw : Text → Answer A
  threw_other : Answer A

-- What the world answers to the steps of a scan.
pub record Answers : Type 0 where
  pub inventory : Answer (Result ResolvedInventorySnapshot)
  pub acquired_at : ℕ
  pub evidence : ResolvedInventorySnapshot → Answer OwnershipEvidence

-- Where the thread stands: `listing` before it publishes the inventory, `showing` before it publishes
-- its last snapshot. It is `ended` once `production_running_` is false again.
pub data Worker : Type 0 where
  absent : Worker
  scanning : ℕ → Worker
  listing : ProductionSnapshot → Worker
  reading : ProductionSnapshot → Worker
  finishing : ProductionSnapshot → Worker
  showing : ProductionSnapshot → Worker
  leaving : Worker
  ended : Worker

abbrev pub scan_error : ErrorCode → Text → Error
scan_error code message = record {
  code = code;
  component = bytes "ProductionScan";
  message = message;
}

abbrev pub thread_error : Text → Error
thread_error message = scan_error unavailable message

-- The handlers of the thread.
abbrev pub failed_snapshot : ℕ → Error → ProductionSnapshot
failed_snapshot generation e = record (empty_snapshot generation) {
  phase = failed;
  scan_error = some e;
}

abbrev pub thrown : ℕ → Text → ProductionSnapshot
thrown generation message = failed_snapshot generation (thread_error message)

abbrev pub thrown_other : ℕ → ProductionSnapshot
thrown_other generation =
    failed_snapshot generation (scan_error internal (bytes "Unexpected acquisition failure"))

-- `ScanCancelled`, which `checkScanCancelled` throws, and its handler.
abbrev pub cancelled : ℕ → ProductionSnapshot
cancelled generation = thrown generation (bytes "Production scan cancelled")

-- The snapshot with the inventory, before ownership is read.
abbrev pub with_inventory : ℕ → ℕ → ResolvedInventorySnapshot → ProductionSnapshot
with_inventory generation now inventory = record (empty_snapshot generation) {
  phase = ownership;
  inventory = inventory;
  acquired_at = now;
  drives = inventory_rows inventory.nodes;
}

-- The snapshot with the ownership and what it decides for each row.
unfoldable pub assessed : ProductionSnapshot → OwnershipEvidence → ProductionSnapshot
unfolding inventory_rows
assessed s evidence =
    let assessment = assess_ownership s.inventory evidence disks in
    record s {
      phase = complete;
      ownership = assessment;
      drives = map (decided assessment.physical_devices) s.drives;
    }

-- Without a disk nothing is assessed.
unfoldable pub without_disk : ProductionSnapshot → ProductionSnapshot
without_disk s = record s {
  phase = complete;
  drives = map (decided s.ownership.physical_devices) s.drives;
}

-- What a step leaves behind: the place of the thread, and the snapshot that it publishes.
abbrev pub Turn : Type 0
Turn = Worker × Option ProductionSnapshot

abbrev pub gives_up : ProductionSnapshot → Turn
gives_up s = (showing s, none)

-- `checkScanCancelled`, before what follows it; `stop` says whether the thread is asked to stop.
abbrev pub unless_stopped : Bool → ℕ → Turn → Turn
unless_stopped true generation next = gives_up (cancelled generation)
unless_stopped false generation next = next

abbrev pub scanned : ℕ → ℕ → Result ResolvedInventorySnapshot → Turn
scanned generation now (err e) =
    (finishing (record (empty_snapshot generation) { phase = failed; scan_error = some e }), none)
scanned generation now (ok inventory) = (listing (with_inventory generation now inventory), none)

-- The inventory is scanned.
abbrev pub scan_turn : Bool → ℕ → ℕ → Answer (Result ResolvedInventorySnapshot) → Turn
scan_turn stop generation now (threw message) = gives_up (thrown generation message)
scan_turn stop generation now threw_other = gives_up (thrown_other generation)
scan_turn stop generation now (returned r) =
    unless_stopped stop generation (scanned generation now r)

-- Ownership has been read, and is assessed.
abbrev pub assess_turn : Bool → ProductionSnapshot → Answer OwnershipEvidence → Turn
assess_turn stop s (threw message) = gives_up (thrown s.generation message)
assess_turn stop s threw_other = gives_up (thrown_other s.generation)
assess_turn stop s (returned evidence) =
    unless_stopped stop s.generation (finishing (assessed s evidence), none)

-- Ownership is read only if there is a disk.
abbrev pub read_turn : Bool → Bool → ProductionSnapshot → Answers → Turn
read_turn true stop s a = assess_turn stop s (a.evidence s.inventory)
read_turn false stop s a = unless_stopped stop s.generation (finishing (without_disk s), none)

-- One step. A check between two others of one step sees what the later one sees.
unfoldable pub turn : Bool → Worker → Answers → Turn
turn stop absent a = (absent, none)
turn stop (scanning generation) a = scan_turn stop generation a.acquired_at a.inventory
turn stop (listing s) a = (reading s, some s)
turn stop (reading s) a = read_turn (has_disk s.drives) stop s a
turn stop (finishing s) a = unless_stopped stop s.generation (showing s, none)
turn stop (showing s) a = (leaving, some s)
turn stop leaving a = (ended, none)
turn stop ended a = (ended, none)
