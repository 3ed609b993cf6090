-- ===== src/Production/Ready.antt =====
-- What a row that is shown as ready rests on.
use drive_lab.Prelude.{
  ℕ, ◌≡◌, refl, sym, ◌∙◌, inl, inr, Bool, true, false, not, ◌&&◌, Option, none, some, List, [], ◌∷◌,
  Text, map, text_eq, text_eq_iff, find_if, find_if-test, All, All-map, All-find_if, arith,
  Option-cases, if-keeps,
}
use drive_lab.Result.{Result, ok, err}
use drive_lab.Drive.{ready, unknown}
use drive_lab.Inventory.{ResolvedInventorySnapshot, ResolvedBlockNode}
use drive_lab.Ownership.{OwnershipEvidence, ClassifiedStorage, disks}
use drive_lab.Ownership.Assess.{assess_ownership}
use drive_lab.Ownership.Assess.Ready.{ReadyDevice, ready-ReadyDevice}
use drive_lab.Production.{
  ProductionDrive, ProductionSnapshot, complete, inventory_rows, row_key, decided,
}
use drive_lab.Production.Worker.{
  Answers, Answer, returned, threw, threw_other, Worker, absent, scanning, reading, finishing,
  leaving, ended, assessed, without_disk, Turn, unless_stopped, scanned, scan_turn, assess_turn,
  read_turn, turn, listing, showing,
}
use drive_lab.Production.Control.{
  Production, Event, starts, works, waits, cancels, joins, start_scan, work, happens, history,
  shown, new_production, launched, next_generation,
}
use drive_lab.Application.{CoreApplication}

-- The evidence and the verdict behind a row that is ready.
pub record Proven (s : ProductionSnapshot) (row : ProductionDrive) : Type 0 where
  pub evidence : OwnershipEvidence
  pub device : ClassifiedStorage
  pub same_node : device.node ≡ row_key row
  pub same_assessment : s.ownership ≡ assess_ownership s.inventory evidence disks
  pub proof : ReadyDevice s.inventory evidence device
  pub whole : s.phase ≡ complete

abbrev pub Justified : ProductionSnapshot → Type 0
Justified s = All (λ row. row.status ≡ ready → Proven s row) s.drives

abbrev pub Unknown : List ProductionDrive → Type 0
Unknown rows = All (λ row. row.status ≡ unknown) rows

rows-Unknown : (ns : List ResolvedBlockNode) → Unknown (inventory_rows ns)
unfolding inventory_rows
rows-Unknown [] = tt
rows-Unknown (n ∷ ns) = ground (arith, rows-Unknown ns)

Unknown-Justified : (s : ProductionSnapshot) → Unknown s.drives → Justified s
Unknown-Justified s u = All-map (λ row e h. ground arith) s.drives u

All-mapped {ℓ κ} :
    {A : Type ℓ} (P : A → Type κ) (f : A → A) (xs : List A)
    → All (λ x. P (f x)) xs
    → All P (map f xs)
All-mapped P f [] h = tt
All-mapped P f (x ∷ xs) h = (h.0, All-mapped P f xs h.1)

decided-row_key :
    (devices : List ClassifiedStorage) (row : ProductionDrive)
    → row_key (decided devices row) ≡ row_key row
unfolding decided
decided-row_key devices row = ground arith

-- A row that becomes ready has a ready device of its own.
decided-device :
    (inventory : ResolvedInventorySnapshot) (evidence : OwnershipEvidence) (row : ProductionDrive)
    → row.status ≡ unknown
    → (decided (assess_ownership inventory evidence disks).physical_devices row).status ≡ ready
    → (d : ClassifiedStorage) × (d.node ≡ row_key row) × ReadyDevice inventory evidence d
unfolding decided
decided-device inventory evidence row u h =
    let devices = (assess_ownership inventory evidence disks).physical_devices in
    let test = λ (d : ClassifiedStorage). text_eq d.node (row_key row) in
    elim (Option-cases (find_if test devices)) [
      | inl e ↦ ground arith
      | inr (d, e) ↦
          let r : d.status ≡ ready = ground arith in
          let known = All-find_if _ test devices d (ready-ReadyDevice inventory evidence disks) e in
          (d, (text_eq_iff d.node (row_key row)).0 (find_if-test test devices d e), known r)
    ]

assessed-Justified :
    (s : ProductionSnapshot) (evidence : OwnershipEvidence)
    → Unknown s.drives
    → Justified (assessed s evidence)
unfolding assessed
assessed-Justified s evidence u =
    All-mapped _ _ s.drives (All-map (λ row e. proven row e) s.drives u)
  where
    proven :
        (row : ProductionDrive)
        → row.status ≡ unknown
        → (decided (assess_ownership s.inventory evidence disks).physical_devices row).status
          ≡ ready
        → Proven
            (assessed s evidence)
            (decided (assess_ownership s.inventory evidence disks).physical_devices row)
    proven row e h =
        let devices = (assess_ownership s.inventory evidence disks).physical_devices in
        let (d, n, r) = decided-device s.inventory evidence row e h in
        record {
          evidence = evidence;
          device = d;
          same_node = n ∙ sym (decided-row_key devices row);
          same_assessment = refl;
          proof = r;
          whole = refl;
        }

decided-status :
    (devices : List ClassifiedStorage) (row : ProductionDrive)
    → devices ≡ []
    → (decided devices row).status ≡ row.status
unfolding decided find_if
decided-status devices row n = rw (n, decided) refl

without_disk-Justified :
    (s : ProductionSnapshot)
    → s.ownership.physical_devices ≡ []
    → Unknown s.drives
    → Justified (without_disk s)
unfolding without_disk
without_disk-Justified s n u =
    Unknown-Justified (without_disk s)
      (All-mapped _ _ s.drives (All-map (λ row e. decided-status _ row n ∙ e) s.drives u))

-- What the thread holds.
abbrev pub Holds : Worker → Type 0
Holds absent = Unit
Holds (scanning generation) = Unit
Holds (listing s) = (s.ownership.physical_devices ≡ []) × Unknown s.drives
Holds (reading s) = (s.ownership.physical_devices ≡ []) × Unknown s.drives
Holds (finishing s) = Justified s
Holds (showing s) = Justified s
Holds leaving = Unit
Holds ended = Unit

abbrev JustifiedTurn : Turn → Type 0
JustifiedTurn (w, none) = Holds w
JustifiedTurn (w, some s) = Holds w × Justified s

unless_stopped-JustifiedTurn :
    (stop : Bool) (generation : ℕ) (next : Turn)
    → JustifiedTurn next
    → JustifiedTurn (unless_stopped stop generation next)
unless_stopped-JustifiedTurn true generation next h = tt
unless_stopped-JustifiedTurn false generation next h = h

scanned-JustifiedTurn :
    (generation now : ℕ) (r : Result ResolvedInventorySnapshot)
    → JustifiedTurn (scanned generation now r)
scanned-JustifiedTurn generation now (err e) = tt
scanned-JustifiedTurn generation now (ok inventory) = (refl, rows-Unknown inventory.nodes)

scan-JustifiedTurn :
    (stop : Bool) (generation now : ℕ) (a : Answer (Result ResolvedInventorySnapshot))
    → JustifiedTurn (scan_turn stop generation now a)
scan-JustifiedTurn stop generation now (threw message) = tt
scan-JustifiedTurn stop generation now threw_other = tt
scan-JustifiedTurn stop generation now (returned r) =
    unless_stopped-JustifiedTurn stop generation (scanned generation now r)
      (scanned-JustifiedTurn generation now r)

assess-JustifiedTurn :
    (stop : Bool) (s : ProductionSnapshot) (a : Answer OwnershipEvidence)
    → Unknown s.drives
    → JustifiedTurn (assess_turn stop s a)
assess-JustifiedTurn stop s (threw message) u = tt
assess-JustifiedTurn stop s threw_other u = tt
assess-JustifiedTurn stop s (returned evidence) u =
    unless_stopped-JustifiedTurn stop s.generation _ (assessed-Justified s evidence u)

read-JustifiedTurn :
    (disk stop : Bool) (s : ProductionSnapshot) (a : Answers)
    → Holds (reading s)
    → JustifiedTurn (read_turn disk stop s a)
read-JustifiedTurn true stop s a (n, u) = assess-JustifiedTurn stop s (a.evidence s.inventory) u
read-JustifiedTurn false stop s a (n, u) =
    unless_stopped-JustifiedTurn stop s.generation _ (without_disk-Justified s n u)

turn-JustifiedTurn :
    (stop : Bool) (w : Worker) (a : Answers) → Holds w → JustifiedTurn (turn stop w a)
unfolding turn
turn-JustifiedTurn stop absent a h = tt
turn-JustifiedTurn stop (scanning generation) a h =
    scan-JustifiedTurn stop generation a.acquired_at a.inventory
turn-JustifiedTurn stop (listing s) a h = (h, Unknown-Justified s h.1)
turn-JustifiedTurn stop (reading s) a h = read-JustifiedTurn _ stop s a h
turn-JustifiedTurn stop (finishing s) a h = unless_stopped-JustifiedTurn stop s.generation _ h
turn-JustifiedTurn stop (showing s) a h = (tt, h)
turn-JustifiedTurn stop leaving a h = tt
turn-JustifiedTurn stop ended a h = tt

abbrev pub Sound : Production → Type 0
Sound p = Justified p.published × Holds p.worker

JustifiedTurn-Sound :
    (s : ProductionSnapshot) (t : Turn)
    → Justified s
    → JustifiedTurn t
    → Justified (shown s t.1) × Holds t.0
JustifiedTurn-Sound s (w, none) j h = (j, h)
JustifiedTurn-Sound s (w, some n) j h = (h.1, h.0)

launched-Sound :
    (refusal : Option Text) (generation : ℕ) (p : Production)
    → Sound (launched refusal generation p).0
launched-Sound none generation p = (tt, tt)
launched-Sound (some message) generation p = (tt, tt)

start-Sound : (refusal : Option Text) (p : Production) → Sound p → Sound (start_scan refusal p).0
unfolding start_scan
start-Sound refusal p h =
    let after = λ (q : Production × Result (Unit {0})). Sound q.0 in
    if-keeps after (not p.has_source) _ _ h
      (if-keeps after p.running _ _ h (launched-Sound refusal (next_generation p) p))

happens-Sound : (p : Production) (e : Event) → Sound p → Sound (happens p e)
unfolding happens work
happens-Sound p (starts refusal) h =
    if-keeps Sound p.control_held p (start_scan refusal p).0 h (start-Sound refusal p h)
happens-Sound p (works a) h =
    JustifiedTurn-Sound p.published (turn p.stop_requested p.worker a) h.0
      (turn-JustifiedTurn p.stop_requested p.worker a h.1)
happens-Sound p waits h = if-keeps Sound p.control_held p _ h h
happens-Sound p cancels h = if-keeps Sound p.control_held p _ h h
happens-Sound p joins h = if-keeps Sound (p.control_held && not p.running) _ p (h.0, tt) h

history-Sound : (p : Production) (es : List Event) → Sound p → Sound (history p es)
unfolding history
history-Sound p [] h = h
history-Sound p (e ∷ es) h = history-Sound (happens p e) es (happens-Sound p e h)

-- Whatever happens to an application, and in whichever order its thread and its callers take their
-- steps, every row that its snapshot shows as ready belongs to a completed scan, and is a ready device
-- for the inventory of that snapshot and for one evidence, from which the ownership shown follows.
pub history-Justified :
    (app : CoreApplication) (has_source : Bool) (es : List Event)
    → Justified (history (new_production has_source app) es).published
history-Justified app has_source es = (history-Sound (new_production has_source app) es (tt, tt)).0
