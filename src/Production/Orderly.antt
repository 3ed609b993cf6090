-- ===== src/Production/Orderly.antt =====
-- How a scan proceeds: what is shown while it runs, and that it ends.
use drive_lab.Prelude.{
  ℕ, suc, ◌≤◌, ◌≡◌, ◌⊎◌, inl, inr, refl, sym, ◌∙◌, Bool, true, false, not, ◌&&◌, Option, none, some,
  List, [], ◌∷◌, arith, Bool-cases, if-keeps, ◌-◌, Text, ap,
}
use drive_lab.Result.{Result, ok, err}
use drive_lab.Inventory.{ResolvedInventorySnapshot}
use drive_lab.Ownership.{OwnershipEvidence}
use drive_lab.Application.{CoreApplication}
use drive_lab.Production.{idle, ownership, complete, failed, ProductionSnapshot, has_disk}
use drive_lab.Production.Worker.{
  Answers, Answer, returned, threw, threw_other, Worker, absent, scanning, reading, finishing,
  leaving, ended, assessed, without_disk, Turn, unless_stopped, scanned, scan_turn, assess_turn,
  read_turn, turn, listing, showing, gives_up, cancelled, thrown, thrown_other,
}
use drive_lab.Production.Control.{
  Production, new_production, shown, Event, starts, works, waits, cancels, joins, start_scan, work,
  happens, history, launched, next_generation, pending,
}
use mathlib.Core.Path.{subst}

abbrev pub is_active : Worker → Bool
is_active absent = false
is_active (scanning generation) = true
is_active (listing s) = true
is_active (reading s) = true
is_active (finishing s) = true
is_active (showing s) = true
is_active leaving = true
is_active ended = false

-- The scan has come to an end.
abbrev pub Over : ProductionSnapshot → Type 0
Over s = (s.phase ≡ complete) ⊎ (s.phase ≡ failed)

-- The scan is under way: nothing is shown but that it has begun, or a snapshot of the ownership phase.
abbrev pub Underway : ProductionSnapshot → Type 0
Underway s = (s ≡ pending s.generation) ⊎ (s.phase ≡ ownership)

-- A result that is ready to be shown in place of a snapshot.
abbrev pub ResultFor : ProductionSnapshot → ProductionSnapshot → Type 0
ResultFor s t = Underway s × (t.generation ≡ s.generation) × Over t

-- What is shown while the thread stands at a place.
abbrev pub Shows : ProductionSnapshot → Worker → Type 0
Shows s absent = (s.phase ≡ idle) ⊎ Over s
Shows s (scanning generation) = s ≡ pending generation
Shows s (listing t) = (s ≡ pending t.generation) × (t.phase ≡ ownership)
Shows s (reading t) = (s.phase ≡ ownership) × (s ≡ t)
Shows s (finishing t) = ResultFor s t
Shows s (showing t) = ResultFor s t
Shows s leaving = Over s
Shows s ended = Over s

abbrev pub Orderly : Production → Type 0
Orderly p = (p.running ≡ is_active p.worker) × Shows p.published p.worker

abbrev pub steps_left : Worker → ℕ
steps_left absent = 0
steps_left (scanning generation) = 6
steps_left (listing s) = 5
steps_left (reading s) = 4
steps_left (finishing s) = 3
steps_left (showing s) = 2
steps_left leaving = 1
steps_left ended = 0

-- What a step of a thread leaves behind: fewer steps, and a snapshot of the same generation.
abbrev Advances : ProductionSnapshot → ℕ → Turn → Type 0
Advances s n t =
    Shows (shown s t.1) t.0
    × ((shown s t.1).generation ≡ s.generation)
    × (suc (steps_left t.0) ≤ n)
    × (is_active t.0 ≡ true)

-- A result is about to be shown.
gives_up-Advances :
    (s t : ProductionSnapshot) (n : ℕ) → ResultFor s t → 3 ≤ n → Advances s n (gives_up t)
gives_up-Advances s t n r l = (r, refl, l, refl)

unless_stopped-Advances :
    (s : ProductionSnapshot) (n generation : ℕ) (stop : Bool) (next : Turn)
    → Underway s
    → generation ≡ s.generation
    → 3 ≤ n
    → Advances s n next
    → Advances s n (unless_stopped stop generation next)
unless_stopped-Advances s n generation true next u g l h =
    gives_up-Advances s (cancelled generation) n (u, g, inr refl) l
unless_stopped-Advances s n generation false next u g l h = h

scanned-Advances :
    (generation now : ℕ) (r : Result ResolvedInventorySnapshot)
    → Advances (pending generation) 6 (scanned generation now r)
scanned-Advances generation now (err e) = ((inl refl, refl, inr refl), refl, omega arith, refl)
scanned-Advances generation now (ok inventory) = ((refl, refl), refl, omega arith, refl)

scan-Advances :
    (stop : Bool) (generation now : ℕ) (a : Answer (Result ResolvedInventorySnapshot))
    → Advances (pending generation) 6 (scan_turn stop generation now a)
scan-Advances stop generation now (threw message) =
    gives_up-Advances _ (thrown generation message) 6 (inl refl, refl, inr refl) (omega arith)
scan-Advances stop generation now threw_other =
    gives_up-Advances _ (thrown_other generation) 6 (inl refl, refl, inr refl) (omega arith)
scan-Advances stop generation now (returned r) =
    unless_stopped-Advances (pending generation) 6 generation stop _ (inl refl) refl (omega arith)
      (scanned-Advances generation now r)

assess-Advances :
    (stop : Bool) (s : ProductionSnapshot) (a : Answer OwnershipEvidence)
    → s.phase ≡ ownership
    → Advances s 4 (assess_turn stop s a)
unfolding assessed
assess-Advances stop s (threw message) o =
    gives_up-Advances s (thrown s.generation message) 4 (inr o, refl, inr refl) (omega arith)
assess-Advances stop s threw_other o =
    gives_up-Advances s (thrown_other s.generation) 4 (inr o, refl, inr refl) (omega arith)
assess-Advances stop s (returned evidence) o =
    unless_stopped-Advances s 4 s.generation stop _ (inr o) refl (omega arith)
      ((inr o, refl, inl refl), refl, omega arith, refl)

read-Advances :
    (disk stop : Bool) (s : ProductionSnapshot) (a : Answers)
    → s.phase ≡ ownership
    → Advances s 4 (read_turn disk stop s a)
unfolding without_disk
read-Advances true stop s a o = assess-Advances stop s (a.evidence s.inventory) o
read-Advances false stop s a o =
    unless_stopped-Advances s 4 s.generation stop _ (inr o) refl (omega arith)
      ((inr o, refl, inl refl), refl, omega arith, refl)

abbrev pub is_there : Worker → Bool
is_there absent = false
is_there _ = true

pub is_active-is_there : (w : Worker) → is_active w ≡ true → is_there w ≡ true
is_active-is_there absent h = cc
is_active-is_there (scanning generation) h = refl
is_active-is_there (listing s) h = refl
is_active-is_there (reading s) h = refl
is_active-is_there (finishing s) h = refl
is_active-is_there (showing s) h = refl
is_active-is_there leaving h = refl
is_active-is_there ended h = refl

-- What a step of the thread does to the application.
abbrev pub Stepped : Production → Production → Type 0
Stepped p q =
    Orderly q
    × (q.published.generation ≡ p.published.generation)
    × (steps_left q.worker ≤ steps_left p.worker - 1)
    × (is_there q.worker ≡ is_there p.worker)

Advances-Stepped :
    (p : Production) (n : ℕ) (t : Turn)
    → p.running ≡ true
    → steps_left p.worker ≡ n
    → is_there p.worker ≡ true
    → Advances p.published n t
    → Stepped p (record p { worker = t.0; published = shown p.published t.1 })
Advances-Stepped p n t r e i (s, g, l, act) =
    ((r ∙ sym act, s), g, omega arith, is_active-is_there t.0 act ∙ sym i)

-- The same, for a worker that stands at a place.
work-Stepped_at :
    (a : Answers) (p : Production) (w : Worker)
    → Orderly (record p { worker = w })
    → Stepped (record p { worker = w }) (work a (record p { worker = w }))
unfolding work turn
work-Stepped_at a p absent (r, s) = ((r, s), refl, omega arith, refl)
work-Stepped_at a p (scanning generation) (r, s) =
    Advances-Stepped (record p { worker = scanning generation }) 6
      (scan_turn p.stop_requested generation a.acquired_at a.inventory) r refl refl
      (subst (λ u. Advances u 6 (scan_turn p.stop_requested generation a.acquired_at a.inventory))
        (sym s) (scan-Advances p.stop_requested generation a.acquired_at a.inventory))
work-Stepped_at a p (listing t) (r, s) =
    Advances-Stepped (record p { worker = listing t }) 5 (reading t, some t) r refl refl
      ((s.1, refl), sym (ap (λ u. u.generation) s.0), omega arith, refl)
work-Stepped_at a p (reading t) (r, s) =
    Advances-Stepped (record p { worker = reading t }) 4
      (read_turn (has_disk t.drives) p.stop_requested t a) r refl refl
      (subst (λ u. Advances p.published 4 (read_turn (has_disk u.drives) p.stop_requested u a)) s.1
        (read-Advances _ p.stop_requested p.published a s.0))
work-Stepped_at a p (finishing t) (r, s) =
    Advances-Stepped (record p { worker = finishing t }) 3
      (unless_stopped p.stop_requested t.generation (showing t, none)) r refl refl
      (unless_stopped-Advances p.published 3 t.generation p.stop_requested _ s.0 s.1 (omega arith)
        (s, refl, omega arith, refl))
work-Stepped_at a p (showing t) (r, s) =
    Advances-Stepped (record p { worker = showing t }) 2 (leaving, some t) r refl refl
      (s.2, s.1, omega arith, refl)
work-Stepped_at a p leaving (r, s) = ((refl, s), refl, omega arith, refl)
work-Stepped_at a p ended (r, s) = ((r, s), refl, omega arith, refl)

pub work-Stepped : (a : Answers) (p : Production) → Orderly p → Stepped p (work a p)
work-Stepped a p h = work-Stepped_at a p p.worker h

not_active-joined :
    (s : ProductionSnapshot) (w : Worker) → is_active w ≡ false → Shows s w → Shows s absent
not_active-joined s absent n h = h
not_active-joined s (scanning generation) n h = cc
not_active-joined s (listing t) n h = cc
not_active-joined s (reading t) n h = cc
not_active-joined s (finishing t) n h = cc
not_active-joined s (showing t) n h = cc
not_active-joined s leaving n h = cc
not_active-joined s ended n h = inr h

launched-Orderly :
    (refusal : Option Text) (generation : ℕ) (p : Production)
    → Orderly (launched refusal generation p).0
launched-Orderly none generation p = (refl, refl)
launched-Orderly (some message) generation p = (refl, inr (inr refl))

start-Orderly :
    (refusal : Option Text) (p : Production) → Orderly p → Orderly (start_scan refusal p).0
unfolding start_scan
start-Orderly refusal p h =
    let after = λ (q : Production × Result (Unit {0})). Orderly q.0 in
    if-keeps after (not p.has_source) _ _ h
      (if-keeps after p.running _ _ h (launched-Orderly refusal (next_generation p) p))

join-Orderly : (p : Production) → Orderly p → Orderly (happens p joins)
unfolding happens
join-Orderly p h = elim (Bool-cases (p.control_held && not p.running)) [
  | inr a ↦ rw a h
  | inl a ↦
      let r : p.running ≡ false = ground arith in
      let n : is_active p.worker ≡ false = sym h.0 ∙ r in
      rw a (r, not_active-joined p.published p.worker n h.1)
]

happens-Orderly : (p : Production) (e : Event) → Orderly p → Orderly (happens p e)
unfolding happens
happens-Orderly p (starts refusal) h =
    if-keeps Orderly p.control_held p (start_scan refusal p).0 h (start-Orderly refusal p h)
happens-Orderly p (works a) h = (work-Stepped a p h).0
happens-Orderly p waits h = if-keeps Orderly p.control_held p _ h h
happens-Orderly p cancels h = if-keeps Orderly p.control_held p _ h h
happens-Orderly p joins h = join-Orderly p h

Orderly-history : (p : Production) (es : List Event) → Orderly p → Orderly (history p es)
unfolding history
Orderly-history p [] h = h
Orderly-history p (e ∷ es) h = Orderly-history (happens p e) es (happens-Orderly p e h)

-- Whatever has happened to an application: its flag says that a scan runs exactly while the thread has
-- steps left. Until the inventory is read and published, the empty snapshot of the scan's generation
-- and of the inventory phase is shown; while ownership is read, the snapshot that the thread works on,
-- which is of the ownership phase; then such an empty snapshot or one of the ownership phase, of the
-- generation of the result that the thread is about to show, which is complete or failed. Otherwise
-- what is shown is complete or failed, or idle when there is no thread.
pub history-Orderly :
    (app : CoreApplication) (has_source : Bool) (es : List Event)
    → Orderly (history (new_production has_source app) es)
history-Orderly app has_source es =
    Orderly-history (new_production has_source app) es (refl, inl refl)
