-- ===== src/Production/Ends.antt =====
-- The end of a scan.
use drive_lab.Prelude.{
  ℕ, ◌≤◌, ◌≡◌, refl, sym, ◌∙◌, Bool, true, false, List, [], ◌∷◌, map, length, arith, ◌-◌,
}
use drive_lab.Result.{Result}
use drive_lab.Inventory.{ResolvedInventorySnapshot}
use drive_lab.Application.{CoreApplication}
use drive_lab.Production.{failed, ProductionSnapshot}
use drive_lab.Production.Worker.{
  Answers, Answer, returned, threw, threw_other, Worker, absent, scanning, reading, finishing,
  leaving, ended, Turn, scan_turn, assess_turn, read_turn, turn, listing, showing,
}
use drive_lab.Production.Control.{
  Production, new_production, shown, Event, works, work, happens, history, is_checked,
}
use mathlib.Core.Path.{subst}
use drive_lab.Production.Orderly.{
  is_active, Over, Shows, Orderly, steps_left, is_there, is_active-is_there, work-Stepped,
  history-Orderly,
}

-- Only the thread takes steps.
abbrev pub only_works : List Answers → List Event
only_works as' = map works as'

steps-Stepped :
    (as' : List Answers) (p : Production)
    → Orderly p
    → Orderly (history p (only_works as'))
      × ((history p (only_works as')).published.generation ≡ p.published.generation)
      × (steps_left (history p (only_works as')).worker ≤ steps_left p.worker - length as')
      × (is_there (history p (only_works as')).worker ≡ is_there p.worker)
unfolding history happens
steps-Stepped [] p h = (h, refl, omega arith, refl)
steps-Stepped (a ∷ as') p h =
    let (o, g, l, i) = work-Stepped a p h in
    let (o', g', l', i') = steps-Stepped as' (work a p) o in (o', g' ∙ g, omega arith, i' ∙ i)

no_steps-Over :
    (s : ProductionSnapshot) (w : Worker)
    → steps_left w ≡ 0
    → is_there w ≡ true
    → Shows s w
    → Over s × (is_active w ≡ false)
no_steps-Over s absent n i h = cc
no_steps-Over s (scanning generation) n i h = ground arith
no_steps-Over s (listing t) n i h = ground arith
no_steps-Over s (reading t) n i h = ground arith
no_steps-Over s (finishing t) n i h = ground arith
no_steps-Over s (showing t) n i h = ground arith
no_steps-Over s leaving n i h = ground arith
no_steps-Over s ended n i h = (h, refl)

steps_left-le : (w : Worker) → steps_left w ≤ 6
steps_left-le absent = omega arith
steps_left-le (scanning generation) = omega arith
steps_left-le (listing t) = omega arith
steps_left-le (reading t) = omega arith
steps_left-le (finishing t) = omega arith
steps_left-le (showing t) = omega arith
steps_left-le leaving = omega arith
steps_left-le ended = omega arith

-- A scan that runs has ended after six or more steps of its thread, whatever the thread is answered:
-- no scan runs then, and what is shown is complete or failed and of the generation of that scan.
pub scan-Ends :
    (app : CoreApplication) (has_source : Bool) (es : List Event) (as' : List Answers)
    → (history (new_production has_source app) es).running ≡ true
    → 6 ≤ length as'
    → let p = history (new_production has_source app) es in
      let q = history p (only_works as') in
      (q.running ≡ false) × (q.published.generation ≡ p.published.generation) × Over q.published
scan-Ends app has_source es as' r n =
    let p = history (new_production has_source app) es in
    let h = history-Orderly app has_source es in
    let (o, g, l, i) = steps-Stepped as' p h in
    let there = i ∙ is_active-is_there p.worker (sym h.0 ∙ r) in
    let bound = steps_left-le p.worker in
    let (over, quiet) = no_steps-Over _ _ (omega arith) there o.1 in (o.0 ∙ quiet, g, over)

-- A thread that is asked to stop, and has shown a failure if it has shown its result.
Doomed : ProductionSnapshot → Worker → Type 0
Doomed s absent = Unit
Doomed s (scanning generation) = Unit
Doomed s (listing t) = Unit
Doomed s (reading t) = Unit
Doomed s (finishing t) = Unit
Doomed s (showing t) = t.phase ≡ failed
Doomed s leaving = s.phase ≡ failed
Doomed s ended = s.phase ≡ failed

DoomedTurn : ProductionSnapshot → Turn → Type 0
unfolding Doomed
DoomedTurn s t = Doomed (shown s t.1) t.0

scan-DoomedTurn :
    (s : ProductionSnapshot) (generation now : ℕ) (a : Answer (Result ResolvedInventorySnapshot))
    → DoomedTurn s (scan_turn true generation now a)
unfolding DoomedTurn
scan-DoomedTurn s generation now (threw message) = refl
scan-DoomedTurn s generation now threw_other = refl
scan-DoomedTurn s generation now (returned r) = refl

read-DoomedTurn :
    (disk : Bool) (s t : ProductionSnapshot) (a : Answers) → DoomedTurn s (read_turn disk true t a)
unfolding DoomedTurn
read-DoomedTurn false s t a = refl
read-DoomedTurn true s t a =
    elim (a.evidence t.inventory) as (λ x. DoomedTurn s (assess_turn true t x)) [
      | threw message ↦ refl
      | threw_other ↦ refl
      | returned e ↦ refl
    ]

turn-DoomedTurn :
    (s : ProductionSnapshot) (w : Worker) (a : Answers) → Doomed s w → DoomedTurn s (turn true w a)
unfolding DoomedTurn turn
turn-DoomedTurn s absent a h = tt
turn-DoomedTurn s (scanning generation) a h = scan-DoomedTurn s generation a.acquired_at a.inventory
turn-DoomedTurn s (listing t) a h = tt
turn-DoomedTurn s (reading t) a h = read-DoomedTurn _ s t a
turn-DoomedTurn s (finishing t) a h = refl
turn-DoomedTurn s (showing t) a h = h
turn-DoomedTurn s leaving a h = h
turn-DoomedTurn s ended a h = h

steps-Doomed :
    (as' : List Answers) (p : Production)
    → p.stop_requested ≡ true
    → Doomed p.published p.worker
    → Doomed (history p (only_works as')).published (history p (only_works as')).worker
unfolding history happens work DoomedTurn
steps-Doomed [] p s h = h
steps-Doomed (a ∷ as') p s h = steps-Doomed as' (work a p) s (
    subst (λ b. DoomedTurn p.published (turn b p.worker a)) (sym s)
      (turn-DoomedTurn p.published p.worker a h))

active-Doomed :
    (s : ProductionSnapshot) (w : Worker) → is_active w ≡ true → is_checked w ≡ false → Doomed s w
unfolding Doomed
active-Doomed s absent r l = tt
active-Doomed s (scanning generation) r l = tt
active-Doomed s (listing t) r l = tt
active-Doomed s (reading t) r l = tt
active-Doomed s (finishing t) r l = tt
active-Doomed s (showing t) r l = cc
active-Doomed s leaving r l = cc
active-Doomed s ended r l = cc

quiet-failed :
    (s : ProductionSnapshot) (w : Worker)
    → is_active w ≡ false
    → is_there w ≡ true
    → Doomed s w
    → s.phase ≡ failed
unfolding Doomed
quiet-failed s absent q i h = cc
quiet-failed s (scanning generation) q i h = cc
quiet-failed s (listing t) q i h = cc
quiet-failed s (reading t) q i h = cc
quiet-failed s (finishing t) q i h = cc
quiet-failed s (showing t) q i h = cc
quiet-failed s leaving q i h = h
quiet-failed s ended q i h = h

-- A scan that is asked to stop before its last check whether it is cancelled ends with a failure that
-- is shown, after six or more steps of its thread, whatever the thread is answered.
pub stopped-Fails :
    (app : CoreApplication) (has_source : Bool) (es : List Event) (as' : List Answers)
    → (history (new_production has_source app) es).running ≡ true
    → (history (new_production has_source app) es).stop_requested ≡ true
    → is_checked (history (new_production has_source app) es).worker ≡ false
    → 6 ≤ length as'
    → let p = history (new_production has_source app) es in
      let q = history p (only_works as') in (q.running ≡ false) × (q.published.phase ≡ failed)
stopped-Fails app has_source es as' r s n l =
    let p = history (new_production has_source app) es in
    let h = history-Orderly app has_source es in
    let act = sym h.0 ∙ r in
    let (quiet, _, _) = scan-Ends app has_source es as' r l in
    let (o, _, _, i) = steps-Stepped as' p h in
    let doomed = steps-Doomed as' p s (active-Doomed p.published p.worker act n) in
    (quiet, quiet-failed _ _ (sym o.0 ∙ quiet) (i ∙ is_active-is_there p.worker act) doomed)
