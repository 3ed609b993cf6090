-- ===== src/Production/Generations.antt =====
-- The generations of the snapshots that are shown.
use drive_lab.Prelude.{
  ◌≡◌, inl, inr, refl, Bool, false, not, ◌&&◌, Option, none, some, List, [], if-keeps, Text,
  Bool-cases, if◌then◌else◌, arith,
}
use drive_lab.Application.{CoreApplication}
use drive_lab.Production.Control.{
  Production, new_production, Event, starts, works, waits, cancels, joins, start_scan, happens,
  history, launched, next_generation,
}
use drive_lab.Production.Orderly.{Orderly, work-Stepped, history-Orderly}

-- Whether an event is a start that is accepted.
abbrev pub is_accepted : Production → Event → Bool
is_accepted p (starts refusal) = not p.control_held && (p.has_source && not p.running)
is_accepted p _ = false

-- A start shows the next generation, without a row; nothing else changes the generation.
abbrev pub Follows : Production → Event → Production → Type 0
Follows p e q =
    if is_accepted p e
    then (q.published.generation ≡ next_generation p) × (q.published.drives ≡ [])
    else q.published.generation ≡ p.published.generation

launched-next :
    (refusal : Option Text) (p : Production)
    → ((launched refusal (next_generation p) p).0.published.generation ≡ next_generation p)
      × ((launched refusal (next_generation p) p).0.published.drives ≡ [])
launched-next none p = (refl, refl)
launched-next (some message) p = (refl, refl)

start-Follows :
    (refusal : Option Text) (p : Production)
    → Follows p (starts refusal) (happens p (starts refusal))
unfolding happens start_scan
start-Follows refusal p = elim (Bool-cases p.control_held) [
  | inl a ↦ ground arith
  | inr a ↦ elim (Bool-cases p.has_source) [
    | inr b ↦ ground arith
    | inl b ↦ elim (Bool-cases p.running) [
      | inl c ↦ ground arith
      | inr c ↦ let next = launched-next refusal p in ground arith
    ]
  ]
]

event-Follows : (p : Production) (e : Event) → Orderly p → Follows p e (happens p e)
unfolding happens
event-Follows p (starts refusal) h = start-Follows refusal p
event-Follows p (works a) h = (work-Stepped a p h).1
event-Follows p waits h = if-keeps (Follows p waits) p.control_held p _ refl refl
event-Follows p cancels h = if-keeps (Follows p cancels) p.control_held p _ refl refl
event-Follows p joins h = if-keeps (Follows p joins) (p.control_held && not p.running) _ p refl refl

-- A start that finds a source, the control mutex free and no scan running shows a snapshot of the next
-- generation without a row, so that no verdict of an earlier scan stays; whatever else happens, the
-- snapshot shown keeps its generation.
pub happens-Follows :
    (app : CoreApplication) (has_source : Bool) (es : List Event) (e : Event)
    → Follows
        (history (new_production has_source app) es)
        e
        (happens (history (new_production has_source app) es) e)
happens-Follows app has_source es e =
    event-Follows (history (new_production has_source app) es) e (history-Orderly app has_source es)
