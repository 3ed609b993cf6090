-- ===== src/Jobs/Starting.antt =====
-- `start` of jobs/job_manager.cpp, in terms of moves.
use drive_lab.Prelude.{
  ℕ, ◌<◌, ◌≡◌, refl, ◌≢◌, ◌⊎◌, inl, inr, Bool, true, false, none, some, List, length, arith,
  Bool-cases,
}
use drive_lab.Drive.{Drive, same_physical_device}
use drive_lab.Mode.{ExecutionMode, real, demo, dry_run}
use drive_lab.Result.{Result, ok, err, Error, Result-cases}
use drive_lab.Safety.{ExecutionAuthorization, authorize}
use drive_lab.Safety.Policy.{grant, authorize_iff}
use drive_lab.Jobs.{
  JobRecord, JobState, Ledger, World, planned, queued, starting, running, failed, is_queued,
  lock_owner, set_lock, find_job, write_job,
}
use drive_lab.Jobs.Launch.{
  log, called, fail, start, start_authorized, start_observed, start_failed, identity_changed,
}
use drive_lab.Jobs.Moves.{Same, Cleared, Move, launch, leave}

pub data Started (w : World) (mode : ExecutionMode) (j : JobRecord) (l : Ledger)
    (r : JobRecord × Ledger × Bool) : Type 0 where
  launched :
      (d : Drive)
      → Same j r.0
      → r.0.state ≡ running
      → Cleared w mode j.operation d
      → r.1.active_locks ≡ set_lock j.drive_id j.id l.active_locks
      → Started w mode j l r
  refused :
      Same j r.0
      → (r.0.state ≡ planned) ⊎ (r.0.state ≡ failed)
      → r.1.active_locks ≡ l.active_locks
      → Started w mode j l r

executes_not_dry : (m : ExecutionMode) → (grant m).may_execute ≡ true → m ≢ dry_run
executes_not_dry real h e = cc
executes_not_dry demo h e = cc
executes_not_dry dry_run h e = cc

Same-state : (j : JobRecord) (s : JobState) → Same j (record j { state = s })
Same-state j s = record { same_id = refl; same_drive = refl; same_operation = refl; sane = λ h. h }

fail-Started :
    (w : World) (mode : ExecutionMode) (j : JobRecord) (e : Error) (l : Ledger)
    → Started w mode j l (start_failed (fail w (record j { state = starting }) e (called l)))
unfolding fail log
fail-Started w mode j e l =
    refused (record { same_id = refl; same_drive = refl; same_operation = refl; sane = λ h. h })
      (inr refl) refl

start_authorized-Started :
    (w : World) (mode : ExecutionMode) (j : JobRecord) (d : Drive) (a : ExecutionAuthorization)
    (l : Ledger)
    → (n : ℕ) × (w.resolve n j.operation.target.identity ≡ ok d)
    → same_physical_device j.operation.target.identity d.identity ≡ true
    → authorize d j.operation.safety_class mode ≡ ok a
    → Started w mode j l (start_authorized w (record j { state = starting }) d a (called l))
unfolding start_authorized log
start_authorized-Started w mode j d a l seen s e = elim (Bool-cases a.may_execute) [
  | inl may ↦
      let (p, g) = (authorize_iff d j.operation.safety_class mode a).0 e in
      rw may (
        launched d
          (record { same_id = refl; same_drive = refl; same_operation = refl; sane = λ h. h }) refl
          (record {
            seen = seen;
            same_device = s;
            allowed = p;
            executes = executes_not_dry mode (ground arith);
          })
          refl)
  | inr may ↦ rw may (
      refused (record { same_id = refl; same_drive = refl; same_operation = refl; sane = λ h. h })
        (inl refl) refl)
]

start_observed-Started :
    (w : World) (mode : ExecutionMode) (j : JobRecord) (n : ℕ) (r : Result Drive) (l : Ledger)
    → w.resolve n j.operation.target.identity ≡ r
    → Started w mode j l (start_observed w mode (record j { state = starting }) r (called l))
unfolding start_observed
start_observed-Started w mode j n (err e) l q = fail-Started w mode j e l
start_observed-Started w mode j n (ok d) l seen =
    elim (Bool-cases (same_physical_device j.operation.target.identity d.identity)) [
      | inr other ↦ rw other (fail-Started w mode j identity_changed l)
      | inl same ↦ rw same (elim (Result-cases (authorize d j.operation.safety_class mode)) [
        | inl (a, e) ↦ rw e (start_authorized-Started w mode j d a l (n, seen) same e)
        | inr (e, q) ↦ rw q (fail-Started w mode j e l)
      ])
    ]

-- `start` either runs the job on a drive that it has checked and locks it, or leaves the locks
-- alone and takes the job out of the queue.
pub start-Started :
    (w : World) (mode : ExecutionMode) (j : JobRecord) (l : Ledger)
    → Started w mode j l (start w mode j l)
unfolding start
start-Started w mode j l = start_observed-Started w mode j l.calls _ l refl

pub start_not_queued :
    (w : World) (mode : ExecutionMode) (j : JobRecord) (l : Ledger)
    → is_queued (start w mode j l).0.state ≡ false
start_not_queued w mode j l = elim (start-Started w mode j l) [
  | launched _ _ r _ _ ↦ ground arith
  | refused _ (inl r) _ ↦ ground arith
  | refused _ (inr r) _ ↦ ground arith
]

pub start-Same :
    (w : World) (mode : ExecutionMode) (j : JobRecord) (l : Ledger) → Same j (start w mode j l).0
start-Same w mode j l = elim (start-Started w mode j l) [
  | launched _ s _ _ _ ↦ s
  | refused s _ _ ↦ s
]

-- In terms of the board: one move.
pub start-Move :
    (w : World) (mode : ExecutionMode) (limit next : ℕ) (js : List JobRecord) (l : Ledger)
    (j : JobRecord)
    → find_job j.id js ≡ some j
    → j.state ≡ queued
    → lock_owner j.drive_id l.active_locks ≡ none
    → length l.active_locks < limit
    → Move w mode limit
        (record { next = next; jobs = js; locks = l.active_locks })
        (record {
          next = next;
          jobs = write_job j.id (start w mode j l).0 js;
          locks = (start w mode j l).1.active_locks;
        })
start-Move w mode limit next js l j f q free room = elim (start-Started w mode j l) [
  | launched d s r c e ↦ launch j (start w mode j l).0 d f s q r c free room refl refl e
  | refused s (inl r) e ↦ leave j (start w mode j l).0 f s q (inl r) refl refl e
  | refused s (inr r) e ↦ leave j (start w mode j l).0 f s q (inr (inl r)) refl refl e
]
