-- ===== src/Jobs/Eligible.antt =====
-- `startEligibleJobs` of jobs/job_manager.cpp.
use drive_lab.Prelude.{
  ℕ, zero, suc, ◌+◌, ◌<◌, ◌≤◌, ◌≡◌, refl, ap, ◌⊎◌, inl, inr, Bool, true, false, not, none, some,
  List, [], ◌∷◌, ◌==◌, ltb, ltb→lt, length, count_if, All, ◌&&◌, if◌then◌else◌, arith, Bool-cases,
  Option-cases,
}
use drive_lab.Mode.{ExecutionMode}
use drive_lab.Jobs.{
  JobRecord, Lock, Ledger, World, queued, is_queued, lock_owner, is_locked, find_job, write_job,
}
use drive_lab.Jobs.Find.{Distinct, find_job-cons, write_job-cons}
use mathlib.Core.Path.{subst₂}
use drive_lab.Jobs.Launch.{start, start_next, start_loop}
use drive_lab.Jobs.Moves.{Board, Move, Moves, here, after, Moves-trans}
use drive_lab.Jobs.Lockstep.{InStep}
use drive_lab.Jobs.Lockstep.Keeps.{Move-InStep}
use drive_lab.Jobs.Starting.{start-Move, start_not_queued}

-- The job that `start_next` started, and what it left.
record Chosen (w : World) (mode : ExecutionMode) (js js' : List JobRecord) (l l' : Ledger)
    (j : JobRecord) : Type 0 where
  found : find_job j.id js ≡ some j
  waiting : j.state ≡ queued
  free : lock_owner j.drive_id l.active_locks ≡ none
  wrote : js' ≡ write_job j.id (start w mode j l).0 js
  left : l' ≡ (start w mode j l).1

-- Whether `start_next` starts this job.
abbrev eligible : JobRecord → Ledger → Bool
eligible j l = is_queued j.state && not (is_locked j.drive_id l.active_locks)

start_next_nil : (w : World) (mode : ExecutionMode) (l : Ledger) → start_next w mode [] l ≡ none
unfolding start_next
start_next_nil w mode l = refl

start_next_hit :
    (w : World) (mode : ExecutionMode) (i : JobRecord) (js : List JobRecord) (l : Ledger)
    → eligible i l ≡ true
    → start_next w mode (i ∷ js) l ≡ some ((start w mode i l).0 ∷ js, (start w mode i l).1)
unfolding start_next
start_next_hit w mode i js l h = rw h

start_next_miss :
    (w : World) (mode : ExecutionMode) (i : JobRecord) (js js' : List JobRecord) (l l' : Ledger)
    → eligible i l ≡ false
    → start_next w mode js l ≡ some (js', l')
    → start_next w mode (i ∷ js) l ≡ some (i ∷ js', l')
unfolding start_next
start_next_miss w mode i js js' l l' h e = rw (h, e)

start_next_end :
    (w : World) (mode : ExecutionMode) (i : JobRecord) (js : List JobRecord) (l : Ledger)
    → eligible i l ≡ false
    → start_next w mode js l ≡ none
    → start_next w mode (i ∷ js) l ≡ none
unfolding start_next
start_next_end w mode i js l h e = rw (h, e)

Chosen-here :
    (w : World) (mode : ExecutionMode) (i : JobRecord) (js : List JobRecord) (l : Ledger)
    → eligible i l ≡ true
    → Chosen w mode (i ∷ js) ((start w mode i l).0 ∷ js) l (start w mode i l).1 i
Chosen-here w mode i js l h = record {
  found = ground (arith, find_job-cons i.id i js);
  waiting = ground arith;
  free = ground arith;
  wrote = ground (arith, write_job-cons i.id (start w mode i l).0 i js);
  left = refl;
}

Chosen-later :
    (w : World) (mode : ExecutionMode) (i j : JobRecord) (js rs : List JobRecord) (l k : Ledger)
    → find_job i.id js ≡ none
    → Chosen w mode js rs l k j
    → Chosen w mode (i ∷ js) (i ∷ rs) l k j
Chosen-later w mode i j js rs l k new c =
    let other : (i.id == j.id) ≡ false = ground (arith, c.found, ap (λ (k : ℕ). find_job k js)) in
    record {
      found = ground (arith, find_job-cons j.id i js, c.found);
      waiting = c.waiting;
      free = c.free;
      wrote = ground (arith, write_job-cons j.id (start w mode j l).0 i js, c.wrote);
      left = c.left;
    }

start_next-some :
    (w : World) (mode : ExecutionMode) (js js' : List JobRecord) (l l' : Ledger)
    → Distinct js
    → start_next w mode js l ≡ some (js', l')
    → (j : JobRecord) × Chosen w mode js js' l l' j
start_next-some w mode [] js' l l' d e = cc (start_next_nil w mode l)
start_next-some w mode (i ∷ js) js' l l' d e = elim (Bool-cases (eligible i l)) [
  | inl hit ↦ (i, chosen_to (start_next_hit w mode i js l hit) (Chosen-here w mode i js l hit))
  | inr miss ↦ elim (Option-cases (start_next w mode js l)) [
    | inl q ↦ cc (start_next_end w mode i js l miss q)
    | inr (r, q) ↦
        let (j, c) = start_next-some w mode js r.0 l r.1 d.1 q in
        (
          j,
          chosen_to (start_next_miss w mode i js r.0 l r.1 miss q)
              (Chosen-later w mode i j js r.0 l r.1 d.0 c),
        )
  ]
]
  where
    chosen_to :
        {j : JobRecord} {rs : List JobRecord} {k : Ledger}
        → start_next w mode (i ∷ js) l ≡ some (rs, k)
        → Chosen w mode (i ∷ js) rs l k j
        → Chosen w mode (i ∷ js) js' l l' j
    chosen_to {j} {rs} {k} p c = subst₂ (λ xs x. Chosen w mode (i ∷ js) xs l x j) (cc) (cc) c

-- Every queued job waits for a drive that is locked, or there is no room for one more.
abbrev pub Settled : ℕ → List JobRecord → List Lock → Type 0
Settled limit js ls =
    (limit ≤ length ls) ⊎ All (λ j. is_queued j.state ≡ true → is_locked j.drive_id ls ≡ true) js

start_next-none :
    (w : World) (mode : ExecutionMode) (js : List JobRecord) (l : Ledger)
    → start_next w mode js l ≡ none
    → All (λ j. is_queued j.state ≡ true → is_locked j.drive_id l.active_locks ≡ true) js
start_next-none w mode [] l e = tt
start_next-none w mode (i ∷ js) l e = elim (Bool-cases (eligible i l)) [
  | inl hit ↦ cc (start_next_hit w mode i js l hit)
  | inr miss ↦ elim (Option-cases (start_next w mode js l)) [
    | inl q ↦ (λ h. ground arith, start_next-none w mode js l q)
    | inr (r, q) ↦ cc (start_next_miss w mode i js r.0 l r.1 miss q)
  ]
]

count_queued :
    (i : JobRecord) (js : List JobRecord)
    → count_if (λ j. is_queued j.state) (i ∷ js)
      ≡ (if is_queued i.state then 1 else 0) + count_if (λ j. is_queued j.state) js
unfolding count_if
count_queued i js = refl

start_next-count :
    (w : World) (mode : ExecutionMode) (js js' : List JobRecord) (l l' : Ledger)
    → start_next w mode js l ≡ some (js', l')
    → suc (count_if (λ j. is_queued j.state) js') ≡ count_if (λ j. is_queued j.state) js
start_next-count w mode [] js' l l' e = cc (start_next_nil w mode l)
start_next-count w mode (i ∷ js) js' l l' e = elim (Bool-cases (eligible i l)) [
  | inl hit ↦ ground (
    arith,
    start_next_hit w mode i js l hit,
    start_not_queued w mode i l,
    count_queued i js,
    count_queued (start w mode i l).0 js,
  )
  | inr miss ↦ elim (Option-cases (start_next w mode js l)) [
    | inl q ↦ cc (start_next_end w mode i js l miss q)
    | inr (r, q) ↦ ground (
      arith,
      start_next_miss w mode i js r.0 l r.1 miss q,
      start_next-count w mode js r.0 l r.1 q,
      count_queued i js,
      count_queued i r.0,
    )
  ]
]

-- With more fuel than there are queued jobs, the loop of `startEligibleJobs` ends because nothing is
-- left to start, and not because the fuel runs out: then as many drives are locked as the limit
-- allows, or every job in the queue waits for a drive that is locked.
pub start_loop-Settled :
    (w : World) (mode : ExecutionMode) (limit fuel : ℕ) (js : List JobRecord) (l : Ledger)
    → count_if (λ j. is_queued j.state) js < fuel
    → let (js', l') = start_loop w mode limit fuel js l in Settled limit js' l'.active_locks
unfolding start_loop
start_loop-Settled w mode limit zero js l h = elim h [ ]
start_loop-Settled w mode limit (suc fuel) js l h =
    elim (Bool-cases (ltb (length l.active_locks) limit)) [
      | inr full ↦ rw (full, start_loop) (inl (ground arith))
      | inl room ↦ elim (Option-cases (start_next w mode js l)) [
        | inl q ↦ rw (room, start_loop, q) (inr (start_next-none w mode js l q))
        | inr (r, q) ↦
            rw (room, start_loop, q)
              (start_loop-Settled w mode limit fuel r.0 r.1
                (omega (arith, start_next-count w mode js r.0 l r.1 q)))
      ]
    ]

abbrev board_of : ℕ → List JobRecord → Ledger → Board
board_of next js l = record { next = next; jobs = js; locks = l.active_locks }

Chosen-Move :
    (w : World) (mode : ExecutionMode) (limit next : ℕ) (js js' : List JobRecord) (l l' : Ledger)
    (j : JobRecord)
    → length l.active_locks < limit
    → Chosen w mode js js' l l' j
    → Move w mode limit (board_of next js l) (board_of next js' l')
Chosen-Move w mode limit next js js' l l' j room c =
    rw (c.wrote, c.left) (start-Move w mode limit next js l j c.found c.waiting c.free room)

start_next-Move :
    (w : World) (mode : ExecutionMode) (limit next : ℕ) (js js' : List JobRecord) (l l' : Ledger)
    → InStep limit (board_of next js l)
    → length l.active_locks < limit
    → start_next w mode js l ≡ some (js', l')
    → Move w mode limit (board_of next js l) (board_of next js' l')
start_next-Move w mode limit next js js' l l' v room e =
    let (j, c) = start_next-some w mode js js' l l' v.distinct e in
    Chosen-Move w mode limit next js js' l l' j room c

-- The loop is a sequence of moves.
pub start_loop-Moves :
    (w : World) (mode : ExecutionMode) (limit next fuel : ℕ) (js : List JobRecord) (l : Ledger)
    → InStep limit (record { next = next; jobs = js; locks = l.active_locks })
    → let (js', l') = start_loop w mode limit fuel js l in
      Moves w mode limit
        (record { next = next; jobs = js; locks = l.active_locks })
        (record { next = next; jobs = js'; locks = l'.active_locks })
unfolding start_loop
start_loop-Moves w mode limit next zero js l v = here
start_loop-Moves w mode limit next (suc fuel) js l v =
    elim (Bool-cases (ltb (length l.active_locks) limit)) [
      | inr full ↦ rw (full, start_loop) here
      | inl room ↦ elim (Option-cases (start_next w mode js l)) [
        | inl q ↦ rw (room, start_loop, q) here
        | inr (r, q) ↦
            let mv = start_next-Move w mode limit next js r.0 l r.1 v (ltb→lt _ _ room) q in
            rw (room, start_loop, q)
              (Moves-trans (after here mv)
                (start_loop-Moves w mode limit next fuel r.0 r.1 (Move-InStep mv v)))
      ]
    ]
