-- ===== src/Jobs/Lockstep/Keeps.antt =====
-- The invariant of jobs and locks under each move of jobs/job_manager.cpp.
use drive_lab.Prelude.{
  ℕ, suc, ◌<◌, ◌≡◌, ap, ◌∙◌, inl, inr, true, false, none, some, [], ◌∷◌, ◌++◌, length, arith,
  Bool-cases,
}
use drive_lab.Drive.{DriveId, id_eq}
use drive_lab.Drive.Identity.{id_eq_iff}
use drive_lab.Mode.{ExecutionMode}
use drive_lab.Jobs.{
  World, JobRecord, is_live, lock_owner, set_lock, erase_lock, find_job, write_job,
}
use drive_lab.Jobs.Find.{find_job-id, find_job-append_none, Distinct-write, Distinct-append}
use drive_lab.Jobs.Locks.{
  lock_owner-set, lock_owner-erase, length-set_lock, length-erase_lock, KeysDistinct-set,
  KeysDistinct-erase,
}
use drive_lab.Jobs.Launch.{released}
use drive_lab.Jobs.Moves.{
  Board, Same, Move, record_job, launch, leave, carry_on, finish, Moves, here, after,
}
use drive_lab.Jobs.Lockstep.{Works, InStep}
use drive_lab.Jobs.Lockstep.Parts.{
  written, find-written, written-fresh, written-count, carry_on-held, carry_on-owned, idle-owned,
  idle-held, append-held, append-owned, append-count,
}

module _ (limit : ℕ) (b c : Board) (v : InStep limit b) where
  record_job-InStep :
      (j : JobRecord)
      → j.id ≡ b.next
      → is_live j.state ≡ false
      → c.next ≡ suc b.next
      → c.jobs ≡ b.jobs ++ (j ∷ [])
      → c.locks ≡ b.locks
      → InStep limit c
  record_job-InStep j n l en ej el = record {
    fresh = λ k le. rw ej (ground (arith, v.fresh k, find_job-append_none k b.jobs j));
    distinct = rw ej (Distinct-append b.jobs j (v.fresh j.id (omega arith)) v.distinct);
    keys = rw el v.keys;
    held = rw (ej, el) (append-held b j (v.fresh j.id (omega arith)) b.locks l v.held);
    owned =
        rw (ej, el) (λ d id e. append-owned b j (v.fresh j.id (omega arith)) d id (v.owned d id e));
    bounded = rw el v.bounded;
    counted = rw (ej, el) (append-count b j (v.fresh j.id (omega arith)) l ∙ v.counted);
  }

  module _ (j j' : JobRecord) (found : find_job j.id b.jobs ≡ some j) (same : Same j j')
      (en : c.next ≡ b.next) (ej : c.jobs ≡ write_job j.id j' b.jobs) where
    carry_on-InStep :
        is_live j.state ≡ true → is_live j'.state ≡ true → c.locks ≡ b.locks → InStep limit c
    unfolding written
    carry_on-InStep l l' el = record {
      fresh = λ k le. rw ej (written-fresh b j j' found same b.next v.fresh k (omega arith));
      distinct = rw ej (Distinct-write j.id j' b.jobs same.same_id v.distinct);
      keys = rw el v.keys;
      held = rw (ej, el) (carry_on-held b j j' found same b.locks l v.held);
      owned = rw (ej, el) (λ d id e. carry_on-owned b j j' found same d id l' (v.owned d id e));
      bounded = rw el v.bounded;
      counted = rw (ej, el) (ground (arith, written-count b j j' found same, v.counted));
    }

    leave-InStep :
        is_live j.state ≡ false → is_live j'.state ≡ false → c.locks ≡ b.locks → InStep limit c
    unfolding written
    leave-InStep l l' el = record {
      fresh = λ k le. rw ej (written-fresh b j j' found same b.next v.fresh k (omega arith));
      distinct = rw ej (Distinct-write j.id j' b.jobs same.same_id v.distinct);
      keys = rw el v.keys;
      held = rw (ej, el) (idle-held b j j' found same b.locks l' v.held);
      owned = rw (ej, el) (λ d id e. idle-owned b j j' found same d id l (v.owned d id e));
      bounded = rw el v.bounded;
      counted = rw (ej, el) (ground (arith, written-count b j j' found same, v.counted));
    }

    released_lem :
        is_live j.state ≡ true → released j.drive_id j.id b.locks ≡ erase_lock j.drive_id b.locks
    unfolding released
    released_lem l = ground (arith, v.held j.id j found l)

    finish-held :
        is_live j'.state ≡ false
        → is_live j.state ≡ true
        → (k : ℕ) (i : JobRecord) → find_job k (write_job j.id j' b.jobs) ≡ some i
        → is_live i.state ≡ true
        → lock_owner i.drive_id (erase_lock j.drive_id b.locks) ≡ some k
    unfolding written
    finish-held l' l k i f a = ground (
      arith,
      find-written b j j' found same k,
      v.held k i,
      v.held j.id j found l,
      lock_owner-erase j.drive_id i.drive_id b.locks v.keys,
      id_eq_iff j.drive_id i.drive_id,
    )

    finish-owned :
        is_live j.state ≡ true
        → (d : DriveId) (id : ℕ) → lock_owner d (erase_lock j.drive_id b.locks) ≡ some id
        → Works (write_job j.id j' b.jobs) id d
    unfolding written
    finish-owned l d id e =
        let kept : lock_owner d b.locks ≡ some id =
          ground (arith, lock_owner-erase j.drive_id d b.locks v.keys) in
        let other : id_eq j.drive_id d ≡ false =
          ground (arith, lock_owner-erase j.drive_id d b.locks v.keys) in
        let (i, f, a, p) = v.owned d id kept in
        (
          i,
          ground (
            arith,
            find-written b j j' found same id,
            id_eq_iff j.drive_id d,
            ap (λ (k : ℕ). find_job k b.jobs) (find_job-id id b.jobs i f),
          ),
          a,
          p,
        )

    finish-InStep :
        is_live j.state ≡ true
        → is_live j'.state ≡ false
        → c.locks ≡ released j.drive_id j.id b.locks
        → InStep limit c
    unfolding written
    finish-InStep l l' el' =
        let el : c.locks ≡ erase_lock j.drive_id b.locks = el' ∙ released_lem l in
        record {
          fresh = λ k le. rw ej (written-fresh b j j' found same b.next v.fresh k (omega arith));
          distinct = rw ej (Distinct-write j.id j' b.jobs same.same_id v.distinct);
          keys = rw el (KeysDistinct-erase j.drive_id b.locks v.keys);
          held = rw (ej, el) (finish-held l' l);
          owned = rw (ej, el) (finish-owned l);
          bounded = rw el (
              omega (
                arith,
                length-erase_lock j.drive_id b.locks j.id (v.held j.id j found l),
                v.bounded,
              ));
          counted =
              rw (ej, el)
                (ground (
                  arith,
                  written-count b j j' found same,
                  v.counted,
                  length-erase_lock j.drive_id b.locks j.id (v.held j.id j found l),
                ));
        }

    launch-held :
        is_live j.state ≡ false
        → lock_owner j.drive_id b.locks ≡ none
        → (k : ℕ) (i : JobRecord) → find_job k (write_job j.id j' b.jobs) ≡ some i
        → is_live i.state ≡ true
        → lock_owner i.drive_id (set_lock j.drive_id j.id b.locks) ≡ some k
    unfolding written
    launch-held l free k i f a = ground (
      arith,
      find-written b j j' found same k,
      v.held k i,
      lock_owner-set j.drive_id i.drive_id j.id b.locks,
      id_eq_iff j.drive_id i.drive_id,
    )

    launch-owned :
        is_live j.state ≡ false
        → is_live j'.state ≡ true
        → (d : DriveId) (id : ℕ) → lock_owner d (set_lock j.drive_id j.id b.locks) ≡ some id
        → Works (write_job j.id j' b.jobs) id d
    unfolding written
    launch-owned l l' d id e = elim (Bool-cases (id_eq j.drive_id d)) [
      | inl hit ↦ (
        j',
        ground (arith, find-written b j j' found same id, lock_owner-set j.drive_id d j.id b.locks),
        l',
        ground (arith, id_eq_iff j.drive_id d),
      )
      | inr miss ↦
          idle-owned b j j' found same d id l
            (v.owned d id (ground (arith, lock_owner-set j.drive_id d j.id b.locks)))
    ]

    launch-InStep :
        is_live j.state ≡ false
        → is_live j'.state ≡ true
        → lock_owner j.drive_id b.locks ≡ none
        → length b.locks < limit
        → c.locks ≡ set_lock j.drive_id j.id b.locks
        → InStep limit c
    unfolding written
    launch-InStep l l' free room el = record {
      fresh = λ k le. rw ej (written-fresh b j j' found same b.next v.fresh k (omega arith));
      distinct = rw ej (Distinct-write j.id j' b.jobs same.same_id v.distinct);
      keys = rw el (KeysDistinct-set j.drive_id j.id b.locks v.keys);
      held = rw (ej, el) (launch-held l free);
      owned = rw (ej, el) (launch-owned l l');
      bounded = rw el (omega (arith, length-set_lock j.drive_id j.id b.locks free));
      counted =
          rw (ej, el)
            (ground (
              arith,
              written-count b j j' found same,
              v.counted,
              length-set_lock j.drive_id j.id b.locks free,
            ));
    }

-- Every move keeps jobs and locks in step.
pub Move-InStep :
    {w : World} {mode : ExecutionMode} {limit : ℕ} {b c : Board}
    → Move w mode limit b c
    → InStep limit b
    → InStep limit c
Move-InStep {limit = limit} {b} {c} (record_job j n w _ _ en ej el) v =
    record_job-InStep limit b c v j n (ground arith) en ej el
Move-InStep {limit = limit} {b} {c} (launch j j' _ f s q r _ free room en ej el) v =
    launch-InStep limit b c v j j' f s en ej (ground arith) (ground arith) free room el
Move-InStep {limit = limit} {b} {c} (leave j j' f s q o en ej el) v =
    leave-InStep limit b c v j j' f s en ej (ground arith) (ground arith) el
Move-InStep {limit = limit} {b} {c} (carry_on j j' f s q r en ej el) v =
    carry_on-InStep limit b c v j j' f s en ej q r el
Move-InStep {limit = limit} {b} {c} (finish j j' f s q o en ej el) v =
    finish-InStep limit b c v j j' f s en ej q (ground arith) el

-- So does every sequence of moves.
pub Moves-InStep :
    {w : World} {mode : ExecutionMode} {limit : ℕ} {b c : Board}
    → Moves w mode limit b c
    → InStep limit b
    → InStep limit c
Moves-InStep here v = v
Moves-InStep (after p m) v = Move-InStep m (Moves-InStep p v)
