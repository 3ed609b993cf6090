-- ===== src/Jobs/Lockstep/Parts.antt =====
-- How appending a job, or writing one, changes what the invariant speaks of.
use drive_lab.Prelude.{
  ℕ, ◌+◌, ◌≤◌, ◌≡◌, ap, ◌∙◌, inl, inr, true, false, none, some, List, [], ◌∷◌, ◌++◌, ◌==◌, count_if,
  count_if-append, if◌then◌else◌, arith, Bool-cases, Option-cases,
}
use drive_lab.Drive.{DriveId}
use drive_lab.Jobs.{JobRecord, Lock, is_live, lock_owner, find_job, write_job}
use drive_lab.Jobs.Find.{
  tally, find_job-id, find_job-write, find_job-append_some, find_job-append_none, count-write,
}
use drive_lab.Jobs.Moves.{Board, Same}
use drive_lab.Jobs.Lockstep.{Works}

-- The part of the invariant that does not depend on what is done to the locks.
module _ (b : Board) (j j' : JobRecord) (found : find_job j.id b.jobs ≡ some j)
    (same : Same j j') where
  unfoldable pub written : List JobRecord
  written = write_job j.id j' b.jobs

  pub find-written :
      (k : ℕ) → find_job k written ≡ (if j.id == k then some j' else find_job k b.jobs)
  unfolding written
  find-written k = find_job-write j.id k j' b.jobs j found same.same_id

  pub written-fresh :
      (next : ℕ)
      → ((k : ℕ) → next ≤ k → find_job k b.jobs ≡ none)
      → (k : ℕ) → next ≤ k
      → find_job k written ≡ none
  written-fresh next h k le = ground (arith, find-written k, h k)

  pub written-count :
      count_if (λ i. is_live i.state) written + tally (is_live j.state)
      ≡ count_if (λ i. is_live i.state) b.jobs + tally (is_live j'.state)
  unfolding written
  written-count = count-write (λ i. is_live i.state) j.id j' b.jobs j found

  -- A live job stays live: the locks stay in step.
  pub carry_on-held :
      (ls : List Lock)
      → is_live j.state ≡ true
      → ((k : ℕ) (i : JobRecord)
          → find_job k b.jobs ≡ some i
          → is_live i.state ≡ true
          → lock_owner i.drive_id ls ≡ some k)
      → (k : ℕ) (i : JobRecord) → find_job k written ≡ some i
      → is_live i.state ≡ true
      → lock_owner i.drive_id ls ≡ some k
  carry_on-held ls l h k i f a = ground (
    arith,
    find-written k,
    h k i,
    h j.id j found l,
    ap (λ (d : DriveId). lock_owner d ls) same.same_drive,
  )

  pub carry_on-owned :
      (d : DriveId) (id : ℕ) → is_live j'.state ≡ true → Works b.jobs id d → Works written id d
  carry_on-owned d id l (i, f, a, e) = elim (Bool-cases (j.id == id)) [
    | inl hit ↦ (
      j',
      ground (arith, find-written id),
      l,
      ground (arith, ap (λ (k : ℕ). find_job k b.jobs) (find_job-id id b.jobs i f)),
    )
    | inr miss ↦ (i, ground (arith, find-written id), a, e)
  ]

  -- A job that was not live: nothing that works is lost.
  pub idle-owned :
      (d : DriveId) (id : ℕ) → is_live j.state ≡ false → Works b.jobs id d → Works written id d
  idle-owned d id l (i, f, a, e) = (
    i,
    ground (
      arith,
      find-written id,
      find_job-id id b.jobs i f,
      ap (λ (k : ℕ). find_job k b.jobs) (find_job-id id b.jobs i f),
    ),
    a,
    e,
  )

  pub idle-held :
      (ls : List Lock)
      → is_live j'.state ≡ false
      → ((k : ℕ) (i : JobRecord)
          → find_job k b.jobs ≡ some i
          → is_live i.state ≡ true
          → lock_owner i.drive_id ls ≡ some k)
      → (k : ℕ) (i : JobRecord) → find_job k written ≡ some i
      → is_live i.state ≡ true
      → lock_owner i.drive_id ls ≡ some k
  idle-held ls l h k i f a = ground (arith, find-written k, h k i)

module _ (b : Board) (j : JobRecord) (new : find_job j.id b.jobs ≡ none) where
  pub append-held :
      (ls : List Lock)
      → is_live j.state ≡ false
      → ((k : ℕ) (i : JobRecord)
          → find_job k b.jobs ≡ some i
          → is_live i.state ≡ true
          → lock_owner i.drive_id ls ≡ some k)
      → (k : ℕ) (i : JobRecord) → find_job k (b.jobs ++ (j ∷ [])) ≡ some i
      → is_live i.state ≡ true
      → lock_owner i.drive_id ls ≡ some k
  append-held ls l h k i f a = elim (Option-cases (find_job k b.jobs)) [
    | inl e ↦ ground (arith, find_job-append_none k b.jobs j)
    | inr (i', e) ↦ ground (arith, find_job-append_some k b.jobs j i', h k i)
  ]

  pub append-owned : (d : DriveId) (id : ℕ) → Works b.jobs id d → Works (b.jobs ++ (j ∷ [])) id d
  append-owned d id (i, f, a, e) = (i, find_job-append_some id b.jobs j i f, a, e)

  pub append-count :
      is_live j.state ≡ false
      → count_if (λ i. is_live i.state) (b.jobs ++ (j ∷ []))
        ≡ count_if (λ i. is_live i.state) b.jobs
  append-count l =
      count_if-append (λ (i : JobRecord). is_live i.state) b.jobs (j ∷ [])
      ∙ unfold count_if in rw l (omega arith)
