-- ===== src/Jobs/History.antt =====
-- The jobs of jobs/job_manager.cpp, move by move: life cycle and checks.
use drive_lab.Prelude.{
  Within, ℕ, ◌≡◌, refl, sym, ap, ◌∙◌, ◌≢◌, ◌⊎◌, inl, inr, true, some, List, [], ◌∷◌, ◌++◌, ◌==◌,
  arith, Bool-cases, Option-cases,
}
use mathlib.Core.Path.{subst}
use drive_lab.Result.{ok}
use drive_lab.Drive.{Drive, drive_id}
use drive_lab.Mode.{ExecutionMode}
use drive_lab.Operation.{OperationRequest}
use drive_lab.Jobs.{
  World, JobRecord, JobState, planned, queued, starting, running, is_live, find_job, write_job,
}
use drive_lab.Jobs.Find.{find_job-write, find_job-append_some, find_job-append_none}
use drive_lab.Jobs.Moves.{
  Board, Same, Vetted, Cleared, Left, Done, Move, record_job, launch, leave, carry_on, finish,
  Moves, here, after,
}

-- The life cycle of a job.
pub data Edge (s t : JobState) : Type 0 where
  launches : s ≡ queued → t ≡ running → Edge s t
  drops : s ≡ queued → Left t → Edge s t
  carries : is_live s ≡ true → is_live t ≡ true → Edge s t
  ends : is_live s ≡ true → Done t → Edge s t

-- What is true of every job that the manager keeps.
pub record Lawful (w : World) (mode : ExecutionMode) (j : JobRecord) : Type 0 where
  pub vetted : Vetted mode j
  pub cleared : is_live j.state ≡ true → (d : Drive) × Cleared w mode j.operation d
  pub at_rest : j.state ≢ starting
  pub percent : Within 100 j.progress_percent

abbrev pub AllLawful : World → ExecutionMode → List JobRecord → Type 0
AllLawful w mode js = (k : ℕ) (j : JobRecord) → find_job k js ≡ some j → Lawful w mode j

Same-Vetted : {mode : ExecutionMode} {j j' : JobRecord} → Same j j' → Vetted mode j → Vetted mode j'
Same-Vetted s v = record {
  named =
      ap (λ (op : OperationRequest). drive_id op.target.identity) s.same_operation
      ∙ v.named
      ∙ ap ok (sym s.same_drive);
  allowed = rw s.same_operation v.allowed;
}

module _ (js : List JobRecord) (j j' : JobRecord) (found : find_job j.id js ≡ some j)
    (same : Same j j') where
  write-AllLawful :
      {w : World} {mode : ExecutionMode}
      → Lawful w mode j'
      → AllLawful w mode js
      → AllLawful w mode (write_job j.id j' js)
  write-AllLawful {w} {mode} l' h k i f = elim (Bool-cases (j.id == k)) [
    | inl hit ↦
        subst (Lawful w mode) (ground (arith, find_job-write j.id k j' js j found same.same_id)) l'
    | inr miss ↦ h k i (ground (arith, find_job-write j.id k j' js j found same.same_id))
  ]

  write_step :
      (k : ℕ) (i : JobRecord)
      → Edge j.state j'.state
      → find_job k js ≡ some i
      → (i' : JobRecord) × (find_job k (write_job j.id j' js) ≡ some i')
        × ((i' ≡ i) ⊎ (Same i i' × Edge i.state i'.state))
  write_step k i e f = elim (Bool-cases (j.id == k)) [
    | inl hit ↦
        let p : j ≡ i = ground (arith, ap (λ (n : ℕ). find_job n js)) in
        (
          j',
          ground (arith, find_job-write j.id k j' js j found same.same_id),
          inr (subst (λ i. Same i j' × Edge i.state j'.state) p (same, e)),
        )
    | inr miss ↦ (i, ground (arith, find_job-write j.id k j' js j found same.same_id), inl refl)
  ]

append-AllLawful :
    {w : World} {mode : ExecutionMode} (js : List JobRecord) (n : JobRecord)
    → Lawful w mode n
    → AllLawful w mode js
    → AllLawful w mode (js ++ (n ∷ []))
append-AllLawful {w} {mode} js n l h k i f = elim (Option-cases (find_job k js)) [
  | inl e ↦ subst (Lawful w mode) (ground (arith, find_job-append_none k js n)) l
  | inr (i', e) ↦ h k i (ground (arith, find_job-append_some k js n i'))
]

pub Move-AllLawful :
    {w : World} {mode : ExecutionMode} {limit : ℕ} {b c : Board}
    → Move w mode limit b c
    → AllLawful w mode b.jobs
    → AllLawful w mode c.jobs
Move-AllLawful {b = b} (record_job j n w v p en ej el) h = rw ej (
    append-AllLawful b.jobs j
      (record {
        vetted = v;
        cleared = λ l. absurd (ground arith);
        at_rest = λ e. ground arith;
        percent = p;
      })
      h)
Move-AllLawful {b = b} (launch j j' d f s q r clear _ _ en ej el) h = rw ej (
    write-AllLawful b.jobs j j' f s
      (record {
        vetted = Same-Vetted s (h j.id j f).vetted;
        cleared = λ _. (d, rw s.same_operation clear);
        at_rest = λ e. ground arith;
        percent = s.sane (h j.id j f).percent;
      })
      h)
Move-AllLawful {b = b} (leave j j' f s q o en ej el) h = rw ej (
    write-AllLawful b.jobs j j' f s
      (record {
        vetted = Same-Vetted s (h j.id j f).vetted;
        cleared = λ l. absurd (ground arith);
        at_rest = λ e. ground arith;
        percent = s.sane (h j.id j f).percent;
      })
      h)
Move-AllLawful {b = b} (carry_on j j' f s q r en ej el) h = rw ej (
    write-AllLawful b.jobs j j' f s
      (record {
        vetted = Same-Vetted s (h j.id j f).vetted;
        cleared = λ _. rw s.same_operation ((h j.id j f).cleared q);
        at_rest = λ e. ground arith;
        percent = s.sane (h j.id j f).percent;
      })
      h)
Move-AllLawful {b = b} (finish j j' f s q o en ej el) h = rw ej (
    write-AllLawful b.jobs j j' f s
      (record {
        vetted = Same-Vetted s (h j.id j f).vetted;
        cleared = λ l. absurd (ground arith);
        at_rest = λ e. ground arith;
        percent = s.sane (h j.id j f).percent;
      })
      h)

pub Moves-AllLawful :
    {w : World} {mode : ExecutionMode} {limit : ℕ} {b c : Board}
    → Moves w mode limit b c
    → AllLawful w mode b.jobs
    → AllLawful w mode c.jobs
Moves-AllLawful here h = h
Moves-AllLawful (after p m) h = Move-AllLawful m (Moves-AllLawful p h)

-- A move keeps each job, or takes it along one edge of its life cycle.
pub Move-step :
    {w : World} {mode : ExecutionMode} {limit : ℕ} {b c : Board} (k : ℕ) (i : JobRecord)
    → Move w mode limit b c
    → find_job k b.jobs ≡ some i
    → (i' : JobRecord) × (find_job k c.jobs ≡ some i')
      × ((i' ≡ i) ⊎ (Same i i' × Edge i.state i'.state))
Move-step {b = b} k i (record_job j n w v p en ej el) f =
    (i, rw ej (find_job-append_some k b.jobs j i f), inl refl)
Move-step {b = b} k i (launch j j' d g s q r clear _ _ en ej el) f =
    rw ej (write_step b.jobs j j' g s k i (launches q r) f)
Move-step {b = b} k i (leave j j' g s q o en ej el) f =
    rw ej (write_step b.jobs j j' g s k i (drops q o) f)
Move-step {b = b} k i (carry_on j j' g s q r en ej el) f =
    rw ej (write_step b.jobs j j' g s k i (carries q r) f)
Move-step {b = b} k i (finish j j' g s q o en ej el) f =
    rw ej (write_step b.jobs j j' g s k i (ends q o) f)

-- The states that no job leaves.
abbrev pub Final : JobState → Type 0
Final s = (s ≡ planned) ⊎ Done s

-- What becomes of a job in the long run.
pub record Grown (i i' : JobRecord) : Type 0 where
  pub same : Same i i'
  pub final : Final i.state → i' ≡ i

pub Grown-refl : (i : JobRecord) → Grown i i
Grown-refl i = record {
  same = record { same_id = refl; same_drive = refl; same_operation = refl; sane = λ h. h };
  final = λ _. refl;
}

Edge-not-Final : (s t : JobState) → Edge s t → ¬ Final s
Edge-not-Final s t (launches p q) f = ground arith
Edge-not-Final s t (drops p q) f = ground arith
Edge-not-Final s t (carries p q) f = ground arith
Edge-not-Final s t (ends p q) f = ground arith

Grown-step : (i i' : JobRecord) → (i' ≡ i) ⊎ (Same i i' × Edge i.state i'.state) → Grown i i'
Grown-step i i' (inl e) = subst (Grown i) (sym e) (Grown-refl i)
Grown-step i i' (inr (s, e)) = record {
  same = s;
  final = λ f. absurd (Edge-not-Final i.state i'.state e f);
}

pub Grown-trans : (i j k : JobRecord) → Grown i j → Grown j k → Grown i k
Grown-trans i j k p q = record {
  same = record {
    same_id = q.same.same_id ∙ p.same.same_id;
    same_drive = q.same.same_drive ∙ p.same.same_drive;
    same_operation = q.same.same_operation ∙ p.same.same_operation;
    sane = λ h. q.same.sane (p.same.sane h);
  };
  final = λ f. q.final (subst (λ (x : JobRecord). Final x.state) (sym (p.final f)) f) ∙ p.final f;
}

-- Some job stands under the id, grown from this one.
abbrev pub Survives : ℕ → JobRecord → List JobRecord → Type 0
Survives k i js = (i' : JobRecord) × (find_job k js ≡ some i') × Grown i i'

pub Moves-Survives :
    {w : World} {mode : ExecutionMode} {limit : ℕ} {b c : Board} (k : ℕ) (i : JobRecord)
    → Moves w mode limit b c
    → find_job k b.jobs ≡ some i
    → Survives k i c.jobs
Moves-Survives k i here f = (i, f, Grown-refl i)
Moves-Survives k i (after p m) f =
    let (j, g, u) = Moves-Survives k i p f in
    let (l, h, e) = Move-step k j m g in (l, h, Grown-trans i j l u (Grown-step j l e))
