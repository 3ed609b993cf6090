-- ===== src/Jobs/Find.antt =====
-- The job list seen as a map from ids to jobs: reading, writing and appending.
use drive_lab.Prelude.{
  ℕ, ◌+◌, ◌≡◌, refl, ap, ◌∙◌, inl, inr, Bool, none, some, List, [], ◌∷◌, ◌++◌, ◌==◌, ==_refl,
  count_if, find_if, if◌then◌else◌, arith, Bool-cases,
}
use drive_lab.Jobs.{JobRecord, find_job, write_job}

-- No two jobs have one id.
abbrev pub Distinct : List JobRecord → Type 0
Distinct [] = Unit
Distinct (j ∷ js) = (find_job j.id js ≡ none) × Distinct js

pub find_job-id : (k : ℕ) (js : List JobRecord) (j : JobRecord) → find_job k js ≡ some j → j.id ≡ k
unfolding find_job find_if
find_job-id k [] j h = ground arith
find_job-id k (i ∷ js) j h = ground (arith, find_job-id k js j)

pub find_job-write :
    (id k : ℕ) (j' : JobRecord) (js : List JobRecord) (j : JobRecord)
    → find_job id js ≡ some j
    → j'.id ≡ id
    → find_job k (write_job id j' js) ≡ (if id == k then some j' else find_job k js)
unfolding find_job write_job find_if
find_job-write id k j' [] j h e = ground arith
find_job-write id k j' (i ∷ js) j h e = ground (arith, find_job-write id k j' js j)

pub find_job-append_some :
    (k : ℕ) (js : List JobRecord) (n j : JobRecord)
    → find_job k js ≡ some j
    → find_job k (js ++ (n ∷ [])) ≡ some j
unfolding find_job find_if
find_job-append_some k [] n j h = ground arith
find_job-append_some k (i ∷ js) n j h = ground (arith, find_job-append_some k js n j)

pub find_job-append_none :
    (k : ℕ) (js : List JobRecord) (n : JobRecord)
    → find_job k js ≡ none
    → find_job k (js ++ (n ∷ [])) ≡ (if n.id == k then some n else none)
unfolding find_job find_if
find_job-append_none k [] n h = refl
find_job-append_none k (i ∷ js) n h = ground (arith, find_job-append_none k js n)

find_job-write_none :
    (id k : ℕ) (j' : JobRecord) (js : List JobRecord)
    → j'.id ≡ id
    → find_job k js ≡ none
    → find_job k (write_job id j' js) ≡ none
unfolding find_job write_job find_if
find_job-write_none id k j' [] e h = refl
find_job-write_none id k j' (i ∷ js) e h = ground (arith, find_job-write_none id k j' js)

pub find_job-cons :
    (k : ℕ) (i : JobRecord) (js : List JobRecord)
    → find_job k (i ∷ js) ≡ (if i.id == k then some i else find_job k js)
unfolding find_job find_if
find_job-cons k i js = refl

pub write_job-cons :
    (id : ℕ) (j' i : JobRecord) (js : List JobRecord)
    → write_job id j' (i ∷ js) ≡ (if i.id == id then j' ∷ js else i ∷ write_job id j' js)
unfolding write_job
write_job-cons id j' i js = refl

pub Distinct-write :
    (id : ℕ) (j' : JobRecord) (js : List JobRecord)
    → j'.id ≡ id
    → Distinct js
    → Distinct (write_job id j' js)
unfolding write_job
Distinct-write id j' [] e d = tt
Distinct-write id j' (i ∷ js) e d = elim (Bool-cases (i.id == id)) [
  | inl hit ↦ rw hit (ground (arith, ap (λ k. find_job k js) e), d.1)
  | inr miss ↦ rw miss (find_job-write_none id i.id j' js e d.0, Distinct-write id j' js e d.1)
]

pub Distinct-append :
    (js : List JobRecord) (n : JobRecord)
    → find_job n.id js ≡ none
    → Distinct js
    → Distinct (js ++ (n ∷ []))
Distinct-append [] n h d = (unfold find_job find_if in refl, tt)
Distinct-append (i ∷ js) n h d = (
  find_job-append_none i.id js n d.0 ∙ ground (arith, find_job-cons n.id i js),
  Distinct-append js n (ground (arith, find_job-cons n.id i js)) d.1,
)

abbrev pub tally : Bool → ℕ
tally b = if b then 1 else 0

pub count-write :
    (p : JobRecord → Bool) (id : ℕ) (j' : JobRecord) (js : List JobRecord) (j : JobRecord)
    → find_job id js ≡ some j
    → count_if p (write_job id j' js) + tally (p j) ≡ count_if p js + tally (p j')
unfolding find_job write_job find_if count_if
count-write p id j' [] j h = ground arith
count-write p id j' (i ∷ js) j h = ground (arith, count-write p id j' js j)

-- Writing to the job just appended.
pub write_job-append :
    (js : List JobRecord) (n n' : JobRecord)
    → find_job n.id js ≡ none
    → write_job n.id n' (js ++ (n ∷ [])) ≡ js ++ (n' ∷ [])
unfolding find_job write_job find_if
write_job-append [] n n' h = ground (arith, ==_refl n.id)
write_job-append (i ∷ js) n n' h = ground (arith, write_job-append js n n')
