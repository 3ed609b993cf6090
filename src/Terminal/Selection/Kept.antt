-- ===== src/Terminal/Selection/Kept.antt =====
-- Which drive is selected after a refresh.
use drive_lab.Prelude.{
  ℕ, zero, suc, ◌+◌, ◌≡◌, inl, inr, refl, sym, ap, ◌∙◌, true, false, none, some, List, [], ◌∷◌,
  ◌==◌, All, All-map, length, count_if, arith, Bool-cases, Option-cases,
}
use drive_lab.Result.{ok}
use drive_lab.Terminal.Selection.{
  ProductionReadModel, same_selection, drive_at, selected_drive, places, only_place, anchor_of,
  renewed, retained, reselected, cleared_on_error, refresh,
}
use drive_lab.Production.{ProductionDrive, ProductionSnapshot}

-- The place, counted from the start, of a drive that is taken for the one before.
Found : ℕ → ProductionDrive → List ProductionDrive → ℕ → Type 0
Found i before ds p =
    (n : ℕ) × (d : ProductionDrive) × (p ≡ i + n)
    × (drive_at n ds ≡ some d)
    × (same_selection before d ≡ true)

later :
    (i : ℕ) (before d : ProductionDrive) (ds : List ProductionDrive) (p : ℕ)
    → Found (suc i) before ds p
    → Found i before (d ∷ ds) p
unfolding Found drive_at
later i before d ds p (n, e, a, b, c) = (suc n, e, omega arith, b, c)

places-Found :
    (i : ℕ) (before : ProductionDrive) (ds : List ProductionDrive)
    → All (Found i before ds) (places i before ds)
unfolding Found places drive_at
places-Found i before [] = tt
places-Found i before (d ∷ ds) =
    let rest =
      All-map (later i before d ds) (places (suc i) before ds) (places-Found (suc i) before ds) in
    elim (Bool-cases (same_selection before d)) [
      | inl e ↦ rw e ((zero, d, omega arith, refl, e), rest)
      | inr e ↦ rw e rest
    ]

length-places :
    (i : ℕ) (before : ProductionDrive) (ds : List ProductionDrive)
    → length (places i before ds) ≡ count_if (same_selection before) ds
unfolding places count_if
length-places i before [] = refl
length-places i before (d ∷ ds) =
    let rest = length-places (suc i) before ds in
    elim (Bool-cases (same_selection before d)) [ inl e ↦ ground arith | inr e ↦ ground arith ]

only_place-single : (ps : List ℕ) (p : ℕ) → only_place ps ≡ some p → ps ≡ p ∷ []
only_place-single [] p h = ground arith
only_place-single (q ∷ []) p h = ground arith
only_place-single (q ∷ r ∷ ps) p h = ground arith

-- The drive at the place that is retained is the only one that is taken for the one before.
retained-place :
    (s : ProductionSnapshot) (a d : ProductionDrive) (p : ℕ)
    → retained s a ≡ some p
    → drive_at p s.drives ≡ some d
    → (same_selection a d ≡ true) × (count_if (same_selection a) s.drives ≡ 1)
unfolding retained Found
retained-place s a d p h e =
    let one : places 0 a s.drives ≡ p ∷ [] = only_place-single _ p (ground arith) in
    let (found, _) = rw one at (places-Found 0 a s.drives) in
    (go found, sym (length-places 0 a s.drives) ∙ ap length one)
  where
    same : (n : ℕ) (d' : ProductionDrive) → p ≡ 0 + n → drive_at n s.drives ≡ some d' → d ≡ d'
    same n d' q b = let r : p ≡ n = omega arith in cc

    go : Found 0 a s.drives p → same_selection a d ≡ true
    go (n, d', q, b, c) = ap (same_selection a) (same n d' q b) ∙ c

-- A selection is made anew only from an anchor.
reselected-anchor :
    (s : ProductionSnapshot) (r : ProductionReadModel) (i : ℕ)
    → r.selected_index ≡ none
    → (cleared_on_error s (reselected s r)).selected_index ≡ some i
    → (a : ProductionDrive) × (r.selection_anchor ≡ some a) × (retained s a ≡ some i)
unfolding reselected cleared_on_error
reselected-anchor s r i n h = elim (Option-cases r.selection_anchor) [
  | inl e ↦ ground arith
  | inr (a, e) ↦ (a, e, ground arith)
]

chosen :
    (s : ProductionSnapshot) (m : ProductionReadModel) (i : ℕ)
    → (s.generation == m.snapshot.generation) ≡ false
    → (cleared_on_error s (reselected s (renewed s m))).selected_index ≡ some i
    → (a : ProductionDrive) × (anchor_of m ≡ some a) × (retained s a ≡ some i)
unfolding renewed
chosen s m i g h =
    let fresh = record m { selection_anchor = anchor_of m; selected_index = none } in
    let e : renewed s m ≡ fresh = rw (g, renewed) refl in
    reselected-anchor s fresh i refl (rw e at h)

-- After a refresh with a snapshot of another generation, the drive that is selected, if any, is taken
-- for the drive that was selected before or that an earlier refresh waited for, and it is the only
-- drive of the snapshot that is.
pub refresh-Kept :
    (empty s : ProductionSnapshot) (m : ProductionReadModel) (d : ProductionDrive)
    → (s.generation == m.snapshot.generation) ≡ false
    → selected_drive (refresh empty false (ok s) m).0 ≡ some d
    → (a : ProductionDrive) × (anchor_of m ≡ some a)
      × (same_selection a d ≡ true)
      × (count_if (same_selection a) s.drives ≡ 1)
unfolding refresh selected_drive
refresh-Kept empty s m d g h =
    elim (Option-cases (cleared_on_error s (reselected s (renewed s m))).selected_index) [
      | inl e ↦ ground arith
      | inr (i, e) ↦
          let (a, b, c) = chosen s m i g e in
          let (k, u) = retained-place s a d i c (ground arith) in (a, b, k, u)
    ]
