-- ===== src/Ownership/Assess/Verdict.antt =====
-- The status of each device in core/ownership_graph.cpp, by the claims that reach it.
use drive_lab.Prelude.{
  ◌≡◌, refl, ◌≢◌, ◌⊎◌, inl, inr, Bool, true, false, ◌||◌, some, [], ◌∷◌, Text, arith, Bool-cases,
  Option-cases, All, All-append, TextMap, map_find, set_has,
}
use drive_lab.Drive.{DriveStatus}
use drive_lab.Inventory.{ResolvedBlockNode, ResolvedInventorySnapshot}
use drive_lab.Ownership.{
  OwnershipEvidence, PhysicalOwner, ClassifiedStorage, PhysicalAssessmentScope,
}
use drive_lab.Ownership.Trace.{Traced}
use mathlib.Core.Path.{subst₂}
use drive_lab.Ownership.Usage.{protects, all_claims}
use drive_lab.Ownership.Assess.{scene, claims_of, assess_ownership}
use drive_lab.Ownership.Classify.{
  Scene, is_read_only, in_scope, check_ready, decide, classify, classify_one, classify_all,
}
use drive_lab.Ownership.Assess.Reached.{
  reached, occupies, protected_use-all_findings, busy_use-all_findings,
}

check_ready_range :
    (s : Scene) (key : Text) (owner : PhysicalOwner) (b : ResolvedBlockNode) (scoped : Bool)
    → ((check_ready s key owner b scoped).0 ≡ DriveStatus.ready)
      ⊎ ((check_ready s key owner b scoped).0 ≡ DriveStatus.unknown)
unfolding check_ready
check_ready_range s key owner b scoped = ground arith

-- What a status says of the marks of the device.
pub record Marked (protected_mark busy_mark read_only : Bool) (status : DriveStatus) : Type 0 where
  pub guards :
      protected_mark || read_only ≡ true
      → (status ≡ DriveStatus.unknown) ⊎ (status ≡ DriveStatus.protected)
  pub uses : busy_mark ≡ true → status ≢ DriveStatus.ready
  pub protected_by : status ≡ DriveStatus.protected → protected_mark || read_only ≡ true
  pub busy_by : status ≡ DriveStatus.busy → (busy_mark ≡ true) × (protected_mark ≡ false)

decide-Marked :
    (s : Scene) (key : Text) (owner : PhysicalOwner) (b : ResolvedBlockNode)
    (scoped local_unknown : Bool)
    → Marked
        (set_has key s.findings.protected_use)
        (set_has key s.findings.busy_use)
        (is_read_only b.observation.read_only)
        (decide s key owner b scoped local_unknown).0
unfolding decide
decide-Marked s key owner b scoped true = record {
  guards = λ h. inl refl;
  uses = λ h e. cc;
  protected_by = λ e. cc;
  busy_by = λ e. cc;
}
decide-Marked s key owner b scoped false =
    elim (Bool-cases
      (set_has key s.findings.protected_use || is_read_only b.observation.read_only)) [
        | inl p ↦
            rw (decide, p)
              (record {
                guards = λ h. inr refl;
                uses = λ h e. cc;
                protected_by = λ e. p;
                busy_by = λ e. cc;
              })
        | inr p ↦ elim (Bool-cases (set_has key s.findings.busy_use)) [
          | inl u ↦
              rw (decide, p, u)
                (record {
                  guards = λ h. cc;
                  uses = λ h e. cc;
                  protected_by = λ e. cc;
                  busy_by = λ e. (refl, ground arith);
                })
          | inr u ↦
              rw (decide, p, u)
                (record {
                  guards = λ h. cc;
                  uses = λ h e. cc;
                  protected_by = λ e. elim (check_ready_range s key owner b scoped) [
                    | inl r ↦ cc
                    | inr r ↦ cc
                  ];
                  busy_by = λ e. elim (check_ready_range s key owner b scoped) [
                    | inl r ↦ cc
                    | inr r ↦ cc
                  ];
                })
        ]
      ]

-- What the status of a device says of the claims, and they of it.
pub record Verdict (inventory : ResolvedInventorySnapshot) (evidence : OwnershipEvidence)
    (d : ClassifiedStorage) : Type 0 where
  pub block : ResolvedBlockNode
  pub is_block : map_find d.node (scene inventory evidence).graph.blocks ≡ some block
  pub marks :
      Marked
        (reached protects (scene inventory evidence).traces d.node (claims_of inventory evidence))
        (reached occupies (scene inventory evidence).traces d.node (claims_of inventory evidence))
        (is_read_only block.observation.read_only)
        d.status

module _ (inventory : ResolvedInventorySnapshot) (evidence : OwnershipEvidence) where
  scene-protected :
      (k : Text)
      → set_has k (scene inventory evidence).findings.protected_use
        ≡ reached protects (scene inventory evidence).traces k (claims_of inventory evidence)
  unfolding scene claims_of
  scene-protected k = protected_use-all_findings (scene inventory evidence).traces k (
      all_claims inventory evidence (scene inventory evidence).graph.blocks
        (scene inventory evidence).traces)

  scene-busy :
      (k : Text)
      → set_has k (scene inventory evidence).findings.busy_use
        ≡ reached occupies (scene inventory evidence).traces k (claims_of inventory evidence)
  unfolding scene claims_of
  scene-busy k = busy_use-all_findings (scene inventory evidence).traces k (
      all_claims inventory evidence (scene inventory evidence).graph.blocks
        (scene inventory evidence).traces)

  classify-Verdict :
      (key : Text) (owner : PhysicalOwner) (b : ResolvedBlockNode) (t : Traced)
      → map_find key (scene inventory evidence).graph.blocks ≡ some b
      → Verdict inventory evidence (classify (scene inventory evidence) key owner b t)
  unfolding classify
  classify-Verdict key owner b t eb = record {
    block = b;
    is_block = eb;
    marks =
        subst₂
          (λ (p u : Bool).
            Marked p u (is_read_only b.observation.read_only)
              (classify (scene inventory evidence) key owner b t).status)
          (scene-protected key) (scene-busy key)
          (decide-Marked (scene inventory evidence) key owner b _ _);
  }

  classify_one-Verdict :
      (scope : PhysicalAssessmentScope) (e : Text × PhysicalOwner)
      → All (Verdict inventory evidence) (classify_one (scene inventory evidence) scope e)
  unfolding classify_one
  classify_one-Verdict scope (key, owner) =
      let s : Scene = scene inventory evidence in
      elim (Option-cases (map_find key s.graph.blocks)) [
        | inl eb ↦ rw (eb, classify_one) tt
        | inr (b, eb) ↦ elim (Option-cases (map_find key s.traces)) [
          | inl et ↦ rw (eb, classify_one, et) tt
          | inr (t, et) ↦ elim (Bool-cases (in_scope scope b)) [
            | inl i ↦ rw (eb, classify_one, et, i) (classify-Verdict key owner b t eb, tt)
            | inr i ↦ rw (eb, classify_one, et, i) tt
          ]
        ]
      ]

  classify_all-Verdict :
      (scope : PhysicalAssessmentScope) (m : TextMap PhysicalOwner)
      → All (Verdict inventory evidence) (classify_all (scene inventory evidence) scope m)
  unfolding classify_all
  classify_all-Verdict scope [] = tt
  classify_all-Verdict scope (e ∷ m) =
      All-append (Verdict inventory evidence) (classify_one (scene inventory evidence) scope e) _
        (classify_one-Verdict scope e) (classify_all-Verdict scope m)

-- For every device that `assessOwnership` classifies: if a protecting claim reaches it or it is
-- read-only, it is unknown or protected; if a claim that only occupies reaches it, it is not ready;
-- it is protected only for a protecting claim or a read-only flag, and busy only for an occupying
-- claim while no protecting claim reaches it.
pub assess_ownership-Verdict :
    (inventory : ResolvedInventorySnapshot) (evidence : OwnershipEvidence)
    (scope : PhysicalAssessmentScope)
    → All (Verdict inventory evidence) (assess_ownership inventory evidence scope).physical_devices
unfolding assess_ownership
assess_ownership-Verdict inventory evidence scope =
    classify_all-Verdict inventory evidence scope (scene inventory evidence).graph.physical
