-- ===== src/Ownership/Assess/Ready.antt =====
-- The ready branch of the classification in core/ownership_graph.cpp.
use drive_lab.Prelude.{
  ◌≡◌, refl, inl, inr, Bool, true, false, ◌||◌, Text, arith, Bool-cases, set_has,
}
use drive_lab.Drive.{DriveStatus}
use drive_lab.Inventory.{ResolvedBlockNode, whole_device}
use drive_lab.Ownership.{PhysicalOwner}
use drive_lab.Ownership.Classify.{
  in_scope, Scene, host_coverage, issues_elsewhere, signatures_complete, clean, check_ready, decide,
  is_read_only,
}
use drive_lab.Ownership.Assess.Quiet.{Quiet, Elsewhere, note_claims-Quiet, note_traces-unknown}
use drive_lab.Ownership.Assess.Placed.{Placed, all_claims-Placed}
use drive_lab.Ownership.Assess.Signed.{
  SignedFree, Usable, signatures_complete-SignedFree, clean-Usable, gaps_are_near,
}
use drive_lab.Ownership.Trace.{Traced, trace_all, separate_owner}
use drive_lab.Ownership.Trace.Endpoint.{Identified, trace_all-Identified, own_key-has}
use drive_lab.Prelude.{
  All, All-append, map_find, map_has, sym, ◌∙◌, [], ◌∷◌, some, Option-cases, TextMap,
}
use drive_lab.Inventory.{ResolvedInventorySnapshot}
use drive_lab.Ownership.{OwnershipEvidence, ClassifiedStorage, PhysicalAssessmentScope}
use drive_lab.Ownership.Usage.{all_findings}
use drive_lab.Ownership.Assess.{scene, claims_of, assess_ownership}
use drive_lab.Ownership.Classify.{classify, classify_one, classify_all, traced_to, all_gaps}

-- What the branches before the last rule out, and what the last one asks for.
record ReadyChecks (s : Scene) (key : Text) (owner : PhysicalOwner) (b : ResolvedBlockNode)
    (scoped local_unknown : Bool) : Type 0 where
  sure : local_unknown ≡ false
  quiet : Quiet key s.findings
  covered : host_coverage s ≡ true
  near : scoped ≡ true
  elsewhere : issues_elsewhere s key ≡ true
  signed : signatures_complete s key ≡ true
  clear : clean s b ≡ true
  whole : owner.scope ≡ whole_device

check_ready-ready :
    (s : Scene) (key : Text) (owner : PhysicalOwner) (b : ResolvedBlockNode) (scoped : Bool)
    → (check_ready s key owner b scoped).0 ≡ DriveStatus.ready
    → (host_coverage s ≡ true)
      × (scoped ≡ true)
      × (issues_elsewhere s key ≡ true)
      × (s.findings.unknown_usage ≡ false)
      × (signatures_complete s key ≡ true)
      × (clean s b ≡ true)
      × (owner.scope ≡ whole_device)
unfolding check_ready
check_ready-ready s key owner b scoped h = ground arith

decide-ready :
    (s : Scene) (key : Text) (owner : PhysicalOwner) (b : ResolvedBlockNode)
    (scoped local_unknown : Bool)
    → (decide s key owner b scoped local_unknown).0 ≡ DriveStatus.ready
    → ReadyChecks s key owner b scoped local_unknown
unfolding decide
decide-ready s key owner b scoped true h = cc
decide-ready s key owner b scoped false h =
    elim (Bool-cases
      (set_has key s.findings.protected_use || is_read_only b.observation.read_only)) [
        | inl p ↦ cc (rw (decide, p) at h)
        | inr p ↦ elim (Bool-cases (set_has key s.findings.busy_use)) [
          | inl busy ↦ cc (rw (decide, p, busy) at h)
          | inr busy ↦
              let (c, n, i, u, g, l, w) =
                check_ready-ready s key owner b scoped (rw (decide, p, busy) at h) in
              record {
                sure = refl;
                quiet = (ground arith, busy, u);
                covered = c;
                near = n;
                elsewhere = i;
                signed = g;
                clear = l;
                whole = w;
              }
        ]
      ]

-- What is known of a device that is called ready.
pub record ReadyDevice (inventory : ResolvedInventorySnapshot) (evidence : OwnershipEvidence)
    (d : ClassifiedStorage) : Type 0 where
  pub identified : Identified (scene inventory evidence).graph d.node
  pub usable :
      (b : ResolvedBlockNode) × (map_find d.node (scene inventory evidence).graph.blocks ≡ some b)
      × Usable b
  pub unclaimed :
      All (Elsewhere (scene inventory evidence).traces d.node) (claims_of inventory evidence)
  pub placed :
      Placed inventory evidence
        (scene inventory evidence).graph.blocks
        (scene inventory evidence).traces
  pub signed :
      All
        (λ (e : Text × ResolvedBlockNode).
          traced_to (scene inventory evidence).traces e.0 d.node ≡ true
          → SignedFree (scene inventory evidence) e)
        (scene inventory evidence).graph.blocks
  pub gaps_elsewhere :
      All
        (λ r. separate_owner (scene inventory evidence).traces r.node d.node ≡ true)
        (all_gaps (scene inventory evidence).gaps)
  pub issues_elsewhere : issues_elsewhere (scene inventory evidence) d.node ≡ true
  pub covered : host_coverage (scene inventory evidence) ≡ true

module _ (inventory : ResolvedInventorySnapshot) (evidence : OwnershipEvidence) where
  findings-unclaimed :
      (k : Text)
      → Quiet k (scene inventory evidence).findings
      → All (Elsewhere (scene inventory evidence).traces k) (claims_of inventory evidence)
        × Placed inventory evidence
            (scene inventory evidence).graph.blocks
            (scene inventory evidence).traces
  unfolding scene all_findings claims_of
  findings-unclaimed k q =
      let s : Scene = scene inventory evidence in
      let (before, elsewhere) = note_claims-Quiet s.traces k (claims_of inventory evidence) _ q in
      let known = sym (note_traces-unknown s.traces s.traces _) ∙ before.2 in
      (elsewhere, all_claims-Placed inventory evidence s.graph.blocks s.traces known)

  scene_traces :
      (scene inventory evidence).traces
      ≡ trace_all (scene inventory evidence).graph (scene inventory evidence).graph.nodes
  unfolding scene
  scene_traces = refl

  classify-ReadyDevice :
      (key : Text) (owner o : PhysicalOwner) (b : ResolvedBlockNode) (t : Traced)
      → map_find key (scene inventory evidence).graph.blocks ≡ some b
      → map_find key (scene inventory evidence).graph.physical ≡ some o
      → map_find key (scene inventory evidence).traces ≡ some t
      → (classify (scene inventory evidence) key owner b t).status ≡ DriveStatus.ready
      → ReadyDevice inventory evidence (classify (scene inventory evidence) key owner b t)
  unfolding classify
  classify-ReadyDevice key owner o b t eb eo et h =
      let s : Scene = scene inventory evidence in
      let c = decide-ready s key owner b _ _ h in
      let (elsewhere, placed) = findings-unclaimed key c.quiet in
      record {
        identified = trace_all-Identified s.graph key o t eo (rw scene_traces at et) (ground arith);
        usable = (b, eb, clean-Usable s b c.clear);
        unclaimed = elsewhere;
        placed = placed;
        signed = signatures_complete-SignedFree s key c.signed;
        gaps_elsewhere = gaps_are_near s.traces key (all_gaps s.gaps) c.near;
        issues_elsewhere = c.elsewhere;
        covered = c.covered;
      }

  IfReady : ClassifiedStorage → Type 0
  IfReady d = d.status ≡ DriveStatus.ready → ReadyDevice inventory evidence d

  classify_one-IfReady :
      (scope : PhysicalAssessmentScope) (e : Text × PhysicalOwner)
      → map_has e.0 (scene inventory evidence).graph.physical ≡ true
      → All IfReady (classify_one (scene inventory evidence) scope e)
  unfolding classify_one map_has IfReady
  classify_one-IfReady scope (key, owner) h =
      let s : Scene = scene inventory evidence in
      elim (Option-cases (map_find key s.graph.physical)) [
        | inl none_there ↦ cc (rw (none_there, map_has) at h)
        | inr (o, eo) ↦ elim (Option-cases (map_find key s.graph.blocks)) [
          | inl eb ↦ rw (eb, classify_one) tt
          | inr (b, eb) ↦ elim (Option-cases (map_find key s.traces)) [
            | inl et ↦ rw (eb, classify_one, et) tt
            | inr (t, et) ↦ elim (Bool-cases (in_scope scope b)) [
              | inl i ↦
                  rw (eb, classify_one, et, i) (classify-ReadyDevice key owner o b t eb eo et, tt)
              | inr i ↦ rw (eb, classify_one, et, i) tt
            ]
          ]
        ]
      ]

  classify_all-IfReady :
      (scope : PhysicalAssessmentScope) (m : TextMap PhysicalOwner)
      → All
          (λ (e : Text × PhysicalOwner).
            map_has e.0 (scene inventory evidence).graph.physical ≡ true)
          m
      → All IfReady (classify_all (scene inventory evidence) scope m)
  unfolding classify_all
  classify_all-IfReady scope [] h = tt
  classify_all-IfReady scope (e ∷ m) h =
      All-append IfReady (classify_one (scene inventory evidence) scope e) _
        (classify_one-IfReady scope e h.0) (classify_all-IfReady scope m h.1)

-- A device that `assessOwnership` calls ready is identified and has a path, its size is known and
-- not 0 and it is writable; every claim's consumer is completely traced and not to it; every node's
-- structure is complete, unless it is an inactive loop device; every swap area is of a known node,
-- and every mount is of a known node, of a source that a claim or an earlier mount of a known node
-- has, or harmless; each block on the device has a fresh signature that shows no use and no observation issues; every
-- gap of coverage and every issue lies elsewhere or is accounted for; and the host's coverage is
-- complete or its gaps are explained.
pub ready-ReadyDevice :
    (inventory : ResolvedInventorySnapshot) (evidence : OwnershipEvidence)
    (scope : PhysicalAssessmentScope)
    → All
        (λ d. d.status ≡ DriveStatus.ready → ReadyDevice inventory evidence d)
        (assess_ownership inventory evidence scope).physical_devices
unfolding assess_ownership IfReady
ready-ReadyDevice inventory evidence scope =
    classify_all-IfReady inventory evidence scope (scene inventory evidence).graph.physical
      (own_key-has (scene inventory evidence).graph.physical)
