-- ===== src/Ownership/Trace/Endpoint.antt =====
-- The walk of core/ownership_graph.cpp from a physical device itself.
use drive_lab.Prelude.{
  ◌≡◌, refl, sym, ap, ◌∙◌, ◌≢◌, true, Option, none, some, [], ◌∷◌, Text, text_eq_iff, arith,
  TextMap, map_find, set_has, All, All-map, map_has,
}
use drive_lab.Inventory.{ResolvedBlockNode, ResolutionState}
use drive_lab.Ownership.{OwnershipNode, PhysicalOwner}
use drive_lab.Ownership.Graph.{Graph}
use drive_lab.Ownership.Trace.{
  Walk, Traced, identity_known, path_known, check_node, check_identity, check_path, at_owner, visit,
  walk, first_walk, trace_node, trace_all,
}

-- The block at the key is identified and has a path.
abbrev pub Identified : Graph → Text → Type 0
Identified g k =
    (b : ResolvedBlockNode) × (map_find k g.blocks ≡ some b)
    × (b.identity.state ≡ ResolutionState.resolved)
    × (b.current_path ≢ none)

known-some :
    (r : Option ResolvedBlockNode) (o : PhysicalOwner)
    → identity_known r o ≡ true
    → path_known r ≡ true
    → (b : ResolvedBlockNode) × (r ≡ some b)
      × (b.identity.state ≡ ResolutionState.resolved)
      × (b.current_path ≢ none)
known-some none o h p = cc
known-some (some b) o h p = (b, refl, ground arith, ground arith)

at_owner-complete :
    (g : Graph) (k : Text) (o : PhysicalOwner) (s : Walk)
    → (at_owner g k o s).complete ≡ true
    → (identity_known (map_find k g.blocks) o ≡ true) × (path_known (map_find k g.blocks) ≡ true)
unfolding at_owner check_path check_identity
at_owner-complete g k o s h = ground arith

trace_node-Identified :
    (g : Graph) (k : Text) (o : PhysicalOwner)
    → map_find k g.physical ≡ some o
    → (trace_node g k).trace.complete ≡ true
    → Identified g k
unfolding trace_node walk visit set_has
trace_node-Identified g k o e h =
    let (i, p) = at_owner-complete g k o (check_node g k first_walk) (rw (e, visit) at h) in
    known-some (map_find k g.blocks) o i p

find-trace_all :
    (g : Graph) (m : TextMap OwnershipNode) (k : Text) (t : Traced)
    → map_find k (trace_all g m) ≡ some t
    → t ≡ trace_node g k
unfolding trace_all map_find
find-trace_all g [] k t h = cc
find-trace_all g (e ∷ m) k t h = ground (arith, text_eq_iff e.0 k, find-trace_all g m k t)

-- A complete trace of a physical device identifies it.
pub trace_all-Identified :
    (g : Graph) (k : Text) (o : PhysicalOwner) (t : Traced)
    → map_find k g.physical ≡ some o
    → map_find k (trace_all g g.nodes) ≡ some t
    → t.trace.complete ≡ true
    → Identified g k
trace_all-Identified g k o t e f h =
    trace_node-Identified g k o e
      (ap (λ (t : Traced). t.trace.complete) (sym (find-trace_all g g.nodes k t f)) ∙ h)

later-has :
    {A : Type 0} (k : Text) (e : Text × A) (m : TextMap A)
    → map_has k m ≡ true
    → map_has k (e ∷ m) ≡ true
unfolding map_has map_find
later-has k e m h = ground arith

pub own_key-has : {A : Type 0} (m : TextMap A) → All (λ (e : Text × A). map_has e.0 m ≡ true) m
unfolding map_has map_find
own_key-has [] = tt
own_key-has (e ∷ m) = (
  ground (arith, text_eq_iff e.0 e.0),
  All-map {P = λ x. map_has x.0 m ≡ true} {Q = λ x. map_has x.0 (e ∷ m) ≡ true}
      (λ x h. later-has x.0 e m h) m (own_key-has m),
)
