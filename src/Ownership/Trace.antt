-- ===== src/Ownership/Trace.antt =====
-- The walk of `assessOwnership` in core/ownership_graph.cpp from a consumer to the physical
-- devices that back it.
pub mod Endpoint
use drive_lab.Prelude.{
  ℕ, zero, suc, Bool, true, false, not, ◌&&◌, Option, none, some, List, [], ◌∷◌, ◌++◌, Text, bytes,
  text_eq, any_of, is_empty, if◌then◌else◌, TextMap, map_find, map_get, set_has, set_insert,
  set_erase,
}
use drive_lab.Inventory.{ResolvedBlockNode, ResolutionState}
use drive_lab.Ownership.{
  OwnershipNode, OwnershipReason, PhysicalOwner, OwnershipTrace, cycle, missing_relationship,
  identity_unavailable, path_unavailable, normalize,
}
use drive_lab.Ownership.Graph.{Graph, reason, has_value}

-- The trace under construction, and the sets that the walk keeps.
pub record Walk : Type 0 where
  pub complete : Bool
  pub topology_ok : Bool
  pub reasons : List OwnershipReason
  pub active : List Text
  pub visited : List Text
  pub owners : List Text

abbrev push : OwnershipReason → Walk → Walk
push r s = record s { complete = false; reasons = s.reasons ++ (r ∷ []) }

-- A failure of the structure, not only of an endpoint.
abbrev pub structural : OwnershipReason → Walk → Walk
structural r s = record s { complete = false; topology_ok = false; reasons = s.reasons ++ (r ∷ []) }

unfoldable pub reasons_at : Text → List OwnershipReason → List OwnershipReason
reasons_at k [] = []
reasons_at k (r ∷ rs) = let rest = reasons_at k rs in if text_eq r.node k then r ∷ rest else rest

abbrev pub node_complete : Option OwnershipNode → Bool
node_complete none = false
node_complete (some n) = n.complete

unfoldable pub check_node : Graph → Text → Walk → Walk
check_node g k s = if node_complete (map_find k g.nodes) then s else record s {
  complete = false;
  topology_ok = false;
  reasons =
      s.reasons
      ++ (reason missing_relationship k (bytes "graph")
            (bytes "Incomplete or missing ownership node")
          ∷ reasons_at k g.issues);
}

abbrev is_resolved : ResolutionState → Bool
is_resolved ResolutionState.resolved = true
is_resolved _ = false

-- Every physical owner is a block.
abbrev pub identity_known : Option ResolvedBlockNode → PhysicalOwner → Bool
identity_known none o = false
identity_known (some b) o = is_resolved b.identity.state && has_value o.id

abbrev pub path_known : Option ResolvedBlockNode → Bool
path_known none = false
path_known (some b) = has_value b.current_path

unfoldable pub check_identity : Graph → Text → PhysicalOwner → Walk → Walk
check_identity g k o s =
    if identity_known (map_find k g.blocks) o
    then s
    else push
        (reason identity_unavailable k (bytes "identity")
          (bytes "Physical endpoint has no unambiguous stable ID"))
        s

unfoldable pub check_path : Graph → Text → Walk → Walk
check_path g k s =
    if path_known (map_find k g.blocks)
    then s
    else push (reason path_unavailable k (bytes "identity") (bytes "No verified current path")) s

unfoldable pub at_owner : Graph → Text → PhysicalOwner → Walk → Walk
at_owner g k o s =
    check_path g k (check_identity g k o (record s { owners = set_insert k s.owners }))

abbrev no_backing : Text → OwnershipReason
no_backing k =
    reason missing_relationship k (bytes "graph")
      (bytes "No physical endpoint or backing relationship")

abbrev too_deep : Text → OwnershipReason
too_deep k = reason cycle k (bytes "graph") (bytes "Ownership cycle or depth limit")

unfoldable pub walk_each : (Text → Walk → Walk) → List Text → Walk → Walk
walk_each f [] s = s
walk_each f (k ∷ ks) s = walk_each f ks (f k s)

-- The rest of `walk`, at a node not seen before.
unfoldable pub visit : (Text → Walk → Walk) → Graph → Text → Walk → Walk
visit f g k s = elim (map_find k g.physical) [
  | some o ↦ at_owner g k o s
  | none ↦ elim (map_get [] k g.parents) [
    | [] ↦ structural (no_backing k) s
    | p ∷ ps ↦
        let s' : Walk = walk_each f (p ∷ ps) (record s { active = set_insert k s.active }) in
        record s' { active = set_erase k s'.active }
  ]
]

abbrev leave : Text → Walk → Walk
leave k s = record s { visited = set_insert k s.visited }

-- `walk` at depth 257 - `levels`: the source gives up beyond depth 256.
unfoldable pub walk : Graph → ℕ → Text → Walk → Walk
walk g zero k s = structural (too_deep k) s
walk g (suc levels) k s = elim (set_has k s.active) [
  | true ↦ structural (too_deep k) s
  | false ↦ elim (set_has k s.visited) [
    | true ↦ s
    | false ↦ leave k (visit (walk g levels) g k (check_node g k s))
  ]
]

abbrev pub first_walk : Walk
first_walk = record {
  complete = true;
  topology_ok = true;
  reasons = [];
  active = [];
  visited = [];
  owners = [];
}

unfoldable pub owners_at : TextMap PhysicalOwner → List Text → List PhysicalOwner
owners_at physical [] = []
owners_at physical (k ∷ ks) =
    let rest = owners_at physical ks in
    elim (map_find k physical) [ none ↦ rest | some o ↦ o ∷ rest ]

-- A trace, with `topology_complete` at its consumer.
pub record Traced : Type 0 where
  pub trace : OwnershipTrace
  pub topology : Bool

unfoldable pub trace_node : Graph → Text → Traced
trace_node g k =
    let s : Walk = walk g 257 k first_walk in
    record {
      trace = record {
        consumer = k;
        owners = owners_at g.physical s.owners;
        complete = s.complete;
        reasons = normalize s.reasons;
      };
      topology = s.topology_ok;
    }

unfoldable pub trace_all : Graph → TextMap OwnershipNode → TextMap Traced
trace_all g [] = []
trace_all g (e ∷ m) = (e.0, trace_node g e.0) ∷ trace_all g m

-- Whether a consumer's storage lies on the physical device.
abbrev pub owned_by : Text → Traced → Bool
owned_by owner t = any_of (λ (o : PhysicalOwner). text_eq o.node owner) t.trace.owners

-- `separateOwner`, and the test inside `ownerReasons`: the node is known to be backed by other
-- devices only.
unfoldable pub separate_owner : TextMap Traced → Text → Text → Bool
separate_owner traces node owner = elim (map_find node traces) [
  | none ↦ false
  | some t ↦ t.topology && not (is_empty t.trace.owners) && not (owned_by owner t)
]

unfoldable pub owner_reasons : TextMap Traced → Text → List OwnershipReason → List OwnershipReason
owner_reasons traces owner [] = []
owner_reasons traces owner (r ∷ rs) =
    let rest = owner_reasons traces owner rs in
    if separate_owner traces r.node owner then rest else r ∷ rest
