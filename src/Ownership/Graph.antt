-- ===== src/Ownership/Graph.antt =====
-- The first half of `assessOwnership` in core/ownership_graph.cpp: nodes, edges and physical
-- endpoints.
use drive_lab.Prelude.{
  ℕ, Bool, true, false, not, ◌&&◌, ◌||◌, Option, none, some, List, [], ◌∷◌, ◌++◌, ◌==◌, Text, bytes,
  text_eq, any_of, count_if, is_empty, if◌then◌else◌, TieKey, TextMap, sort_by, unique_by, map_find,
  map_has, map_set, map_get, set_insert,
}
use drive_lab.Inventory.{
  ResolvedBlockNode, BlockNodeType, BlockInventoryIssue, BlockInventoryIssueCode,
  BlockObservationKind,
}
use drive_lab.Ownership.{
  OwnershipNode, OwnershipKind, OwnershipEdge, OwnershipReason, OwnershipReasonCode, PhysicalOwner,
  duplicate_node, missing_relationship, conflicting_evidence, kind_number, number_part, text_part,
  block_ownership_key,
}

abbrev pub reason : OwnershipReasonCode → Text → Text → Text → OwnershipReason
reason code node source detail = record {
  code = code;
  node = node;
  source = source;
  detail = detail;
}

abbrev pub bool_number : Bool → ℕ
bool_number false = 0
bool_number true = 1

-- A map is compared entry by entry.
abbrev facts_part : TextMap Text → List Text
facts_part [] = []
facts_part (e ∷ m) = e.0 ∷ e.1 ∷ facts_part m

abbrev node_key : OwnershipNode → TieKey
node_key n =
    text_part n.key
    ∷ number_part (kind_number n.kind)
    ∷ facts_part n.facts
    ∷ number_part (bool_number n.complete)
    ∷ []

abbrev edge_key : OwnershipEdge → TieKey
edge_key e =
    text_part e.consumer ∷ text_part e.provider ∷ text_part e.relation ∷ text_part e.source ∷ []

-- What the loops over the nodes have gathered.
pub record Gathered : Type 0 where
  pub blocks : TextMap ResolvedBlockNode
  pub duplicates : List Text
  pub evidence : List OwnershipNode

abbrev block_key : ResolvedBlockNode → Text
block_key b = block_ownership_key b.observation.kernel_name

abbrev block_node : ResolvedBlockNode → OwnershipNode
block_node b = record {
  key = block_key b;
  kind = OwnershipKind.block;
  facts = (bytes "kernel_name", b.observation.kernel_name) ∷ [];
  complete = true;
}

-- `blocks.emplace` keeps the first block of a key.
unfoldable pub gather_block : Gathered → ResolvedBlockNode → Gathered
gather_block g b =
    if map_has (block_key b) g.blocks
    then record g {
      duplicates = set_insert (block_key b) g.duplicates;
      evidence = g.evidence ++ (block_node b ∷ []);
    }
    else record g {
      blocks = map_set (block_key b) b g.blocks;
      evidence = g.evidence ++ (block_node b ∷ []);
    }

unfoldable pub gather_blocks : Gathered → List ResolvedBlockNode → Gathered
gather_blocks g [] = g
gather_blocks g (b ∷ bs) = gather_blocks (gather_block g b) bs

-- The graph under construction: nodes by key, edges, and the issues found.
pub record Building : Type 0 where
  pub nodes : TextMap OwnershipNode
  pub edges : List OwnershipEdge
  pub issues : List OwnershipReason

-- `nodes.emplace` keeps the first node of a key.
unfoldable pub index_nodes :
    TextMap OwnershipNode → List Text → List OwnershipNode → TextMap OwnershipNode × List Text
index_nodes nodes duplicates [] = (nodes, duplicates)
index_nodes nodes duplicates (n ∷ ns) = elim (map_has n.key nodes) [
  | true ↦ index_nodes nodes (set_insert n.key duplicates) ns
  | false ↦ index_nodes (map_set n.key n nodes) duplicates ns
]

abbrev no_node : OwnershipNode
no_node = record { key = []; kind = OwnershipKind.block; facts = []; complete = true }

-- `nodes[key].complete = false`.
unfoldable pub mark_incomplete : Text → TextMap OwnershipNode → TextMap OwnershipNode
mark_incomplete k nodes = map_set k (record (map_get no_node k nodes) { complete = false }) nodes

abbrev mark_known : Text → TextMap OwnershipNode → TextMap OwnershipNode
mark_known k nodes = if map_has k nodes then mark_incomplete k nodes else nodes

abbrev pub flaw : Text → OwnershipReason → Building → Building
flaw k r b = record b { nodes = mark_incomplete k b.nodes; issues = b.issues ++ (r ∷ []) }

unfoldable pub report_duplicates : List Text → Building → Building
report_duplicates [] b = b
report_duplicates (k ∷ ks) b = report_duplicates ks (
    flaw k
      (reason duplicate_node k (bytes "graph")
        (bytes "Duplicate graph key; no record selected as authoritative"))
      b)

abbrev is_partition : BlockNodeType → Bool
is_partition BlockNodeType.partition = true
is_partition _ = false

abbrev pub is_disk : BlockNodeType → Bool
is_disk BlockNodeType.disk = true
is_disk _ = false

abbrev breaks : BlockInventoryIssueCode → Bool
breaks BlockInventoryIssueCode.invalid_relationship = true
breaks BlockInventoryIssueCode.device_disappeared = true
breaks _ = false

abbrev breaks_relationship : BlockInventoryIssue → Bool
breaks_relationship p = breaks p.code

abbrev value_or {ℓ} : {A : Type ℓ} → A → Option A → A
value_or d none = d
value_or d (some a) = a

abbrev pub has_value {ℓ} : {A : Type ℓ} → Option A → Bool
has_value none = false
has_value (some a) = true

abbrev parent_key : ResolvedBlockNode → Text
parent_key b = block_ownership_key (value_or [] b.observation.parent_kernel_name)

-- The parent is a disk that names this block once among its children.
unfoldable pub reciprocal : TextMap ResolvedBlockNode → ResolvedBlockNode → Bool
reciprocal blocks b = elim (map_find (parent_key b) blocks) [
  | none ↦ false
  | some parent ↦
      is_disk parent.observation.node_type
      && (count_if (λ child. text_eq child b.observation.kernel_name)
            parent.observation.child_kernel_names
          == 1)
]

unfoldable pub link_partition :
    TextMap ResolvedBlockNode → Building → Text × ResolvedBlockNode → Building
link_partition blocks g (k, b) =
    if not (is_partition b.observation.node_type)
    then g
    else if any_of breaks_relationship b.observation.issues
        || not (has_value b.observation.partition_number)
        || not (reciprocal blocks b)
    then flaw k
        (reason missing_relationship k (bytes "inventory")
          (bytes "Partition parent is not reciprocal and unambiguous"))
        g
    else record g {
      edges =
          g.edges
          ++ (record {
            consumer = k;
            provider = parent_key b;
            relation = bytes "partition-of";
            source = bytes "0.3.0A";
          }
              ∷ []);
    }

unfoldable pub link_partitions :
    TextMap ResolvedBlockNode → Building → TextMap ResolvedBlockNode → Building
link_partitions blocks g [] = g
link_partitions blocks g (e ∷ m) = link_partitions blocks (link_partition blocks g e) m

-- A missing end of an edge is an issue of its consumer.
unfoldable pub check_edge : OwnershipEdge → Building → Building
check_edge e b = if map_has e.consumer b.nodes && map_has e.provider b.nodes then b else record b {
  nodes = mark_known e.provider (mark_known e.consumer b.nodes);
  issues =
      b.issues
      ++ (reason missing_relationship e.consumer e.source
            (bytes "Missing graph endpoint: " ++ e.provider)
          ∷ []);
}

unfoldable pub check_edges : List OwnershipEdge → Building → Building
check_edges [] b = b
check_edges (e ∷ es) b = check_edges es (check_edge e b)

-- The backing providers of each consumer.
unfoldable pub parents_of : List OwnershipEdge → TextMap (List Text) → TextMap (List Text)
parents_of [] m = m
parents_of (e ∷ es) m =
    parents_of es (map_set e.consumer (set_insert e.provider (map_get [] e.consumer m)) m)

unfoldable pub mark_issues : List OwnershipReason → TextMap OwnershipNode → TextMap OwnershipNode
mark_issues [] nodes = nodes
mark_issues (r ∷ rs) nodes = mark_issues rs (mark_known r.node nodes)

abbrev is_virtual : BlockObservationKind → Bool
is_virtual BlockObservationKind.virtual_or_pseudo = true
is_virtual _ = false

abbrev endpoint : Text → ResolvedBlockNode → PhysicalOwner
endpoint k b = record { node = k; id = b.identity.id; scope = b.identity.scope }

unfoldable pub add_physical :
    TextMap (List Text)
    → TextMap PhysicalOwner × Building
    → Text × ResolvedBlockNode
    → TextMap PhysicalOwner × Building
add_physical parents (physical, g) (k, b) =
    if is_disk b.observation.node_type && not (is_virtual b.observation.observation_kind)
    then (
      map_set k (endpoint k b) physical,
      if is_empty (map_get [] k parents)
          then g
          else flaw k
              (reason conflicting_evidence k (bytes "graph")
                (bytes "Physical endpoint unexpectedly has backing edges"))
              g,
    )
    else (physical, g)

unfoldable pub add_physicals :
    TextMap (List Text)
    → TextMap PhysicalOwner × Building
    → TextMap ResolvedBlockNode
    → TextMap PhysicalOwner × Building
add_physicals parents s [] = s
add_physicals parents s (e ∷ m) = add_physicals parents (add_physical parents s e) m

-- The finished graph.
pub record Graph : Type 0 where
  pub blocks : TextMap ResolvedBlockNode
  pub nodes : TextMap OwnershipNode
  pub edges : List OwnershipEdge
  pub parents : TextMap (List Text)
  pub physical : TextMap PhysicalOwner
  pub issues : List OwnershipReason

unfoldable pub build_graph :
    List ResolvedBlockNode → List OwnershipNode → List OwnershipEdge → List OwnershipReason → Graph
build_graph inventory evidence edges issues =
    let g : Gathered =
      gather_blocks (record { blocks = []; duplicates = []; evidence = evidence }) inventory in
    let (nodes, duplicates) = index_nodes [] g.duplicates (sort_by node_key g.evidence) in
    let linked : Building =
      link_partitions g.blocks
        (report_duplicates duplicates (record { nodes = nodes; edges = edges; issues = issues }))
        g.blocks in
    let sorted : List OwnershipEdge = unique_by edge_key (sort_by edge_key linked.edges) in
    let parents : TextMap (List Text) = parents_of sorted [] in
    let checked : Building = check_edges sorted (record linked { edges = sorted }) in
    let (physical, done) =
      add_physicals parents
        ([], record checked { nodes = mark_issues checked.issues checked.nodes }) g.blocks in
    record {
      blocks = g.blocks;
      nodes = done.nodes;
      edges = sorted;
      parents = parents;
      physical = physical;
      issues = done.issues;
    }
