-- ===== src/Resolve/Collide/Settled.antt =====
-- The identities in the result of `resolveBlockIdentities` of core/resolved_inventory.cpp.
use drive_lab.Prelude.{
  ℕ, zero, suc, ◌≡◌, some, List, [], ◌∷◌, map, Text, ltb, length, Bool-cases, inl, inr, All,
  All-sort_by, TextMap, unique_by, sort_by,
}
use drive_lab.Drive.{DriveId}
use drive_lab.Inventory.{BlockDeviceObservation, ResolvedBlockNode, ResolutionState}
use drive_lab.Resolve.Identify.Sound.{identify-Given}
use drive_lab.Resolve.Collide.{
  BlockInventorySnapshot, first_node, reset_at, reset_all, settle_claims, tidy_node, index_key,
  all_node_claims, resolved_key, resolve_block_identities,
}

-- A node has an identity only if it is resolved.
abbrev pub Settled : ResolvedBlockNode → Type 0
Settled n = (d : DriveId) → n.identity.id ≡ some d → n.identity.state ≡ ResolutionState.resolved

first_node-Settled : (raw : BlockDeviceObservation) → Settled (first_node raw)
unfolding first_node
first_node-Settled raw d h = (identify-Given raw d h).2.state

first_nodes-Settled : (raws : List BlockDeviceObservation) → All Settled (map first_node raws)
first_nodes-Settled [] = tt
first_nodes-Settled (raw ∷ raws) = (first_node-Settled raw, first_nodes-Settled raws)

reset_at-Settled :
    (claim : Text) (i : ℕ) (ns : List ResolvedBlockNode)
    → All Settled ns
    → All Settled (reset_at claim i ns)
unfolding reset_at
reset_at-Settled claim i [] h = h
reset_at-Settled claim zero (n ∷ ns) h = (λ d e. cc, h.1)
reset_at-Settled claim (suc i) (n ∷ ns) h = (h.0, reset_at-Settled claim i ns h.1)

reset_all-Settled :
    (claim : Text) (is : List ℕ) (ns : List ResolvedBlockNode)
    → All Settled ns
    → All Settled (reset_all claim is ns)
unfolding reset_all
reset_all-Settled claim [] ns h = h
reset_all-Settled claim (i ∷ is) ns h =
    reset_all-Settled claim is (reset_at claim i ns) (reset_at-Settled claim i ns h)

settle_claims-Settled :
    (m : TextMap (List ℕ)) (ns : List ResolvedBlockNode)
    → All Settled ns
    → All Settled (settle_claims m ns)
unfolding settle_claims
settle_claims-Settled [] ns h = h
settle_claims-Settled (e ∷ m) ns h =
    elim (Bool-cases (ltb (length (unique_by index_key (sort_by index_key e.1))) 2)) [
      | inl a ↦ rw (settle_claims, a) (settle_claims-Settled m ns h)
      | inr a ↦ rw (settle_claims, a) (settle_claims-Settled m _ (reset_all-Settled e.0 _ ns h))
    ]

tidy_nodes-Settled : (ns : List ResolvedBlockNode) → All Settled ns → All Settled (map tidy_node ns)
unfolding tidy_node
tidy_nodes-Settled [] h = tt
tidy_nodes-Settled (n ∷ ns) h = (h.0, tidy_nodes-Settled ns h.1)

-- In the result of `resolveBlockIdentities` every node that has an identity is resolved.
pub resolve_block_identities-Settled :
    (raw : BlockInventorySnapshot) → All Settled (resolve_block_identities raw).nodes
unfolding resolve_block_identities
resolve_block_identities-Settled raw = All-sort_by Settled resolved_key _ (
    tidy_nodes-Settled _ (
      settle_claims-Settled (all_node_claims 0 (map first_node raw.devices) [])
        (map first_node raw.devices) (first_nodes-Settled raw.devices)))
