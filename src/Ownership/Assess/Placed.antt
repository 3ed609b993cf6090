-- ===== src/Ownership/Assess/Placed.antt =====
-- Mounts and swaps in core/ownership_graph.cpp whose place is known.
use drive_lab.Prelude.{
  ◌⊎◌, Bool, ◌≡◌, refl, ◌≢◌, inl, inr, true, false, not, ◌&&◌, none, List, [], ◌∷◌, Text,
  Bool-cases, Option-cases, All, TextMap, set_has, some, set_insert, ◌++◌,
}
use drive_lab.Inventory.{ResolvedBlockNode, ResolvedInventorySnapshot, MountEvidence, SwapEvidence}
use drive_lab.Ownership.{OwnershipEvidence}
use drive_lab.Ownership.Mounts.{harmless_ownership_mount}
use drive_lab.Ownership.Trace.{Traced}
use drive_lab.Ownership.Usage.{
  claim_swaps, claim_swap, claim_mounts, claim_mount, mount_source, all_claims, untraced, Claimed,
  sources_of, membership_claims,
}

-- The mount is of a known node, or of a source among those given, or harmless.
abbrev pub PlacedMount : List Text → MountEvidence → Type 0
PlacedMount sources m =
    (m.node ≢ none)
    ⊎ ((set_has (mount_source m) sources ≡ true) ⊎ (harmless_ownership_mount m ≡ true))

-- The sources that cover the mounts after one, of those that cover it.
abbrev pub covering : MountEvidence → List Text → List Text
covering m sources = elim m.node [ none ↦ sources | some n ↦ set_insert (mount_source m) sources ]

-- Each of the mounts has its place, covered by the sources given and by the mounts before it.
unfoldable pub PlacedMounts : List Text → List MountEvidence → Type 0
PlacedMounts sources [] = Unit
PlacedMounts sources (m ∷ ms) = PlacedMount sources m × PlacedMounts (covering m sources) ms

-- The sources of the claims that are no mount's.
abbrev pub claimed_sources : OwnershipEvidence → TextMap ResolvedBlockNode → List Text
claimed_sources evidence blocks =
    sources_of (evidence.claims ++ membership_claims blocks evidence.fresh_signatures) []

-- Every usage of the host has its place.
pub record Placed (inventory : ResolvedInventorySnapshot) (evidence : OwnershipEvidence)
    (blocks : TextMap ResolvedBlockNode) (traces : TextMap Traced) : Type 0 where
  pub traced : untraced evidence.inactive_loops traces ≡ false
  pub mounts : PlacedMounts (claimed_sources evidence blocks) inventory.mounts
  pub swaps : All (λ (x : SwapEvidence). x.node ≢ none) inventory.swaps

claim_swaps-unknown :
    (ss : List SwapEvidence) (c : Claimed)
    → (claim_swaps ss c).unknown_usage ≡ false
    → (c.unknown_usage ≡ false) × All (λ (x : SwapEvidence). x.node ≢ none) ss
unfolding claim_swaps claim_swap
claim_swaps-unknown [] c h = (h, tt)
claim_swaps-unknown (x ∷ ss) c h = elim (Option-cases x.node) [
  | inl e ↦ cc ((claim_swaps-unknown ss _ (rw (e, claim_swaps) at h)).0)
  | inr (n, e) ↦
      let (q, later) = claim_swaps-unknown ss _ (rw (e, claim_swaps) at h) in
      (q, (λ none_there. cc (none_there, e), later))
]

covered_or_harmless :
    (covered harmless : Bool)
    → not covered && not harmless ≡ false
    → (covered ≡ true) ⊎ (harmless ≡ true)
covered_or_harmless true h a = inl refl
covered_or_harmless false true a = inr refl
covered_or_harmless false false a = cc

claim_mounts-PlacedMounts :
    (ms : List MountEvidence) (c : Claimed)
    → (claim_mounts ms c).unknown_usage ≡ false
    → (c.unknown_usage ≡ false) × PlacedMounts c.sources ms
unfolding claim_mounts claim_mount PlacedMounts
claim_mounts-PlacedMounts [] c h = (h, tt)
claim_mounts-PlacedMounts (m ∷ ms) c h =
    let (q, later) = claim_mounts-PlacedMounts ms (claim_mount m c) h in
    elim (Option-cases m.node) [
      | inr (n, e) ↦
          (rw (e, claim_mount) at q, (inl (λ f. cc (e, f)), rw (e) (rw (e, claim_mount) at later)))
      | inl e ↦
          elim (Bool-cases
            (not (set_has (mount_source m) c.sources) && not (harmless_ownership_mount m))) [
              | inl a ↦ cc (rw (e, claim_mount, a) at q)
              | inr a ↦ (
                rw (e, claim_mount, a) at q,
                (inr (covered_or_harmless _ _ a), rw (e) (rw (e, claim_mount, a) at later)),
              )
            ]
    ]

pub all_claims-Placed :
    (inventory : ResolvedInventorySnapshot) (evidence : OwnershipEvidence)
    (blocks : TextMap ResolvedBlockNode) (traces : TextMap Traced)
    → (all_claims inventory evidence blocks traces).unknown_usage ≡ false
    → Placed inventory evidence blocks traces
unfolding all_claims
all_claims-Placed inventory evidence blocks traces h =
    let (q, swaps) = claim_swaps-unknown inventory.swaps _ h in
    let (known, mounts) = claim_mounts-PlacedMounts inventory.mounts _ q in
    record { traced = known; mounts = mounts; swaps = swaps }
