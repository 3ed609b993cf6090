-- ===== src/Ownership/Assess/Signed.antt =====
-- Signatures and flags in core/ownership_graph.cpp that let a device be ready.
use drive_lab.Prelude.{
  ℕ, ◌<◌, ltb→lt, ◌≡◌, refl, ◌⊎◌, Bool, true, false, not, ◌&&◌, ◌||◌, Option, none, some, List, [],
  ◌∷◌, Text, is_empty, arith, All, TextMap, map_find,
}
use drive_lab.Inventory.{ResolvedBlockNode}
use drive_lab.Ownership.{OwnershipReason, FreshSignatureEvidence, FreshSignatureState}
use drive_lab.Ownership.Mounts.{fresh_signature_complete}
use drive_lab.Ownership.Trace.{Traced, separate_owner}
use drive_lab.Ownership.Usage.{is_membership}
use drive_lab.Ownership.Classify.{
  fresh_negative, sized, writable, Scene, all_of, gaps_near, traced_to, signature_clean,
  signatures_complete, clean,
}

-- A signature that shows no use of the block.
abbrev pub ShowsNoUse : FreshSignatureState → Type 0
ShowsNoUse f = (f ≡ FreshSignatureState.none) ⊎ (f ≡ FreshSignatureState.filesystem)

shows_no_use :
    (f : FreshSignatureEvidence)
    → fresh_signature_complete f && not (is_membership f.state) ≡ true
    → ShowsNoUse f.state
unfolding fresh_signature_complete
shows_no_use f h = ground arith

fresh_negative-ShowsNoUse :
    (r : Option FreshSignatureEvidence)
    → fresh_negative r ≡ true
    → (f : FreshSignatureEvidence) × (r ≡ some f) × ShowsNoUse f.state
fresh_negative-ShowsNoUse none h = cc
fresh_negative-ShowsNoUse (some f) h = (f, refl, shows_no_use f h)

-- The block has a fresh signature that shows no use, and no observation of it went wrong.
abbrev pub SignedFree : Scene → Text × ResolvedBlockNode → Type 0
SignedFree s e =
    ((f : FreshSignatureEvidence) × (map_find e.0 s.fresh ≡ some f) × ShowsNoUse f.state)
    × (e.1.observation.issues ≡ [])

is_empty-nil {ℓ} : {A : Type ℓ} (xs : List A) → is_empty xs ≡ true → xs ≡ []
is_empty-nil [] h = refl
is_empty-nil (x ∷ xs) h = cc

signature_clean-SignedFree :
    (s : Scene) (e : Text × ResolvedBlockNode) → signature_clean s e ≡ true → SignedFree s e
unfolding signature_clean
signature_clean-SignedFree s e h =
    (fresh_negative-ShowsNoUse (map_find e.0 s.fresh) (ground arith), is_empty-nil _ (ground arith))

all_of-signed :
    (s : Scene) (key : Text) (blocks : TextMap ResolvedBlockNode)
    → all_of
        (λ (e : Text × ResolvedBlockNode). not (traced_to s.traces e.0 key) || signature_clean s e)
        blocks
      ≡ true
    → All
        (λ (e : Text × ResolvedBlockNode). traced_to s.traces e.0 key ≡ true → SignedFree s e)
        blocks
unfolding all_of
all_of-signed s key [] h = tt
all_of-signed s key (e ∷ m) h =
    (λ traced. signature_clean-SignedFree s e (ground arith), all_of-signed s key m (ground arith))

pub signatures_complete-SignedFree :
    (s : Scene) (key : Text)
    → signatures_complete s key ≡ true
    → All
        (λ (e : Text × ResolvedBlockNode). traced_to s.traces e.0 key ≡ true → SignedFree s e)
        s.graph.blocks
unfolding signatures_complete
signatures_complete-SignedFree s key h = all_of-signed s key s.graph.blocks h

-- The device itself: its size is known and not 0, and it is known to be writable.
abbrev pub Usable : ResolvedBlockNode → Type 0
Usable b =
    ((n : ℕ) × (b.observation.capacity_bytes ≡ some n) × (0 < n))
    × (b.observation.read_only ≡ some false)

sized-some : (c : Option ℕ) → sized c ≡ true → (n : ℕ) × (c ≡ some n) × (0 < n)
sized-some none h = cc
sized-some (some n) h = (n, refl, ltb→lt 0 n h)

writable-some : (r : Option Bool) → writable r ≡ true → r ≡ some false
writable-some none h = cc
writable-some (some true) h = cc
writable-some (some false) h = refl

pub clean-Usable : (s : Scene) (b : ResolvedBlockNode) → clean s b ≡ true → Usable b
unfolding clean
clean-Usable s b h = (
  sized-some b.observation.capacity_bytes (ground arith),
  writable-some b.observation.read_only (ground arith),
)

pub gaps_are_near :
    (traces : TextMap Traced) (key : Text) (rs : List OwnershipReason)
    → is_empty (gaps_near traces key rs) ≡ true
    → All (λ r. separate_owner traces r.node key ≡ true) rs
unfolding gaps_near
gaps_are_near traces key [] h = tt
gaps_are_near traces key (r ∷ rs) h = (ground arith, gaps_are_near traces key rs (ground arith))
