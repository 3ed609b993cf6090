-- ===== src/Ownership/Assess/Quiet.antt =====
-- Claims in core/ownership_graph.cpp that leave a device unmarked.
use drive_lab.Prelude.{
  ◌≡◌, refl, ◌∙◌, inl, inr, true, false, some, List, [], ◌∷◌, Text, text_eq, any_of, arith,
  Bool-cases, Option-cases, All, TextMap, map_find, set_has, set_has-insert,
}
use drive_lab.Ownership.{OwnershipClaim, PhysicalOwner}
use drive_lab.Ownership.Trace.{Traced, owned_by}
use drive_lab.Ownership.Usage.{
  note_trace, note_traces, protects, Findings, note_claim, each_owner, note_one, note_claims,
}

-- No claim has marked the device, and every usage has its place.
abbrev pub Quiet : Text → Findings → Type 0
Quiet k f =
    (set_has k f.protected_use ≡ false) × (set_has k f.busy_use ≡ false) × (f.unknown_usage ≡ false)

module _ (traces : TextMap Traced) (k : Text) where
  note_claim-Quiet :
      (c : OwnershipClaim) (t : Traced) (o : PhysicalOwner) (f : Findings)
      → Quiet k (note_claim traces c t o f)
      → Quiet k f × (text_eq o.node k ≡ false)
  unfolding note_claim
  note_claim-Quiet c t o f q = elim (Bool-cases (protects c.claimed_use)) [
    | inl p ↦ ground (arith, q, p, set_has-insert k o.node f.protected_use)
    | inr p ↦ ground (arith, q, p, set_has-insert k o.node f.busy_use)
  ]

  each_owner-Quiet :
      (c : OwnershipClaim) (t : Traced) (os : List PhysicalOwner) (f : Findings)
      → Quiet k (each_owner (note_claim traces c t) os f)
      → Quiet k f × (any_of (λ (o : PhysicalOwner). text_eq o.node k) os ≡ false)
  unfolding each_owner any_of
  each_owner-Quiet c t [] f q = (q, refl)
  each_owner-Quiet c t (o ∷ os) f q =
      let (q', none_later) = each_owner-Quiet c t os (note_claim traces c t o f) q in
      let (q'', not_here) = note_claim-Quiet c t o f q' in (q'', ground arith)

  -- The claim's consumer is fully traced, and not to this device.
  abbrev pub Elsewhere : OwnershipClaim → Type 0
  Elsewhere c =
      (t : Traced) × (map_find c.consumer traces ≡ some t)
      × (t.topology ≡ true)
      × (owned_by k t ≡ false)

  note_one-Quiet :
      (c : OwnershipClaim) (f : Findings) → Quiet k (note_one traces c f) → Quiet k f × Elsewhere c
  unfolding note_one
  note_one-Quiet c f q = elim (Option-cases (map_find c.consumer traces)) [
    | inl e ↦ cc ((rw (e, note_one) at q).2)
    | inr (t, e) ↦
        let (q', elsewhere) = each_owner-Quiet c t t.trace.owners _ (rw (e, note_one) at q) in
        elim (Bool-cases t.topology) [
          | inl top ↦ (rw top at q', (t, e, top, elsewhere))
          | inr top ↦ cc ((rw top at q').2)
        ]
  ]

  pub note_claims-Quiet :
      (cs : List OwnershipClaim) (f : Findings)
      → Quiet k (note_claims traces cs f)
      → Quiet k f × All Elsewhere cs
  unfolding note_claims
  note_claims-Quiet [] f q = (q, tt)
  note_claims-Quiet (c ∷ cs) f q =
      let (q', later) = note_claims-Quiet cs (note_one traces c f) q in
      let (q'', here) = note_one-Quiet c f q' in (q'', (here, later))

note_trace-unknown :
    (traces : TextMap Traced) (t : Traced) (os : List PhysicalOwner) (f : Findings)
    → (each_owner (note_trace traces t) os f).unknown_usage ≡ f.unknown_usage
unfolding each_owner note_trace
note_trace-unknown traces t [] f = refl
note_trace-unknown traces t (o ∷ os) f = note_trace-unknown traces t os _

pub note_traces-unknown :
    (traces m : TextMap Traced) (f : Findings)
    → (note_traces traces m f).unknown_usage ≡ f.unknown_usage
unfolding note_traces note_trace
note_traces-unknown traces [] f = refl
note_traces-unknown traces (e ∷ m) f = elim (Bool-cases e.1.trace.complete) [
  | inl c ↦ rw (note_traces, c) (note_traces-unknown traces m f)
  | inr c ↦
      rw (note_traces, c)
        (note_traces-unknown traces m (each_owner (note_trace traces e.1) e.1.trace.owners f)
          ∙ note_trace-unknown traces e.1 e.1.trace.owners f)
]
