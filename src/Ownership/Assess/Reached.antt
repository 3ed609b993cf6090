-- ===== src/Ownership/Assess/Reached.antt =====
-- Which claims mark a device in core/ownership_graph.cpp, and the status that follows.
use drive_lab.Prelude.{
  ◌≡◌, refl, ap, ◌∙◌, inl, inr, Bool, true, false, not, ◌&&◌, ◌||◌, List, [], ◌∷◌, Text, text_eq,
  any_of, if◌then◌else◌, Bool-cases, Option-cases, TextMap, map_find, set_has, set_has-insert,
  set_insert,
}
use drive_lab.Ownership.{OwnershipClaim, OwnershipUse, PhysicalOwner}
use drive_lab.Ownership.Trace.{Traced, owned_by}
use drive_lab.Ownership.Usage.{
  protects, Findings, Claimed, note_trace, note_traces, note_claim, each_owner, note_one,
  note_claims, all_findings,
}
use drive_lab.Ownership.Classify.{traced_to}

-- Some claim of a use of this kind reaches the device.
unfoldable pub reached : (OwnershipUse → Bool) → TextMap Traced → Text → List OwnershipClaim → Bool
reached p traces k cs =
    any_of (λ (c : OwnershipClaim). p c.claimed_use && traced_to traces c.consumer k) cs

abbrev pub occupies : OwnershipUse → Bool
occupies u = not (protects u)

or_nothing : (x p : Bool) → x ≡ x || (p && false)
or_nothing true p = refl
or_nothing false true = refl
or_nothing false false = refl

or_step : (x p h r : Bool) → (x || (p && h)) || (p && r) ≡ x || (p && (if h then true else r))
or_step true p h r = refl
or_step false false h r = refl
or_step false true true r = refl
or_step false true false r = refl

or_comm : (x y : Bool) → x || y ≡ y || x
or_comm true true = refl
or_comm true false = refl
or_comm false true = refl
or_comm false false = refl

set_has-mark :
    (b : Bool) (k j : Text) (s : List Text)
    → set_has k (if b then set_insert j s else s) ≡ set_has k s || (b && text_eq j k)
set_has-mark true k j s = set_has-insert k j s ∙ or_comm (text_eq j k) (set_has k s)
set_has-mark false k j s = or_nothing (set_has k s) false

or_if : (x q r : Bool) → (x || q) || r ≡ x || (if q then true else r)
or_if true q r = refl
or_if false true r = refl
or_if false false r = refl

module _ (traces : TextMap Traced) (k : Text) where
  protected_use-each_owner :
      (c : OwnershipClaim) (t : Traced) (os : List PhysicalOwner) (f : Findings)
      → set_has k (each_owner (note_claim traces c t) os f).protected_use
        ≡ set_has k f.protected_use
          || (protects c.claimed_use && any_of (λ (o : PhysicalOwner). text_eq o.node k) os)
  unfolding each_owner any_of note_claim
  protected_use-each_owner c t [] f = or_nothing _ _
  protected_use-each_owner c t (o ∷ os) f =
      let later : Bool =
        protects c.claimed_use && any_of (λ (o : PhysicalOwner). text_eq o.node k) os in
      protected_use-each_owner c t os (note_claim traces c t o f)
      ∙ ap (λ (b : Bool). b || later)
          (set_has-mark (protects c.claimed_use) k o.node f.protected_use)
      ∙ or_step (set_has k f.protected_use) (protects c.claimed_use) (text_eq o.node k) _

  protected_use_kept :
      (top : Bool) (f : Findings)
      → set_has k (if top then f else record f { unknown_usage = true }).protected_use
        ≡ set_has k f.protected_use
  protected_use_kept true f = refl
  protected_use_kept false f = refl

  protected_use-note_one :
      (c : OwnershipClaim) (f : Findings)
      → set_has k (note_one traces c f).protected_use
        ≡ set_has k f.protected_use || (protects c.claimed_use && traced_to traces c.consumer k)
  unfolding note_one traced_to
  protected_use-note_one c f = elim (Option-cases (map_find c.consumer traces)) [
    | inl e ↦ rw (e, note_one, traced_to) (or_nothing _ _)
    | inr (t, e) ↦
        rw (e, note_one, traced_to)
          (protected_use-each_owner c t t.trace.owners _
            ∙ ap (λ (b : Bool). b || (protects c.claimed_use && owned_by k t))
                (protected_use_kept t.topology f))
  ]

  protected_use-note_claims :
      (cs : List OwnershipClaim) (f : Findings)
      → set_has k (note_claims traces cs f).protected_use
        ≡ set_has k f.protected_use || reached protects traces k cs
  unfolding note_claims reached any_of
  protected_use-note_claims [] f = or_nothing (set_has k f.protected_use) false
  protected_use-note_claims (c ∷ cs) f =
      protected_use-note_claims cs (note_one traces c f)
      ∙ ap (λ (b : Bool). b || reached protects traces k cs) (protected_use-note_one c f)
      ∙ or_if (set_has k f.protected_use) (protects c.claimed_use && traced_to traces c.consumer k)
          _

  protected_use-trace :
      (t : Traced) (os : List PhysicalOwner) (f : Findings)
      → (each_owner (note_trace traces t) os f).protected_use ≡ f.protected_use
  unfolding each_owner note_trace
  protected_use-trace t [] f = refl
  protected_use-trace t (o ∷ os) f = protected_use-trace t os _

  protected_use-traces :
      (m : TextMap Traced) (f : Findings) → (note_traces traces m f).protected_use ≡ f.protected_use
  unfolding note_traces note_trace
  protected_use-traces [] f = refl
  protected_use-traces (e ∷ m) f = elim (Bool-cases e.1.trace.complete) [
    | inl c ↦ rw (note_traces, c) (protected_use-traces m f)
    | inr c ↦
        rw (note_traces, c)
          (protected_use-traces m (each_owner (note_trace traces e.1) e.1.trace.owners f)
            ∙ protected_use-trace e.1 e.1.trace.owners f)
  ]

  pub protected_use-all_findings :
      (c : Claimed)
      → set_has k (all_findings traces c).protected_use ≡ reached protects traces k c.claims
  unfolding all_findings set_has
  protected_use-all_findings c =
      protected_use-note_claims c.claims _
      ∙ ap (λ (s : List Text). set_has k s || reached protects traces k c.claims)
          (protected_use-traces traces _)

  busy_use-each_owner :
      (c : OwnershipClaim) (t : Traced) (os : List PhysicalOwner) (f : Findings)
      → set_has k (each_owner (note_claim traces c t) os f).busy_use
        ≡ set_has k f.busy_use
          || (occupies c.claimed_use && any_of (λ (o : PhysicalOwner). text_eq o.node k) os)
  unfolding each_owner any_of note_claim
  busy_use-each_owner c t [] f = or_nothing _ _
  busy_use-each_owner c t (o ∷ os) f =
      let later : Bool =
        occupies c.claimed_use && any_of (λ (o : PhysicalOwner). text_eq o.node k) os in
      busy_use-each_owner c t os (note_claim traces c t o f)
      ∙ ap (λ (b : Bool). b || later) (set_has-mark (occupies c.claimed_use) k o.node f.busy_use)
      ∙ or_step (set_has k f.busy_use) (occupies c.claimed_use) (text_eq o.node k) _

  busy_use_kept :
      (top : Bool) (f : Findings)
      → set_has k (if top then f else record f { unknown_usage = true }).busy_use
        ≡ set_has k f.busy_use
  busy_use_kept true f = refl
  busy_use_kept false f = refl

  busy_use-note_one :
      (c : OwnershipClaim) (f : Findings)
      → set_has k (note_one traces c f).busy_use
        ≡ set_has k f.busy_use || (occupies c.claimed_use && traced_to traces c.consumer k)
  unfolding note_one traced_to
  busy_use-note_one c f = elim (Option-cases (map_find c.consumer traces)) [
    | inl e ↦ rw (e, note_one, traced_to) (or_nothing _ _)
    | inr (t, e) ↦
        rw (e, note_one, traced_to)
          (busy_use-each_owner c t t.trace.owners _
            ∙ ap (λ (b : Bool). b || (occupies c.claimed_use && owned_by k t))
                (busy_use_kept t.topology f))
  ]

  busy_use-note_claims :
      (cs : List OwnershipClaim) (f : Findings)
      → set_has k (note_claims traces cs f).busy_use
        ≡ set_has k f.busy_use || reached occupies traces k cs
  unfolding note_claims reached any_of
  busy_use-note_claims [] f = or_nothing (set_has k f.busy_use) false
  busy_use-note_claims (c ∷ cs) f =
      busy_use-note_claims cs (note_one traces c f)
      ∙ ap (λ (b : Bool). b || reached occupies traces k cs) (busy_use-note_one c f)
      ∙ or_if (set_has k f.busy_use) (occupies c.claimed_use && traced_to traces c.consumer k) _

  busy_use-trace :
      (t : Traced) (os : List PhysicalOwner) (f : Findings)
      → (each_owner (note_trace traces t) os f).busy_use ≡ f.busy_use
  unfolding each_owner note_trace
  busy_use-trace t [] f = refl
  busy_use-trace t (o ∷ os) f = busy_use-trace t os _

  busy_use-traces :
      (m : TextMap Traced) (f : Findings) → (note_traces traces m f).busy_use ≡ f.busy_use
  unfolding note_traces note_trace
  busy_use-traces [] f = refl
  busy_use-traces (e ∷ m) f = elim (Bool-cases e.1.trace.complete) [
    | inl c ↦ rw (note_traces, c) (busy_use-traces m f)
    | inr c ↦
        rw (note_traces, c)
          (busy_use-traces m (each_owner (note_trace traces e.1) e.1.trace.owners f)
            ∙ busy_use-trace e.1 e.1.trace.owners f)
  ]

  pub busy_use-all_findings :
      (c : Claimed)
      → set_has k (all_findings traces c).busy_use ≡ reached occupies traces k c.claims
  unfolding all_findings set_has
  busy_use-all_findings c =
      busy_use-note_claims c.claims _
      ∙ ap (λ (s : List Text). set_has k s || reached occupies traces k c.claims)
          (busy_use-traces traces _)
