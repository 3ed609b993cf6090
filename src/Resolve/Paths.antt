-- ===== src/Resolve/Paths.antt =====
-- `resolveCurrentPath` of core/resolved_inventory.cpp: the nodes that claim an identity.
use drive_lab.Prelude.{
  ◌≡◌, ◌≢◌, refl, sym, ap, ◌∙◌, ◌↔◌, ◌⊎◌, inl, inr, true, false, Option, none, some, List, [], ◌∷◌,
  Text, if◌then◌else◌, arith, Bool-cases,
}
use drive_lab.Result.{Result, ok, Result-cases}
use drive_lab.Drive.{DriveId}
use drive_lab.Inventory.{ResolvedBlockNode, ResolvedInventorySnapshot, ResolutionState, resolved}
use drive_lab.Resolve.{path_or_error, has_id, is_resolved, look_for, resolve_current_path}

-- The nodes with this identity.
unfoldable pub holders : DriveId → List ResolvedBlockNode → List ResolvedBlockNode
holders d [] = []
holders d (n ∷ ns) = let rest = holders d ns in if has_id d n then n ∷ rest else rest

is_resolved_iff : (s : ResolutionState) → (is_resolved s ≡ true) ↔ (s ≡ resolved)
is_resolved_iff s = ground arith

-- What the loop returns when it has found a node before.
look_for-found :
    (d : DriveId) (m : ResolvedBlockNode) (f : Option ResolvedBlockNode)
    (ns : List ResolvedBlockNode)
    → (look_for d (some m) ns ≡ ok f) ↔ ((holders d ns ≡ []) × (f ≡ some m))
unfolding look_for holders
look_for-found d m f [] = (λ h. (refl, cc), λ h. cc)
look_for-found d m f (n ∷ ns) = elim (Bool-cases (has_id d n)) [
  | inl a ↦ rw (look_for, holders, a) (λ h. cc, λ h. cc)
  | inr a ↦ rw (look_for, holders, a) (look_for-found d m f ns)
]

-- What the loop finds.
abbrev Found : DriveId → List ResolvedBlockNode → Option ResolvedBlockNode → Type 0
Found d ns f =
    ((holders d ns ≡ []) × (f ≡ none))
    ⊎ ((n : ResolvedBlockNode) × (holders d ns ≡ n ∷ [])
        × (n.identity.state ≡ resolved)
        × (f ≡ some n))

module _ (d : DriveId) (n : ResolvedBlockNode) (ns : List ResolvedBlockNode) where
  look_for_hit :
      has_id d n ≡ true
      → is_resolved n.identity.state ≡ true
      → look_for d none (n ∷ ns) ≡ look_for d (some n) ns
  unfolding look_for
  look_for_hit a r = rw (look_for, a) (rw r refl)

  look_for_ambiguous :
      (f : Option ResolvedBlockNode)
      → has_id d n ≡ true
      → is_resolved n.identity.state ≡ false
      → look_for d none (n ∷ ns) ≢ ok f
  unfolding look_for
  look_for_ambiguous f a r h = cc (rw r at (rw (look_for, a) at h))

  holders_hit : has_id d n ≡ true → holders d (n ∷ ns) ≡ n ∷ holders d ns
  unfolding holders
  holders_hit a = rw (holders, a) refl

cons-parts :
    (n m : ResolvedBlockNode) (ns : List ResolvedBlockNode) → n ∷ ns ≡ m ∷ [] → (m ≡ n) × (ns ≡ [])
cons-parts n m ns h = (cc, cc)

Found-hit :
    (d : DriveId) (n : ResolvedBlockNode) (ns : List ResolvedBlockNode)
    (f : Option ResolvedBlockNode)
    → has_id d n ≡ true
    → is_resolved n.identity.state ≡ true
    → ((holders d ns ≡ []) × (f ≡ some n)) ↔ Found d (n ∷ ns) f
Found-hit d n ns f a r = (
  λ (e, q). inr (n, holders_hit d n ns a ∙ ap (λ ms. n ∷ ms) e, (is_resolved_iff _).0 r, q),
  λ h. elim h [
    | inl (e, q) ↦ cc (e, holders_hit d n ns a)
    | inr (m, e, s, q) ↦
        let (same, rest) = cons-parts n m (holders d ns) (sym (holders_hit d n ns a) ∙ e) in
        (rest, q ∙ ap some same)
  ],
)

look_for-none :
    (d : DriveId) (f : Option ResolvedBlockNode) (ns : List ResolvedBlockNode)
    → (look_for d none ns ≡ ok f) ↔ Found d ns f
unfolding look_for holders
look_for-none d f [] =
    (λ h. inl (refl, cc), λ h. elim h [ inl (e, q) ↦ cc | inr (n, e, _, _) ↦ cc ])
look_for-none d f (n ∷ ns) = elim (Bool-cases (has_id d n)) [
  | inr a ↦ rw (look_for, holders, a) (look_for-none d f ns)
  | inl a ↦ elim (Bool-cases (is_resolved n.identity.state)) [
    | inl r ↦ (
      λ h.
          (Found-hit d n ns f a r).0
            ((look_for-found d n f ns).0 (sym (look_for_hit d n ns a r) ∙ h)),
      λ h. look_for_hit d n ns a r ∙ (look_for-found d n f ns).1 ((Found-hit d n ns f a r).1 h),
    )
    | inr r ↦ (
      λ h. absurd (look_for_ambiguous d n ns f a r h),
      λ h. elim h [
        | inl (e, q) ↦ cc (e, holders_hit d n ns a)
        | inr (m, e, s, q) ↦
            let (same, rest) = cons-parts n m (holders d ns) (sym (holders_hit d n ns a) ∙ e) in
            cc (
              (is_resolved_iff m.identity.state).1 s,
              ap (λ m. is_resolved m.identity.state) same,
              r,
            )
      ],
    )
  ]
]

some-same : (m n : ResolvedBlockNode) → some m ≡ some n → n ≡ m
some-same m n q = cc

same_ok :
    (m n : ResolvedBlockNode) (r : Result (Option ResolvedBlockNode))
    → r ≡ ok (some m)
    → r ≡ ok (some n)
    → n ≡ m
same_ok m n r e f = cc

path_or_error-ok : (o : Option Text) (p : Text) → path_or_error o ≡ ok p → o ≡ some p
path_or_error-ok none p h = cc
path_or_error-ok (some q) p h = cc

-- `resolveCurrentPath` returns a path exactly when one node of the snapshot has the identity, that
-- node is resolved, and the path is its current path.
pub resolve_current_path_iff :
    (snapshot : ResolvedInventorySnapshot) (d : DriveId) (p : Text)
    → (resolve_current_path snapshot d ≡ ok p) ↔ (
        (n : ResolvedBlockNode) × (holders d snapshot.nodes ≡ n ∷ [])
        × (n.identity.state ≡ resolved)
        × (n.current_path ≡ some p))
unfolding resolve_current_path
resolve_current_path_iff snapshot d p = elim (Result-cases (look_for d none snapshot.nodes)) [
  | inr (x, e) ↦
      rw (e, resolve_current_path)
        (
          λ h. cc,
          λ (n, one, r, path).
              cc (e, (look_for-none d (some n) snapshot.nodes).1 (inr (n, one, r, refl))),
        )
  | inl (none, e) ↦
      rw (e, resolve_current_path)
        (
          λ h. cc,
          λ (n, one, r, path).
              cc (e, (look_for-none d (some n) snapshot.nodes).1 (inr (n, one, r, refl))),
        )
  | inl (some m, e) ↦
      rw (e, resolve_current_path)
        (
          λ h. elim ((look_for-none d (some m) snapshot.nodes).0 e) [
            | inl (_, q) ↦ cc
            | inr (n, one, r, q) ↦ (
              n,
              one,
              r,
              ap (λ (k : ResolvedBlockNode). k.current_path) (some-same m n q)
                  ∙ path_or_error-ok m.current_path p h,
            )
          ],
          λ (n, one, r, path).
              ap (λ (o : Option Text). path_or_error o)
                (ap (λ (k : ResolvedBlockNode). k.current_path)
                    (sym (
                      same_ok m n _ e
                        ((look_for-none d (some n) snapshot.nodes).1 (inr (n, one, r, refl)))))
                  ∙ path),
        )
]
