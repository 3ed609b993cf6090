-- ===== src/Linux/Groups.antt =====
-- The properties of a signature, grouped by their keys.
use drive_lab.Prelude.{
  ◌≡◌, refl, sym, ap, ◌∙◌, inl, inr, Bool, true, false, not, ◌&&◌, ◌||◌, Option, none, some, List,
  [], ◌∷◌, ◌==◌, Text, text_eq, text_eq_iff, length, any_of, set_has, set_insert, set_has-insert,
  map_set, map_get, map_find, TextMap, All, arith, Bool-cases, if◌then◌else◌,
}
use drive_lab.Linux.{Properties}
use drive_lab.Linux.Signature.{grouped}

map_get-set {ℓ} :
    {A : Type ℓ} (d : A) (k j : Text) (a : A) (m : TextMap A)
    → map_get d k (map_set j a m) ≡ (if text_eq j k then a else map_get d k m)
unfolding map_get map_set map_find
map_get-set d k j a [] = ground arith
map_get-set d k j a (e ∷ m) =
    let rest = map_get-set d k j a m in
    ground (arith, rest, text_eq_iff e.0 j, text_eq_iff e.0 k, text_eq_iff j k)

-- Whether the value stands under the key.
abbrev pub holds_value : Text → Text → TextMap (List Text) → Bool
holds_value k v m = set_has v (map_get [] k m)

holds_value-set :
    (k v j w : Text) (m : TextMap (List Text))
    → holds_value k v (map_set j (set_insert w (map_get [] j m)) m)
      ≡ ((text_eq j k && text_eq w v) || holds_value k v m)
holds_value-set k v j w m =
    rw (map_get-set [] k j (set_insert w (map_get [] j m)) m) (elim (Bool-cases (text_eq j k)) [
      | inl e ↦ rw (e, (text_eq_iff j k).0 e) (set_has-insert v w (map_get [] k m))
      | inr e ↦ rw e refl
    ])

grouped-keeps :
    (k v : Text) (ps : Properties) (m : TextMap (List Text))
    → holds_value k v m ≡ true
    → holds_value k v (grouped ps m) ≡ true
unfolding grouped
grouped-keeps k v [] m h = h
grouped-keeps k v (p ∷ ps) m h =
    grouped-keeps k v ps _ (holds_value-set k v p.0 p.1 m ∙ rw h (ground arith))

text_eq_refl : (t : Text) → text_eq t t ≡ true
text_eq_refl t = (text_eq_iff t t).1 refl

-- Every property read is in the groups.
pub grouped-All :
    (ps : Properties) (m : TextMap (List Text))
    → All (λ p. holds_value p.0 p.1 (grouped ps m) ≡ true) ps
unfolding grouped
grouped-All [] m = tt
grouped-All (p ∷ ps) m = (
  grouped-keeps p.0 p.1 ps _
      (holds_value-set p.0 p.1 p.0 p.1 m ∙ rw (text_eq_refl p.0, text_eq_refl p.1) refl),
  grouped-All ps _,
)

-- One group, for the key that is looked up.
pub found-passes :
    (test : Text × List Text → Bool) (k : Text) (vs : List Text) (m : TextMap (List Text))
    → any_of test m ≡ false
    → map_find k m ≡ some vs
    → test (k, vs) ≡ false
unfolding any_of map_find
found-passes test k vs [] h f = ground arith
found-passes test k vs (e ∷ m) h f = elim (Bool-cases (text_eq e.0 k)) [
  | inl a ↦ go a
  | inr a ↦ found-passes test k vs m (ground arith) (ground arith)
]
  where
    same : text_eq e.0 k ≡ true → e.1 ≡ vs
    same a = ground arith

    go : text_eq e.0 k ≡ true → test (k, vs) ≡ false
    go a =
        ap (λ x. test (x, vs)) (sym ((text_eq_iff e.0 k).0 a))
        ∙ (ap (λ x. test (e.0, x)) (sym (same a)) ∙ ground arith)

-- The only value of a group.
pub only_value :
    (v : Text) (vs : List Text) → set_has v vs ≡ true → not (length vs == 1) ≡ false → vs ≡ v ∷ []
unfolding set_has
only_value v [] h n = ground arith
only_value v (x ∷ []) h n = ap (λ y. y ∷ []) ((text_eq_iff x v).0 (ground arith))
only_value v (x ∷ y ∷ vs) h n = ground arith

-- Looking up a group that holds a value.
abbrev pub values_in : Option (List Text) → List Text
values_in none = []
values_in (some vs) = vs

pub found-holds :
    (k v : Text) (m : TextMap (List Text)) (o : Option (List Text))
    → map_find k m ≡ o
    → holds_value k v m ≡ true
    → set_has v (values_in o) ≡ true
unfolding map_get set_has
found-holds k v m o f h = ground arith
