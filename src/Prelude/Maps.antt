-- ===== src/Prelude/Maps.antt =====
-- `std::map` and `std::set` keyed by `std::string`, as lists in key order, and sorting by `std::tie`.
use mathlib.Core.Path.{◌≡◌, refl}
use mathlib.Core.Bool.{Bool, true, false, ◌||◌}
use mathlib.Core.List.{List, [], ◌∷◌}
use mathlib.Core.Option.{Option, none, some}
use native.Mathlib.Omega.{arith}
use mathlib.Core.Logic.{inl, inr}
use drive_lab.Prelude.Lists.{All}
use drive_lab.Prelude.Tests.{if◌then◌else◌, ltb, ◌==◌, Bool-cases}
use drive_lab.Prelude.Texts.{Text, text_eq, text_eq_iff}

-- `operator<` of `std::string`: bytes are compared as unsigned.
unfoldable pub text_less : Text → Text → Bool
text_less [] [] = false
text_less [] (b ∷ t) = true
text_less (a ∷ s) [] = false
text_less (a ∷ s) (b ∷ t) = if ltb a b then true else if a == b then text_less s t else false

-- One component of a `std::tie`: a text, a number, an optional or a list of texts.
abbrev pub TieKey : Type 0
TieKey = List (List Text)

unfoldable pub texts_eq : List Text → List Text → Bool
texts_eq [] [] = true
texts_eq [] (b ∷ t) = false
texts_eq (a ∷ s) [] = false
texts_eq (a ∷ s) (b ∷ t) = if text_eq a b then texts_eq s t else false

unfoldable pub texts_less : List Text → List Text → Bool
texts_less [] [] = false
texts_less [] (b ∷ t) = true
texts_less (a ∷ s) [] = false
texts_less (a ∷ s) (b ∷ t) =
    if text_less a b then true else if text_eq a b then texts_less s t else false

unfoldable pub tie_eq : TieKey → TieKey → Bool
tie_eq [] [] = true
tie_eq [] (b ∷ t) = false
tie_eq (a ∷ s) [] = false
tie_eq (a ∷ s) (b ∷ t) = if texts_eq a b then tie_eq s t else false

unfoldable pub tie_less : TieKey → TieKey → Bool
tie_less [] [] = false
tie_less [] (b ∷ t) = true
tie_less (a ∷ s) [] = false
tie_less (a ∷ s) (b ∷ t) =
    if texts_less a b then true else if texts_eq a b then tie_less s t else false

module _ {ℓ} {A : Type ℓ} (key : A → TieKey) where
  insert_by : A → List A → List A
  insert_by x [] = x ∷ []
  insert_by x (y ∷ ys) =
      let rest = insert_by x ys in if tie_less (key x) (key y) then x ∷ y ∷ ys else y ∷ rest

  -- `std::sort`; elements with equal keys are equal wherever this is used.
  unfoldable pub sort_by : List A → List A
  unfolding insert_by
  sort_by [] = []
  sort_by (x ∷ xs) = insert_by x (sort_by xs)

  keep_new : A → List A → List A
  keep_new x [] = x ∷ []
  keep_new x (y ∷ ys) = if tie_eq (key x) (key y) then y ∷ ys else x ∷ y ∷ ys

  -- `std::unique`: of equal neighbours one stays.
  unfoldable pub unique_by : List A → List A
  unfolding keep_new
  unique_by [] = []
  unique_by (x ∷ xs) = keep_new x (unique_by xs)

-- `std::set<std::string>`.
unfoldable pub set_has : Text → List Text → Bool
set_has k [] = false
set_has k (x ∷ xs) = text_eq x k || set_has k xs

unfoldable pub set_insert : Text → List Text → List Text
set_insert k [] = k ∷ []
set_insert k (x ∷ xs) =
    let rest = set_insert k xs in
    if text_eq x k then x ∷ xs else if text_less k x then k ∷ x ∷ xs else x ∷ rest

unfoldable pub set_erase : Text → List Text → List Text
set_erase k [] = []
set_erase k (x ∷ xs) = let rest = set_erase k xs in if text_eq x k then xs else x ∷ rest

pub set_has-insert :
    (k j : Text) (s : List Text) → set_has k (set_insert j s) ≡ text_eq j k || set_has k s
unfolding set_has set_insert
set_has-insert k j [] = refl
set_has-insert k j (x ∷ s) =
    ground (arith, set_has-insert k j s, text_eq_iff x j, text_eq_iff x k, text_eq_iff j k)

-- `std::map<std::string, A>`.
abbrev pub TextMap {ℓ} : Type ℓ → Type ℓ
TextMap A = List (Text × A)

module _ {ℓ} {A : Type ℓ} where
  unfoldable pub map_find : Text → TextMap A → Option A
  map_find k [] = none
  map_find k (e ∷ m) = if text_eq e.0 k then some e.1 else map_find k m

  unfoldable pub map_has : Text → TextMap A → Bool
  map_has k m = elim (map_find k m) [ none ↦ false | some a ↦ true ]

  -- `operator[]` and an assignment.
  unfoldable pub map_set : Text → A → TextMap A → TextMap A
  map_set k a [] = (k, a) ∷ []
  map_set k a (e ∷ m) =
      let rest = map_set k a m in
      if text_eq e.0 k then (k, a) ∷ m else if text_less k e.0 then (k, a) ∷ e ∷ m else e ∷ rest

  -- `operator[]` read, where a missing key stands for the default.
  unfoldable pub map_get : A → Text → TextMap A → A
  map_get d k m = elim (map_find k m) [ none ↦ d | some a ↦ a ]

module _ {ℓ κ} {A : Type ℓ} (P : A → Type κ) (key : A → TieKey) where
  All-insert_by : (x : A) (xs : List A) → P x → All P xs → All P (insert_by key x xs)
  unfolding insert_by
  All-insert_by x [] p h = (p, h)
  All-insert_by x (y ∷ ys) p h = elim (Bool-cases (tie_less (key x) (key y))) [
    | inl a ↦ rw a (p, h)
    | inr a ↦ rw a (h.0, All-insert_by x ys p h.1)
  ]

  pub All-sort_by : (xs : List A) → All P xs → All P (sort_by key xs)
  unfolding sort_by
  All-sort_by [] h = h
  All-sort_by (x ∷ xs) h = All-insert_by x (sort_by key xs) h.0 (All-sort_by xs h.1)
