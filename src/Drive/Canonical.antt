-- ===== src/Drive/Canonical.antt =====
-- `canonical` of core/drive.cpp: trimmed of white space, and in lower case.
use drive_lab.Prelude.{
  ℕ, ◌≡◌, refl, [], ◌∷◌, map, Text, is_space, to_lower, is_empty, arith, Bool-cases, inl, inr,
}
use drive_lab.Drive.{canonical, trim_start, trim_end}

to_lower_idem : (c : ℕ) → to_lower (to_lower c) ≡ to_lower c
unfolding to_lower
to_lower_idem c = ground arith

is_space-to_lower : (c : ℕ) → is_space (to_lower c) ≡ is_space c
unfolding is_space to_lower
is_space-to_lower c = ground arith

map-to_lower_idem : (s : Text) → map to_lower (map to_lower s) ≡ map to_lower s
map-to_lower_idem [] = refl
map-to_lower_idem (c ∷ s) = cc (to_lower_idem c, map-to_lower_idem s)

is_empty-map : (s : Text) → is_empty (map to_lower s) ≡ is_empty s
is_empty-map [] = refl
is_empty-map (c ∷ s) = refl

trim_start-map : (s : Text) → trim_start (map to_lower s) ≡ map to_lower (trim_start s)
unfolding trim_start
trim_start-map [] = refl
trim_start-map (c ∷ s) = ground (arith, is_space-to_lower c, trim_start-map s)

trim_end-map : (s : Text) → trim_end (map to_lower s) ≡ map to_lower (trim_end s)
unfolding trim_end
trim_end-map [] = refl
trim_end-map (c ∷ s) =
    ground (arith, is_space-to_lower c, trim_end-map s, is_empty-map (trim_end s))

trim_end_idem : (s : Text) → trim_end (trim_end s) ≡ trim_end s
unfolding trim_end
trim_end_idem [] = refl
trim_end_idem (c ∷ s) = ground (arith, trim_end_idem s)

-- A text that does not begin with a space keeps its first byte.
trim_start-trim_end : (s : Text) → trim_start (trim_end (trim_start s)) ≡ trim_end (trim_start s)
unfolding trim_start
trim_start-trim_end [] = unfold trim_end in refl
trim_start-trim_end (c ∷ s) = elim (Bool-cases (is_space c)) [
  | inl e ↦ rw e (trim_start-trim_end s)
  | inr e ↦ rw e (unfold trim_end trim_start in ground arith)
]

-- Canonicalising twice is canonicalising once.
pub canonical_idem : (s : Text) → canonical (canonical s) ≡ canonical s
unfolding canonical
canonical_idem s =
    rw
      (
        trim_start-map (trim_end (trim_start s)),
        trim_start-trim_end s,
        trim_end-map (trim_end (trim_start s)),
        trim_end_idem (trim_start s),
      )
      (map-to_lower_idem _)
