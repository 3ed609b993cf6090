-- ===== src/Jobs/Locks.antt =====
-- `active_locks_` seen as a map from drives to the jobs that hold them.
use drive_lab.Prelude.{
  ℕ, suc, ◌≡◌, refl, none, some, List, [], ◌∷◌, length, if◌then◌else◌, arith, ap, inl, inr,
  Bool-cases,
}
use drive_lab.Drive.{DriveId, id_eq}
use drive_lab.Drive.Identity.{id_eq_iff}
use drive_lab.Jobs.{Lock, lock_owner, set_lock, erase_lock}

-- No drive has two locks.
abbrev pub KeysDistinct : List Lock → Type 0
KeysDistinct [] = Unit
KeysDistinct (l ∷ ls) = (lock_owner l.key ls ≡ none) × KeysDistinct ls

pub lock_owner-set :
    (d e : DriveId) (id : ℕ) (ls : List Lock)
    → lock_owner e (set_lock d id ls) ≡ (if id_eq d e then some id else lock_owner e ls)
unfolding lock_owner set_lock
lock_owner-set d e id [] = refl
lock_owner-set d e id (l ∷ ls) =
    ground (arith, id_eq_iff d e, id_eq_iff l.key d, id_eq_iff l.key e, lock_owner-set d e id ls)

pub lock_owner-erase :
    (d e : DriveId) (ls : List Lock)
    → KeysDistinct ls
    → lock_owner e (erase_lock d ls) ≡ (if id_eq d e then none else lock_owner e ls)
unfolding lock_owner erase_lock
lock_owner-erase d e [] k = ground arith
lock_owner-erase d e (l ∷ ls) k =
    ground (arith, id_eq_iff d e, id_eq_iff l.key d, id_eq_iff l.key e, lock_owner-erase d e ls)

pub length-set_lock :
    (d : DriveId) (id : ℕ) (ls : List Lock)
    → lock_owner d ls ≡ none
    → length (set_lock d id ls) ≡ suc (length ls)
unfolding lock_owner set_lock
length-set_lock d id [] h = refl
length-set_lock d id (l ∷ ls) h = ground (arith, length-set_lock d id ls)

pub length-erase_lock :
    (d : DriveId) (ls : List Lock) (id : ℕ)
    → lock_owner d ls ≡ some id
    → suc (length (erase_lock d ls)) ≡ length ls
unfolding lock_owner erase_lock
length-erase_lock d [] id h = ground arith
length-erase_lock d (l ∷ ls) id h = ground (arith, length-erase_lock d ls id)

pub KeysDistinct-set :
    (d : DriveId) (id : ℕ) (ls : List Lock) → KeysDistinct ls → KeysDistinct (set_lock d id ls)
unfolding set_lock
KeysDistinct-set d id [] k = (unfold lock_owner in refl, tt)
KeysDistinct-set d id (l ∷ ls) k = elim (Bool-cases (id_eq l.key d)) [
  | inl hit ↦ rw hit (ground (arith, id_eq_iff l.key d, ap (λ e. lock_owner e ls)), k.1)
  | inr miss ↦ rw miss (
    ground (arith, lock_owner-set d l.key id ls, id_eq_iff d l.key, id_eq_iff l.key d),
    KeysDistinct-set d id ls k.1,
  )
]

pub KeysDistinct-erase :
    (d : DriveId) (ls : List Lock) → KeysDistinct ls → KeysDistinct (erase_lock d ls)
unfolding erase_lock
KeysDistinct-erase d [] k = tt
KeysDistinct-erase d (l ∷ ls) k = ground (
  arith,
  KeysDistinct-erase d ls,
  lock_owner-erase d l.key ls,
  id_eq_iff d l.key,
  id_eq_iff l.key d,
)
