-- ===== src/Drive.antt =====
-- core/drive.h and core/drive.cpp: what identifies a physical drive, and when two observations
-- are of the same one.
pub mod Canonical
pub mod Identity
use drive_lab.Prelude.{
  ℕ, ◌+◌, ◌≡◌, Bool, true, false, not, ◌&&◌, ◌||◌, List, [], ◌∷◌, ◌++◌, map, Text, bytes, text_eq,
  to_text, is_space, to_lower, is_empty, ◌==◌, if◌then◌else◌,
}
use drive_lab.Result.{Result, ok, err, Error, invalid_identity, ◌>>=◌}

-- `struct DriveId`; its `operator==` is defaulted.
pub record DriveId : Type 0 where
  pub value : Text

unfoldable pub id_eq : DriveId → DriveId → Bool
id_eq a b = text_eq a.value b.value

pub data MediaKind : Type 0 where
  unknown hdd ssd nvme : MediaKind

pub data DriveStatus : Type 0 where
  ready busy protected degraded failing offline unknown : DriveStatus

pub record DriveIdentity : Type 0 where
  pub serial : Text
  pub wwn : Text
  pub model : Text
  pub topology : Text
  pub capacity_bytes : ℕ  -- uint64_t

pub record Drive : Type 0 where
  pub identity : DriveIdentity
  pub current_path : Text
  pub media : MediaKind
  pub status : DriveStatus
  pub protection_reasons : List Text

trim_start : Text → Text
trim_start [] = []
trim_start (c ∷ cs) = if is_space c then trim_start cs else c ∷ cs

trim_end : Text → Text
trim_end [] = []
trim_end (c ∷ cs) = let rest = trim_end cs in if is_empty rest && is_space c then [] else c ∷ rest

unfoldable pub canonical : Text → Text
unfolding trim_start trim_end
canonical value = map to_lower (trim_end (trim_start value))

abbrev pub missing_identity : Error
missing_identity = record {
  code = invalid_identity;
  component = bytes "DriveIdentity";
  message = bytes "A stable drive identity requires WWN or serial plus model and capacity";
}

-- The two keys that `driveId` builds.
unfoldable pub wwn_key : Text → Text
wwn_key wwn = bytes "wwn:" ++ wwn

unfoldable pub serial_key : Text → Text → ℕ → Text
serial_key serial model capacity =
    bytes "serial:"
    ++ (serial ++ (bytes "|model:" ++ (model ++ (bytes "|bytes:" ++ to_text capacity))))

serial_id : DriveIdentity → Result DriveId
serial_id i =
    if is_empty (canonical i.serial) || is_empty (canonical i.model) || (i.capacity_bytes == 0)
    then err missing_identity
    else ok
        (record { value = serial_key (canonical i.serial) (canonical i.model) i.capacity_bytes })

unfoldable pub drive_id : DriveIdentity → Result DriveId
unfolding serial_id
drive_id i =
    if not (is_empty (canonical i.wwn))
    then ok (record { value = wwn_key (canonical i.wwn) })
    else serial_id i

unfoldable pub lock_key : DriveIdentity → Result Text
lock_key i = do id ← drive_id i; ok id.value

unfoldable pub differs_when_known : Text → Text → Bool
differs_when_known first second =
    not (is_empty (canonical first))
    && not (is_empty (canonical second))
    && not (text_eq (canonical first) (canonical second))

same_ids : Result DriveId → Result DriveId → Bool
same_ids (ok a) (ok b) = id_eq a b
same_ids (ok a) (err e) = false
same_ids (err e) r = false

unfoldable pub same_physical_device : DriveIdentity → DriveIdentity → Bool
unfolding same_ids
same_physical_device a b =
    if not (same_ids (drive_id a) (drive_id b))
    then false
    else if differs_when_known a.serial b.serial || differs_when_known a.model b.model
    then false
    else (a.capacity_bytes == 0)
      || (b.capacity_bytes == 0)
      || (a.capacity_bytes == b.capacity_bytes)

abbrev pub is_protected_status : DriveStatus → Bool
is_protected_status protected = true
is_protected_status _ = false

unfoldable pub is_protected : Drive → Bool
is_protected d = is_protected_status d.status || not (is_empty d.protection_reasons)

unfoldable pub media_kind_name : MediaKind → Text
media_kind_name unknown = bytes "UNKNOWN"
media_kind_name hdd = bytes "HDD"
media_kind_name ssd = bytes "SSD"
media_kind_name nvme = bytes "NVMe"

unfoldable pub drive_status_name : DriveStatus → Text
drive_status_name ready = bytes "READY"
drive_status_name busy = bytes "BUSY"
drive_status_name protected = bytes "PROTECTED"
drive_status_name degraded = bytes "DEGRADED"
drive_status_name failing = bytes "FAILING"
drive_status_name offline = bytes "OFFLINE"
drive_status_name unknown = bytes "UNKNOWN"
