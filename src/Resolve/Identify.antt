-- ===== src/Resolve/Identify.antt =====
-- `identify` of core/resolved_inventory.cpp: the stable identity that one observation supports.
pub mod Sound
use drive_lab.Prelude.{
  ℕ, Bool, true, false, not, ◌&&◌, ◌||◌, Option, none, some, List, [], ◌∷◌, ◌++◌, ◌==◌, ltb, Text,
  bytes, text_eq, length, any_of, if◌then◌else◌,
}
use drive_lab.Drive.{DriveId}
use drive_lab.Inventory.{
  BlockDeviceObservation, BlockInventoryIssue, BlockInventoryIssueCode, BlockNodeType,
  BlockObservationKind, DiscoveryIssue, DiscoveryIssueCode, ResolvedIdentity, ResolutionState,
  IdentityScope,
}
use drive_lab.Ownership.Mounts.{starts_with}
use drive_lab.Resolve.{hex_identifier, trustworthy_text, fingerprint, drop, starts_in}

-- What `identify` writes: the node's issues and aliases, and its local `blocked`.
pub record Evidence : Type 0 where
  pub issues : List DiscoveryIssue
  pub strong_aliases : List Text
  pub blocked : Bool

abbrev pub node_issue : Text → DiscoveryIssueCode → Text → Text → DiscoveryIssue
node_issue name code field message = record {
  code = code;
  node = name;
  field = field;
  message = message;
  native_error = none;
  mount_id = none;
}

abbrev block_by : DiscoveryIssue → Evidence → Evidence
block_by i e = record e { issues = e.issues ++ (i ∷ []); blocked = true }

abbrev pub identity_fields : List Text
identity_fields =
    bytes "wwn"
    ∷ bytes "nvme_eui"
    ∷ bytes "nvme_nguid"
    ∷ bytes "serial"
    ∷ bytes "model"
    ∷ bytes "capacity_bytes"
    ∷ bytes "capacity_sectors_512"
    ∷ bytes "node_type"
    ∷ []

abbrev pub is_disappeared : BlockInventoryIssueCode → Bool
is_disappeared BlockInventoryIssueCode.device_disappeared = true
is_disappeared _ = false

unfoldable pub note_problems : Text → List BlockInventoryIssue → Evidence → Evidence
note_problems name [] e = e
note_problems name (p ∷ ps) e = note_problems name ps (
    if any_of (text_eq p.field) identity_fields || is_disappeared p.code
    then block_by
        (node_issue name DiscoveryIssueCode.conflict (bytes "identity") (
          bytes
            "Raw identity evidence is incomplete, conflicting, or unreadable; see inventory issues"))
        e
    else e)

abbrev has {ℓ} : {A : Type ℓ} → Option A → Bool
has none = false
has (some a) = true

abbrev is_text : Text → Option Text → Bool
is_text s none = false
is_text s (some t) = text_eq t s

abbrev namespace_wwn : Option Text → Bool
namespace_wwn none = false
namespace_wwn (some w) =
    starts_with (bytes "eui.") w || starts_with (bytes "nvme.") w || starts_with (bytes "uuid.") w

unfoldable pub is_nvme : BlockDeviceObservation → Bool
is_nvme raw =
    has raw.nvme_eui
    || has raw.nvme_nguid
    || is_text (bytes "nvme") raw.transport
    || namespace_wwn raw.wwn

-- The lambda `parse`: an alias, or an issue.
unfoldable pub parse_hex : Text → Option Text → ℕ → Text → Text → Evidence → Evidence × Option Text
parse_hex name none size field prefix e = (e, none)
parse_hex name (some t) size field prefix e = elim (hex_identifier t size true) [
  | none ↦ (
    block_by
        (node_issue name DiscoveryIssueCode.malformed_evidence field
          (bytes "Unsupported identifier spelling, length, or sentinel value"))
        e,
    none,
  )
  | some v ↦
      (record e { strong_aliases = e.strong_aliases ++ ((prefix ++ v) ∷ []) }, some (prefix ++ v))
]

-- What a namespace's `eui.` name claims to be.
unfoldable pub eui_alias : Text → Option Text
eui_alias t =
    if not (starts_with (bytes "eui.") t) then none else elim (hex_identifier (drop 4 t) 16 false) [
      | some h ↦ some (bytes "prod:nvme-eui:" ++ h)
      | none ↦ elim (hex_identifier (drop 4 t) 32 false) [
        | some h ↦ some (bytes "prod:nvme-nguid:" ++ h)
        | none ↦ none
      ]
    ]

abbrev corroborated : Option Text → Option Text → Option Text → Bool
corroborated none nguid eui = false
corroborated (some a) nguid eui = is_text a nguid || is_text a eui

unfoldable pub check_namespace_wwn :
    Text → Text → Option Text → Option Text → Evidence → Evidence × Option Text
check_namespace_wwn name w nguid eui e =
    if corroborated (eui_alias w) nguid eui then (e, none) else (
      block_by
          (node_issue name DiscoveryIssueCode.conflict (bytes "wwn")
            (bytes "Namespace WWID is unsupported or disagrees with typed EUI/NGUID evidence"))
          e,
      none,
    )

abbrev without_naa : Text → Text
without_naa t = if starts_with (bytes "naa.") t then drop 4 t else t

unfoldable pub wwn_hex : Text → Option Text
wwn_hex t = elim (hex_identifier t 16 false) [
  | some h ↦ some h
  | none ↦ if (length t == 32) && starts_in b'6' t then hex_identifier t 32 false else none
]

unfoldable pub check_wwn : Text → Text → Evidence → Evidence × Option Text
check_wwn name w e = elim (wwn_hex (without_naa w)) [
  | none ↦ (
    block_by
        (node_issue name DiscoveryIssueCode.malformed_evidence (bytes "wwn")
          (bytes "WWN must be non-sentinel 64-bit hex or a 128-bit NAA-6 value"))
        e,
    none,
  )
  | some h ↦ (
    record e { strong_aliases = e.strong_aliases ++ ((bytes "prod:wwn:" ++ h) ∷ []) },
    some (bytes "prod:wwn:" ++ h),
  )
]

unfoldable pub check_any_wwn :
    BlockDeviceObservation → Option Text → Option Text → Evidence → Evidence × Option Text
check_any_wwn raw nguid eui e = elim raw.wwn [
  | none ↦ (e, none)
  | some w ↦
      if is_nvme raw
      then check_namespace_wwn raw.kernel_name w nguid eui e
      else check_wwn raw.kernel_name w e
]

abbrev pub or_else : Option Text → Option Text → Option Text
or_else none b = b
or_else (some a) b = some a

abbrev pub text_or_empty : Option Text → Text
text_or_empty none = []
text_or_empty (some t) = t

abbrev positive : Option ℕ → Bool
positive none = false
positive (some n) = ltb 0 n

abbrev number_or_zero : Option ℕ → ℕ
number_or_zero none = 0
number_or_zero (some n) = n

abbrev fallback_transport : Option Text → Bool
fallback_transport t =
    is_text (bytes "ata") t || is_text (bytes "scsi") t || is_text (bytes "sas") t

unfoldable pub fallback : BlockDeviceObservation → Bool → Option Text
fallback raw blocked =
    if not (is_nvme raw)
      && not blocked
      && fallback_transport raw.transport
      && trustworthy_text raw.serial
      && trustworthy_text raw.model
      && positive raw.capacity_bytes
    then some (
        fingerprint (text_or_empty raw.serial) (text_or_empty raw.model)
          (number_or_zero raw.capacity_bytes))
    else none

abbrev scope_of : Bool → IdentityScope
scope_of true = IdentityScope.nvme_namespace
scope_of false = IdentityScope.whole_device

abbrev pub drive_of : Text → DriveId
drive_of t = record { value = t }

-- The end of `identify`: the identity is resolved if one was selected and nothing blocks it.
unfoldable pub conclude :
    BlockDeviceObservation
    → Option Text
    → Option Text
    → Evidence
    → List DiscoveryIssue × ResolvedIdentity
conclude raw selected fingerprint e = elim selected [
  | none ↦ (
    e.issues
        ++ (node_issue raw.kernel_name DiscoveryIssueCode.missing_evidence (bytes "identity")
              (bytes "Insufficient trustworthy stable identity evidence; no path-derived fallback")
            ∷ []),
    record {
      state = ResolutionState.unresolved;
      scope = scope_of (is_nvme raw);
      id = none;
      strong_aliases = e.strong_aliases;
      fallback_fingerprint = fingerprint;
    },
  )
  | some t ↦ (
    e.issues,
    record {
      state = if e.blocked then ResolutionState.unresolved else ResolutionState.resolved;
      scope = scope_of (is_nvme raw);
      id = if e.blocked then none else some (drive_of t);
      strong_aliases = e.strong_aliases;
      fallback_fingerprint = fingerprint;
    },
  )
]

abbrev pub is_candidate : BlockNodeType → BlockObservationKind → Bool
is_candidate BlockNodeType.disk BlockObservationKind.unknown = true
is_candidate _ _ = false

abbrev no_identity : ResolvedIdentity
no_identity = record {
  state = ResolutionState.unresolved;
  scope = IdentityScope.whole_device;
  id = none;
  strong_aliases = [];
  fallback_fingerprint = none;
}

-- The rest of `identify`, for a candidate.
unfoldable pub identify_disk : BlockDeviceObservation → List DiscoveryIssue × ResolvedIdentity
identify_disk raw =
    let start : Evidence =
      note_problems raw.kernel_name raw.issues
        (record { issues = []; strong_aliases = []; blocked = false }) in
    let (e1, nguid) =
      parse_hex raw.kernel_name raw.nvme_nguid 32 (bytes "nvme_nguid") (bytes "prod:nvme-nguid:")
        start in
    let (e2, eui) =
      parse_hex raw.kernel_name raw.nvme_eui 16 (bytes "nvme_eui") (bytes "prod:nvme-eui:") e1 in
    let (e3, wwn) = check_any_wwn raw nguid eui e2 in
    let print : Option Text = fallback raw e3.blocked in
    conclude raw (or_else (if is_nvme raw then or_else nguid eui else wwn) print) print e3

unfoldable pub identify : BlockDeviceObservation → List DiscoveryIssue × ResolvedIdentity
identify raw =
    if not (is_candidate raw.node_type raw.observation_kind)
    then (
      node_issue raw.kernel_name DiscoveryIssueCode.unsupported_topology (bytes "identity") (
            bytes
              "Only whole hardware-addressed nodes are identity candidates; no virtual ownership traversal")
          ∷ [],
      no_identity,
    )
    else identify_disk raw
