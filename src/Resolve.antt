-- ===== src/Resolve.antt =====
-- core/resolved_inventory.cpp: which stable identity the evidence of a block device supports, and
-- where a drive is found.
pub mod Paths
pub mod Hex
pub mod Collide
pub mod Fingerprint
pub mod Identify
use drive_lab.Prelude.{
  ℕ, zero, suc, ◌+◌, ◌-◌, ◌%◌, Bool, true, false, not, ◌&&◌, ◌||◌, Option, none, some, List, [],
  ◌∷◌, ◌++◌, ◌==◌, ltb, leb, Text, bytes, text_eq, to_text, length, any_of, is_empty, if◌then◌else◌,
}
use drive_lab.Result.{Result, ok, err, Error, invalid_identity, not_found}
use drive_lab.Drive.{DriveId, id_eq}
use drive_lab.Inventory.{
  BlockDeviceObservation, BlockInventoryIssue, BlockInventoryIssueCode, BlockNodeType,
  BlockObservationKind, DiscoveryIssue, DiscoveryIssueCode, ResolvedBlockNode, ResolvedIdentity,
  ResolvedInventorySnapshot, ResolutionState, IdentityScope,
}
use drive_lab.Ownership.Mounts.{starts_with}

-- The characters at the positions that are marked must be this one, and are left out.
unfoldable pub drop_marks : (ℕ → Bool) → ℕ → ℕ → Text → Option Text
drop_marks marked mark i [] = some []
drop_marks marked mark i (c ∷ cs) =
    let rest = drop_marks marked mark (suc i) cs in
    if marked i
    then (if c == mark then rest else none)
    else elim rest [ none ↦ none | some t ↦ some (c ∷ t) ]

abbrev pub lower_hex : ℕ → ℕ
lower_hex c = if leb b'A' c && leb c b'F' then c - b'A' + b'a' else c

abbrev pub is_lower_hex : ℕ → Bool
is_lower_hex c = (leb b'0' c && leb c b'9') || (leb b'a' c && leb c b'f')

unfoldable pub to_hex : Text → Option Text
to_hex [] = some []
to_hex (c ∷ cs) =
    let rest = to_hex cs in
    if is_lower_hex (lower_hex c)
    then elim rest [ none ↦ none | some t ↦ some (lower_hex c ∷ t) ]
    else none

-- `find_first_not_of(c) == npos`.
unfoldable pub only : ℕ → Text → Bool
only c [] = true
only c (d ∷ t) = (d == c) && only c t

-- `value.erase(0, n)` and `value.substr(n)`.
unfoldable pub drop : ℕ → Text → Text
drop zero t = t
drop (suc n) [] = []
drop (suc n) (c ∷ t) = drop n t

abbrev spaced : ℕ → Bool
spaced i = i % 3 == 2

abbrev dashed : ℕ → Bool
dashed i = (i == 8) || (i == 13) || (i == 18) || (i == 23)

abbrev pub without_0x : Text → Text
without_0x value =
    if starts_with (bytes "0x") value || starts_with (bytes "0X") value then drop 2 value else value

unfoldable pub compact : Text → ℕ → Bool → Option Text
compact value digits formatted =
    if formatted && (digits == 16) && (length value == 23)
    then drop_marks spaced b' ' 0 value
    else if formatted && (digits == 32) && (length value == 36)
    then drop_marks dashed b'-' 0 value
    else some value

unfoldable pub checked_hex : ℕ → Text → Option Text
checked_hex digits t = if not (length t == digits) then none else elim (to_hex t) [
  | none ↦ none
  | some hex ↦ if only b'0' hex || only b'f' hex then none else some hex
]

unfoldable pub hex_identifier : Text → ℕ → Bool → Option Text
hex_identifier value digits formatted = elim (compact (without_0x value) digits formatted) [
  | none ↦ none
  | some t ↦ checked_hex digits t
]

abbrev lower_ascii : ℕ → ℕ
lower_ascii c = if leb b'A' c && leb c b'Z' then c - b'A' + b'a' else c

unfoldable pub lowered : Text → Text
lowered [] = []
lowered (c ∷ t) = lower_ascii c ∷ lowered t

abbrev placeholders : List Text
placeholders =
    bytes "unknown"
    ∷ bytes "none"
    ∷ bytes "null"
    ∷ bytes "n/a"
    ∷ bytes "na"
    ∷ bytes "not specified"
    ∷ bytes "default"
    ∷ bytes "default string"
    ∷ bytes "to be filled by o.e.m."
    ∷ bytes "123456789"
    ∷ bytes "0123456789"
    ∷ bytes "serial"
    ∷ bytes "serialnumber"
    ∷ []

-- `text->back() == c`.
unfoldable pub ends_in : ℕ → Text → Bool
ends_in c [] = false
ends_in c (d ∷ t) = let rest = ends_in c t in if is_empty t then d == c else rest

abbrev pub starts_in : ℕ → Text → Bool
starts_in c [] = false
starts_in c (d ∷ t) = d == c

unfoldable pub trustworthy_text : Option Text → Bool
trustworthy_text none = false
trustworthy_text (some t) =
    not (is_empty t)
    && not (starts_in b' ' t)
    && not (ends_in b' ' t)
    && not (any_of (λ c. ltb c 32 || leb 127 c) t)
    && not (any_of (text_eq (lowered t)) placeholders)
    && not (only b'0' (lowered t))
    && not (only b'f' (lowered t))

-- A length prefix keeps the parts of a fingerprint apart.
unfoldable pub component : Text → Text
component value = to_text (length value) ++ (bytes ":" ++ value)

-- `fallback_fingerprint`.
unfoldable pub fingerprint : Text → Text → ℕ → Text
fingerprint serial model capacity =
    bytes "prod:serial:"
    ++ (component serial ++ (component model ++ (bytes ":" ++ to_text capacity)))

unfoldable pub contains : Text → Text → Bool
contains p [] = is_empty p
contains p (c ∷ t) = starts_with p (c ∷ t) || contains p t

abbrev path_ok : Text → Bool
path_ok p =
    starts_with (bytes "/dev/") p
    && not (leb (length p) 5)
    && not (ends_in b'/' p)
    && not (contains (bytes "//") p)
    && not (contains (bytes "/../") (p ++ bytes "/"))
    && not (contains (bytes "/./") (p ++ bytes "/"))
    && not (any_of (λ c. ltb c 32 || (c == 127)) p)

unfoldable pub valid_path : Option Text → Bool
valid_path none = false
valid_path (some p) = path_ok p

abbrev pub has_id : DriveId → ResolvedBlockNode → Bool
has_id expected n = elim n.identity.id [ none ↦ false | some d ↦ id_eq d expected ]

abbrev pub is_resolved : ResolutionState → Bool
is_resolved ResolutionState.resolved = true
is_resolved _ = false

abbrev resolver_error : Text → Error
resolver_error message = record {
  code = invalid_identity;
  component = bytes "IdentityResolver";
  message = message;
}

abbrev no_path : Error
no_path = record {
  code = not_found;
  component = bytes "IdentityResolver";
  message = bytes "No uniquely resolved current path for this identity in this snapshot";
}

abbrev pub path_or_error : Option Text → Result Text
path_or_error none = err no_path
path_or_error (some p) = ok p

-- The loop of `resolveCurrentPath`, with the node found so far.
unfoldable pub look_for :
    DriveId → Option ResolvedBlockNode → List ResolvedBlockNode → Result (Option ResolvedBlockNode)
look_for expected found [] = ok found
look_for expected found (n ∷ ns) = elim (has_id expected n) [
  | false ↦ look_for expected found ns
  | true ↦ elim found [
    | some m ↦ err (resolver_error (bytes "Identity is ambiguous in the current snapshot"))
    | none ↦ elim (is_resolved n.identity.state) [
      | false ↦ err (resolver_error (bytes "Identity is ambiguous in the current snapshot"))
      | true ↦ look_for expected (some n) ns
    ]
  ]
]

unfoldable pub resolve_current_path : ResolvedInventorySnapshot → DriveId → Result Text
resolve_current_path snapshot expected = elim (look_for expected none snapshot.nodes) [
  | err e ↦ err e
  | ok found ↦ elim found [ none ↦ err no_path | some n ↦ path_or_error n.current_path ]
]
